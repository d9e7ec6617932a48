-- ===== src/Macro/Kinds.antt =====
-- Which types are resources, of crates/macro/src/externref.rs, and the conversions that are generated for
-- them.
use externref.Prelude.{
  Bool, true, false, ◌&&◌, Option, none, some, if◌then◌else◌, Str, text, str_eq,
}
use externref.Macro.Syntax.{
  Ty, path, reference, Segments, PathArguments, angle_bracketed, no_more, type_argument,
  other_argument, last_segment,
}

pub data SimpleResourceKind : Type 0 where
  owned by_ref by_mut_ref : SimpleResourceKind

pub data ResourceKind : Type 0 where
  simple : SimpleResourceKind → ResourceKind
  option : SimpleResourceKind → ResourceKind

-- `args.args.len() == 1`
unfoldable pub is_single : PathArguments → Bool
is_single (angle_bracketed (type_argument t no_more)) = true
is_single (angle_bracketed (other_argument k no_more)) = true
is_single _ = false

abbrev is_resource_segment : Option (Str × PathArguments) → Bool
is_resource_segment none = false
is_resource_segment (some (i, args)) = str_eq i (text "Resource") && is_single args

-- `SimpleResourceKind::is_resource`
unfoldable pub is_resource : Segments → Bool
unfolding last_segment is_single
is_resource s = is_resource_segment (last_segment s)

-- `SimpleResourceKind::from_type`
unfoldable pub from_simple_type : Ty → Option SimpleResourceKind
unfolding is_resource
from_simple_type (path s) = if is_resource s then some owned else none
from_simple_type (reference mutability (path s)) =
    if is_resource s then some (if mutability then by_mut_ref else by_ref) else none
from_simple_type _ = none

unfoldable pub single_type : PathArguments → Option Ty
single_type (angle_bracketed (type_argument t no_more)) = some t
single_type _ = none

abbrev option_segment : Option (Str × PathArguments) → Option Ty
option_segment none = none
option_segment (some (i, args)) = if str_eq i (text "Option") then single_type args else none

-- `ResourceKind::parse_option`
unfoldable pub parse_option : Segments → Option Ty
unfolding last_segment single_type
parse_option s = option_segment (last_segment s)

abbrev as_option : Option SimpleResourceKind → Option ResourceKind
as_option none = none
as_option (some k) = some (option k)

abbrev option_kind : Ty → Option ResourceKind
option_kind (path s) = elim (parse_option s) [
  | none ↦ none
  | some t ↦ as_option (from_simple_type t)
]
option_kind _ = none

-- `ResourceKind::from_type`
unfoldable pub from_type : Ty → Option ResourceKind
unfolding from_simple_type parse_option
from_type ty = elim (from_simple_type ty) [ some k ↦ some (simple k) | none ↦ option_kind ty ]

unfoldable pub simple_kind : ResourceKind → SimpleResourceKind
simple_kind (simple k) = k
simple_kind (option k) = k

-- The expressions that the macro generates; `cr` is the path of the crate.
pub data Code : Type 0 where
  var : Str → Code
  some_of : Code → Code
  resource_new : Segments → Code → Code
  new_non_null : Segments → Code → Code
  as_ref : Code → Code
  as_mut : Code → Code
  ref_to : Code → Code
  mut_ref_to : Code → Code
  raw : Segments → Code → Code
  take_raw : Segments → Code → Code

-- `ResourceKind::initialize_for_export`
unfoldable pub initialize_for_export : ResourceKind → Str → Segments → Code
initialize_for_export (option owned) arg cr = resource_new cr (var arg)
initialize_for_export (option by_ref) arg cr = as_ref (resource_new cr (var arg))
initialize_for_export (option by_mut_ref) arg cr = as_mut (resource_new cr (var arg))
initialize_for_export (simple owned) arg cr = new_non_null cr (var arg)
initialize_for_export (simple by_ref) arg cr = ref_to (new_non_null cr (var arg))
initialize_for_export (simple by_mut_ref) arg cr = mut_ref_to (new_non_null cr (var arg))

abbrev as_optional : ResourceKind → Code → Code
as_optional (simple k) arg = some_of arg
as_optional (option k) arg = arg

-- `ResourceKind::prepare_for_import`
unfoldable pub prepare_for_import : ResourceKind → Str → Segments → Code
unfolding simple_kind
prepare_for_import kind arg cr = elim (simple_kind kind) [
  | owned ↦ take_raw cr (as_optional kind (var arg))
  | by_ref ↦ raw cr (as_optional kind (var arg))
  | by_mut_ref ↦ raw cr (as_optional kind (var arg))
]
