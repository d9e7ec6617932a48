-- ===== src/Macro/Conversions/Types.antt =====
-- The types of the conversions of crates/macro/src/externref.rs, by the rules of Rust for the functions that they
-- call: `new`, `new_non_null`, `raw` and `take_raw` of crates/lib/src/lib.rs, `Option::as_ref` and `as_mut`.
use externref.Prelude.{◌≡◌, refl, Bool, true, false, Str, if◌then◌else◌}
use externref.Macro.Syntax.{Segments}
use externref.Macro.Kinds.{
  SimpleResourceKind, owned, by_ref, by_mut_ref, ResourceKind, simple, option, Code, var, some_of,
  resource_new, new_non_null, as_ref, as_mut, ref_to, mut_ref_to, raw, take_raw, simple_kind,
  initialize_for_export, prepare_for_import,
}

-- `ExternRef`, the types of resources, and no type.
pub data RustType : Type 0 where
  extern_ref : RustType
  resource : ResourceKind → RustType
  not_typed : RustType

-- `Some` of a value.
abbrev pub some_type : RustType → RustType
some_type (resource (simple kind)) = resource (option kind)
some_type _ = not_typed

abbrev pub from_extern : RustType → RustType → RustType
from_extern result extern_ref = result
from_extern result _ = not_typed

abbrev pub of_owned : SimpleResourceKind → RustType → RustType
of_owned kind (resource (simple owned)) = resource (simple kind)
of_owned kind _ = not_typed

abbrev pub of_owned_option : SimpleResourceKind → RustType → RustType
of_owned_option kind (resource (option owned)) = resource (option kind)
of_owned_option kind _ = not_typed

-- The argument of `raw` is an `Option<&Resource<_>>`.
abbrev pub to_extern : RustType → RustType
to_extern (resource (option by_ref)) = extern_ref
to_extern _ = not_typed

abbrev pub owned_to_extern : RustType → RustType
owned_to_extern (resource (option owned)) = extern_ref
owned_to_extern _ = not_typed

-- `Some(e)` where an `Option<&Resource<_>>` is expected: a `&mut` becomes a `&` inside it. It does not inside an
-- option that is already there.
abbrev pub coerced : RustType → RustType
coerced (resource (simple by_mut_ref)) = resource (simple by_ref)
coerced ty = ty

unfoldable pub type_of : (Str → RustType) → Code → RustType
type_of env (var name) = env name
type_of env (some_of e) = some_type (type_of env e)
type_of env (resource_new cr e) = from_extern (resource (option owned)) (type_of env e)
type_of env (new_non_null cr e) = from_extern (resource (simple owned)) (type_of env e)
type_of env (as_ref e) = of_owned_option by_ref (type_of env e)
type_of env (as_mut e) = of_owned_option by_mut_ref (type_of env e)
type_of env (ref_to e) = of_owned by_ref (type_of env e)
type_of env (mut_ref_to e) = of_owned by_mut_ref (type_of env e)
type_of env (raw cr (some_of e)) = to_extern (some_type (coerced (type_of env e)))
type_of env (raw cr e) = to_extern (type_of env e)
type_of env (take_raw cr e) = owned_to_extern (type_of env e)

-- The kind of which an option holds mutable references.
unfoldable pub is_option_of_mut : ResourceKind → Bool
is_option_of_mut (option by_mut_ref) = true
is_option_of_mut _ = false

-- What converts an `ExternRef` for a parameter has the type of the parameter, for every kind; and what converts a
-- value of a kind for the host has the type `ExternRef`, for every kind but the option of a mutable reference, for
-- which it has no type.
pub conversions_typed :
    (kind : ResourceKind) (arg : Str) (cr : Segments) (env in_env : Str → RustType)
    → env arg ≡ extern_ref
    → in_env arg ≡ resource kind
    → (type_of env (initialize_for_export kind arg cr) ≡ resource kind)
      × (type_of in_env (prepare_for_import kind arg cr)
          ≡ (if is_option_of_mut kind then not_typed else extern_ref))
unfolding type_of initialize_for_export prepare_for_import simple_kind is_option_of_mut
conversions_typed (simple owned) arg cr env in_env h k = (rw h refl, rw k refl)
conversions_typed (simple by_ref) arg cr env in_env h k = (rw h refl, rw k refl)
conversions_typed (simple by_mut_ref) arg cr env in_env h k = (rw h refl, rw k refl)
conversions_typed (option owned) arg cr env in_env h k = (rw h refl, rw k refl)
conversions_typed (option by_ref) arg cr env in_env h k = (rw h refl, rw k refl)
conversions_typed (option by_mut_ref) arg cr env in_env h k = (rw h refl, rw k refl)
