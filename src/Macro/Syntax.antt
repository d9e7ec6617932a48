-- ===== src/Macro/Syntax.antt =====
-- The syntax trees of syn that crates/macro looks at, with what the macro does not look at left as a code.
use externref.Prelude.{ℕ, Bool, false, List, Option, none, some, Outcome, Str, str_eq}

-- `Type`, `PathSegment`, `PathArguments` and `GenericArgument`. A path is the list of its segments.
mutual
  pub data Ty : Type 0 where
    path : Segments → Ty
    reference : Bool → Ty → Ty
    unit : Ty
    other_ty : ℕ → Ty

  pub data Segments : Type 0 where
    end : Segments
    segment : Str → PathArguments → Segments → Segments

  pub data PathArguments : Type 0 where
    no_arguments : PathArguments
    parenthesized : ℕ → PathArguments
    angle_bracketed : GenericArguments → PathArguments

  pub data GenericArguments : Type 0 where
    no_more : GenericArguments
    type_argument : Ty → GenericArguments → GenericArguments
    other_argument : ℕ → GenericArguments → GenericArguments

-- An expression in an attribute.
pub data Expr : Type 0 where
  lit_str : Str → Expr
  other_expr : ℕ → Expr

-- What the macro reports. The texts stand in the source; a constructor holds what varies in its text.
pub data SynError : Type 0 where
  abi_missing : Str → SynError
  abi_unexpected : Str → Str → SynError
  variadic_fn : SynError
  value_expected : Str → SynError
  no_module_name : SynError
  link_not_a_list : SynError
  module_name_not_a_string : SynError
  unsupported_attribute : SynError
  unsupported_item : SynError
  syntax : ℕ → SynError

-- A meta inside a list: `name = value`, with the name if it is one identifier, or another meta.
pub data NestedMeta : Type 0 where
  nested_value : Option Str → Expr → NestedMeta
  other_meta : ℕ → NestedMeta

-- `Meta`. A list is what syn's parser of terminated metas makes of its tokens.
pub data Meta : Type 0 where
  word : Meta
  list : Outcome SynError (List NestedMeta) → Meta
  name_value : Expr → Meta

-- An attribute, with its name if its path is one identifier.
pub record Attribute : Type 0 where
  pub ident : Option Str
  pub meta : Meta

pub data Pat : Type 0 where
  ident_pat : Str → Pat
  other_pat : ℕ → Pat

pub data FnArg : Type 0 where
  receiver : ℕ → FnArg
  typed : Pat → Ty → FnArg

-- `ReturnType` of syn.
pub data Output : Type 0 where
  default_output : Output
  returns : Ty → Output

-- `Abi`, with its name if there is one.
pub record Abi : Type 0 where
  pub name : Option Str

-- `Visibility`, of which the macro knows the inherited one.
pub data Visibility : Type 0 where
  inherited : Visibility
  visible : ℕ → Visibility

pub record Signature : Type 0 where
  pub unsafety : Bool
  pub abi : Option Abi
  pub ident : Str
  pub inputs : List FnArg
  pub variadic : Bool
  pub output : Output

pub record ItemFn : Type 0 where
  pub attrs : List Attribute
  pub vis : Visibility
  pub sig : Signature
  pub block : ℕ

pub record ForeignItemFn : Type 0 where
  pub attrs : List Attribute
  pub vis : Visibility
  pub sig : Signature

pub data ForeignItem : Type 0 where
  fn_item : ForeignItemFn → ForeignItem
  other_item : ℕ → ForeignItem

pub record ItemForeignMod : Type 0 where
  pub attrs : List Attribute
  pub abi : Abi
  pub items : List ForeignItem

-- `path.is_ident(name)`
unfoldable pub is_ident : Option Str → Str → Bool
is_ident none name = false
is_ident (some i) name = str_eq i name

-- `segments.last()`
unfoldable pub last_segment : Segments → Option (Str × PathArguments)
last_segment end = none
last_segment (segment i args end) = some (i, args)
last_segment (segment i args (segment j args' rest)) = last_segment (segment j args' rest)

-- `path::name`, as `quote!` writes it.
unfoldable pub join : Segments → Str → Segments
join end name = segment name no_arguments end
join (segment i args rest) name = segment i args (join rest name)
