-- ===== src/Cli/Name.antt =====
-- `ModuleAndName::from_str` and the texts that it accepts.
use externref.Prelude.{
  ℕ, ◌≡◌, refl, sym, ap, ◌∙◌, Bool, true, false, not, ◌&&◌, [], ◌∷◌, ◌++◌, Option, none, some, ◌==◌,
  Bool-cases, inl, inr, ok, ensure, >>=-eq-ok, >>-eq-ok, ok-inj, arith, Str, subst,
}
use externref.Cli.{
  ModuleAndName, NameError, colon, before, split_once, is_ascii, is_empty, required, module_empty,
  module_not_ascii, name_empty, name_not_ascii, from_str,
}

both : (a b : ℕ) → ((a == colon) && (b == colon)) ≡ true → (a ≡ colon) × (b ≡ colon)
both a b h = ground arith

second : (a b : ℕ) → ((a == colon) && (b == colon)) ≡ false → b ≡ colon → (a == colon) ≡ false
second a b h e = ground arith

not_both : (a : ℕ) (b : Bool) → (a == colon) ≡ false → ((a == colon) && b) ≡ false
not_both a b h = ground arith

before-some :
    (a : ℕ) (o : Option (Str × Str)) (p q : Str)
    → before a o ≡ some (p, q)
    → (p' : Str) × (o ≡ some (p', q)) × (p ≡ a ∷ p')
before-some a none p q h = cc
before-some a (some (s, t)) p q h = (s, cc, cc)

before-none : (a : ℕ) (o : Option (Str × Str)) → before a o ≡ none → o ≡ none
before-none a none h = refl
before-none a (some (s, t)) h = cc

none-some : {p : Str × Str} → ◌≡◌ {A = Option (Str × Str)} none (some p) → ⊥
none-some h = cc

split_once-step :
    (a b : ℕ) (s : Str)
    → ((a == colon) && (b == colon)) ≡ false
    → split_once (a ∷ (b ∷ s)) ≡ before a (split_once (b ∷ s))
unfolding split_once
split_once-step a b s h = rw h

split_once-found :
    (a b : ℕ) (s : Str)
    → ((a == colon) && (b == colon)) ≡ true
    → split_once (a ∷ (b ∷ s)) ≡ some ([], s)
unfolding split_once
split_once-found a b s h = rw h

split_once-nil : split_once [] ≡ none
unfolding split_once
split_once-nil = refl

split_once-one : (a : ℕ) → split_once (a ∷ []) ≡ none
unfolding split_once
split_once-one a = refl

cons_inj : (a b : ℕ) (s t : Str) → ◌≡◌ {A = Str} (a ∷ s) (b ∷ t) → (a ≡ b) × (s ≡ t)
cons_inj a b s t h = (cc, cc)

-- A text stays unsplit when what is put in front begins no separator.
unsplit :
    (a b : ℕ) (s t p : Str)
    → ((a == colon) && (b == colon)) ≡ false
    → ◌≡◌ {A = Str} (b ∷ s) (p ++ (colon ∷ t))
    → split_once (p ++ (colon ∷ [])) ≡ none
    → split_once (a ∷ (p ++ (colon ∷ []))) ≡ none
unsplit a b s t [] no_ e h =
    let a_no = second a b no_ ((cons_inj b colon s t e).0) in
    split_once-step a colon [] (not_both a (colon == colon) a_no)
    ∙ ap (before a) (split_once-one colon)
unsplit a b s t (c ∷ p) no_ e h =
    let same : b ≡ c = (cons_inj b c s (p ++ (colon ∷ t)) e).0 in
    split_once-step a c (p ++ (colon ∷ []))
      (ap (λ (x : ℕ). (a == colon) && (x == colon)) (sym same) ∙ no_)
    ∙ ap (before a) h

-- A text that is split has the separator between the parts, and none before.
split_once-some :
    (s p q : Str)
    → split_once s ≡ some (p, q)
    → (s ≡ p ++ (colon ∷ (colon ∷ q))) × (split_once (p ++ (colon ∷ [])) ≡ none)
split_once-some [] p q h = absurd (none-some (sym split_once-nil ∙ h))
split_once-some (a ∷ []) p q h = absurd (none-some (sym (split_once-one a) ∙ h))
split_once-some (a ∷ (b ∷ s)) p q h = elim (Bool-cases ((a == colon) && (b == colon))) [
  | inl yes_ ↦
      let same : ◌≡◌ {A = Option (Str × Str)} (some ([], s)) (some (p, q)) =
        sym (split_once-found a b s yes_) ∙ h in
      let (l, r) = both a b yes_ in
      let p_nil : [] ≡ p = cc in
      let q_s : s ≡ q = cc in rw (l, r, ← p_nil, q_s) (refl, split_once-one colon)
  | inr no_ ↦
      let (p', rest, shape) =
        before-some a (split_once (b ∷ s)) p q (sym (split_once-step a b s no_) ∙ h) in
      let (e, none_) = split_once-some (b ∷ s) p' q rest in
      rw shape (ap (λ (t : Str). a ∷ t) e, unsplit a b s (colon ∷ q) p' no_ e none_)
]

split_once-join :
    (p q : Str)
    → split_once (p ++ (colon ∷ [])) ≡ none
    → split_once (p ++ (colon ∷ (colon ∷ q))) ≡ some (p, q)
split_once-join [] q h = split_once-found colon colon q refl
split_once-join (a ∷ []) q h = elim (Bool-cases ((a == colon) && (colon == colon))) [
  | inl yes_ ↦ absurd (none-some (sym h ∙ split_once-found a colon [] yes_))
  | inr no_ ↦
      split_once-step a colon (colon ∷ q) no_ ∙ ap (before a) (split_once-found colon colon q refl)
]
split_once-join (a ∷ (c ∷ p)) q h = elim (Bool-cases ((a == colon) && (c == colon))) [
  | inl yes_ ↦ absurd (none-some (sym h ∙ split_once-found a c (p ++ (colon ∷ [])) yes_))
  | inr no_ ↦
      split_once-step a c (p ++ (colon ∷ (colon ∷ q))) no_
      ∙ ap (before a) (
          split_once-join (c ∷ p) q
            (before-none a _ (sym (split_once-step a c (p ++ (colon ∷ [])) no_) ∙ h)))
]

-- A module and a name that can be written down: neither is empty, both are ASCII, and the first separator behind
-- the module is the one that ends it.
pub record IsName (r : ModuleAndName) : Type 0 where
  pub module_some : is_empty r.module_name ≡ false
  pub module_ascii : is_ascii r.module_name ≡ true
  pub name_some : is_empty r.name ≡ false
  pub name_ascii : is_ascii r.name ≡ true
  pub first : split_once (r.module_name ++ (colon ∷ [])) ≡ none

abbrev pub name_text : ModuleAndName → Str
name_text r = r.module_name ++ (colon ∷ (colon ∷ r.name))

ensured : (b : Bool) (e : NameError) → ensure b e ≡ ok tt → b ≡ true
ensured true e h = refl
ensured false e h = cc

not-true : (b : Bool) → not b ≡ true → b ≡ false
not-true b h = ground arith

-- The texts that `from_str` reads are `module::name` for a module and a name that are not empty and are ASCII, and
-- the module ends at the first separator.
pub from_str-IsName :
    (s : Str) (r : ModuleAndName) → from_str s ≡ ok r → (s ≡ name_text r) × IsName r
unfolding from_str
from_str-IsName s r h =
    let (parts, found, h₁) = >>=-eq-ok (required (split_once s)) _ h in
    let (e₁, h₂) = >>-eq-ok (ensure (not (is_empty parts.0)) module_empty) _ h₁ in
    let (e₂, h₃) = >>-eq-ok (ensure (is_ascii parts.0) module_not_ascii) _ h₂ in
    let (e₃, h₄) = >>-eq-ok (ensure (not (is_empty parts.1)) name_empty) _ h₃ in
    let (e₄, made) = >>-eq-ok (ensure (is_ascii parts.1) name_not_ascii) _ h₄ in
    let (shape, none_) =
      split_once-some s parts.0 parts.1 (required_ok (split_once s) parts found) in
    subst (λ (r : ModuleAndName). (s ≡ name_text r) × IsName r) (ok-inj made)
      (
        shape,
        record {
          module_some = not-true _ (ensured _ module_empty e₁);
          module_ascii = ensured _ module_not_ascii e₂;
          name_some = not-true _ (ensured _ name_empty e₃);
          name_ascii = ensured _ name_not_ascii e₄;
          first = none_;
        },
      )
  where
    required_ok : (o : Option (Str × Str)) (p : Str × Str) → required o ≡ ok p → o ≡ some p
    required_ok none p q = cc
    required_ok (some x) p q = ap some (ok-inj q)

-- Each such module and name is read back from its text.
pub from_str-name_text : (r : ModuleAndName) → IsName r → from_str (name_text r) ≡ ok r
unfolding from_str
from_str-name_text r h = rw (
  split_once-join r.module_name r.name h.first,
  h.module_some,
  h.module_ascii,
  h.name_some,
  h.name_ascii,
)
