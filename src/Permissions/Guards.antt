-- ===== src/Permissions/Guards.antt =====
-- What a call that graduated_permissions.py allows cannot hold.
use cogentrex.Prelude.{
  ℕ, suc, ◌≡◌, refl, Bool, true, false, none, List, [], ◌∷◌, ◌++◌, String, All, codes, Bool-cases,
  inl, inr,
}
use cogentrex.Policy.{any}
use cogentrex.Permissions.{
  PermissionMode, allow_all, auto_approve_safe, ask_unknown, ask_all, auto_deny_unsafe, deny_all,
  plan_only, RiskLevel, safe, low, medium, high, critical, Value, text, object, array, Fields,
  field, Items, item, Evaluator, protected_paths, protected_commands, contains, argument,
  names_path, names_command, protected_argument, evaluate_mode, evaluate, flatten, flatten_fields,
  flatten_items, path_keys,
}
use cogentrex.Permissions.Laws.{evaluate-allowed}

-- A text that stands in a value below fewer containers than a depth; the keys of a dictionary do
-- not count.
mutual
  pub data Holds : ℕ → Value → String → Type 0 where
    itself : (n : ℕ) (s : String) → Holds (suc n) (text s) s
    in_object :
        (n : ℕ) (fields : Fields) (s : String)
        → HoldsField n fields s
        → Holds (suc n) (object fields) s
    in_array :
        (n : ℕ) (items : Items) (s : String) → HoldsItem n items s → Holds (suc n) (array items) s

  pub data HoldsField : ℕ → Fields → String → Type 0 where
    first_field :
        (n : ℕ) (key : String) (v : Value) (fields : Fields) (s : String)
        → Holds n v s
        → HoldsField n (field key v fields) s
    later_field :
        (n : ℕ) (key : String) (v : Value) (fields : Fields) (s : String)
        → HoldsField n fields s
        → HoldsField n (field key v fields) s

  pub data HoldsItem : ℕ → Items → String → Type 0 where
    first_item :
        (n : ℕ) (v : Value) (items : Items) (s : String)
        → Holds n v s
        → HoldsItem n (item v items) s
    later_item :
        (n : ℕ) (v : Value) (items : Items) (s : String)
        → HoldsItem n items s
        → HoldsItem n (item v items) s

-- The modes that allow a call without approval, with the risks that they allow.
pub data Permits : PermissionMode → RiskLevel → Type 0 where
  any_risk : (risk : RiskLevel) → Permits allow_all risk
  only_safe : Permits auto_approve_safe safe
  known_safe : Permits ask_unknown safe
  known_low : Permits ask_unknown low

evaluate_mode-Permits :
    (mode : PermissionMode) (risk : RiskLevel)
    → (evaluate_mode mode risk).allowed ≡ true
    → Permits mode risk
unfolding evaluate_mode
evaluate_mode-Permits allow_all risk a = any_risk risk
evaluate_mode-Permits deny_all risk a = absurd (cc)
evaluate_mode-Permits plan_only risk a = absurd (cc)
evaluate_mode-Permits ask_all risk a = absurd (cc)
evaluate_mode-Permits auto_approve_safe safe a = only_safe
evaluate_mode-Permits auto_approve_safe low a = absurd (cc)
evaluate_mode-Permits auto_approve_safe medium a = absurd (cc)
evaluate_mode-Permits auto_approve_safe high a = absurd (cc)
evaluate_mode-Permits auto_approve_safe critical a = absurd (cc)
evaluate_mode-Permits ask_unknown safe a = known_safe
evaluate_mode-Permits ask_unknown low a = known_low
evaluate_mode-Permits ask_unknown medium a = absurd (cc)
evaluate_mode-Permits ask_unknown high a = absurd (cc)
evaluate_mode-Permits ask_unknown critical a = absurd (cc)
evaluate_mode-Permits auto_deny_unsafe safe a = absurd (cc)
evaluate_mode-Permits auto_deny_unsafe low a = absurd (cc)
evaluate_mode-Permits auto_deny_unsafe medium a = absurd (cc)
evaluate_mode-Permits auto_deny_unsafe high a = absurd (cc)
evaluate_mode-Permits auto_deny_unsafe critical a = absurd (cc)

any-All : (p : String → Bool) (xs : List String) → any p xs ≡ false → All (λ x. p x ≡ false) xs
any-All p [] none_there = tt
any-All p (x ∷ xs) none_there = elim (Bool-cases (p x)) [
  | inl hit ↦ let wrong = rw hit at none_there in absurd (cc)
  | inr miss ↦ (miss, any-All p xs (rw miss at none_there))
]

any-append :
    (p : String → Bool) (xs ys : List String)
    → any p (xs ++ ys) ≡ false
    → (any p xs ≡ false) × (any p ys ≡ false)
any-append p [] ys h = (refl, h)
any-append p (x ∷ xs) ys h = elim (Bool-cases (p x)) [
  | inl hit ↦ let wrong = rw hit at h in absurd (cc)
  | inr miss ↦ let rest = any-append p xs ys (rw miss at h) in (rw miss rest.0, rest.1)
]

module _ (p : String → Bool) where
  mutual
    unfolding flatten flatten_fields flatten_items

    flatten-Holds :
        (n : ℕ) (v : Value) (s : String) → Holds n v s → any p (flatten n v) ≡ false → p s ≡ false
    flatten-Holds n v s (itself m t) h = (any-All p (t ∷ []) h).0
    flatten-Holds n v s (in_object m fields t inside) h = flatten_fields-Holds m fields t inside h
    flatten-Holds n v s (in_array m items t inside) h = flatten_items-Holds m items t inside h

    flatten_fields-Holds :
        (n : ℕ) (fields : Fields) (s : String)
        → HoldsField n fields s
        → any p (flatten_fields n fields) ≡ false
        → p s ≡ false
    flatten_fields-Holds n fs s (first_field m key v fields t inside) h =
        flatten-Holds m v t inside (any-append p (flatten m v) (flatten_fields m fields) h).0
    flatten_fields-Holds n fs s (later_field m key v fields t inside) h =
        flatten_fields-Holds m fields t inside
          (any-append p (flatten m v) (flatten_fields m fields) h).1

    flatten_items-Holds :
        (n : ℕ) (items : Items) (s : String)
        → HoldsItem n items s
        → any p (flatten_items n items) ≡ false
        → p s ≡ false
    flatten_items-Holds n is s (first_item m v items t inside) h =
        flatten-Holds m v t inside (any-append p (flatten m v) (flatten_items m items) h).0
    flatten_items-Holds n is s (later_item m v items t inside) h =
        flatten_items-Holds m items t inside
          (any-append p (flatten m v) (flatten_items m items) h).1

module _ (lower : List ℕ → List ℕ) (str_of : Value → String) where
  -- No protected path stands in the argument of a key.
  abbrev pub Unprotected : Fields → String → Type 0
  Unprotected args key =
      All (λ part. contains (codes part) (codes (argument lower str_of args key)) ≡ false)
        protected_paths

  -- No protected command stands in a text in lower case.
  abbrev pub Harmless : String → Type 0
  Harmless s = All (λ part. contains (codes part) (lower (codes s)) ≡ false) protected_commands

  protected_argument-Unprotected :
      (args : Fields) (keys : List String)
      → protected_argument lower str_of args keys ≡ none
      → All (Unprotected args) keys
  unfolding protected_argument
  protected_argument-Unprotected args [] absent = tt
  protected_argument-Unprotected args (key ∷ keys) absent =
      elim (Bool-cases (names_path lower str_of (argument lower str_of args key))) [
        | inl hit ↦ let wrong = rw hit at absent in absurd (cc)
        | inr miss ↦ (
          any-All (λ part. contains (codes part) (codes (argument lower str_of args key)))
              protected_paths miss,
          protected_argument-Unprotected args keys (rw miss at absent),
        )
      ]

  -- A call that is allowed names no protected path in the arguments path, file_path, directory and
  -- target, holds no protected command, whatever its case, in a text that stands below fewer than
  -- five containers, the dictionary of the arguments among them, and has a risk that the mode allows.
  pub evaluate-guards :
      (e : Evaluator) (risk : RiskLevel) (args : Fields)
      → (evaluate lower str_of e risk args).allowed ≡ true
      → All (Unprotected args) ("path" ∷ "file_path" ∷ "directory" ∷ "target" ∷ [])
        × ((s : String) → Holds 5 (object args) s → Harmless s)
        × Permits e.mode risk
  evaluate-guards e risk args a =
      let (absent, clean, allowed) = (evaluate-allowed lower str_of e risk args).0 a in
      (
        protected_argument-Unprotected args (path_keys lower str_of) absent,
        λ s inside.
            any-All (λ part. contains (codes part) (lower (codes s))) protected_commands
              (flatten-Holds (names_command lower str_of) 5 (object args) s inside clean),
        evaluate_mode-Permits e.mode risk allowed,
      )
