-- ===== src/Permissions/Laws.antt =====
-- What denials do to the permissions.
use cogentrex.Prelude.{
  ℕ, ◌≤◌, ◌<◌, ◌≡◌, ◌⊎◌, ◌↔◌, refl, inl, inr, true, false, Option, none, some, List, [], ◌∷◌,
  String, Bool-cases, arith,
}
use cogentrex.Policy.{any}
use cogentrex.Permissions.{
  PermissionMode, allow_all, auto_approve_safe, ask_unknown, ask_all, auto_deny_unsafe, deny_all,
  plan_only, rank, RiskLevel, low, Value, Fields, object, Evaluator, protected_argument,
  names_command, evaluate_mode, check_paths, evaluate, flatten, path_keys, stricter,
  check_mode_transformation, record_denial, Denial, denied, deny_each,
}

stricter-le : (m : PermissionMode) → rank m < 3 → rank m ≤ rank (stricter m)
stricter-le allow_all h = omega arith
stricter-le auto_approve_safe h = omega arith
stricter-le ask_unknown h = omega arith
stricter-le ask_all h = absurd (omega (arith, h))
stricter-le auto_deny_unsafe h = absurd (omega (arith, h))
stricter-le deny_all h = absurd (omega (arith, h))
stricter-le plan_only h = absurd (omega (arith, h))

record_denial-le :
    (now now' : ℕ) (tool : String) (risk : RiskLevel) (reason : String) (e : Evaluator)
    → rank e.mode ≤ rank (record_denial now now' tool risk reason e).mode
unfolding record_denial check_mode_transformation
record_denial-le now now' tool risk reason e = ground (arith, stricter-le e.mode)

deny_each-le : (ds : List Denial) (e : Evaluator) → rank e.mode ≤ rank (deny_each ds e).mode
unfolding deny_each
deny_each-le [] e = omega arith
deny_each-le (denied now now' tool risk reason ∷ ds) e = omega (
  arith,
  record_denial-le now now' tool risk reason e,
  deny_each-le ds (record_denial now now' tool risk reason e),
)

-- The one pair of modes whose order the permissions do not follow.
abbrev pub Loosened : PermissionMode → PermissionMode → RiskLevel → Type 0
Loosened m m' risk = (m ≡ auto_approve_safe) × (m' ≡ ask_unknown) × (risk ≡ low)

evaluate_mode-allowed :
    (m m' : PermissionMode) (risk : RiskLevel)
    → rank m ≤ rank m'
    → (evaluate_mode m' risk).allowed ≡ true
    → ((evaluate_mode m risk).allowed ≡ true) ⊎ Loosened m m' risk
unfolding evaluate_mode
evaluate_mode-allowed m m' risk h a = ground (arith, h, a)

module _ (lower : List ℕ → List ℕ) (str_of : Value → String) where
  check_paths-allowed :
      (mode : PermissionMode) (risk : RiskLevel) (args : Fields) (found : Option String)
      → (check_paths lower str_of mode risk args found).allowed ≡ true
      → (found ≡ none)
        × (any (names_command lower str_of) (flatten 5 (object args)) ≡ false)
        × ((evaluate_mode mode risk).allowed ≡ true)
  check_paths-allowed mode risk args (some value) a = absurd (cc)
  check_paths-allowed mode risk args none a =
      elim (Bool-cases (any (names_command lower str_of) (flatten 5 (object args)))) [
        | inl hit ↦ let denied' : false ≡ true = rw hit at a in absurd (cc)
        | inr clean ↦ (refl, clean, rw clean at a)
      ]

  pub evaluate-allowed :
      (e : Evaluator) (risk : RiskLevel) (args : Fields)
      → ((evaluate lower str_of e risk args).allowed ≡ true) ↔ (
          (protected_argument lower str_of args (path_keys lower str_of) ≡ none)
          × (any (names_command lower str_of) (flatten 5 (object args)) ≡ false)
          × ((evaluate_mode e.mode risk).allowed ≡ true))
  unfolding evaluate
  evaluate-allowed e risk args = (
    check_paths-allowed e.mode risk args
        (protected_argument lower str_of args (path_keys lower str_of)),
    λ (absent, clean, allowed). rw (absent, clean) allowed,
  )

  -- After any denials, the evaluator allows only what it allowed before them, but for calls of low
  -- risk when the mode went from AUTO_APPROVE_SAFE to ASK_UNKNOWN.
  pub deny_each-restricts :
      (ds : List Denial) (e : Evaluator) (risk : RiskLevel) (args : Fields)
      → (evaluate lower str_of (deny_each ds e) risk args).allowed ≡ true
      → ((evaluate lower str_of e risk args).allowed ≡ true)
        ⊎ Loosened e.mode (deny_each ds e).mode risk
  deny_each-restricts ds e risk args a =
      let (absent, clean, allowed) = (evaluate-allowed (deny_each ds e) risk args).0 a in
      elim (evaluate_mode-allowed e.mode (deny_each ds e).mode risk (deny_each-le ds e) allowed) [
        | inl before ↦ inl ((evaluate-allowed e risk args).1 (absent, clean, before))
        | inr loosened ↦ inr loosened
      ]
