-- ===== src/Permissions/Loosening.antt =====
-- A denial that loosens the permissions of graduated_permissions.py.
use cogentrex.Prelude.{
  ℕ, ◌+◌, ◌-◌, ◌≤◌, ◌<◌, ◌≡◌, refl, Bool, true, false, none, List, [], ◌∷◌, ◌++◌, String, filter,
  length, Bool-cases, inl, inr, arith,
}
use cogentrex.Policy.{any}
use cogentrex.Permissions.{
  auto_approve_safe, ask_unknown, RiskLevel, low, Value, Fields, object, Evaluator, DenialRecord,
  protected_argument, names_command, evaluate_mode, evaluate, flatten, path_keys, is_recent,
  recent_denials, check_mode_transformation, record_denial,
}

length-filter_last :
    (p : DenialRecord → Bool) (ds : List DenialRecord) (d : DenialRecord)
    → p d ≡ true
    → length (filter p (ds ++ (d ∷ []))) ≡ length (filter p ds) + 1
length-filter_last p [] d hit = rw hit refl
length-filter_last p (x ∷ ds) d hit = elim (Bool-cases (p x)) [
  | inl here ↦ rw here (omega (arith, length-filter_last p ds d hit))
  | inr gone ↦ rw gone (length-filter_last p ds d hit)
]

-- A denial that is recent when the clock is read again, and completes the threshold.
record_denial-mode :
    (now now' : ℕ) (tool : String) (risk : RiskLevel) (reason : String) (e : Evaluator)
    → e.mode ≡ auto_approve_safe
    → now' - now < e.downgrade_window
    → e.denial_threshold ≤ recent_denials now' e + 1
    → (record_denial now now' tool risk reason e).mode ≡ ask_unknown
unfolding record_denial check_mode_transformation
record_denial-mode now now' tool risk reason e mode recent enough =
    let d : DenialRecord = record {
      tool_name = tool;
      risk_level = risk;
      timestamp = now;
      reason = reason;
    } in
    let count =
      length-filter_last (is_recent now' e.downgrade_window) e.denials d (ground (arith, recent)) in
    ground (arith, mode, count, enough)

-- In the mode AUTO_APPROVE_SAFE, a denial that completes the threshold of recent denials makes the
-- evaluator allow each call of low risk that holds nothing protected, which it did not allow before.
pub record_denial-loosens :
    (lower : List ℕ → List ℕ) (str_of : Value → String) (now now' : ℕ) (tool : String)
    (risk : RiskLevel) (reason : String) (e : Evaluator) (args : Fields)
    → e.mode ≡ auto_approve_safe
    → now' - now < e.downgrade_window
    → e.denial_threshold ≤ recent_denials now' e + 1
    → protected_argument lower str_of args (path_keys lower str_of) ≡ none
    → any (names_command lower str_of) (flatten 5 (object args)) ≡ false
    → ((evaluate lower str_of e low args).allowed ≡ false)
      × ((evaluate lower str_of (record_denial now now' tool risk reason e) low args).allowed
          ≡ true)
unfolding evaluate evaluate_mode
record_denial-loosens lower str_of now now' tool risk reason e args mode recent enough absent
      clean =
    let after = record_denial-mode now now' tool risk reason e mode recent enough in
    (rw (absent, clean, mode) refl, rw (absent, clean, after) refl)
