-- ===== src/Effects/Ends.antt =====
-- What the end of an execution says of the table, and how soon an execution ends.
use cogentrex.Prelude.{
  ℕ, ◌≡◌, ◌⊎◌, ◌∙◌, refl, inl, inr, Bool, true, false, ◌&&◌, ◌==◌, Option, none, some, List, String,
  update, matched, Bool-cases, &&-elim, arith, eq_iff, get_elem?, Result, ok, err,
}
use cogentrex.Effects.Rows.{
  EffectState, committed, failed, is_reserved, EffectError, EffectRow, EffectBinding, effect_id_ok,
  digest_ok, size_ok, safe_code_ok,
}
use cogentrex.Effects.Repository.{
  has_id, is_open, complete, transition, commit, fail, EffectReservation,
}
use cogentrex.Effects.Executor.{
  Exit, returned, dispatch_rejected, cancelled, After, interrupted, finally, Phase, failing,
  inspecting, marking, done, reserved_phase, ToolOutcome, output, permission_error, raised,
  tool_cancelled, tool_aborted, tool_ended, cleaned,
}
use cogentrex.Effects.Tables.{matched-get_elem?, get_elem?-update}
use cogentrex.Effects.Later.{Becomes}

-- A row of the effect in a state, with an output and a failure code.
pub record Settled (e : String) (state : EffectState) (hash : Option String) (size : Option ℕ)
    (code : Option String) (rows : List EffectRow) : Type 0 where
  pub place : ℕ
  pub row : EffectRow
  pub found : get_elem? rows place ≡ some row
  pub of_effect : row.effect_id ≡ e
  pub in_state : row.state ≡ state
  pub with_hash : row.output_hash ≡ hash
  pub with_size : row.output_size ≡ size
  pub with_code : row.failure_code ≡ code

-- What an exit says of the table: an output that is returned is committed, a rejection is failed.
abbrev pub Explained : List EffectRow → EffectBinding → Exit → Type 0
Explained rows b (returned hash size) =
    Settled b.effect_id committed (some hash) (some size) none rows
Explained rows b dispatch_rejected =
    Settled b.effect_id failed none none (some "permission_denied") rows
Explained rows b _ = Unit

Settled-Becomes :
    (e : String) (state : EffectState) (hash : Option String) (size : Option ℕ)
    (code : Option String) (rows rows' : List EffectRow)
    → is_reserved state ≡ false
    → Becomes rows rows'
    → Settled e state hash size code rows
    → Settled e state hash size code rows'
Settled-Becomes e state hash size code rows rows' closed later h =
    let (row', found', l) = later h.place h.row h.found in
    let (same_state, same_hash, same_size, same_code, _) = l.final (rw h.in_state closed) in
    record {
      place = h.place;
      row = row';
      found = found';
      of_effect = l.effect_id ∙ h.of_effect;
      in_state = same_state ∙ h.in_state;
      with_hash = same_hash ∙ h.with_hash;
      with_size = same_size ∙ h.with_size;
      with_code = same_code ∙ h.with_code;
    }

pub Explained-Becomes :
    (rows rows' : List EffectRow) (b : EffectBinding) (exit : Exit)
    → Becomes rows rows'
    → Explained rows b exit
    → Explained rows' b exit
Explained-Becomes rows rows' b (returned hash size) later h =
    Settled-Becomes b.effect_id committed (some hash) (some size) none rows rows' refl later h
Explained-Becomes rows rows' b dispatch_rejected later h =
    Settled-Becomes b.effect_id failed none none (some "permission_denied") rows rows' refl later h
Explained-Becomes rows rows' b _ later h = tt

-- A transition that succeeds.
transition-Settled :
    (now : ℕ) (e : String) (state : EffectState) (hash : Option String) (size : Option ℕ)
    (code : Option String) (rows : List EffectRow)
    → (transition now e state hash size code rows).0 ≡ ok tt
    → Settled e state hash size code (transition now e state hash size code rows).1
unfolding transition
transition-Settled now e state hash size code rows h = elim (Bool-cases (effect_id_ok e)) [
  | inl good ↦ elim (Bool-cases (matched (is_open e) rows == 1)) [
    | inl one ↦ rw (good, one) (settled (ground (arith, one)))
    | inr many ↦ absurd (ground (arith, h, good, many))
  ]
  | inr bad ↦ absurd (ground (arith, h, bad))
]
  where
    settled :
        matched (is_open e) rows ≡ 1
        → Settled e state hash size code
            (update (is_open e) (complete now state hash size code) rows)
    settled one =
        let (i, row, at, hit) = matched-get_elem? (is_open e) rows one in
        record {
          place = i;
          row = complete now state hash size code row;
          found = get_elem?-update (is_open e) (complete now state hash size code) rows i at hit;
          of_effect =
              (eq_iff row.effect_id e).0 (&&-elim (has_id e row) (is_reserved row.state) hit).0;
          in_state = refl;
          with_hash = refl;
          with_size = refl;
          with_code = refl;
        }

pub commit-Settled :
    (now : ℕ) (e hash : String) (size : ℕ) (rows : List EffectRow)
    → (commit now e hash size rows).0 ≡ ok tt
    → Settled e committed (some hash) (some size) none (commit now e hash size rows).1
unfolding commit
commit-Settled now e hash size rows h = elim (Bool-cases (digest_ok hash && size_ok size)) [
  | inl good ↦
      rw good (transition-Settled now e committed (some hash) (some size) none rows (rw good at h))
  | inr bad ↦ absurd (ground (arith, h, bad))
]

pub fail-Settled :
    (now : ℕ) (e code : String) (rows : List EffectRow)
    → (fail now e code rows).0 ≡ ok tt
    → Settled e failed none none (some code) (fail now e code rows).1
unfolding fail
fail-Settled now e code rows h = elim (Bool-cases (safe_code_ok code)) [
  | inl good ↦ rw good (transition-Settled now e failed none none (some code) rows (rw good at h))
  | inr bad ↦ absurd (ground (arith, h, bad))
]

-- A phase whose end will be explained, given the table if it is the end.
abbrev pub Quiet : Exit → Type 0
Quiet (returned hash size) = true ≡ false
Quiet dispatch_rejected = true ≡ false
Quiet _ = Unit

abbrev pub QuietAfter : After → Type 0
QuietAfter interrupted = Unit
QuietAfter (finally exit) = Quiet exit

abbrev pub Sound : List EffectRow → EffectBinding → Phase → Type 0
Sound rows b (done exit) = Explained rows b exit
Sound rows b (failing code exit) =
    (exit ≡ cancelled) ⊎ ((exit ≡ dispatch_rejected) × (code ≡ "permission_denied"))
Sound rows b (inspecting code next) = QuietAfter next
Sound rows b (marking code c next) = QuietAfter next
Sound rows b _ = Unit

Quiet-Explained :
    (rows : List EffectRow) (b : EffectBinding) (exit : Exit) → Quiet exit → Explained rows b exit
Quiet-Explained rows b (returned hash size) q = absurd (cc)
Quiet-Explained rows b dispatch_rejected q = absurd (cc)
Quiet-Explained rows b _ q = tt

pub cleaned-Sound :
    (rows : List EffectRow) (b : EffectBinding) (failed' c : Bool) (next : After)
    → QuietAfter next
    → Sound rows b (cleaned failed' c next)
cleaned-Sound rows b failed' c interrupted q = tt
cleaned-Sound rows b true c (finally exit) q = tt
cleaned-Sound rows b false true (finally exit) q = tt
cleaned-Sound rows b false false (finally exit) q = Quiet-Explained rows b exit q

pub tool_ended-Sound :
    (rows : List EffectRow) (b : EffectBinding) (o : ToolOutcome) → Sound rows b (tool_ended o)
tool_ended-Sound rows b (output none) = tt
tool_ended-Sound rows b (output (some (hash, size))) = tt
tool_ended-Sound rows b permission_error = inr (refl, refl)
tool_ended-Sound rows b raised = tt
tool_ended-Sound rows b tool_cancelled = tt
tool_ended-Sound rows b tool_aborted = tt

pub reserved_phase-Sound :
    (rows : List EffectRow) (b : EffectBinding) (c : Bool)
    (result : Result EffectError EffectReservation)
    → Sound rows b (reserved_phase c result).0
reserved_phase-Sound rows b true (err e) = tt
reserved_phase-Sound rows b false (err e) = tt
reserved_phase-Sound rows b true (ok r) = elim (Bool-cases r.should_execute) [
  | inl granting ↦ rw granting (inl refl)
  | inr refused ↦ rw refused tt
]
reserved_phase-Sound rows b false (ok r) = elim (Bool-cases r.should_execute) [
  | inl granting ↦ rw granting tt
  | inr refused ↦ rw refused tt
]
