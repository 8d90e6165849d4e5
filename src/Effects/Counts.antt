-- ===== src/Effects/Counts.antt =====
-- The rows of an effect under every repository call.
use cogentrex.Prelude.{
  ℕ, ◌+◌, ◌≤◌, ◌≡◌, refl, inl, inr, Bool, true, Option, none, some, List, [], ◌∷◌, ◌++◌, String,
  str_eq, bit, select, update, matched, Bool-cases, arith, eq_iff, ok, ◌&&◌,
}
use cogentrex.Effects.Rows.{
  EffectState, committed, failed, indeterminate, EffectRow, EffectBinding, effect_id_ok, digest_ok,
}
use cogentrex.Effects.Repository.{
  EffectReservation, has_id, is_open, complete, insert_or_read, new_row, reserve, transition,
  commit, fail, mark_indeterminate, is_stale, lapse, recover_stale_reservations, is_reviewable,
  review, review_indeterminate, Op, reserve_op, commit_op, fail_op, mark_op, recover_op, review_op,
  apply, Outcome,
}
use cogentrex.Effects.Executor.{
  Weather, fine, lost, unacknowledged, under, Phase, committing, failing, marking, resume,
}
use cogentrex.Effects.Tables.{matched-append, matched-update, select-matched}

-- The rows of an effect, and the times its tool was started.
abbrev pub rows_of : String → List EffectRow → ℕ
rows_of e rows = matched (has_id e) rows

abbrev pub starts_of : String → List String → ℕ
starts_of e = matched (λ d. str_eq d e)

-- Neither fewer rows of an effect, nor a second one.
pub record Keeps (e : String) (rows rows' : List EffectRow) : Type 0 where
  pub kept : rows_of e rows ≤ rows_of e rows'
  pub single : rows_of e rows ≤ 1 → rows_of e rows' ≤ 1

same-Keeps :
    (e : String) (rows rows' : List EffectRow)
    → rows_of e rows' ≡ rows_of e rows
    → Keeps e rows rows'
same-Keeps e rows rows' same = record {
  kept = omega (arith, same);
  single = λ h. omega (arith, same, h);
}

transition-Keeps :
    (x : String) (now : ℕ) (e : String) (state : EffectState) (hash : Option String)
    (size : Option ℕ) (code : Option String) (rows : List EffectRow)
    → Keeps x rows (transition now e state hash size code rows).1
unfolding transition
transition-Keeps x now e state hash size code rows =
    same-Keeps x rows (transition now e state hash size code rows).1 (
      ground (
        arith,
        matched-update (has_id x) (is_open e) (complete now state hash size code) rows (λ r. refl),
      ))

pub commit-Keeps :
    (x : String) (now : ℕ) (e hash : String) (size : ℕ) (rows : List EffectRow)
    → Keeps x rows (commit now e hash size rows).1
unfolding commit
commit-Keeps x now e hash size rows = ground (
  arith,
  same-Keeps x rows rows refl,
  transition-Keeps x now e committed (some hash) (some size) none rows,
)

pub fail-Keeps :
    (x : String) (now : ℕ) (e code : String) (rows : List EffectRow)
    → Keeps x rows (fail now e code rows).1
unfolding fail
fail-Keeps x now e code rows =
    ground (
      arith,
      same-Keeps x rows rows refl,
      transition-Keeps x now e failed none none (some code) rows,
    )

pub mark-Keeps :
    (x : String) (now : ℕ) (e code : String) (rows : List EffectRow)
    → Keeps x rows (mark_indeterminate now e code rows).1
unfolding mark_indeterminate
mark-Keeps x now e code rows = ground (
  arith,
  same-Keeps x rows rows refl,
  transition-Keeps x now e indeterminate none none (some code) rows,
)

review-Keeps :
    (x : String) (now : ℕ) (e o p r disposition reviewer : String) (rows : List EffectRow)
    → Keeps x rows (review_indeterminate now e o p r disposition reviewer rows).1
unfolding review_indeterminate
review-Keeps x now e o p r disposition reviewer rows =
    same-Keeps x rows (review_indeterminate now e o p r disposition reviewer rows).1 (
      ground (
        arith,
        matched-update (has_id x) (is_reviewable e o p r) (review now disposition reviewer) rows
            (λ row. refl),
      ))

-- What a reservation does to the rows of an effect.
pub record Reserved (x : String) (b : EffectBinding) (rows : List EffectRow)
    (outcome : Outcome EffectReservation) : Type 0 where
  pub keeps : Keeps x rows outcome.1
  pub grants :
      (r : EffectReservation)
      → outcome.0 ≡ ok r
      → r.should_execute ≡ true
      → (rows_of x outcome.1 ≡ rows_of x rows + bit (str_eq b.effect_id x))
        × (str_eq b.effect_id x ≡ true → rows_of x rows ≡ 0)

insert_or_read-Reserved :
    (x : String) (now : ℕ) (b : EffectBinding) (rows : List EffectRow) (found : Option EffectRow)
    → select (has_id b.effect_id) rows ≡ found
    → Reserved x b rows (insert_or_read now b rows found)
insert_or_read-Reserved x now b rows none absent = record {
  keeps = record { kept = omega (arith, grows); single = λ h. ground (arith, grows, none_yet) };
  grants = λ r e yes. (ground (arith, grows), none_yet);
}
  where
    grows :
        rows_of x (rows ++ (new_row now b ∷ [])) ≡ rows_of x rows + rows_of x (new_row now b ∷ [])
    grows = matched-append (has_id x) rows (new_row now b ∷ [])

    none_yet : str_eq b.effect_id x ≡ true → rows_of x rows ≡ 0
    none_yet same =
        rw (← (eq_iff b.effect_id x).0 same) (select-matched (has_id b.effect_id) rows absent)
insert_or_read-Reserved x now b rows (some row) there = record {
  keeps = same-Keeps x rows rows refl;
  grants = λ r e yes. absurd (ground (arith, e, yes));
}

pub reserve-Reserved :
    (x : String) (now : ℕ) (b : EffectBinding) (rows : List EffectRow)
    → Reserved x b rows (reserve now b rows)
unfolding reserve
reserve-Reserved x now b rows =
    elim (Bool-cases (effect_id_ok b.effect_id && digest_ok b.schema_hash)) [
      | inl good ↦
          rw good (insert_or_read-Reserved x now b rows (select (has_id b.effect_id) rows) refl)
      | inr bad ↦
          rw bad (record { keeps = same-Keeps x rows rows refl; grants = λ r e yes. absurd (cc) })
    ]

under-Keeps :
    {A : Type 0} (x : String) (w : Weather) (rows : List EffectRow) (outcome : Outcome A)
    → Keeps x rows outcome.1
    → Keeps x rows (under w rows outcome).1
under-Keeps x fine rows outcome k = k
under-Keeps x lost rows outcome k = same-Keeps x rows rows refl
under-Keeps x unacknowledged rows (_, rows') k = k

pub under-Reserved :
    (x : String) (w : Weather) (b : EffectBinding) (rows : List EffectRow)
    (outcome : Outcome EffectReservation)
    → Reserved x b rows outcome
    → Reserved x b rows (under w rows outcome)
under-Reserved x fine b rows outcome h = h
under-Reserved x lost b rows outcome h = record {
  keeps = same-Keeps x rows rows refl;
  grants = λ r e yes. absurd (cc);
}
under-Reserved x unacknowledged b rows (_, rows') h = record {
  keeps = h.keeps;
  grants = λ r e yes. absurd (cc);
}

pub resume-Keeps :
    (x : String) (now : ℕ) (w : Weather) (c : Bool) (b : EffectBinding) (phase : Phase)
    (rows : List EffectRow)
    → Keeps x rows (resume now w c b phase rows).1
unfolding resume
resume-Keeps x now w c b (committing hash size) rows =
    under-Keeps x w rows (commit now b.effect_id hash size rows)
      (commit-Keeps x now b.effect_id hash size rows)
resume-Keeps x now w c b (failing code exit) rows =
    under-Keeps x w rows (fail now b.effect_id code rows) (fail-Keeps x now b.effect_id code rows)
resume-Keeps x now w c b (marking code c' next) rows =
    under-Keeps x w rows (mark_indeterminate now b.effect_id code rows)
      (mark-Keeps x now b.effect_id code rows)
resume-Keeps x now w c b _ rows = same-Keeps x rows rows refl

pub apply-Keeps :
    (x : String) (now : ℕ) (op : Op) (rows : List EffectRow) → Keeps x rows (apply now op rows)
unfolding apply recover_stale_reservations
apply-Keeps x now (reserve_op b) rows = (reserve-Reserved x now b rows).keeps
apply-Keeps x now (commit_op e hash size) rows = commit-Keeps x now e hash size rows
apply-Keeps x now (fail_op e code) rows = fail-Keeps x now e code rows
apply-Keeps x now (mark_op e code) rows = mark-Keeps x now e code rows
apply-Keeps x now (recover_op cutoff) rows =
    same-Keeps x rows (update (is_stale cutoff) (lapse now) rows)
      (matched-update (has_id x) (is_stale cutoff) (lapse now) rows (λ row. refl))
apply-Keeps x now (review_op e o p r disposition reviewer) rows =
    review-Keeps x now e o p r disposition reviewer rows
