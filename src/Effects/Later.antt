-- ===== src/Effects/Later.antt =====
-- What becomes of the rows of effects in every repository call.
use cogentrex.Prelude.{
  ℕ, ◌≡◌, refl, Bool, true, false, ◌&&◌, ◌==◌, Option, none, some, List, [], ◌∷◌, String, update,
  matched, select, ltb, &&-elim, if◌then◌else◌,
}
use cogentrex.Effects.Rows.{
  disposition_ok, reviewer_ok, EffectState, committed, failed, indeterminate, is_reserved,
  EffectRow, EffectBinding, effect_id_ok, digest_ok, size_ok, safe_code_ok,
}
use cogentrex.Effects.Repository.{
  has_id, is_open, complete, insert_or_read, new_row, reserve, transition, commit, fail,
  mark_indeterminate, is_stale, lapse, recover_stale_reservations, is_reviewable, review,
  review_indeterminate, Op, reserve_op, commit_op, fail_op, mark_op, recover_op, review_op, apply,
  Outcome,
}
use cogentrex.Effects.Tables.{Grows, Grows-refl, Grows-append, Grows-update}

-- A row keeps its identity; once it is not reserved it keeps its outcome, and once it is reviewed
-- its review.
pub record Later (row row' : EffectRow) : Type 0 where
  pub effect_id : row'.effect_id ≡ row.effect_id
  pub owner_id : row'.owner_id ≡ row.owner_id
  pub project_id : row'.project_id ≡ row.project_id
  pub run_id : row'.run_id ≡ row.run_id
  pub reserved_at : row'.reserved_at ≡ row.reserved_at
  pub final :
      is_reserved row.state ≡ false
      → (row'.state ≡ row.state)
        × (row'.output_hash ≡ row.output_hash)
        × (row'.output_size ≡ row.output_size)
        × (row'.failure_code ≡ row.failure_code)
        × (row'.completed_at ≡ row.completed_at)

pub Later-refl : (row : EffectRow) → Later row row
Later-refl row = record {
  effect_id = refl;
  owner_id = refl;
  project_id = refl;
  run_id = refl;
  reserved_at = refl;
  final = λ settled. (refl, refl, refl, refl, refl);
}

pub Later-trans : (a b c : EffectRow) → Later a b → Later b c → Later a c
Later-trans a b c ab bc = record {
  effect_id = cc;
  owner_id = cc;
  project_id = cc;
  run_id = cc;
  reserved_at = cc;
  final = λ settled.
      let (state, hash, size, code, time) = ab.final settled in
      let (state', hash', size', code', time') = bc.final (rw state settled) in
      (cc, cc, cc, cc, cc);
}

-- An update of reserved rows.
Later-open :
    (row row' : EffectRow)
    → is_reserved row.state ≡ true
    → row'.effect_id ≡ row.effect_id
    → row'.owner_id ≡ row.owner_id
    → row'.project_id ≡ row.project_id
    → row'.run_id ≡ row.run_id
    → row'.reserved_at ≡ row.reserved_at
    → Later row row'
Later-open row row' active i o p r t = record {
  effect_id = i;
  owner_id = o;
  project_id = p;
  run_id = r;
  reserved_at = t;
  final = λ settled. absurd (cc);
}

abbrev Rows : Type 0
Rows = List EffectRow

abbrev pub Becomes : Rows → Rows → Type 0
Becomes = Grows Later

pub Becomes-refl : (rows : Rows) → Becomes rows rows
Becomes-refl rows = Grows-refl Later Later-refl rows

if-Becomes :
    {A : Type 0} (c : Bool) (rows : Rows) (x y : Outcome A)
    → Becomes rows x.1
    → Becomes rows y.1
    → Becomes rows (if c then x else y).1
if-Becomes true rows x y h k = h
if-Becomes false rows x y h k = k

transition-Becomes :
    (now : ℕ) (e : String) (state : EffectState) (hash : Option String) (size : Option ℕ)
    (code : Option String) (rows : Rows)
    → Becomes rows (transition now e state hash size code rows).1
unfolding transition
transition-Becomes now e state hash size code rows =
    if-Becomes (effect_id_ok e) rows _ _
      (if-Becomes (matched (is_open e) rows == 1) rows _ _ changed (Becomes-refl rows))
      (Becomes-refl rows)
  where
    changed : Becomes rows (update (is_open e) (complete now state hash size code) rows)
    changed =
        Grows-update Later (is_open e) (complete now state hash size code) rows Later-refl
          λ row hit.
            Later-open row (complete now state hash size code row)
              (&&-elim (has_id e row) (is_reserved row.state) hit).1 refl refl refl refl refl

pub commit-Becomes :
    (now : ℕ) (e hash : String) (size : ℕ) (rows : Rows)
    → Becomes rows (commit now e hash size rows).1
unfolding commit
commit-Becomes now e hash size rows =
    if-Becomes (digest_ok hash && size_ok size) rows _ _
      (transition-Becomes now e committed (some hash) (some size) none rows) (Becomes-refl rows)

pub fail-Becomes : (now : ℕ) (e code : String) (rows : Rows) → Becomes rows (fail now e code rows).1
unfolding fail
fail-Becomes now e code rows =
    if-Becomes (safe_code_ok code) rows _ _
      (transition-Becomes now e failed none none (some code) rows) (Becomes-refl rows)

pub mark-Becomes :
    (now : ℕ) (e code : String) (rows : Rows) → Becomes rows (mark_indeterminate now e code rows).1
unfolding mark_indeterminate
mark-Becomes now e code rows =
    if-Becomes (safe_code_ok code) rows _ _
      (transition-Becomes now e indeterminate none none (some code) rows) (Becomes-refl rows)

review-Becomes :
    (now : ℕ) (e o p r disposition reviewer : String) (rows : Rows)
    → Becomes rows (review_indeterminate now e o p r disposition reviewer rows).1
unfolding review_indeterminate
review-Becomes now e o p r disposition reviewer rows =
    if-Becomes (effect_id_ok e && disposition_ok disposition && reviewer_ok reviewer) rows _ _
      (if-Becomes (matched (is_reviewable e o p r) rows == 1) rows _ _
        (Grows-update Later (is_reviewable e o p r) (review now disposition reviewer) rows
          Later-refl
          λ row hit. record {
            effect_id = refl;
            owner_id = refl;
            project_id = refl;
            run_id = refl;
            reserved_at = refl;
            final = λ settled. (refl, refl, refl, refl, refl);
          })
        (Becomes-refl rows))
      (Becomes-refl rows)

insert_or_read-Becomes :
    (now : ℕ) (b : EffectBinding) (rows : Rows) (found : Option EffectRow)
    → Becomes rows (insert_or_read now b rows found).1
insert_or_read-Becomes now b rows none = Grows-append Later Later-refl rows (new_row now b ∷ [])
insert_or_read-Becomes now b rows (some row) = Becomes-refl rows

pub reserve-Becomes :
    (now : ℕ) (b : EffectBinding) (rows : Rows) → Becomes rows (reserve now b rows).1
unfolding reserve
reserve-Becomes now b rows =
    if-Becomes (effect_id_ok b.effect_id && digest_ok b.schema_hash) rows _ _
      (insert_or_read-Becomes now b rows (select (has_id b.effect_id) rows)) (Becomes-refl rows)

recover-Becomes :
    (now cutoff : ℕ) (rows : Rows) → Becomes rows (recover_stale_reservations now cutoff rows).1
unfolding recover_stale_reservations
recover-Becomes now cutoff rows =
    Grows-update Later (is_stale cutoff) (lapse now) rows Later-refl λ row hit.
      Later-open row (lapse now row)
        (&&-elim (is_reserved row.state) (ltb row.reserved_at cutoff) hit).0 refl refl refl refl
        refl

pub apply-Becomes : (now : ℕ) (op : Op) (rows : Rows) → Becomes rows (apply now op rows)
unfolding apply
apply-Becomes now (reserve_op b) rows = reserve-Becomes now b rows
apply-Becomes now (commit_op e hash size) rows = commit-Becomes now e hash size rows
apply-Becomes now (fail_op e code) rows = fail-Becomes now e code rows
apply-Becomes now (mark_op e code) rows = mark-Becomes now e code rows
apply-Becomes now (recover_op cutoff) rows = recover-Becomes now cutoff rows
apply-Becomes now (review_op e o p r disposition reviewer) rows =
    review-Becomes now e o p r disposition reviewer rows
