-- ===== src/Ledger/Turns.antt =====
-- One turn of the loop over pages in backend/app/services/run_exports.py.
use cogentrex.Prelude.{
  length-drop, take, drop, append_nil, append_assoc, map-append, length-map, ℕ, zero, suc, ◌+◌, ◌-◌,
  ◌≤◌, ◌≡◌, refl, ◌∙◌, ap, inl, inr, true, false, Option, some, List, [], ◌∷◌, ◌++◌, map, length,
  ltb, if◌then◌else◌, Bool-cases, arith, ok,
}
use cogentrex.Ledger.Rows.{Members, RuntimeEventRow}
use cogentrex.Ledger.Events.{RunEventRecord, record_with}
use cogentrex.Ledger.Exports.{ExportedEvent, exported, last_sequence, Gathered, is_more, after_page}
use cogentrex.Ledger.Takes.{take_all, take-drop, length-take, take_none}
use cogentrex.Ledger.Paging.{last_of}

-- The record of a row with a payload.
abbrev pub rec : (RuntimeEventRow → Members) → RuntimeEventRow → RunEventRecord
rec payload row = record_with row (payload row)

last_sequence-last_of :
    (payload : RuntimeEventRow → Members) (x : RuntimeEventRow) (n : ℕ)
    (rows : List RuntimeEventRow)
    → last_sequence (rec payload x) (map (rec payload) (take n rows)) ≡ last_of x n rows
last_sequence-last_of payload x zero rows = refl
last_sequence-last_of payload x (suc n) [] = refl
last_sequence-last_of payload x (suc n) (y ∷ rows) = last_sequence-last_of payload y n rows

-- What the loop has to answer when there is room for some more events and these rows are left.
abbrev pub answer :
    (RuntimeEventRow → Members) → ℕ → List ExportedEvent → List RuntimeEventRow → Option Gathered
answer payload room gathered rows = some (
    ok (
      some (gathered ++ map exported (map (rec payload) (take room rows)), ltb room (length rows))))

pub probe-answer :
    (payload : RuntimeEventRow → Members) (room : ℕ) (gathered : List ExportedEvent)
    (rows : List RuntimeEventRow)
    → room ≡ 0
    → some (ok (some (gathered, is_more (map (rec payload) (take 1 rows)))))
      ≡ answer payload room gathered rows
probe-answer payload room gathered [] none_left = rw (none_left, append_nil gathered) refl
probe-answer payload room gathered (x ∷ rows) none_left =
    let more : ltb 0 (suc (length rows)) ≡ true = ground arith in
    rw (none_left, append_nil gathered, more) refl

-- A full page, and the answer for the rest.
answer-step :
    (payload : RuntimeEventRow → Members) (n room : ℕ) (gathered : List ExportedEvent)
    (rows : List RuntimeEventRow)
    → n ≤ room
    → n ≤ length rows
    → answer payload
        (room - n)
        (gathered ++ map exported (map (rec payload) (take n rows)))
        (drop n rows)
      ≡ answer payload room gathered rows
answer-step payload n room gathered rows le full =
    let split : room ≡ n + (room - n) = omega (arith, le) in
    let whole : take room rows ≡ take n rows ++ take (room - n) (drop n rows) =
      ap (λ m. take m rows) split ∙ take-drop n (room - n) rows in
    let more : ltb (room - n) (length (drop n rows)) ≡ ltb room (length rows) =
      rw (length-drop n rows) (ground (arith, le, full)) in
    let joined : map exported (map (rec payload) (take room rows))
        ≡ map exported (map (rec payload) (take n rows))
          ++ map exported (map (rec payload) (take (room - n) (drop n rows))) =
      ap (λ xs. map exported (map (rec payload) xs)) whole
      ∙ ap (map exported) (map-append (rec payload) (take n rows) (take (room - n) (drop n rows)))
      ∙ map-append exported (map (rec payload) (take n rows))
          (map (rec payload) (take (room - n) (drop n rows))) in
    rw (joined, more)
      (rw
        (append_assoc gathered (map exported (map (rec payload) (take n rows)))
          (map exported (map (rec payload) (take (room - n) (drop n rows)))))
        refl)

pub turn-answer :
    (payload : RuntimeEventRow → Members) (k room : ℕ) (gathered : List ExportedEvent)
    (next : List ExportedEvent → ℕ → Option Gathered) (rows : List RuntimeEventRow)
    → suc k ≤ room
    → ((x : RuntimeEventRow) (xs : List RuntimeEventRow)
        → rows ≡ x ∷ xs
        → suc k ≤ length rows
        → let more = gathered ++ map exported (map (rec payload) (take (suc k) rows)) in
          next more (last_of x k xs) ≡ answer payload (room - suc k) more (drop (suc k) rows))
    → after_page (suc k) gathered next (ok (some (map (rec payload) (take (suc k) rows))))
      ≡ answer payload room gathered rows
turn-answer payload k room gathered next [] le continue =
    let none_left : ltb room 0 ≡ false = ground arith in
    rw (take_none {A = RuntimeEventRow} room, append_nil gathered, none_left) refl
turn-answer payload k room gathered next (x ∷ rows) le continue =
    let counted : length (map (rec payload) (take (suc k) (x ∷ rows)))
        ≡ (if ltb (length (x ∷ rows)) (suc k) then length (x ∷ rows) else suc k) =
      length-map (rec payload) (take (suc k) (x ∷ rows)) ∙ length-take (suc k) (x ∷ rows) in
    elim (Bool-cases (ltb (length (x ∷ rows)) (suc k))) [
      | inl short ↦
          let few : length (x ∷ rows) ≤ suc k = ground (arith, short) in
          let part : take k rows ≡ rows = take_all k rows (omega (arith, few)) in
          let whole : take room (x ∷ rows) ≡ x ∷ rows =
            take_all room (x ∷ rows) (omega (arith, few, le)) in
          let done : ltb room (length (x ∷ rows)) ≡ false = ground (arith, few, le) in
          let last : ltb (length (map (rec payload) (take (suc k) (x ∷ rows)))) (suc k) ≡ true =
            rw (counted, short) short in
          rw last (rw (part, whole, done) refl)
      | inr full ↦
          let enough : suc k ≤ length (x ∷ rows) = ground (arith, full) in
          let more : ltb (length (map (rec payload) (take (suc k) (x ∷ rows)))) (suc k) ≡ false =
            rw (counted, full) (ground arith) in
          rw (more, last_sequence-last_of payload x k rows)
            (continue x rows refl enough
              ∙ answer-step payload (suc k) room gathered (x ∷ rows) le enough)
    ]
