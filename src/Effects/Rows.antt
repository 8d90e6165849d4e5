-- ===== src/Effects/Rows.antt =====
-- The rows of the table `effects`, and the checks of the repository's arguments.
use cogentrex.Prelude.{
  ℕ, Bool, true, false, not, ◌&&◌, ◌||◌, List, [], ◌∷◌, String, codes, length, str_eq, leb, ltb,
  ◌==◌, Option, none, some,
}
use cogentrex.Pricing.{max_bigint}

pub data EffectState : Type 0 where
  reserved committed failed indeterminate : EffectState

abbrev pub is_reserved : EffectState → Bool
is_reserved reserved = true
is_reserved _ = false

abbrev pub is_indeterminate : EffectState → Bool
is_indeterminate indeterminate = true
is_indeterminate _ = false

pub data EffectError : Type 0 where
  bad_value state_conflict review_conflict reservation_unavailable : EffectError
  -- An error of the database, of which the repository knows nothing.
  database_error : EffectError

-- `EffectRow`, which `EffectRecord` repeats field by field.
pub record EffectRow : Type 0 where
  pub effect_id : String
  pub identity_version : ℕ
  pub owner_id : String
  pub project_id : String
  pub run_id : String
  pub tool_name : String
  pub schema_hash : String
  pub state : EffectState
  pub output_hash : Option String
  pub output_size : Option ℕ
  pub failure_code : Option String
  pub reserved_at : ℕ
  pub completed_at : Option ℕ
  pub review_disposition : Option String
  pub reviewed_by : Option String
  pub reviewed_at : Option ℕ

-- `EffectBinding`, which its own constructor has checked.
pub record EffectBinding : Type 0 where
  pub effect_id : String
  pub identity_version : ℕ
  pub owner_id : String
  pub project_id : String
  pub run_id : String
  pub tool_name : String
  pub schema_hash : String

lower : ℕ → Bool
lower c = leb b'a' c && leb c b'z'

digit : ℕ → Bool
digit c = leb b'0' c && leb c b'9'

all_hex : List ℕ → Bool
unfolding digit
all_hex [] = true
all_hex (c ∷ cs) = (digit c || (leb b'a' c && leb c b'f')) && all_hex cs

all_code : List ℕ → Bool
unfolding lower digit
all_code [] = true
all_code (c ∷ cs) = (lower c || digit c || c == b'_') && all_code cs

hex_64 : List ℕ → Bool
unfolding all_hex
hex_64 cs = length cs == 64 && all_hex cs

-- What follows a prefix, if the text starts with it.
after_prefix : List ℕ → List ℕ → Option (List ℕ)
after_prefix [] cs = some cs
after_prefix (p ∷ ps) [] = none
after_prefix (p ∷ ps) (c ∷ cs) = elim (p == c) [ true ↦ after_prefix ps cs | false ↦ none ]

-- `_EFFECT_ID`, `_HASH` and `_SAFE_CODE`, matched against the whole text.
unfoldable pub effect_id_ok : String → Bool
unfolding after_prefix hex_64
effect_id_ok value = elim (after_prefix (codes "eff_v1_") (codes value)) [
  | none ↦ false
  | some rest ↦ hex_64 rest
]

unfoldable pub digest_ok : String → Bool
unfolding hex_64
digest_ok value = hex_64 (codes value)

code_ok : List ℕ → Bool
unfolding lower all_code
code_ok [] = false
code_ok (c ∷ cs) = lower c && all_code cs && leb (length cs) 63

unfoldable pub safe_code_ok : String → Bool
unfolding code_ok
safe_code_ok value = code_ok (codes value)

printable : List ℕ → Bool
printable [] = true
printable (c ∷ cs) = not (ltb c 32 || (leb 55296 c && leb c 57343)) && printable cs

-- `_reviewer`.
unfoldable pub reviewer_ok : String → Bool
unfolding printable
reviewer_ok value =
    leb 1 (length (codes value)) && leb (length (codes value)) 255 && printable (codes value)

-- `_REVIEW_DISPOSITIONS`.
unfoldable pub disposition_ok : String → Bool
disposition_ok value =
    str_eq value "confirmed_committed"
    || str_eq value "confirmed_failed"
    || str_eq value "requires_compensation"

unfoldable pub size_ok : ℕ → Bool
size_ok size = leb size max_bigint
