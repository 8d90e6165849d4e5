-- ===== src/Budget/Ids.antt =====
-- The checks of arguments: `_id`, `_amount`, `_scope`.
use cogentrex.Prelude.{
  ℕ, Bool, true, false, ◌&&◌, ◌||◌, List, [], ◌∷◌, String, codes, length, leb, ◌==◌, Option, none,
  some,
}
use cogentrex.Pricing.{max_bigint}

alphanumeric : ℕ → Bool
alphanumeric c =
    (leb b'A' c && leb c b'Z') || (leb b'a' c && leb c b'z') || (leb b'0' c && leb c b'9')

safe_tail : List ℕ → Bool
unfolding alphanumeric
safe_tail [] = true
safe_tail (c ∷ cs) =
    (alphanumeric c || c == b'_' || c == b'.' || c == b':' || c == b'-') && safe_tail cs

-- `_SAFE_ID`, matched against the whole text.
safe_id : List ℕ → Bool
unfolding alphanumeric safe_tail
safe_id [] = false
safe_id (c ∷ cs) = alphanumeric c && safe_tail cs

unfoldable pub id_ok : String → ℕ → Bool
unfolding safe_id
id_ok value maximum = leb (length (codes value)) maximum && safe_id (codes value)

unfoldable pub amount_ok : ℕ → Bool
amount_ok value = leb value max_bigint

unfoldable pub optional_amount_ok : Option ℕ → Bool
unfolding amount_ok
optional_amount_ok none = true
optional_amount_ok (some value) = amount_ok value

unfoldable pub run_scope_ok : String → String → String → Bool
unfolding id_ok
run_scope_ok owner project run = id_ok owner 255 && id_ok project 255 && id_ok run 36

unfoldable pub scope_ok : String → String → String → String → Bool
unfolding id_ok
scope_ok charge owner project run =
    id_ok charge 128 && id_ok owner 255 && id_ok project 255 && id_ok run 36
