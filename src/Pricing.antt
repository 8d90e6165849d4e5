-- ===== src/Pricing.antt =====
-- Exact nano-dollar prices of model calls: backend/app/observability/cost_tracker.py.
-- The source multiplies decimal rates per 1,000 tokens by 10^9 / 1,000 and rounds up. A rate here is
-- the same decimal as a whole number of tenths of a nano-dollar per token (the finest published rate,
-- 0.0003125 dollars per 1,000 tokens, is 3125 of them), so the sums are exact, as in the source.
pub mod Pairs
pub mod Corners
pub mod Covers
pub mod Dominance
mod Tests
use cogentrex.Prelude.{
  ℕ, ◌+◌, ◌-◌, ◌*◌, ◌/◌, Bool, true, false, not, ◌&&◌, ◌||◌, Option, none, some, List, [], ◌∷◌,
  String, str_eq, codes, leb, ◌==◌, if◌then◌else◌, Result, ok, err, ◌>>=◌, ◌>>◌, raise_unless,
}
use Prim.Native.Nat.{max}

pub data Family : Type 0 where
  openai anthropic foundry ollama mock : Family

pub data PricingError : Type 0 where
  unknown_model_pricing bad_value overflow : PricingError

pub record ModelPricing : Type 0 where
  pub input : ℕ
  pub output : ℕ
  pub cache_read : Option ℕ
  pub cache_write : Option ℕ
  pub providers : List Family

abbrev pub max_bigint : ℕ
max_bigint = 9223372036854775807

abbrev plain : ℕ → ℕ → List Family → ModelPricing
plain input output providers = record {
  input = input;
  output = output;
  cache_read = none;
  cache_write = none;
  providers = providers;
}

abbrev cached : ℕ → ℕ → ℕ → ℕ → ModelPricing
cached input output read write = record {
  input = input;
  output = output;
  cache_read = some read;
  cache_write = some write;
  providers = anthropic ∷ foundry ∷ [];
}

-- `MODEL_PRICING`.
unfoldable pub model_pricing : List (String × ModelPricing)
model_pricing =
    ("claude-opus-4-6", cached 50000 250000 5000 62500)
    ∷ ("claude-sonnet-4-20250514", cached 30000 150000 3000 37500)
    ∷ ("claude-haiku-3", cached 2500 12500 250 3125)
    ∷ ("gpt-4o", plain 25000 100000 (openai ∷ foundry ∷ []))
    ∷ ("gpt-4o-mini", plain 1500 6000 (openai ∷ foundry ∷ []))
    ∷ ("gpt-4-turbo", plain 100000 300000 (openai ∷ foundry ∷ []))
    ∷ ("o1", plain 150000 600000 (openai ∷ foundry ∷ []))
    ∷ ("llama3.1:8b", plain 0 0 (ollama ∷ []))
    ∷ ("llava:7b", plain 0 0 (ollama ∷ []))
    ∷ ("mock-model", plain 0 0 (mock ∷ []))
    ∷ ("default", plain 10000 20000 [])
    ∷ []

unfoldable pub lookup_pricing : String → List (String × ModelPricing) → Option ModelPricing
lookup_pricing model [] = none
lookup_pricing model ((name, pricing) ∷ rest) =
    if str_eq name model then some pricing else lookup_pricing model rest

pub same_family : Family → Family → Bool
same_family openai openai = true
same_family anthropic anthropic = true
same_family foundry foundry = true
same_family ollama ollama = true
same_family mock mock = true
same_family _ _ = false

unfoldable pub allows : List Family → Family → Bool
unfolding same_family
allows [] f = false
allows (g ∷ gs) f = same_family g f || allows gs f

-- `str.casefold` on ASCII text. (`_id` lets no other provider name through to the repository.)
unfoldable pub casefold : List ℕ → List ℕ
casefold [] = []
casefold (c ∷ cs) = (if leb b'A' c && leb c b'Z' then c + 32 else c) ∷ casefold cs

pub same_codes : List ℕ → List ℕ → Bool
same_codes [] [] = true
same_codes (a ∷ as') (b ∷ bs) = a == b && same_codes as' bs
same_codes _ _ = false

-- The dictionary `aliases`.
unfoldable pub aliases : List (String × Family)
aliases =
    ("openai", openai)
    ∷ ("openaiadapter", openai)
    ∷ ("anthropic", anthropic)
    ∷ ("anthropicadapter", anthropic)
    ∷ ("foundry", foundry)
    ∷ ("foundryadapter", foundry)
    ∷ ("ollama", ollama)
    ∷ ("ollamaadapter", ollama)
    ∷ ("mock", mock)
    ∷ []

unfoldable pub lookup_alias : List ℕ → List (String × Family) → Option Family
unfolding same_codes
lookup_alias provider [] = none
lookup_alias provider ((name, f) ∷ rest) =
    if same_codes (codes name) provider then some f else lookup_alias provider rest

abbrev pub family_name : Family → String
family_name openai = "openai"
family_name anthropic = "anthropic"
family_name foundry = "foundry"
family_name ollama = "ollama"
family_name mock = "mock"

-- The pricing entry of a model that may be priced exactly.
unfoldable pub priceable : String → Option ModelPricing
unfolding lookup_pricing model_pricing
priceable model =
    if str_eq model "" || str_eq model "default" then none else lookup_pricing model model_pricing

unfoldable pub family_of : String → Option Family
unfolding casefold lookup_alias aliases
family_of provider = lookup_alias (casefold (codes provider)) aliases

abbrev check_family : String → ModelPricing → Option Family → Result PricingError (Family × String)
check_family model pricing none = err unknown_model_pricing
check_family model pricing (some f) =
    if allows pricing.providers f then ok (f, model) else err unknown_model_pricing

abbrev check_provider :
    String → String → Option ModelPricing → Result PricingError (Family × String)
check_provider model provider none = err unknown_model_pricing
check_provider model provider (some pricing) =
    if str_eq provider "" then err bad_value else check_family model pricing (family_of provider)

unfoldable pub validated_pricing_pair : String → String → Result PricingError (Family × String)
validated_pricing_pair model provider = check_provider model provider (priceable model)

-- `_supports_cache_pricing` at a canonical family name.
unfoldable pub supports_cache_pricing : Family → Bool
supports_cache_pricing anthropic = true
supports_cache_pricing foundry = true
supports_cache_pricing _ = false

abbrev pub or_else : Option ℕ → ℕ → ℕ
or_else none d = d
or_else (some r) d = r

abbrev pub rate : Bool → Option ℕ → ℕ → ℕ
rate supported cache_rate input = if supported then or_else cache_rate input else input

abbrev pub count_ok : Option ℕ → Bool
count_ok none = true
count_ok (some n) = leb n max_bigint

-- The price in tenths of a nano-dollar, before it is rounded up.
unfoldable pub amount : ModelPricing → Bool → ℕ → ℕ → ℕ → ℕ → ℕ
amount pricing supported input output read write =
    (input - read - write) * pricing.input
    + read * rate supported pricing.cache_read pricing.input
    + write * rate supported pricing.cache_write pricing.input
    + output * pricing.output

-- `to_integral_value(rounding=ROUND_CEILING)`.
abbrev pub ceiling : ℕ → ℕ
ceiling tenths = (tenths + 9) / 10

-- `MODEL_PRICING[model]`: every priced model has passed the check above.
unfoldable pub pricing_of : String → ModelPricing
pricing_of model = elim (priceable model) [ none ↦ plain 0 0 [] | some pricing ↦ pricing ]

-- The price of a canonical pair, the checks of the counts included.
unfoldable pub price_pair : Family × String → ℕ → ℕ → Option ℕ → Option ℕ → Result PricingError ℕ
price_pair (family, model) input output cache_read cache_write = do
  raise_unless (leb input max_bigint) bad_value
  raise_unless (leb output max_bigint) bad_value
  raise_unless (count_ok cache_read) bad_value
  raise_unless (count_ok cache_write) bad_value
  raise_unless (leb (or_else cache_read 0 + or_else cache_write 0) input) bad_value
  let integral = ceiling (
      amount (pricing_of model) (supports_cache_pricing family) input output (or_else cache_read 0)
        (or_else cache_write 0))
  raise_unless (leb integral max_bigint) overflow
  ok integral

unfoldable pub price_model_usage_nusd :
    String → String → ℕ → ℕ → Option ℕ → Option ℕ → Result PricingError ℕ
price_model_usage_nusd model provider input output cache_read cache_write = do
  pair ← validated_pricing_pair model provider
  price_pair pair input output cache_read cache_write

-- One more entry of `candidate_quotes`, where it is eligible; the largest is kept.
abbrev pub also : Bool → ℕ → Result PricingError ℕ → Result PricingError ℕ
also false best quote = ok best
also true best (ok quote) = ok (max best quote)
also true best (err e) = err e

abbrev pub is_some : Option ℕ → Bool
is_some none = false
is_some (some _) = true

-- The body of the loop over the candidates, from `validated_pricing_pair` on.
unfoldable pub quote_pair : ℕ → ℕ → Family × String → Result PricingError ℕ
quote_pair max_input max_output (family, model) = do
  let provider = family_name family
  let cache = supports_cache_pricing family
  let pricing = pricing_of model
  plain_quote ← price_model_usage_nusd model provider max_input max_output none none
  read_quote ←
      also (cache && is_some pricing.cache_read) plain_quote
        (price_model_usage_nusd model provider max_input max_output (some max_input) none)
  also (cache && is_some pricing.cache_write) read_quote
      (price_model_usage_nusd model provider max_input max_output none (some max_input))

unfoldable pub quote_candidate : ℕ → ℕ → String × String → Result PricingError ℕ
quote_candidate max_input max_output (provider, model) = do
  raise_unless (not (str_eq provider "" || str_eq model "")) bad_value
  pair ← validated_pricing_pair model provider
  quote_pair max_input max_output pair

unfoldable pub quote_all : ℕ → ℕ → List (String × String) → Result PricingError (List ℕ)
quote_all max_input max_output [] = ok []
quote_all max_input max_output (c ∷ cs) = do
  quote ← quote_candidate max_input max_output c
  quotes ← quote_all max_input max_output cs
  ok (quote ∷ quotes)

unfoldable pub maximum : List ℕ → ℕ
maximum [] = 0
maximum (q ∷ qs) = max q (maximum qs)

abbrev is_empty {ℓ} : {A : Type ℓ} → List A → Bool
is_empty [] = true
is_empty (_ ∷ _) = false

unfoldable pub quote_model_call_nusd : List (String × String) → ℕ → ℕ → Result PricingError ℕ
quote_model_call_nusd candidates max_input max_output = do
  raise_unless (leb max_input max_bigint) bad_value
  raise_unless (leb max_output max_bigint) bad_value
  raise_unless (not (is_empty candidates)) bad_value
  quotes ← quote_all max_input max_output candidates
  ok (maximum quotes)
