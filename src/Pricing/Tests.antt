-- ===== src/Pricing/Tests.antt =====
-- Prices of concrete calls, and the theorems at concrete inputs.
use mathlib.Core.List.{Memᴰ}
use cogentrex.Prelude.{ℕ, ◌≤◌, ◌≡◌, refl, none, some, List, [], ◌∷◌, String, arith, ok, err}
use cogentrex.Pricing.{
  anthropic, validated_pricing_pair, priceable, family_of, allows, price_model_usage_nusd,
  price_pair, pricing_of, amount, supports_cache_pricing, quote_model_call_nusd, quote_all,
  quote_candidate, quote_pair, maximum, unknown_model_pricing, family_name,
}
use cogentrex.Pricing.Pairs.{validated_pricing_pair_idem}
use cogentrex.Pricing.Dominance.{price-le-quote}

abbrev candidates : List (String × String)
candidates = ("openai", "gpt-4o") ∷ ("anthropic", "claude-haiku-3") ∷ []

haiku :
    validated_pricing_pair "claude-haiku-3" "AnthropicAdapter" ≡ ok (anthropic, "claude-haiku-3")
unfolding validated_pricing_pair priceable family_of allows
haiku = refl

unknown : validated_pricing_pair "default" "openai" ≡ err unknown_model_pricing
unfolding validated_pricing_pair priceable family_of allows
unknown = refl

-- 7 tokens written to the cache at 312.5 nano-dollars each are rounded up.
haiku_price : price_model_usage_nusd "claude-haiku-3" "anthropic" 10 2 none (some 7) ≡ ok 5438
unfolding price_model_usage_nusd price_pair validated_pricing_pair priceable family_of allows
    pricing_of amount supports_cache_pricing
haiku_price = refl

quoted : quote_model_call_nusd candidates 1000 500 ≡ ok 7500000
unfolding quote_model_call_nusd quote_all quote_candidate quote_pair maximum price_model_usage_nusd
    price_pair validated_pricing_pair priceable family_of allows pricing_of amount
    supports_cache_pricing
quoted = refl

validated_pricing_pair_idem_example :
    validated_pricing_pair "claude-haiku-3" (family_name anthropic)
    ≡ ok (anthropic, "claude-haiku-3")
validated_pricing_pair_idem_example =
    validated_pricing_pair_idem "claude-haiku-3" "AnthropicAdapter" haiku

abbrev haiku_listed : Memᴰ {A = String × String} ("anthropic", "claude-haiku-3") candidates
haiku_listed = Memᴰ.tail (Memᴰ.head refl)

price-le-quote_example :
    (a : ℕ) × (price_model_usage_nusd "claude-haiku-3" "AnthropicAdapter" 900 500
        (some 100)
        (some 700)
      ≡ ok a)
    × (a ≤ 7500000)
unfolding validated_pricing_pair priceable family_of allows
price-le-quote_example =
    price-le-quote candidates 1000 500 "anthropic" "claude-haiku-3" "AnthropicAdapter"
      "claude-haiku-3" 900 500 (some 100) (some 700) quoted haiku_listed refl haiku (omega arith)
      (omega arith) (omega arith)
