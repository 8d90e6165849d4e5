-- ===== src/Pricing/Pairs.antt =====
-- Canonical pairs: `validated_pricing_pair` and the prices that rest on it.
use cogentrex.Prelude.{
  ◌≡◌, refl, true, false, some, String, str_eq, arith, Option-cases, inl, inr, ok,
}
use cogentrex.Pricing.{
  Family, openai, anthropic, foundry, ollama, mock, ModelPricing, priceable, family_of, family_name,
  validated_pricing_pair, allows,
}

family_of-family_name : (f : Family) → family_of (family_name f) ≡ some f
unfolding family_of
family_of-family_name openai = refl
family_of-family_name anthropic = refl
family_of-family_name foundry = refl
family_of-family_name ollama = refl
family_of-family_name mock = refl

family_name_nonempty : (f : Family) → str_eq (family_name f) "" ≡ false
family_name_nonempty openai = refl
family_name_nonempty anthropic = refl
family_name_nonempty foundry = refl
family_name_nonempty ollama = refl
family_name_nonempty mock = refl

-- What a pair has passed.
record IsPair (model provider : String) (f : Family) (name : String) : Type 0 where
  pricing : ModelPricing
  found : priceable model ≡ some pricing
  allowed : allows pricing.providers f ≡ true
  named : name ≡ model

validated-IsPair :
    (model provider : String) {f : Family} {name : String}
    → validated_pricing_pair model provider ≡ ok (f, name)
    → IsPair model provider f name
unfolding validated_pricing_pair
validated-IsPair model provider {f} {name} e = elim (Option-cases (priceable model)) [
  | inl unknown ↦ ground arith
  | inr (pricing, found) ↦ elim (Option-cases (family_of provider)) [
    | inl stranger ↦ ground arith
    | inr (g, known) ↦ record {
      pricing = pricing;
      found = found;
      allowed = ground arith;
      named = ground arith;
    }
  ]
]

-- When a model and a provider validate to a family and a name, the name and the family's own name
-- validate to the same.
pub validated_pricing_pair_idem :
    (model provider : String) {f : Family} {name : String}
    → validated_pricing_pair model provider ≡ ok (f, name)
    → validated_pricing_pair name (family_name f) ≡ ok (f, name)
unfolding validated_pricing_pair
validated_pricing_pair_idem model provider {f} e =
    let p = validated-IsPair model provider e in
    rw (p.named, p.found, family_name_nonempty f, family_of-family_name f, p.allowed)
