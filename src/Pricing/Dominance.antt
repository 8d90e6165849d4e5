-- ===== src/Pricing/Dominance.antt =====
-- Quotes against the prices of reported usage.
use mathlib.Core.Path.{subst}
use mathlib.Core.List.{Memᴰ}
use cogentrex.Prelude.{
  ℕ, ◌+◌, ◌≤◌, ◌≡◌, leb, >>=-eq-ok, raise_unless, inl, inr, Option, List, [], ◌∷◌, String, arith,
  ok, str_eq, not, ◌||◌,
}
use cogentrex.Pricing.{
  Family, bad_value, validated_pricing_pair, amount, price_model_usage_nusd, pricing_of, or_else,
  max_bigint, supports_cache_pricing, ceiling, quote_candidate, quote_all, maximum, is_empty,
  quote_model_call_nusd,
}
use cogentrex.Pricing.Pairs.{validated_pricing_pair_idem}
use cogentrex.Pricing.Corners.{amount-corner}
use cogentrex.Pricing.Covers.{
  Covers, quote_candidate-Covers, Covers-weaken, quote_pair-Covers, price_pair-ok,
}

quote_candidate-fits :
    (n m : ℕ) (provider model : String) {q : ℕ}
    → quote_candidate n m (provider, model) ≡ ok q
    → q ≤ max_bigint
unfolding quote_candidate
quote_candidate-fits n m provider model {q} e =
    let (checked, _, rest) =
      >>=-eq-ok (raise_unless (not (str_eq provider "" || str_eq model "")) bad_value) _ e in
    let ((f, name), v, covered) = >>=-eq-ok (validated_pricing_pair model provider) _ rest in
    (quote_pair-Covers n m f name (validated_pricing_pair_idem model provider v) covered).fits

-- The quotes of a list with a first candidate.
quote_all-cons :
    (n m : ℕ) (c : String × String) (cs : List (String × String)) {qs : List ℕ}
    → quote_all n m (c ∷ cs) ≡ ok qs
    → (q : ℕ) × (rest : List ℕ) × (quote_candidate n m c ≡ ok q)
      × (quote_all n m cs ≡ ok rest)
      × (qs ≡ q ∷ rest)
unfolding quote_all
quote_all-cons n m c cs e =
    let (q, first, more) = >>=-eq-ok (quote_candidate n m c) _ e in
    let (rest, others, last) = >>=-eq-ok (quote_all n m cs) _ more in (q, rest, first, others, cc)

-- Every candidate's quote is within the maximum, and the maximum within the range.
quote_all-maximum :
    (n m : ℕ) (cs : List (String × String)) {qs : List ℕ}
    → quote_all n m cs ≡ ok qs
    → maximum qs ≤ max_bigint
unfolding maximum
quote_all-maximum n m [] {qs} e =
    let same : qs ≡ [] = unfold quote_all in cc in rw same (omega arith)
quote_all-maximum n m ((provider, model) ∷ cs) e =
    let (q, rest, first, others, same) = quote_all-cons n m (provider, model) cs e in
    rw same (
      omega (arith, quote_candidate-fits n m provider model first, quote_all-maximum n m cs others))

quote_all-Covers :
    (n m : ℕ) (provider model : String) (cs : List (String × String)) {f : Family} {name : String}
    {qs : List ℕ}
    → validated_pricing_pair model provider ≡ ok (f, name)
    → Memᴰ (provider, model) cs
    → quote_all n m cs ≡ ok qs
    → Covers n m f name (maximum qs)
quote_all-Covers n m provider model [] v at e = elim at [ ]
quote_all-Covers n m provider model (c ∷ cs) {f} {name} v (Memᴰ.head same) e =
    let (q, rest, first, others, split) = quote_all-cons n m c cs e in
    Covers-weaken n m f name q _ (quote_candidate-Covers n m provider model v (rw same first))
      (rw split (unfold maximum in omega arith)) (quote_all-maximum n m (c ∷ cs) e)
quote_all-Covers n m provider model (c ∷ cs) {f} {name} v (Memᴰ.tail at) e =
    let (q, rest, first, others, split) = quote_all-cons n m c cs e in
    Covers-weaken n m f name (maximum rest) _ (quote_all-Covers n m provider model cs v at others)
      (rw split (unfold maximum in omega arith)) (quote_all-maximum n m (c ∷ cs) e)

quote-Covers :
    (candidates : List (String × String)) (n m : ℕ) (provider model : String) {f : Family}
    {name : String} {q : ℕ}
    → quote_model_call_nusd candidates n m ≡ ok q
    → Memᴰ (provider, model) candidates
    → validated_pricing_pair model provider ≡ ok (f, name)
    → Covers n m f name q
unfolding quote_model_call_nusd
quote-Covers candidates n m provider model {f} {name} {q} e at v =
    let (_, _, e₁) = >>=-eq-ok (raise_unless (leb n max_bigint) bad_value) _ e in
    let (_, _, e₂) = >>=-eq-ok (raise_unless (leb m max_bigint) bad_value) _ e₁ in
    let (_, _, e₃) = >>=-eq-ok (raise_unless (not (is_empty candidates)) bad_value) _ e₂ in
    let (qs, quotes, last) = >>=-eq-ok (quote_all n m candidates) _ e₃ in
    let same : maximum qs ≡ q = cc in
    subst (Covers n m f name) same (quote_all-Covers n m provider model candidates v at quotes)

amount-fits :
    (n m : ℕ) (f : Family) (name : String) (q input output read write : ℕ)
    → Covers n m f name q
    → read + write ≤ input
    → input ≤ n
    → output ≤ m
    → ceiling (amount (pricing_of name) (supports_cache_pricing f) input output read write) ≤ q
amount-fits n m f name q input output read write c sub hi ho =
    elim (amount-corner (pricing_of name) (supports_cache_pricing f) input output read write n m sub
      hi ho) [
        | inl a ↦ omega (arith, c.fresh)
        | inr (inl a) ↦ omega (arith, c.read)
        | inr (inr a) ↦ omega (arith, c.written)
      ]

-- When a quote for a list of candidates succeeds, a usage within the quoted token limits that is
-- reported for the canonical pair of one of the candidates, its cache tokens among its input
-- tokens, has a price, and the price is at most the quote.
pub price-le-quote :
    (candidates : List (String × String)) (n m : ℕ) (provider model provider' model' : String)
    (input output : ℕ) (cr cw : Option ℕ) {f : Family} {name : String} {q : ℕ}
    → quote_model_call_nusd candidates n m ≡ ok q
    → Memᴰ (provider, model) candidates
    → validated_pricing_pair model provider ≡ ok (f, name)
    → validated_pricing_pair model' provider' ≡ ok (f, name)
    → input ≤ n
    → output ≤ m
    → or_else cr 0 + or_else cw 0 ≤ input
    → (a : ℕ) × (price_model_usage_nusd model' provider' input output cr cw ≡ ok a) × (a ≤ q)
unfolding price_model_usage_nusd
price-le-quote candidates n m provider model provider' model' input output cr cw {f} {name} {q} e at
      v v' hi ho sub =
    let c = quote-Covers candidates n m provider model e at v in
    let fits = amount-fits n m f name q input output (or_else cr 0) (or_else cw 0) c sub hi ho in
    (
      ceiling (
          amount (pricing_of name) (supports_cache_pricing f) input output (or_else cr 0)
            (or_else cw 0)),
      rw v' (
          price_pair-ok f name input output cr cw (omega (arith, c.input_fits))
            (omega (arith, c.output_fits)) sub (omega (arith, c.fits))),
      fits,
    )
