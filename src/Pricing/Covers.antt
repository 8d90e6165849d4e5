-- ===== src/Pricing/Covers.antt =====
-- What the quote of one pair covers.
use Prim.Native.Nat.{max}
use cogentrex.Prelude.{
  ℕ, ◌+◌, ◌≤◌, ◌≡◌, ◌⊎◌, refl, sym, ◌∙◌, ap, >>=-eq-ok, raise_unless, inl, inr, Bool, true, false,
  ◌&&◌, Option, none, some, String, arith, Result, ok, err, ◌>>=◌, str_eq, not, ◌||◌,
}
use cogentrex.Pricing.{
  Family, PricingError, bad_value, family_name, validated_pricing_pair, amount, price_pair,
  price_model_usage_nusd, pricing_of, or_else, max_bigint, supports_cache_pricing, ceiling, also,
  is_some, quote_pair, quote_candidate,
}
use cogentrex.Pricing.Pairs.{validated_pricing_pair_idem}
use cogentrex.Pricing.Corners.{amount_read_uncached, amount_write_uncached}

record Priced (f : Family) (m : String) (input output : ℕ) (cr cw : Option ℕ) (q : ℕ) : Type 0 where
  exact :
      q
      ≡ ceiling (
          amount
            (pricing_of m)
            (supports_cache_pricing f)
            input
            output
            (or_else cr 0)
            (or_else cw 0))
  input_fits : input ≤ max_bigint
  output_fits : output ≤ max_bigint
  fits : q ≤ max_bigint

price_pair-Priced :
    (f : Family) (m : String) (input output : ℕ) (cr cw : Option ℕ) {q : ℕ}
    → price_pair (f, m) input output cr cw ≡ ok q
    → Priced f m input output cr cw q
unfolding price_pair
price_pair-Priced f m input output cr cw e = ground arith

pub price_pair-ok :
    (f : Family) (m : String) (input output : ℕ) (cr cw : Option ℕ)
    → input ≤ max_bigint
    → output ≤ max_bigint
    → or_else cr 0 + or_else cw 0 ≤ input
    → ceiling (
        amount (pricing_of m) (supports_cache_pricing f) input output (or_else cr 0) (or_else cw 0))
      ≤ max_bigint
    → price_pair (f, m) input output cr cw
      ≡ ok (
          ceiling (
            amount
              (pricing_of m)
              (supports_cache_pricing f)
              input
              output
              (or_else cr 0)
              (or_else cw 0)))
unfolding price_pair
price_pair-ok f m input output cr cw a b c d = ground arith

-- What a quote of a pair covers.
pub record Covers (n m : ℕ) (f : Family) (name : String) (q : ℕ) : Type 0 where
  pub fresh : ceiling (amount (pricing_of name) (supports_cache_pricing f) n m 0 0) ≤ q
  pub read : ceiling (amount (pricing_of name) (supports_cache_pricing f) n m n 0) ≤ q
  pub written : ceiling (amount (pricing_of name) (supports_cache_pricing f) n m 0 n) ≤ q
  pub fits : q ≤ max_bigint
  pub input_fits : n ≤ max_bigint
  pub output_fits : m ≤ max_bigint

also_cases :
    (b : Bool) (best : ℕ) (r : Result PricingError ℕ) {q : ℕ}
    → also b best r ≡ ok q
    → ((b ≡ false) × (q ≡ best)) ⊎ ((b ≡ true) × ((k : ℕ) × (r ≡ ok k) × (q ≡ max best k)))
also_cases false best r e = ground arith
also_cases true best (ok k) e = inr (refl, (k, refl, ground arith))
also_cases true best (err x) e = cc

abbrev eligible_read : Family → String → Bool
eligible_read f name = supports_cache_pricing f && is_some (pricing_of name).cache_read

abbrev eligible_write : Family → String → Bool
eligible_write f name = supports_cache_pricing f && is_some (pricing_of name).cache_write

quote_pair_lem :
    (n m : ℕ) (f : Family) (name : String)
    → validated_pricing_pair name (family_name f) ≡ ok (f, name)
    → quote_pair n m (f, name) ≡ (
        price_pair (f, name) n m none none >>= λ plain.
        also (eligible_read f name) plain (price_pair (f, name) n m (some n) none) >>= λ read.
        also (eligible_write f name) read (price_pair (f, name) n m none (some n)))
unfolding quote_pair price_model_usage_nusd
quote_pair_lem n m f name v = rw v

-- What the two cache quotes add, whether they are eligible or not.
read_covered :
    (n m : ℕ) (f : Family) (name : String) (plain q : ℕ)
    → Priced f name n m none none plain
    → also (eligible_read f name) plain (price_pair (f, name) n m (some n) none) ≡ ok q
    → (plain ≤ q)
      × (ceiling (amount (pricing_of name) (supports_cache_pricing f) n m n 0) ≤ q)
      × (q ≤ max_bigint)
read_covered n m f name plain q p e =
    elim (also_cases (eligible_read f name) plain (price_pair (f, name) n m (some n) none) e) [
      | inl (off, same) ↦ omega (
        arith,
        p.exact,
        p.fits,
        same,
        ap ceiling (amount_read_uncached (pricing_of name) (supports_cache_pricing f) n m off),
      )
      | inr (on, (k, priced, top)) ↦
          let r = price_pair-Priced f name n m (some n) none priced in
          omega (arith, p.fits, r.exact, r.fits, top)
    ]

write_covered :
    (n m : ℕ) (f : Family) (name : String) (plain read q : ℕ)
    → Priced f name n m none none plain
    → plain ≤ read
    → read ≤ max_bigint
    → also (eligible_write f name) read (price_pair (f, name) n m none (some n)) ≡ ok q
    → (read ≤ q)
      × (ceiling (amount (pricing_of name) (supports_cache_pricing f) n m 0 n) ≤ q)
      × (q ≤ max_bigint)
write_covered n m f name plain read q p le fits e =
    elim (also_cases (eligible_write f name) read (price_pair (f, name) n m none (some n)) e) [
      | inl (off, same) ↦ omega (
        arith,
        p.exact,
        fits,
        same,
        ap ceiling (amount_write_uncached (pricing_of name) (supports_cache_pricing f) n m off),
      )
      | inr (on, (k, priced, top)) ↦
          let r = price_pair-Priced f name n m none (some n) priced in
          omega (arith, fits, r.exact, r.fits, top)
    ]

pub quote_pair-Covers :
    (n m : ℕ) (f : Family) (name : String) {q : ℕ}
    → validated_pricing_pair name (family_name f) ≡ ok (f, name)
    → quote_pair n m (f, name) ≡ ok q
    → Covers n m f name q
quote_pair-Covers n m f name {q} v e =
    let (plain, first, rest) =
      >>=-eq-ok (price_pair (f, name) n m none none) _ (sym (quote_pair_lem n m f name v) ∙ e) in
    let (read, second, third) =
      >>=-eq-ok (also (eligible_read f name) plain (price_pair (f, name) n m (some n) none)) _
        rest in
    let p = price_pair-Priced f name n m none none first in
    let (a, b, c) = read_covered n m f name plain read p second in
    let (x, y, z) = write_covered n m f name plain read q p a c third in
    record {
      fresh = omega (arith, p.exact);
      read = omega arith;
      written = y;
      fits = z;
      input_fits = p.input_fits;
      output_fits = p.output_fits;
    }

pub quote_candidate-Covers :
    (n m : ℕ) (provider model : String) {f : Family} {name : String} {q : ℕ}
    → validated_pricing_pair model provider ≡ ok (f, name)
    → quote_candidate n m (provider, model) ≡ ok q
    → Covers n m f name q
unfolding quote_candidate
quote_candidate-Covers n m provider model {f} {name} v e =
    let (checked, _, rest) =
      >>=-eq-ok (raise_unless (not (str_eq provider "" || str_eq model "")) bad_value) _ e in
    quote_pair-Covers n m f name (validated_pricing_pair_idem model provider v) (rw v at rest)

pub Covers-weaken :
    (n m : ℕ) (f : Family) (name : String) (q k : ℕ)
    → Covers n m f name q
    → q ≤ k
    → k ≤ max_bigint
    → Covers n m f name k
Covers-weaken n m f name q k c h fits = ground arith
