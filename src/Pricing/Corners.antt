-- ===== src/Pricing/Corners.antt =====
-- The arithmetic of prices: the price of a usage against those of a full call.
use cogentrex.Prelude.{
  ℕ, ◌+◌, ◌-◌, ◌*◌, ◌≤◌, ◌≡◌, ◌⊎◌, ap, inl, inr, Bool, false, ◌&&◌, Option, arith,
}
use cogentrex.Pricing.{ModelPricing, amount, rate, is_some}

le_cases : (a b : ℕ) → (a ≤ b) ⊎ (b ≤ a)
le_cases a b = omega arith

scale_left : (x y z : ℕ) → y ≤ z → x * y ≤ x * z
scale_left x y z h = grind arith

scale_right : (x y z : ℕ) → x ≤ y → x * z ≤ y * z
scale_right x y z h = grind arith

weighted-le :
    (m a b c u r w n : ℕ) → a ≤ m → b ≤ m → c ≤ m → u + r + w ≤ n → u * a + r * b + w * c ≤ n * m
weighted-le m a b c u r w n ha hb hc h = omega (
  arith,
  scale_left u a m ha,
  scale_left r b m hb,
  scale_left w c m hc,
  scale_right (u + r + w) n m h,
)

-- A sum of tokens at three rates is at most all tokens at one of the three.
weighted-corner :
    (a b c u r w n : ℕ)
    → u + r + w ≤ n
    → (u * a + r * b + w * c ≤ n * a)
      ⊎ ((u * a + r * b + w * c ≤ n * b) ⊎ (u * a + r * b + w * c ≤ n * c))
weighted-corner a b c u r w n h = elim (le_cases b a) [
  | inl ba ↦ elim (le_cases c a) [
    | inl ca ↦ inl (weighted-le a a b c u r w n (omega arith) ba ca h)
    | inr ac ↦ inr (inr (weighted-le c a b c u r w n ac (omega arith) (omega arith) h))
  ]
  | inr ab ↦ elim (le_cases c b) [
    | inl cb ↦ inr (inl (weighted-le b a b c u r w n ab (omega arith) cb h))
    | inr bc ↦ inr (inr (weighted-le c a b c u r w n (omega arith) bc (omega arith) h))
  ]
]

all_fresh : (n k : ℕ) → (n - 0 - 0) * k ≡ n * k
all_fresh n k = ap (λ t. t * k) (omega arith)

all_read : (n k : ℕ) → (n - n - 0) * k ≡ 0 * k
all_read n k = ap (λ t. t * k) (omega arith)

all_written : (n k : ℕ) → (n - 0 - n) * k ≡ 0 * k
all_written n k = ap (λ t. t * k) (omega arith)

-- The price of a usage is at most one of the three prices of a full call: all input fresh, all
-- read from the cache, or all written to it.
pub amount-corner :
    (p : ModelPricing) (s : Bool) (input output read write n m : ℕ)
    → read + write ≤ input
    → input ≤ n
    → output ≤ m
    → (amount p s input output read write ≤ amount p s n m 0 0)
      ⊎ ((amount p s input output read write ≤ amount p s n m n 0)
          ⊎ (amount p s input output read write ≤ amount p s n m 0 n))
unfolding amount
amount-corner p s input output read write n m sub hi ho =
    elim (weighted-corner p.input br cr (input - read - write) read write n (omega arith)) [
      | inl a ↦ inl (omega (arith, a, all_fresh n p.input, scale_right output m p.output ho))
      | inr (inl b) ↦
          inr (inl (omega (arith, b, all_read n p.input, scale_right output m p.output ho)))
      | inr (inr c) ↦
          inr (inr (omega (arith, c, all_written n p.input, scale_right output m p.output ho)))
    ]
  where
    br : ℕ
    br = rate s p.cache_read p.input

    cr : ℕ
    cr = rate s p.cache_write p.input

-- Without a cache price, tokens of the cache cost what fresh tokens cost.
rate_uncached : (s : Bool) (r : Option ℕ) (i : ℕ) → (s && is_some r) ≡ false → rate s r i ≡ i
rate_uncached s r i h = ground arith

pub amount_read_uncached :
    (p : ModelPricing) (s : Bool) (n m : ℕ)
    → (s && is_some p.cache_read) ≡ false
    → amount p s n m n 0 ≡ amount p s n m 0 0
unfolding amount
amount_read_uncached p s n m h =
    rw (rate_uncached s p.cache_read p.input h)
      (omega (arith, all_fresh n p.input, all_read n p.input))

pub amount_write_uncached :
    (p : ModelPricing) (s : Bool) (n m : ℕ)
    → (s && is_some p.cache_write) ≡ false
    → amount p s n m 0 n ≡ amount p s n m 0 0
unfolding amount
amount_write_uncached p s n m h =
    rw (rate_uncached s p.cache_write p.input h)
      (omega (arith, all_fresh n p.input, all_written n p.input))
