-- ===== src/Slashing/Params/Rounds.antt =====
-- x/slashing/src/params.rs: the product of the window and the fraction to sign, rounded.
use gears.Base.{
  ℕ, ◌+◌, ◌-◌, ◌*◌, ◌≤◌, ◌<◌, ◌≡◌, refl, subst, Option, none, some, leb, leb→le, leb→lt,
  if◌then◌else◌, Bool-cases, inl, inr, arith,
}
use gears.Base.Int.{wrap}
use gears.Base.Results.{ok_or, Answers, bind-Answers, if-Answers, weaken-Answers}
use native.Mathlib.Nat.{mul-le-mul_right, le_of_mul-le-mul_right, lt_of_mul-lt-mul_right}
use gears.Staking.Validator.{Decimals, RoundsDown}
use gears.Slashing.Params.{
  SlashingParams, numeric, Ceilings, precision_reuse, wrapping_sub, unwrap, round_to_u32,
  min_signed_per_window_u32,
}

-- The atomics of one.
abbrev pub one : ℕ
one = 1000000000000000000

-- What the crate documents: 18 decimals, and results that are the least number above.
pub record RoundsUp (d : Decimals) (c : Ceilings) : Type 0 where
  pub scale_18 : d.scale ≡ one
  pub div_ceil_least :
      (a b r : ℕ) → c.div_ceil a b ≡ some r → (a * d.scale ≤ r * b) × (r * b < a * d.scale + b)
  pub mul_ceil_least :
      (a b r : ℕ)
      → c.mul_ceil a b ≡ some r
      → (a * b ≤ r * d.scale) × (r * d.scale < a * b + d.scale)
  pub checked_mul_least : (a b r : ℕ) → d.checked_mul a b ≡ some r → a * b < (r + 1) * d.scale
  pub checked_div_least : (a b r : ℕ) → d.checked_div a b ≡ some r → a * d.scale < (r + 1) * b

-- The nearest whole number, the lower one in the middle.
abbrev pub IsNearest : ℕ → ℕ → Type 0
IsNearest mul r = (2 * (r * one) < 2 * mul + one) × (2 * mul ≤ 2 * (r * one) + one)

-- The last digit kept decides, as the code has it.
nearest :
    (mul full full_dec tenths : ℕ)
    → full ≤ 4294967295
    → mul ≤ full * one
    → full * one < mul + one
    → mul ≤ full_dec * 100000000000000000
    → full_dec * 100000000000000000 < mul + 100000000000000000
    → tenths ≡ full * 10
    → IsNearest mul (if leb 5 (wrapping_sub tenths full_dec) then wrapping_sub full 1 else full)
nearest mul full full_dec tenths a b e f g h =
    let w : wrapping_sub tenths full_dec ≡ full * 10 - full_dec = omega arith in
    elim (Bool-cases (leb 5 (full * 10 - full_dec))) [
      | inl y ↦ rw w (
          rw y (
            let p : 5 ≤ full * 10 - full_dec = leb→le _ _ y in
            let v : wrapping_sub full 1 ≡ full - 1 = omega arith in rw v (omega arith)))
      | inr n ↦ rw w (rw n (let p : full * 10 - full_dec < 5 = leb→lt _ _ n in omega arith))
    ]

abbrev Rounded : ℕ → ℕ → ℕ → ℕ → Type 0
Rounded mul full full_dec tenths =
    IsNearest mul (if leb 5 (wrapping_sub tenths full_dec) then wrapping_sub full 1 else full)

-- The bounds that the operations give, over a scale, ten of it, and a tenth of the precision.
abbrev Bounds : ℕ → ℕ → ℕ → ℕ → ℕ → ℕ → ℕ → Type 0
Bounds s ten fraction mul full full_dec tenths =
    (full ≤ 4294967295)
    × (mul * s ≤ full * precision_reuse)
    × (full * precision_reuse < mul * s + precision_reuse)
    × (fraction * ten ≤ precision_reuse * s)
    × (precision_reuse * s < (fraction + 1) * ten)
    × (mul * s ≤ full_dec * fraction)
    × (full_dec * fraction < mul * s + fraction)
    × (full * ten ≤ tenths * s)
    × (tenths * s < full * ten + s)

at_fraction :
    (mul full full_dec tenths : ℕ)
    → Bounds one 10000000000000000000 100000000000000000000000000000000000 mul full full_dec tenths
    → Rounded mul full full_dec tenths
at_fraction mul full full_dec tenths b =
    nearest mul full full_dec tenths (omega arith) (omega arith) (omega arith) (omega arith)
      (omega arith) (omega arith)

at_ten :
    (fraction mul full full_dec tenths : ℕ)
    → Bounds one 10000000000000000000 fraction mul full full_dec tenths
    → Rounded mul full full_dec tenths
at_ten fraction mul full full_dec tenths b =
    let q = b.3 in
    let r = b.4 in
    let e : fraction ≡ 100000000000000000000000000000000000 = omega arith in
    at_fraction mul full full_dec tenths
      (subst (λ z. Bounds one 10000000000000000000 z mul full full_dec tenths) e b)

at_scale :
    (s ten fraction mul full full_dec tenths : ℕ)
    → s ≡ one
    → ten ≡ 10 * s
    → Bounds s ten fraction mul full full_dec tenths
    → Rounded mul full full_dec tenths
at_scale s ten fraction mul full full_dec tenths e t b =
    let t' : ten ≡ 10000000000000000000 = omega arith in
    at_ten fraction mul full full_dec tenths (
      subst (λ z. Bounds one z fraction mul full full_dec tenths) t'
        (subst (λ z. Bounds z ten fraction mul full full_dec tenths) e b))

product : (a w m b s : ℕ) → b ≡ w * s → 0 < s → (m * s ≤ a * b) × (a * b < (m + 1) * s) → m ≡ a * w
product a w m b s e p f =
    let f' : (m * s ≤ a * (w * s)) × (a * (w * s) < (m + 1) * s) =
      subst (λ z. (m * s ≤ a * z) × (a * z < (m + 1) * s)) e f in
    let x : m * s ≤ (a * w) * s = omega arith in
    let y : (a * w) * s < (m + 1) * s = omega arith in
    let x' = le_of_mul-le-mul_right {k = s} x p in
    let y' = lt_of_mul-lt-mul_right s y in omega arith

below : (a w r : ℕ) → a ≤ one → IsNearest (a * w) r → r ≤ w
below a w r h n = let k : a * w ≤ one * w = mul-le-mul_right w h in omega arith

module _ (d : Decimals) (c : Ceilings) (l : RoundsDown d) (u : RoundsUp d c) where
  multiplied :
      (a b : ℕ) (r : Option ℕ)
      → ((m : ℕ) → r ≡ some m → (m * d.scale ≤ a * b) × (a * b < (m + 1) * d.scale))
      → Answers
          (ok_or numeric r)
          (λ m. (m * d.scale ≤ a * b) × (a * b < (m + 1) * d.scale))
          (λ _. Unit)
  multiplied a b none f = tt
  multiplied a b (some m) f = f m refl

  unwrap-Answers :
      (P : ℕ → Type 0) (r : Option ℕ)
      → ((n : ℕ) → r ≡ some n → P n)
      → Answers (unwrap d c r) P (λ _. Unit)
  unwrap-Answers P none f = tt
  unwrap-Answers P (some n) f = f n refl

  round_to_u32-IsNearest : (mul : ℕ) → Answers (round_to_u32 d c mul) (IsNearest mul) (λ _. Unit)
  unfolding round_to_u32
  round_to_u32-IsNearest mul =
      bind-Answers _ _ (unwrap d c (c.div_ceil mul precision_reuse)) _
        (unwrap-Answers _ (c.div_ceil mul precision_reuse) (u.div_ceil_least mul precision_reuse))
        λ full f.
          if-Answers _ _ (leb full 4294967295) _ _
            (λ small.
              bind-Answers _ _ (unwrap d c (d.from_atomics 10)) _
                (unwrap-Answers _ (d.from_atomics 10) (l.from_atomics_exact 10))
                λ ten t.
                  bind-Answers _ _ (unwrap d c (d.checked_div precision_reuse ten)) _
                    (unwrap-Answers
                      (λ r.
                        (r * ten ≤ precision_reuse * d.scale)
                        × (precision_reuse * d.scale < (r + 1) * ten))
                      (d.checked_div precision_reuse ten)
                      (λ r e. (
                        l.checked_div_floor precision_reuse ten r e,
                        u.checked_div_least precision_reuse ten r e,
                      )))
                    λ fraction q.
                      bind-Answers _ _ (unwrap d c (c.div_ceil mul fraction)) _
                        (unwrap-Answers _ (c.div_ceil mul fraction) (u.div_ceil_least mul fraction))
                        λ full_dec g.
                          bind-Answers _ _ (unwrap d c (c.mul_ceil full ten)) _
                            (unwrap-Answers _ (c.mul_ceil full ten) (u.mul_ceil_least full ten))
                            λ tenths h.
                              at_scale d.scale ten fraction mul full full_dec tenths u.scale_18 t
                                (leb→le _ _ small, f.0, f.1, q.0, q.1, g.0, g.1, h.0, h.1))
            (λ _. tt)

  -- Where it returns, `min_signed_per_window_u32` is the product of the window and the fraction to
  -- sign, rounded to the nearest whole number and down in the middle; with a fraction of at most one
  -- it is no more than the window, so that the blocks that may be missed do not wrap around.
  pub min_signed_per_window_u32-IsNearest :
      (p : SlashingParams)
      → p.min_signed_per_window ≤ one
      → Answers
          (min_signed_per_window_u32 d c p)
          (λ r.
            IsNearest (p.min_signed_per_window * wrap 18446744073709551616 p.signed_blocks_window) r
            × (r ≤ wrap 18446744073709551616 p.signed_blocks_window))
          (λ _. Unit)
  unfolding min_signed_per_window_u32
  min_signed_per_window_u32-IsNearest p h =
      let w = wrap 18446744073709551616 p.signed_blocks_window in
      bind-Answers _ _ (unwrap d c (d.from_atomics w)) _
        (unwrap-Answers _ (d.from_atomics w) (l.from_atomics_exact w))
        λ window e.
          bind-Answers _ _ (ok_or numeric (d.checked_mul p.min_signed_per_window window)) _
            (multiplied p.min_signed_per_window window
              (d.checked_mul p.min_signed_per_window window)
              (λ m f. (
                l.checked_mul_floor p.min_signed_per_window window m f,
                u.checked_mul_least p.min_signed_per_window window m f,
              )))
            λ mul f.
              let m : mul ≡ p.min_signed_per_window * w =
                product p.min_signed_per_window w mul window d.scale e l.scale_positive f in
              weaken-Answers (IsNearest mul) _ _ (round_to_u32 d c mul) (round_to_u32-IsNearest mul)
                λ r n.
                  let n' = subst (λ z. IsNearest z r) m n in
                  (n', below p.min_signed_per_window w r h n')
