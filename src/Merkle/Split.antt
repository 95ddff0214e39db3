-- ===== src/Merkle/Split.antt =====
-- trees/src/merkle.rs: the place at which a list is split.
use gears.Base.{
  ℕ, zero, suc, ◌*◌, ◌/◌, ◌≤◌, ◌<◌, ◌≡◌, refl, Bool-cases, inl, inr, ltb, ◌==◌, ltb→lt, ltb→le,
  if◌then◌else◌, arith,
}
use gears.Merkle.{ilog2_on, shifted_one, get_split_point}

ilog2-bounds :
    (f n : ℕ)
    → 0 < n
    → n ≤ f
    → (shifted_one (ilog2_on f n) ≤ n) × (n < 2 * shifted_one (ilog2_on f n))
unfolding ilog2_on shifted_one
ilog2-bounds zero n p h = absurd (omega arith)
ilog2-bounds (suc f) n p h = elim (Bool-cases (ltb n 2)) [
  | inl e ↦ let q = ltb→lt n 2 e in rw e (omega arith)
  | inr e ↦
      let q = ltb→le n 2 e in
      let ih = ilog2-bounds f (n / 2) (omega arith) (omega arith) in rw e (omega arith)
]

-- A power of two below the number, and half of it at least.
abbrev pub Splits : ℕ → ℕ → Type 0
Splits n k = (b : ℕ) × (k ≡ shifted_one b) × (k < n) × (n ≤ 2 * k)

at_power : (n b : ℕ) → 1 < n → shifted_one b ≡ n → Splits n (shifted_one b / 2)
unfolding shifted_one
at_power n zero p e = absurd (omega arith)
at_power n (suc b) p e = (b, omega arith, omega arith, omega arith)

split_at :
    (n b : ℕ)
    → 1 < n
    → shifted_one b ≤ n
    → n < 2 * shifted_one b
    → Splits n (if shifted_one b == n then shifted_one b / 2 else shifted_one b)
split_at n b p h k = elim (Bool-cases (shifted_one b == n)) [
  | inl e ↦ rw e (at_power n b p (let e' : shifted_one b ≡ n = ground arith in e'))
  | inr e ↦ rw e (b, refl, (let e' : shifted_one b < n = ground arith in e'), omega arith)
]

-- The split point of two items or more is the largest power of two below their number.
pub get_split_point-Splits : (n : ℕ) → 1 < n → Splits n (get_split_point n)
unfolding get_split_point
get_split_point-Splits n p =
    let b = ilog2-bounds n n (omega arith) (omega arith) in split_at n (ilog2_on n n) p b.0 b.1
