-- ===== src/Staking/Validator/Steps.antt =====
-- x/staking/src/types/validator.rs: delegations and their removals, one after another.
use gears.Base.{ℕ, ◌*◌, ◌≤◌, ◌<◌, ◌≡◌, false, ◌==◌, if◌then◌else◌, subst, arith}
use gears.Base.Results.{ok}
use native.Mathlib.Nat.{mul-le-mul_right, le_of_mul-le-mul_right}
use gears.Staking.Validator.{
  Validator, Decimals, RoundsDown, add_tokens_from_del, remove_del_shares,
}
use gears.Staking.Validator.Rate.{
  KeepsRate, Addition, Removal, add_tokens_from_del-rate, remove_del_shares-rate,
}

-- Successful calls that lead from a validator to another, with some share left at each point.
pub data Reaches (d : Decimals) : Validator → Validator → Type 0 where
  stay : (v : Validator) → 0 < v.delegator_shares → Reaches d v v
  delegate :
      (amount issued : ℕ) (v u w : Validator)
      → 0 < v.delegator_shares
      → add_tokens_from_del d amount v ≡ (ok issued, u)
      → Reaches d u w
      → Reaches d v w
  undelegate :
      (shares tokens : ℕ) (v u w : Validator)
      → 0 < v.delegator_shares
      → remove_del_shares d shares v ≡ (ok tokens, u)
      → Reaches d u w
      → Reaches d v w

not_zero : (n : ℕ) → 0 < n → (n == 0) ≡ false
not_zero n h = ground arith

KeepsRate-trans :
    (t s t' s' t'' s'' : ℕ) → 0 < s' → t * s' ≤ t' * s → t' * s'' ≤ t'' * s' → t * s'' ≤ t'' * s
KeepsRate-trans t s t' s' t'' s'' p a b =
    le_of_mul-le-mul_right {k = s'}
      (let a' = mul-le-mul_right s'' a in let b' = mul-le-mul_right s b in omega arith) p

module _ (d : Decimals) (l : RoundsDown d) where
  Reaches-positive : (v w : Validator) → Reaches d v w → 0 < v.delegator_shares
  Reaches-positive v w (stay _ p) = p
  Reaches-positive v w (delegate amount issued _ u _ p e r) = p
  Reaches-positive v w (undelegate shares tokens _ u _ p e r) = p

  delegate-rate :
      (amount issued : ℕ) (v u : Validator)
      → 0 < v.delegator_shares
      → add_tokens_from_del d amount v ≡ (ok issued, u)
      → KeepsRate d l v u
  delegate-rate amount issued v u p e =
      let a : Addition d l v amount (ok issued, u) =
        subst (Addition d l v amount) e (add_tokens_from_del-rate d l amount v) in
      subst (λ b. if b then (issued ≡ amount * d.scale) else KeepsRate d l v u)
        (not_zero v.delegator_shares p) a.2

  undelegate-rate :
      (shares tokens : ℕ) (v u : Validator)
      → 0 < u.delegator_shares
      → remove_del_shares d shares v ≡ (ok tokens, u)
      → KeepsRate d l v u
  undelegate-rate shares tokens v u p e =
      let a : Removal d l v shares (ok tokens, u) =
        subst (Removal d l v shares) e (remove_del_shares-rate d l shares v) in
      subst (λ b. if b then (u.tokens ≡ 0) else KeepsRate d l v u) (not_zero u.delegator_shares p)
        a.2

  -- Over any sequence of successful delegations and removals that leaves some share at each point, no
  -- share comes to be worth less than at the start. The arithmetic is exact but for division,
  -- multiplication and floor, which round down, and a difference fails only where it is negative.
  pub Reaches-KeepsRate : (v w : Validator) → Reaches d v w → KeepsRate d l v w
  Reaches-KeepsRate v w (stay _ p) = omega arith
  Reaches-KeepsRate v w (delegate amount issued _ u _ p e r) =
      KeepsRate-trans v.tokens v.delegator_shares u.tokens u.delegator_shares w.tokens
        w.delegator_shares (Reaches-positive u w r) (delegate-rate amount issued v u p e)
        (Reaches-KeepsRate u w r)
  Reaches-KeepsRate v w (undelegate shares tokens _ u _ p e r) =
      KeepsRate-trans v.tokens v.delegator_shares u.tokens u.delegator_shares w.tokens
        w.delegator_shares (Reaches-positive u w r)
        (undelegate-rate shares tokens v u (Reaches-positive u w r) e) (Reaches-KeepsRate u w r)
