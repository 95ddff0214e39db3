-- ===== src/Mint/Block/Provisions.antt =====
-- x/mint/src: what a block mints, and when it panics.
use gears.Base.{ℕ, ◌+◌, ◌*◌, ◌≤◌, ◌<◌, ◌≡◌, refl, sym, ◌∙◌, ap, Option, none, some, arith}
use gears.Base.Options.{◌>>=◌}
use gears.Coins.{Coin}
use gears.Staking.Validator.{Decimals, RoundsDown}
use gears.Mint.Minter.{Minter, MintParams, next_inflation_rate}
use gears.Mint.Block.{Keepers, State, or_zero, bonded_ratio, mint, begin_block}
use native.Mathlib.Nat.{lt_of_mul-lt-mul_right}

abbrev pub InRange : MintParams → ℕ → Type 0
InRange params inflation = (params.inflation_min ≤ inflation) × (inflation ≤ params.inflation_max)

module _ {S : Type 0} (k : Keepers S) (d : Decimals) (l : RoundsDown d) where
  -- One block's coins, times the blocks of a year, are within the inflation of the supply.
  abbrev pub Within : MintParams → ℕ → ℕ → Coin → Type 0
  Within params inflation supply c =
      (c.denom ≡ params.mint_denom)
      × (c.amount * params.blocks_per_year * d.scale ≤ inflation * supply)

  -- What a block leaves.
  abbrev pub Provides : MintParams → State S → State S → Type 0
  Provides params s s' =
      (m : Minter) × (c : Coin) × InRange params m.inflation
      × Within params m.inflation (or_zero (k.staking_token_supply s.bank)) c
      × (mint k d m c s ≡ some s')

bind-none :
    {A B : Type 0} (r : Option A) (f : A → Option B)
    → ((a : A) → r ≡ some a → f a ≡ none)
    → (r >>= f) ≡ none
bind-none none f h = refl
bind-none (some a) f h = h a refl

module _ {S : Type 0} (k : Keepers S) (d : Decimals) (l : RoundsDown d)
    (div_least : (a b r : ℕ) → d.checked_div a b ≡ some r → a * d.scale < (r + 1) * b) where
  next-none :
      (m : Minter) (params : MintParams) (ratio : ℕ)
      → (d.scale + 1) * params.goal_bonded ≤ ratio * d.scale
      → next_inflation_rate d m params ratio ≡ none
  unfolding next_inflation_rate
  next-none m params ratio h = bind-none (d.checked_div ratio params.goal_bonded) _ λ q e.
      let over : d.scale + 1 < q + 1 =
        lt_of_mul-lt-mul_right params.goal_bonded
          (let f = div_least ratio params.goal_bonded q e in omega arith) in
      bind-none (d.checked_sub d.scale q) _
        λ c f. absurd (let g = l.checked_sub_exact d.scale q c f in omega arith)

  -- `begin_block` panics where the bonded ratio is over the goal by more than rounding hides, since
  -- the change of the rate of inflation would be negative.
  pub begin_block-over_goal :
      (params : MintParams) (s : State S) (ratio : ℕ)
      → bonded_ratio k d s.bank ≡ some ratio
      → (d.scale + 1) * params.goal_bonded ≤ ratio * d.scale
      → begin_block k d params s ≡ none
  unfolding begin_block
  begin_block-over_goal params s ratio e h = bind-none s.minter _ λ minter _.
      bind-none (bonded_ratio k d s.bank) _ λ r f.
        let r' : r ≡ ratio = let g : some r ≡ some ratio = sym f ∙ e in cc in
        bind-none (next_inflation_rate d minter params r) _ λ inflation g. absurd (
          let n : next_inflation_rate d minter params r ≡ none =
            ap (next_inflation_rate d minter params) r' ∙ next-none minter params ratio h in
          cc)
