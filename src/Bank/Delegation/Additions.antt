-- ===== src/Bank/Delegation/Additions.antt =====
-- What `add_coins` does to the balances of all accounts, in a store that holds each balance under
-- its own denomination.
use gears.Base.{
  ◌≡◌, ◌∙◌, sym, ℕ, ◌+◌, ◌&&◌, Option, none, some, List, [], ◌∷◌, arith, ◌==◌, if◌then◌else◌,
}
use gears.Base.Order.{Bytes, bytes_ord, ◌≟◌, cmp_bytes-eq}
use gears.Base.Exec.{◌>>=◌}
use gears.Base.Exec.Ensures.{Ensures, bind-Ensures, if-Ensures, weaken-Ensures}
use gears.Coins.{Coin}
use gears.Coins.Combine.{Arithmetic}
use gears.Bank.Ledger.{Ledger, replaced}
use gears.Bank.Keeper.{balance, set_balance, added, add_coins}
use gears.Bank.Moves.{amount, held, metered-Ensures, increased-Ensures, Credits}

module _ (u : Arithmetic) (l : Ledger) where
  open l use {State}

  abbrev pub IsKeyed : State → Type 0
  IsKeyed s = (a d : Bytes) (c : Coin) → l.contents s a d ≡ some c → c.denom ≡ d

  abbrev pub Same : State → State → Type 0
  Same s t = (a d : Bytes) → l.contents t a d ≡ l.contents s a d

  -- One balance is `n`, and the others are as they were.
  abbrev pub Becomes : Bytes → Bytes → ℕ → State → State → Type 0
  Becomes address denom n s t =
      IsKeyed t
      × ((a d : Bytes)
          → held u l t a d ≡ (if (address ≟ a) && (denom ≟ d) then n else held u l s a d))

  abbrev pub written : Coin → Option Coin
  written c = if c.amount == 0 then none else some c

  pub set_balance-Ensures :
      (address : Bytes) (c : Coin)
      → Ensures (set_balance u l address c) (λ s _ t.
        (a d : Bytes) → l.contents t a d ≡ replaced address c.denom (written c) (l.contents s) a d)
  unfolding set_balance
  set_balance-Ensures address c =
      if-Ensures (c.amount == 0) _ _
        (λ zero.
          weaken-Ensures (metered-Ensures u l _ (l.delete_lem address c.denom))
            (λ s x t r a d. ground (arith, r a d)))
        (λ more.
          weaken-Ensures (metered-Ensures u l _ (l.set_lem address c.denom c))
            (λ s x t r a d. ground (arith, r a d)))

  pub written-Becomes :
      (address : Bytes) (c : Coin) (s t : State)
      → IsKeyed s
      → ((a d : Bytes) → l.contents t a d ≡ replaced address c.denom (written c) (l.contents s) a d)
      → Becomes address c.denom c.amount s t
  written-Becomes address c s t keyed r = (
    λ a d b e. ground (arith, r a d, keyed a d b, cmp_bytes-eq c.denom d),
    λ a d. ground (arith, r a d),
  )

  pub balance-Ensures :
      (address denom : Bytes)
      → Ensures
          (balance u l address denom)
          (λ s found t. (found ≡ l.contents s address denom) × Same s t)
  unfolding balance
  balance-Ensures address denom = metered-Ensures u l _ (l.get_lem address denom)

  added-Ensures :
      (address : Bytes) (c : Coin) (found : Option Coin)
      → Ensures (added u l address c found) (λ s _ t.
        IsKeyed s
        → found ≡ l.contents s address c.denom
        → Becomes address c.denom (amount found + c.amount) s t)
  unfolding added
  added-Ensures address c none = weaken-Ensures (set_balance-Ensures address c) (λ s x t r keyed e.
      let b = written-Becomes address c s t keyed r in (b.0, λ a d. ground (arith, b.1 a d)))
  added-Ensures address c (some h) =
      bind-Ensures _ _ (increased-Ensures u l h c) (λ n. set_balance-Ensures address n)
        (λ s n t x v r q keyed e.
          let same : n.denom ≡ c.denom = r.2 ∙ keyed address c.denom h (sym e) in
          let b = written-Becomes address n t v (rw r.1 keyed) q in
          (b.0, λ a d. ground (arith, b.1 a d, r.0, r.1, same)))

  -- A method keeps balances under their denominations and moves coins in a way.
  abbrev pub Moves : (State → State → Type 0) → State → State → Type 0
  Moves R s t = IsKeyed s → IsKeyed t × R s t

  pub IsKeyed-Same : (s t : State) → Same s t → IsKeyed s → IsKeyed t
  IsKeyed-Same s t r keyed a d c e = keyed a d c (sym (r a d) ∙ e)

  add_one-Ensures :
      (address : Bytes) (c : Coin)
      → Ensures
          (balance u l address c.denom >>= added u l address c)
          (λ s _ t. Moves (Credits u l address (c ∷ [])) s t)
  add_one-Ensures address c =
      bind-Ensures _ _ (balance-Ensures address c.denom) (λ found. added-Ensures address c found)
        (λ s found t x v r q keyed.
          let b = q (IsKeyed-Same s t r.1 keyed) (r.0 ∙ sym (r.1 address c.denom)) in
          (
            b.0,
            λ a d.
                ground
                  (arith, b.1 a d, r.0, r.1 a d, cmp_bytes-eq address a, cmp_bytes-eq c.denom d),
          ))

  pub add_coins-Ensures :
      (address : Bytes) (coins : List Coin)
      → Ensures (add_coins u l address coins) (λ s _ t. Moves (Credits u l address coins) s t)
  unfolding add_coins
  add_coins-Ensures address [] = record { holds = λ s x e keyed. (keyed, λ a d. ground arith) }
  add_coins-Ensures address (c ∷ coins) =
      bind-Ensures _ _ (add_one-Ensures address c) (λ _. add_coins-Ensures address coins)
        (λ s x t y v r q keyed.
          let one = r keyed in
          let more = q one.0 in (more.0, λ a d. ground (arith, one.1 a d, more.1 a d)))
