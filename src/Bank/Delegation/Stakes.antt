-- ===== src/Bank/Delegation/Stakes.antt =====
-- What delegation does to the balances of all accounts, in a store that holds each balance under
-- its own denomination.
use gears.Base.{◌≡◌, ◌∙◌, sym, refl, ◌-◌, ◌≤◌, Option, none, some, List, [], ◌∷◌, arith, ltb}
use gears.Base.Order.{Bytes, bytes_ord, cmp_bytes-eq}
use gears.Base.Exec.{pure, ◌>>=◌}
use gears.Base.Exec.Ensures.{Ensures, bind-Ensures, if-Ensures, weaken-Ensures, fail-Ensures}
use gears.Coins.{Coin, amount_of}
use gears.Coins.Combine.{Arithmetic}
use gears.Bank.Ledger.{Ledger}
use gears.Bank.Keeper.{balance, set_balance}
use gears.Bank.Moves.{amount, Debits}
use gears.Bank.Delegation.Additions.{
  IsKeyed, Same, Becomes, Moves, set_balance-Ensures, written-Becomes, balance-Ensures,
  IsKeyed-Same,
}
use gears.Bank.Delegation.{sub_found, sub_all, stake_found, stake_all}

module _ (u : Arithmetic) (l : Ledger) where
  open l use {State}

  -- A balance of `c`'s denomination that holds `c` and is less by it.
  abbrev Takes : Bytes → Coin → Option Coin → State → State → Type 0
  Takes address c found s t =
      IsKeyed u l s
      → found ≡ l.contents s address c.denom
      → (c.amount ≤ amount found) × Becomes u l address c.denom (amount found - c.amount) s t

  set_less-Ensures :
      (address : Bytes) (c b : Coin)
      → c.amount ≤ b.amount
      → Ensures
          (set_balance u l address (record b { amount = b.amount - c.amount }))
          (λ s _ t. Takes address c (some b) s t)
  set_less-Ensures address c b enough =
      weaken-Ensures (set_balance-Ensures u l address (record b { amount = b.amount - c.amount }))
        (λ s x t r keyed e.
          let same : b.denom ≡ c.denom = keyed address c.denom b (sym e) in
          let w =
            written-Becomes u l address (record b { amount = b.amount - c.amount }) s t keyed r in
          (enough, (w.0, λ a d. ground (arith, w.1 a d, same))))

  sub_found-Ensures :
      (address : Bytes) (c : Coin) (found : Option Coin)
      → Ensures (sub_found u l address [] c found) (λ s _ t. Takes address c found s t)
  unfolding sub_found amount_of
  sub_found-Ensures address c none = fail-Ensures _
  sub_found-Ensures address c (some b) =
      if-Ensures (ltb b.amount 0) _ _ (λ e. fail-Ensures _)
        (λ _.
          if-Ensures (ltb (b.amount - 0) c.amount) _ _ (λ e. fail-Ensures _)
            (λ enough. set_less-Ensures address c b (ground arith)))

  stake_found-Ensures :
      (address : Bytes) (c : Coin) (found : Option Coin)
      → Ensures (stake_found u l address c found) (λ s _ t. Takes address c found s t)
  unfolding stake_found
  stake_found-Ensures address c none = fail-Ensures _
  stake_found-Ensures address c (some b) =
      if-Ensures (ltb b.amount c.amount) _ _ (λ e. fail-Ensures _)
        (λ enough.
          bind-Ensures _ _ {Q = λ _ t _ v. v ≡ t} (set_less-Ensures address c b (ground arith))
            (λ _. record { holds = λ s a h. refl }) (λ s x t y v r q. rw q r))

  taken-Debits :
      (address : Bytes) (c : Coin) (found : Option Coin) (s t v : State)
      → found ≡ l.contents s address c.denom
      → Same u l s t
      → Takes address c found t v
      → Moves u l (Debits u l address (c ∷ [])) s v
  taken-Debits address c found s t v e same q keyed =
      let b = q (IsKeyed-Same u l s t same keyed) (e ∙ sym (same address c.denom)) in
      (
        b.1.0,
        λ a d.
            ground
              (arith, b.0, b.1.1 a d, e, same a d, cmp_bytes-eq address a, cmp_bytes-eq c.denom d),
      )

  pub sub_all-Ensures :
      (address : Bytes) (coins : List Coin)
      → Ensures (sub_all u l address [] coins) (λ s _ t. Moves u l (Debits u l address coins) s t)
  unfolding sub_all
  sub_all-Ensures address [] = record { holds = λ s x e keyed. (keyed, λ a d. ground arith) }
  sub_all-Ensures address (c ∷ coins) =
      bind-Ensures _ _ {R = λ s _ t. Moves u l (Debits u l address (c ∷ [])) s t}
        (bind-Ensures _ _ (balance-Ensures u l address c.denom)
          (λ found. sub_found-Ensures address c found)
          (λ s found t x v r q. taken-Debits address c found s t v r.0 r.1 q))
        (λ _. sub_all-Ensures address coins)
        (λ s x t y v r q keyed.
          let one = r keyed in
          let more = q one.0 in (more.0, λ a d. ground (arith, one.1 a d, more.1 a d)))

  stake_one-Ensures :
      (address : Bytes) (c : Coin)
      → Ensures
          (balance u l address c.denom >>= stake_found u l address c)
          (λ s _ t. Moves u l (Debits u l address (c ∷ [])) s t)
  stake_one-Ensures address c =
      bind-Ensures _ _ (balance-Ensures u l address c.denom)
        (λ found. stake_found-Ensures address c found)
        (λ s found t x v r q. taken-Debits address c found s t v r.0 r.1 q)

  pushed-Ensures :
      (b : Coin) (address : Bytes) (coins : List Coin)
      → Ensures (stake_all u l address coins) (λ s _ t. Moves u l (Debits u l address coins) s t)
      → Ensures
          (stake_all u l address coins >>= λ balances. pure (b ∷ balances))
          (λ s _ t. Moves u l (Debits u l address coins) s t)
  pushed-Ensures b address coins h =
      bind-Ensures _ _ {Q = λ _ t _ v. v ≡ t} h (λ balances. record { holds = λ s a e. refl })
        (λ s x t y v r q. rw q r)

  pub stake_all-Ensures :
      (address : Bytes) (coins : List Coin)
      → Ensures (stake_all u l address coins) (λ s _ t. Moves u l (Debits u l address coins) s t)
  unfolding stake_all
  stake_all-Ensures address [] = record { holds = λ s x e keyed. (keyed, λ a d. ground arith) }
  stake_all-Ensures address (c ∷ coins) =
      bind-Ensures _ _ (stake_one-Ensures address c)
        (λ b. pushed-Ensures b address coins (stake_all-Ensures address coins))
        (λ s x t y v r q keyed.
          let one = r keyed in
          let more = q one.0 in (more.0, λ a d. ground (arith, one.1 a d, more.1 a d)))
