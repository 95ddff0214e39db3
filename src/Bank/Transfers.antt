-- ===== src/Bank/Transfers.antt =====
-- What `send_coins` does to the balances of all accounts.
use gears.Base.{◌≡◌, ◌+◌, ◌≤◌, Option, none, some, List, arith, if◌then◌else◌}
use gears.Base.Order.{Bytes, bytes_ord, ◌≟◌, cmp_bytes_refl}
use gears.Base.Results.{ok}
use gears.Base.Exec.Ensures.{Ensures, bind-Ensures, fail-Ensures}
use gears.Coins.{Coin}
use gears.Coins.Combine.{Arithmetic}
use gears.Bank.Ledger.{Ledger}
use gears.Bank.Keeper.{MsgSend, find_first_blocked_denom_if_any, send_unless, send_coins}
use gears.Bank.Moves.{total, held, metered-Ensures, debit-Ensures, credit-Ensures}

module _ (u : Arithmetic) (l : Ledger) where
  open l use {State}

  -- The check of the denominations moves nothing.
  pub checked-Ensures :
      (coins : List Coin)
      → Ensures
          (find_first_blocked_denom_if_any u l coins)
          (λ s _ t. (a d : Bytes) → held u l t a d ≡ held u l s a d)
  unfolding find_first_blocked_denom_if_any
  checked-Ensures coins =
      bind-Ensures _ _ {Q = λ _ s _ t. t ≡ s} (metered-Ensures u l _ l.params_lem)
        (λ p. record { holds = λ s a h. ground arith }) (λ s p t b v r q a d. ground (arith, r a d))

  abbrev pub Transfers : MsgSend → State → State → Type 0
  Transfers msg s t =
      (a d : Bytes)
      → (held u l t a d + (if msg.from_address ≟ a then total msg.amount d else 0)
          ≡ held u l s a d + (if msg.to_address ≟ a then total msg.amount d else 0))
        × (total msg.amount d ≤ held u l s msg.from_address d)

  send_unless-Ensures :
      (msg : MsgSend) (blocked : Option Bytes)
      → Ensures (send_unless u l msg blocked) (λ s _ t. Transfers msg s t)
  unfolding send_unless
  send_unless-Ensures msg (some denom) = fail-Ensures _
  send_unless-Ensures msg none =
      bind-Ensures _ _ (debit-Ensures u l msg.from_address msg.amount)
        (λ _. credit-Ensures u l msg.to_address msg.amount)
        (λ s x t y v r q a d.
          ground (arith, r a d, q a d, r msg.from_address d, cmp_bytes_refl msg.from_address))

  pub send_coins-Ensures :
      (msg : MsgSend) → Ensures (send_coins u l msg) (λ s _ t. Transfers msg s t)
  unfolding send_coins
  send_coins-Ensures msg =
      bind-Ensures _ _ (checked-Ensures msg.amount) (send_unless-Ensures msg)
        (λ s x t y v r q a d. ground (arith, r a d, q a d, r msg.from_address d))

  -- Where `send_coins` succeeds, the sender held what it sent, and of every account and
  -- denomination the balance after, with what the account sent, is the balance before with what it
  -- received; sender and recipient may be the same.
  pub send_coins-transfers :
      (msg : MsgSend) (s : State) (a d : Bytes)
      → (send_coins u l msg s).0 ≡ ok tt
      → (held u l (send_coins u l msg s).1 a d
            + (if msg.from_address ≟ a then total msg.amount d else 0)
          ≡ held u l s a d + (if msg.to_address ≟ a then total msg.amount d else 0))
        × (total msg.amount d ≤ held u l s msg.from_address d)
  send_coins-transfers msg s a d h = (send_coins-Ensures msg).holds s tt h a d
