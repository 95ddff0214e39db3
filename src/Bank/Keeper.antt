-- ===== src/Bank/Keeper.antt =====
-- x/bank/src/keeper/mod.rs, without the events that the methods emit.
use Prim.Native.String.{String}
use gears.Base.{ℕ, ◌-◌, Bool, Option, none, some, List, [], ◌∷◌, ltb, ◌==◌, if◌then◌else◌}
use gears.Base.Order.{Bytes, bytes_ord, ◌≟◌}
use gears.Base.Results.{err, map_err, ok_or}
use gears.Base.Exec.{Exec, pure, lift, ◌>>=◌, ◌>>◌}
use gears.Gas.Guard.{GasStoreErrors}
use gears.Coins.{Coin, CoinsError}
use gears.Coins.Combine.{Arithmetic}
use gears.Bank.Ledger.{Ledger, AccessError, refused, corrupt}

-- `BankKeeperError`, with the variants of the errors that it wraps in their place. `panicked` is
-- the panic of `+=` and `-` on `Uint256`, and of a stored value that cannot be read.
pub data BankKeeperError : Type 0 where
  gas_error : GasStoreErrors → BankKeeperError
  send_disabled : Bytes → BankKeeperError
  required_actual : ℕ → ℕ → BankKeeperError
  insufficient_account : Bytes → Bytes → BankKeeperError
  account_not_found : Bytes → BankKeeperError
  delegation : ℕ → ℕ → BankKeeperError
  amount_error : ℕ → ℕ → BankKeeperError
  coins_error : CoinsError → BankKeeperError
  permission : String → BankKeeperError
  account_permission module_permission : BankKeeperError
  blocked : Bytes → BankKeeperError
  panicked : BankKeeperError

-- `MsgSend`
pub record MsgSend : Type 0 where
  pub from_address : Bytes
  pub to_address : Bytes
  pub amount : List Coin

-- The first denomination that may not be sent: a later entry of the list replaces an earlier one.
unfoldable pub enabled : Bytes → List (Bytes × Bool) → Bool → Bool
enabled d [] default = default
enabled d ((k, on) ∷ l) default = enabled d l (if k ≟ d then on else default)

unfoldable pub first_blocked : List (Bytes × Bool) → Bool → List Coin → Option Bytes
unfolding enabled
first_blocked send_enabled default [] = none
first_blocked send_enabled default (c ∷ coins) =
    let rest = first_blocked send_enabled default coins in
    if enabled c.denom send_enabled default then rest else some c.denom

module _ (u : Arithmetic) (l : Ledger) where
  open l use {State}

  abbrev pub Keeper : Type 0 → Type 0
  Keeper A = Exec State BankKeeperError A

  abbrev pub access_error : AccessError → BankKeeperError
  access_error (refused e) = gas_error e
  access_error corrupt = panicked

  -- `?` on an access to the store
  abbrev pub metered : {A : Type 0} → Exec State AccessError A → Keeper A
  metered m s = let (r, t) = m s in (map_err access_error r, t)

  unfoldable pub balance : Bytes → Bytes → Keeper (Option Coin)
  balance address denom = metered (l.get address denom)

  unfoldable pub set_balance : Bytes → Coin → Keeper (Unit {0})
  set_balance address amount =
      if amount.amount == 0
      then metered (l.delete address amount.denom)
      else metered (l.set address amount.denom amount)

  -- `balance.amount += coin.amount`
  unfoldable pub increased : Coin → Coin → Keeper Coin
  increased held coin = lift (ok_or panicked (u.checked_add held.amount coin.amount)) >>= λ n.
      pure (record held { amount = n })

  unfoldable pub added : Bytes → Coin → Option Coin → Keeper (Unit {0})
  unfolding set_balance increased
  added address c (some held) = increased held c >>= set_balance address
  added address c none = set_balance address c

  unfoldable pub add_coins : Bytes → List Coin → Keeper (Unit {0})
  unfolding balance added
  add_coins address [] = pure tt
  add_coins address (c ∷ amount) =
      (balance address c.denom >>= added address c) >> add_coins address amount

  unfoldable pub find_first_blocked_denom_if_any : List Coin → Keeper (Option Bytes)
  unfolding first_blocked
  find_first_blocked_denom_if_any coins = metered l.params >>= λ (send_enabled, default).
      pure (first_blocked send_enabled default coins)

  unfoldable pub debit_coin : Bytes → Coin → Coin → Keeper (Unit {0})
  debit_coin from send_coin held =
      if ltb held.amount send_coin.amount
      then lift (err (required_actual send_coin.amount held.amount))
      else let n = held.amount - send_coin.amount in
        if n == 0
        then metered (l.delete from send_coin.denom)
        else metered (l.set from send_coin.denom (record held { amount = n }))

  -- The first loop of `send_coins`.
  unfoldable pub debit_one : Bytes → Coin → Keeper (Unit {0})
  unfolding debit_coin
  debit_one from c =
      (metered (l.get from c.denom) >>= λ found. lift (ok_or (required_actual c.amount 0) found))
      >>= debit_coin from c

  unfoldable pub debit : Bytes → List Coin → Keeper (Unit {0})
  unfolding debit_one
  debit from [] = pure tt
  debit from (c ∷ amount) = debit_one from c >> debit from amount

  abbrev pub or_new : Bytes → Option Coin → Coin
  or_new d none = record { denom = d; amount = 0 }
  or_new d (some held) = held

  unfoldable pub credit_one : Bytes → Coin → Keeper (Unit {0})
  unfolding increased
  credit_one to c =
      (metered (l.get to c.denom) >>= λ found. increased (or_new c.denom found) c) >>= λ held.
      metered (l.set to c.denom held)

  -- The second loop of `send_coins`.
  unfoldable pub credit : Bytes → List Coin → Keeper (Unit {0})
  unfolding credit_one
  credit to [] = pure tt
  credit to (c ∷ amount) = credit_one to c >> credit to amount

  unfoldable pub send_unless : MsgSend → Option Bytes → Keeper (Unit {0})
  unfolding debit credit
  send_unless msg (some denom) = lift (err (send_disabled denom))
  send_unless msg none = debit msg.from_address msg.amount >> credit msg.to_address msg.amount

  unfoldable pub send_coins : MsgSend → Keeper (Unit {0})
  unfolding find_first_blocked_denom_if_any send_unless
  send_coins msg = find_first_blocked_denom_if_any msg.amount >>= send_unless msg
