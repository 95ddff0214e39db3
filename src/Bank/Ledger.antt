-- ===== src/Bank/Ledger.antt =====
-- What the bank's keeper asks of its context: the metered store of balances, the accounts and the
-- parameters of the module. An account's address and a denomination are byte strings.
use gears.Base.{◌≡◌, Bool, ◌&&◌, Option, none, some, List, if◌then◌else◌}
use gears.Base.Order.{Bytes, bytes_ord, ◌≟◌}
use gears.Base.Exec.{Exec}
use gears.Base.Exec.Ensures.{Ensures}
use gears.Gas.Guard.{GasStoreErrors}
use gears.Coins.{Coin}

abbrev pub Contents : Type 0
Contents = Bytes → Bytes → Option Coin

-- One balance replaced.
abbrev pub replaced : Bytes → Bytes → Option Coin → Contents → Contents
replaced a d c m = λ b e. if (a ≟ b) && (d ≟ e) then c else m b e

-- An access is refused for gas, or panics on bytes that cannot be read.
pub data AccessError : Type 0 where
  refused : GasStoreErrors → AccessError
  corrupt : AccessError

-- `contents` is what the store holds under an address and a denomination, decoded. Bank/Stored fills
-- the record.
pub record Ledger : Type 1 where
  pub State : Type 0
  pub contents : State → Contents
  pub get : Bytes → Bytes → Exec State AccessError (Option Coin)
  pub set : Bytes → Bytes → Coin → Exec State AccessError (Unit {0})
  pub delete : Bytes → Bytes → Exec State AccessError (Unit {0})
  -- whether the address has an account
  pub get_account : Bytes → Exec State AccessError Bool
  -- `send_enabled` and `default_send_enabled`
  pub params : Exec State AccessError (List (Bytes × Bool) × Bool)
  pub get_lem :
      (a d : Bytes)
      → Ensures (get a d) (λ s found t.
        (found ≡ contents s a d) × ((b e : Bytes) → contents t b e ≡ contents s b e))
  pub set_lem :
      (a d : Bytes) (c : Coin)
      → Ensures
          (set a d c)
          (λ s _ t. (b e : Bytes) → contents t b e ≡ replaced a d (some c) (contents s) b e)
  pub delete_lem :
      (a d : Bytes)
      → Ensures
          (delete a d)
          (λ s _ t. (b e : Bytes) → contents t b e ≡ replaced a d none (contents s) b e)
  pub get_account_lem :
      (a : Bytes)
      → Ensures (get_account a) (λ s _ t. (b e : Bytes) → contents t b e ≡ contents s b e)
  pub params_lem : Ensures params (λ s _ t. (b e : Bytes) → contents t b e ≡ contents s b e)
