-- ===== src/Gov/Deposits/Funds.antt =====
-- x/gov/src/keeper.rs over the keeper of x/bank: its payments between accounts and the module. What
-- `coins_burn` does is an argument.
use gears.Base.{◌≡◌, refl, subst, arith, Option, none, some, List}
use gears.Base.Order.{Bytes, bytes_ord}
use gears.Base.Results.{Result, ok, err}
use gears.Base.Exec.{Exec}
use gears.Base.Exec.Ensures.{Ensures}
use gears.Coins.{Coin}
use gears.Coins.Combine.{Arithmetic}
use gears.KvStore.Tree.{PersistentTree}
use gears.Bank.Moves.{amount}
use gears.Bank.Stored.{Codecs, Context, Trees, balances}
use gears.Bank.Stored.Modules.{
  AccountCodecs, send_coins_from_account_to_module, send_coins_from_module_to_account,
  send_coins_from_account_to_module-Ensures, send_coins_from_module_to_account-Ensures,
}
use gears.Gov.Deposits.{BankKeeper}
use gears.Gov.Deposits.Backed.{Custody}

-- The state where there is no error.
abbrev answer : {E : Type 0} → Result E (Unit {0}) × Context → Option Context
answer (ok _, c) = some c
answer (err _, c) = none

answer-parts :
    {E : Type 0} (r : Result E (Unit {0})) (c c' : Context)
    → answer (r, c) ≡ some c'
    → (r ≡ ok tt) × (c ≡ c')
answer-parts (ok _) c c' e = (refl, cc)
answer-parts (err _) c c' e = absurd (ground arith)

pub answered :
    {E : Type 0} (m : Exec Context E (Unit {0})) (R : Context → Context → Type 0) (c c' : Context)
    → Ensures m (λ s _ t. R s t)
    → answer (m c) ≡ some c'
    → R c c'
answered m R c c' h e =
    let parts = answer-parts (m c).0 (m c).1 c' e in
    subst (λ x. R c x) parts.1 (h.holds c tt parts.0)

module _ (u : Arithmetic) (p : PersistentTree) (codec : Codecs) (accounts : AccountCodecs)
    (reads_back : (c : Coin) → codec.coin_decode (codec.coin_encode_vec c) ≡ some c) where
  open p use {Tree}

  module _ (t : Trees Tree) (gov_mod : Bytes) (blocked_addr : List Bytes)
      (burn : List Coin → Context → Option Context) where
    abbrev pub bank_keeper : BankKeeper Context
    bank_keeper = record {
      send_coins_from_account_to_module = λ a cs c.
          answer (send_coins_from_account_to_module u p codec accounts reads_back t gov_mod a cs c);
      send_coins_from_module_to_account = λ a cs c. answer (
          send_coins_from_module_to_account u p codec accounts reads_back t gov_mod blocked_addr a
            cs c);
      coins_burn = burn;
    }

    abbrev pub custody : Custody bank_keeper
    custody = record {
      module_address = gov_mod;
      held = λ c a d. amount (balances p codec t c a d);
      receives = λ a cs c c' e.
          answered _ _ c c'
            (send_coins_from_account_to_module-Ensures u p codec accounts reads_back t gov_mod a cs)
            e;
      pays = λ a cs c c' e.
          answered _ _ c c'
            (send_coins_from_module_to_account-Ensures u p codec accounts reads_back t gov_mod
              blocked_addr a cs)
            e;
    }
