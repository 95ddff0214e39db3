-- ===== src/Bank/Delegation/Conserves.antt =====
-- Delegation and its reverse move coins between two accounts, and make or lose none.
use gears.Base.{◌≡◌, refl, ◌+◌, true, false, Bool, List, [], ◌∷◌, arith, if◌then◌else◌}
use gears.Base.Order.{Bytes, bytes_ord, ◌≟◌}
use gears.Base.Results.{ok, map_err}
use gears.Base.Exec.{Exec, lift, ◌>>=◌, ◌>>◌}
use gears.Base.Exec.Ensures.{Ensures, bind-Ensures, weaken-Ensures, fail-Ensures}
use gears.Coins.{Coin}
use gears.Coins
use gears.Coins.Combine.{Arithmetic}
use gears.Bank.Ledger.{Ledger}
use gears.Bank.Keeper.{BankKeeperError, coins_error, add_coins}
use gears.Bank.Moves.{total, held, metered-Ensures, Debits}
use gears.Bank.Delegation.Additions.{IsKeyed, Same, Moves, IsKeyed-Same, add_coins-Ensures}
use gears.Bank.Delegation.Stakes.{sub_all-Ensures, stake_all-Ensures}
use gears.Bank.Delegation.{
  locked_coins, require_account, required, sub_all, stake_all, sub_unlocked_coins, delegate_coins,
  undelegate_coins,
}

module _ (u : Arithmetic) (l : Ledger) where
  open l use {State}

  require_account-Ensures :
      (address : Bytes) → Ensures (require_account u l address) (λ s _ t. Same u l s t)
  unfolding require_account
  require_account-Ensures address =
      bind-Ensures _ _ {Q = λ _ t _ v. v ≡ t} (metered-Ensures u l _ (l.get_account_lem address))
        (λ found. required-Ensures address found) (λ s x t y v r q. rw q r)
    where
      required-Ensures :
          (address : Bytes) (found : Bool) → Ensures (required u l address found) (λ t _ v. v ≡ t)
      required-Ensures address true = record { holds = λ s a h. refl }
      required-Ensures address false = fail-Ensures _

  locked_coins-Ensures :
      (address : Bytes)
      → Ensures (locked_coins u l address) (λ s locked t. (locked ≡ []) × Same u l s t)
  unfolding locked_coins
  locked_coins-Ensures address =
      bind-Ensures _ _ {Q = λ _ t locked v. (locked ≡ []) × (v ≡ t)}
        (metered-Ensures u l _ (l.get_account_lem address))
        (λ found. record { holds = λ s a h. ground arith }) (λ s x t y v r q. (q.0, rw (q.1) r))

  after-Same :
      (address : Bytes) (coins : List Coin) (s t v : State)
      → Same u l s t
      → Moves u l (Debits u l address coins) t v
      → Moves u l (Debits u l address coins) s v
  after-Same address coins s t v same q keyed =
      let one = q (IsKeyed-Same u l s t same keyed) in
      (one.0, λ a d. ground (arith, one.1 a d, same a d))

  unlocked-Ensures :
      (address : Bytes) (coins locked : List Coin)
      → Ensures
          (sub_all u l address locked coins)
          (λ s _ t. locked ≡ [] → Moves u l (Debits u l address coins) s t)
  unlocked-Ensures address coins [] =
      weaken-Ensures (sub_all-Ensures u l address coins) (λ s x t r _. r)
  unlocked-Ensures address coins (c ∷ locked) = record { holds = λ s x e h. cc }

  sub_unlocked_coins-Ensures :
      (address : Bytes) (coins : List Coin)
      → Ensures
          (sub_unlocked_coins u l address coins)
          (λ s _ t. Moves u l (Debits u l address coins) s t)
  unfolding sub_unlocked_coins
  sub_unlocked_coins-Ensures address coins =
      bind-Ensures _ _ (locked_coins-Ensures address)
        (λ locked. unlocked-Ensures address coins locked)
        (λ s locked t x v r q. after-Same address coins s t v r.1 (q r.0))

  -- A test before a debit, and one after it.
  tested-Ensures :
      {A : Type 0} (module_address address : Bytes) (coins : List Coin)
      → (m : Exec State BankKeeperError A)
      → Ensures m (λ s _ t. Moves u l (Debits u l address coins) s t)
      → Ensures
          (require_account u l module_address >> m)
          (λ s _ t. Moves u l (Debits u l address coins) s t)
  tested-Ensures module_address address coins m h =
      bind-Ensures _ _ (require_account-Ensures module_address) (λ _. h)
        (λ s x t y v r q. after-Same address coins s t v r q)

  abbrev Moved : Bytes → Bytes → List Coin → State → State → Type 0
  Moved from to coins s t =
      (a d : Bytes)
      → held u l t a d + (if from ≟ a then total coins d else 0)
        ≡ held u l s a d + (if to ≟ a then total coins d else 0)

  -- The end that delegation and its reverse share.
  credited-Ensures :
      {A : Type 0} (from to account : Bytes) (coins : List Coin)
      → (m : Exec State BankKeeperError A)
      → Ensures m (λ s _ t. Moves u l (Debits u l from coins) s t)
      → Ensures
          ((m >>= λ _. require_account u l account) >>= λ _. add_coins u l to coins)
          (λ s _ t. Moves u l (Moved from to coins) s t)
  credited-Ensures from to account coins m h =
      bind-Ensures _ _ {R = λ s _ t. Moves u l (Debits u l from coins) s t}
        (bind-Ensures _ _ h (λ _. require_account-Ensures account)
          (λ s x t y v r q keyed.
            let one = r keyed in
            (IsKeyed-Same u l t v q one.0, λ a d. ground (arith, one.1 a d, q a d))))
        (λ _. add_coins-Ensures u l to coins)
        (λ s x t y v r q keyed.
          let one = r keyed in
          let two = q one.0 in (two.0, λ a d. ground (arith, one.1 a d, two.1 a d)))

  validated-Ensures :
      (module_address address : Bytes) (coins : List Coin)
      → Ensures
          ((require_account u l module_address >> stake_all u l address coins) >>= λ balances.
            lift (map_err coins_error (Coins.new balances)))
          (λ s _ t. Moves u l (Debits u l address coins) s t)
  validated-Ensures module_address address coins =
      bind-Ensures _ _ {Q = λ _ t _ v. v ≡ t}
        (tested-Ensures module_address address coins _ (stake_all-Ensures u l address coins))
        (λ balances. record { holds = λ s a e. refl }) (λ s x t y v r q. rw q r)

  delegate_coins-Ensures :
      (from to : Bytes) (coins : List Coin)
      → Ensures (delegate_coins u l from to coins) (λ s _ t. Moves u l (Moved from to coins) s t)
  unfolding delegate_coins
  delegate_coins-Ensures from to coins =
      credited-Ensures from to from coins _ (validated-Ensures to from coins)

  undelegate_coins-Ensures :
      (from to : Bytes) (coins : List Coin)
      → Ensures (undelegate_coins u l from to coins) (λ s _ t. Moves u l (Moved from to coins) s t)
  unfolding undelegate_coins
  undelegate_coins-Ensures from to coins =
      credited-Ensures from to to coins _
        (tested-Ensures from from coins _ (sub_unlocked_coins-Ensures from coins))

  -- Where `delegate_coins` succeeds, in a store that holds each balance under its own denomination,
  -- the store still does, and the coins have moved from the delegator to the module, with every
  -- other balance as it was.
  pub delegate_coins-moves :
      (delegator_addr module_acc_addr : Bytes) (coins : List Coin) (s : State)
      → IsKeyed u l s
      → (delegate_coins u l delegator_addr module_acc_addr coins s).0 ≡ ok tt
      → IsKeyed u l (delegate_coins u l delegator_addr module_acc_addr coins s).1
        × Moved delegator_addr module_acc_addr coins s
            (delegate_coins u l delegator_addr module_acc_addr coins s).1
  delegate_coins-moves delegator_addr module_acc_addr coins s keyed h =
      (delegate_coins-Ensures delegator_addr module_acc_addr coins).holds s tt h keyed

  -- Where `undelegate_coins` succeeds, in a store that holds each balance under its own
  -- denomination, the store still does, and the coins have moved from the module to the delegator,
  -- with every other balance as it was.
  pub undelegate_coins-moves :
      (module_acc_addr delegator_addr : Bytes) (coins : List Coin) (s : State)
      → IsKeyed u l s
      → (undelegate_coins u l module_acc_addr delegator_addr coins s).0 ≡ ok tt
      → IsKeyed u l (undelegate_coins u l module_acc_addr delegator_addr coins s).1
        × Moved module_acc_addr delegator_addr coins s
            (undelegate_coins u l module_acc_addr delegator_addr coins s).1
  undelegate_coins-moves module_acc_addr delegator_addr coins s keyed h =
      (undelegate_coins-Ensures module_acc_addr delegator_addr coins).holds s tt h keyed
