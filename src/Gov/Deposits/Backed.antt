-- ===== src/Gov/Deposits/Backed.antt =====
-- `deposit_add` of x/gov/src/keeper.rs: the coins of the module's account are those of the deposits.
use gears.Base.{
  ℕ, ◌+◌, ◌≡◌, refl, subst, false, List, Option, none, some, All, arith, if◌then◌else◌,
}
use gears.Base.Maps.{
  get, insert, IsAscending, All-insert, insert-IsAscending, size_of, sum-insert, get-All,
}
use gears.Base.Order.{Bytes, bytes_ord, ◌≟◌, ≟_refl}
use gears.Base.Results.{
  ok_or, map_err, Answers, answers, bind-Answers, if-Answers, map_err-ok, ok_or-ok,
}
use gears.Bank.Moves.{total}
use gears.Coins.{Coin}
use gears.Coins.Unsigned.{checked_add}
use gears.Gov.Deposits.{
  Deposit, BankKeeper, State, proposal_unknown, bank, coins, deposit_key, proposal_key,
  takes_deposits, joined, deposit_add,
}
use gears.Gov.Deposits.Sums.{deposited, checked_add-total}

-- What the module relies on of the bank, where it makes a payment: `held` is the balance of an
-- account.
pub record Custody {S : Type 0} (k : BankKeeper S) : Type 0 where
  pub module_address : Bytes
  pub held : S → Bytes → Bytes → ℕ
  pub receives :
      (a : Bytes) (cs : List Coin) (s t : S)
      → k.send_coins_from_account_to_module a cs s ≡ some t
      → (b d : Bytes)
      → held t b d + (if a ≟ b then total cs d else 0)
        ≡ held s b d + (if module_address ≟ b then total cs d else 0)
  pub pays :
      (a : Bytes) (cs : List Coin) (s t : S)
      → k.send_coins_from_module_to_account a cs s ≡ some t
      → (b d : Bytes)
      → held t b d + (if module_address ≟ b then total cs d else 0)
        ≡ held s b d + (if a ≟ b then total cs d else 0)

module _ {S : Type 0} (k : BankKeeper S) (custody : Custody k) where
  -- A deposit stands under its key, and is not the module's own.
  abbrev pub IsEntry : Bytes × Deposit → Type 0
  IsEntry e =
      (e.0 ≡ deposit_key e.1.proposal_id e.1.depositor)
      × ((e.1.depositor ≟ custody.module_address) ≡ false)

  -- The module holds the coins of the deposits, denomination by denomination.
  abbrev pub IsBacked : State S → Type 0
  IsBacked s =
      IsAscending s.deposits
      × All IsEntry s.deposits
      × ((d : Bytes) → custody.held s.funds custody.module_address d ≡ deposited s.deposits d)

  -- What is joined stands under the key of what is added, and is what was there with it.
  abbrev Joins : Deposit → Option Deposit → Deposit → Type 0
  Joins x found y =
      IsEntry (deposit_key x.proposal_id x.depositor, y)
      × ((d : Bytes)
          → total y.amount d ≡ size_of (λ (z : Deposit). total z.amount d) found + total x.amount d)

  joined-Joins :
      (x : Deposit) (found : Option Deposit)
      → (x.depositor ≟ custody.module_address) ≡ false
      → ((y : Deposit) → found ≡ some y → IsEntry (deposit_key x.proposal_id x.depositor, y))
      → Answers (joined x found) (Joins x found) (λ _. Unit)
  unfolding joined
  joined-Joins x none h entry = ((refl, h), λ d. omega arith)
  joined-Joins x (some old) h entry =
      bind-Answers (Joins x (some old)) (λ _. Unit)
        (map_err coins (checked_add old.amount x.amount)) _
        (answers {P = λ c. (d : Bytes) → total c d ≡ total old.amount d + total x.amount d} _
          (λ c e d. checked_add-total old.amount x.amount c d (map_err-ok coins _ c e)) (λ _ _. tt))
        (λ c sums. (entry old refl, sums))

  -- The deposit goes to the place where the one that it joins was.
  stored-IsBacked :
      (x : Deposit) (s : State S) (funds : S) (y : Deposit)
      → IsAscending s.deposits
      → All IsEntry s.deposits
      → ((d : Bytes) → custody.held s.funds custody.module_address d ≡ deposited s.deposits d)
      → ((d : Bytes)
          → custody.held funds custody.module_address d
            ≡ custody.held s.funds custody.module_address d + total x.amount d)
      → Joins x (get (deposit_key x.proposal_id x.depositor) s.deposits) y
      → IsAscending (insert (deposit_key y.proposal_id y.depositor) y s.deposits)
        × All IsEntry (insert (deposit_key y.proposal_id y.depositor) y s.deposits)
        × ((d : Bytes)
            → custody.held funds custody.module_address d
              ≡ deposited (insert (deposit_key y.proposal_id y.depositor) y s.deposits) d)
  stored-IsBacked x s funds y ascending entries backed received ((e, h), sums) =
      let place = deposit_key y.proposal_id y.depositor in
      (
        insert-IsAscending place y s.deposits ascending,
        All-insert IsEntry place y s.deposits (refl, h) entries,
        λ d.
            let size : Deposit → ℕ = λ z. total z.amount d in
            let moved : total y.amount d ≡ size_of size (get place s.deposits) + total x.amount d =
              subst (λ z. total y.amount d ≡ size_of size (get z s.deposits) + total x.amount d) e
                (sums d) in
            omega (arith, sum-insert size place y s.deposits ascending, backed d, received d),
      )

  received-Adds :
      (x : Deposit) (s t : S)
      → (x.depositor ≟ custody.module_address) ≡ false
      → ((b d : Bytes)
          → custody.held t b d + (if x.depositor ≟ b then total x.amount d else 0)
            ≡ custody.held s b d + (if custody.module_address ≟ b then total x.amount d else 0))
      → (d : Bytes)
      → custody.held t custody.module_address d
        ≡ custody.held s custody.module_address d + total x.amount d
  received-Adds x s t h moved d =
      ground (arith, h, moved custody.module_address d, ≟_refl custody.module_address)

  -- A deposit on a proposal that takes it, by a depositor other than the module's account, keeps the coins of the module's account those of all
  -- deposits.
  pub deposit_add-IsBacked :
      (min_deposit : List Coin) (x : Deposit) (s : State S)
      → (x.depositor ≟ custody.module_address) ≡ false
      → IsBacked s
      → Answers (deposit_add k min_deposit x s) (λ answer. IsBacked answer.1) (λ _. Unit)
  unfolding deposit_add
  deposit_add-IsBacked min_deposit x s h (ascending, entries, backed) =
      let there = deposit_key x.proposal_id x.depositor in
      bind-Answers _ _
        (ok_or (proposal_unknown x.proposal_id) (get (proposal_key x.proposal_id) s.proposals)) _
        (answers {P = λ _. Unit {0}} _ (λ _ _. tt) (λ _ _. tt))
        λ proposal _.
          if-Answers _ _ (takes_deposits proposal.status) _ _
            (λ _.
              bind-Answers _ _
                (ok_or bank (k.send_coins_from_account_to_module x.depositor x.amount s.funds)) _
                (answers _
                  (λ t e.
                    received-Adds x s.funds t h
                      (custody.receives x.depositor x.amount s.funds t (ok_or-ok bank _ t e)))
                  (λ _ _. tt))
                λ funds received.
                  bind-Answers _ _ (map_err coins (checked_add proposal.total_deposit x.amount)) _
                    (answers {P = λ _. Unit {0}} _ (λ _ _. tt) (λ _ _. tt))
                    λ total_deposit _.
                      bind-Answers _ _ (joined x (get there s.deposits)) _
                        (joined-Joins x (get there s.deposits) h
                          (λ y e. get-All IsEntry there y s.deposits entries e))
                        λ y joins.
                          stored-IsBacked x s funds y ascending entries backed received joins)
            (λ _. tt)
