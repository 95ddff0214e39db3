-- ===== src/Gov/Deposits/Repeats.antt =====
-- `deposit_add` of x/gov/src/keeper.rs: which coins it takes.
use gears.Base.{◌≡◌, subst, List, some, arith}
use gears.Base.Maps.{get}
use gears.Base.Order.{bytes_ord}
use gears.Base.Results.{
  ok, ok_or, map_err, Answers, answers, bind-Answers, if-Answers, map_err-ok, ok_or-ok,
}
use gears.Coins.{Coin}
use gears.Coins.Valid.{IsValid}
use gears.Coins.Unsigned.{checked_add}
use gears.Coins.Unsigned.Laws.{IsBefore, checked_add-chains}
use gears.Gov.Deposits.{
  Deposit, ProposalModel, BankKeeper, State, proposal_unknown, bank, coins, deposit_key,
  proposal_key, takes_deposits, joined, deposit_add,
}

module _ {S : Type 0} (k : BankKeeper S) where
  -- Of valid coins, a proposal takes a deposit only where its denominations are above all those
  -- deposited on the proposal before.
  pub deposit_add-Chains :
      (min_deposit : List Coin) (x : Deposit) (s : State S) (p : ProposalModel)
      → get (proposal_key x.proposal_id) s.proposals ≡ some p
      → IsValid p.total_deposit
      → IsValid x.amount
      → Answers (deposit_add k min_deposit x s) (λ _. IsBefore p.total_deposit x.amount) (λ _. Unit)
  unfolding deposit_add
  deposit_add-Chains min_deposit x s p there valid v =
      bind-Answers _ _
        (ok_or (proposal_unknown x.proposal_id) (get (proposal_key x.proposal_id) s.proposals)) _
        (answers {P = λ q. q ≡ p} _ (λ q e. ground (arith, there, ok_or-ok _ _ q e)) (λ _ _. tt))
        λ q same.
          if-Answers _ _ (takes_deposits q.status) _ _
            (λ _.
              bind-Answers _ _
                (ok_or bank (k.send_coins_from_account_to_module x.depositor x.amount s.funds)) _
                (answers {P = λ _. Unit {0}} _ (λ _ _. tt) (λ _ _. tt))
                λ funds _.
                  bind-Answers _ _ (map_err coins (checked_add q.total_deposit x.amount)) _
                    (answers {P = λ _. IsBefore p.total_deposit x.amount} _
                      (λ c e.
                        ((checked_add-chains p.total_deposit x.amount c valid v).0 (
                          subst (λ z. checked_add z.total_deposit x.amount ≡ ok c) same
                            (map_err-ok coins _ c e))).0)
                      (λ _ _. tt))
                    λ total before.
                      bind-Answers _ _
                        (joined x (get (deposit_key x.proposal_id x.depositor) s.deposits)) _
                        (answers {P = λ _. Unit {0}} _ (λ _ _. tt) (λ _ _. tt)) λ _ _. before)
            (λ _. tt)
