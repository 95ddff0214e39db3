-- ===== src/Gov/Submissions/Refusals.antt =====
-- x/gov/src/abci_handler.rs: what becomes of a proposal with an initial deposit.
use gears.Base.{ℕ, ◌≡◌, refl, sym, ap, subst, ◌∙◌, not, if◌then◌else◌, List, [], ◌∷◌, some}
use gears.Base.Maps.{get, get-insert}
use gears.Base.Order.{bytes_ord, ≟_refl, cmp_bytes_refl}
use gears.Base.Results.{Result, ok, err, ok_or, Answers, answers, bind-Answers, if-Answers}
use gears.Coins.{Coin}
use gears.Coins.Valid.{IsValid}
use gears.Coins.Unsigned.Laws.{IsBefore}
use gears.Time.Timestamp.{checked_add}
use gears.Gov.Deposits.{
  unset, time, deposit_period, ProposalModel, GovKeeperError, BankKeeper, proposal_key, deposit_add,
}
use gears.Gov.Deposits.Repeats.{deposit_add-Chains}
use gears.Gov.Submissions.{MsgSubmitProposal, Store, Setting, submit_proposal, handle_proposal}

IsBefore-self : (a : List Coin) → IsValid a → ¬ IsBefore a a
IsBefore-self [] v h = absurd v.0
IsBefore-self (c ∷ cs) v h = let e = cmp_bytes_refl c.denom in let l = h.0.0 in absurd cc

refused : {E A : Type 0} (r : Result E A) → Answers r (λ _. ⊥) (λ _. Unit) → (e : E) × (r ≡ err e)
refused (ok a) h = absurd h
refused (err e) h = (e, refl)

module _ {S : Type 0} (setting : Setting) where
  -- The proposal stands under its id, with the initial deposit for its total.
  abbrev IsSubmitted : MsgSubmitProposal → ℕ × Store S → Type 0
  IsSubmitted msg submitted =
      (p : ProposalModel) × (get (proposal_key submitted.0) (submitted.1).gov.proposals ≡ some p)
      × (p.total_deposit ≡ msg.initial_deposit)

  submit_proposal-IsSubmitted :
      (msg : MsgSubmitProposal) (s : Store S)
      → Answers (submit_proposal setting msg s) (IsSubmitted msg) (λ _. Unit)
  unfolding submit_proposal
  submit_proposal-IsSubmitted msg s =
      bind-Answers _ _ (ok_or unset s.next_proposal_id) _
        (answers {P = λ _. Unit {0}} _ (λ _ _. tt) (λ _ _. tt))
        λ id _.
          if-Answers _ _ (not (setting.reads msg.content)) _ _ (λ _. tt)
            λ _.
              bind-Answers _ _
                (ok_or time (checked_add setting.submit_time setting.max_deposit_period)) _
                (answers {P = λ _. Unit {0}} _ (λ _ _. tt) (λ _ _. tt))
                λ end_time _.
                  if-Answers _ _ (not (setting.checks msg.content)) _ _ (λ _. tt)
                    λ _.
                      let p : ProposalModel = record {
                        proposal_id = id;
                        status = deposit_period;
                        total_deposit = msg.initial_deposit;
                      } in
                      (
                        p,
                        get-insert (proposal_key id) (proposal_key id) p s.gov.proposals
                            ∙ ap (λ b. if b then some p else get (proposal_key id) s.gov.proposals)
                                (≟_refl (proposal_key id)),
                        refl,
                      )

  -- A proposal with a valid initial deposit is refused, whoever submits it and whatever is stored:
  -- where the submission itself does not fail, the deposit after it does.
  pub handle_proposal-refused :
      (k : BankKeeper S) (msg : MsgSubmitProposal) (s : Store S)
      → IsValid msg.initial_deposit
      → (e : GovKeeperError) × (handle_proposal setting k msg s ≡ err e)
  unfolding handle_proposal
  handle_proposal-refused k msg s v = refused _ (
      bind-Answers _ _ (submit_proposal setting msg s) _ (submit_proposal-IsSubmitted msg s)
        λ submitted (p, there, same).
          bind-Answers _ _
            (deposit_add k setting.min_deposit
              (record {
                proposal_id = submitted.0;
                depositor = msg.proposer;
                amount = msg.initial_deposit;
              })
              (submitted.1).gov)
            _
            (deposit_add-Chains k setting.min_deposit
              (record {
                proposal_id = submitted.0;
                depositor = msg.proposer;
                amount = msg.initial_deposit;
              })
              (submitted.1).gov p there (subst IsValid (sym same) v) v)
            λ added before.
              IsBefore-self msg.initial_deposit v
                (subst (λ a. IsBefore a msg.initial_deposit) same before))
