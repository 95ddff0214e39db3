-- ===== src/Gov/Tally.antt =====
-- `tally` of x/gov/src/keeper.rs. `none` is an error of the arithmetic or a panic: `end_block` panics
-- on either.
pub mod Verdicts
use gears.Base.{ℕ, Bool, true, false, List, [], ◌∷◌, Option, none, some, ltb, ◌==◌, if◌then◌else◌}
use gears.Base.Maps.{BtreeMap, get, insert}
use gears.Base.Options.{◌>>=◌}
use gears.Base.Order.{Bytes, bytes_ord}
use gears.Staking.Validator.{Decimals}
use gears.Gov.Votes.{
  VoteOption, empty, yes, abstain, no, no_with_veto, VoteOptionWeighted, MsgVoteWeighted, Votes,
  vote_del, weighted_votes,
}

-- The traits `StakingValidator` and `StakingDelegation`, as far as they are called below.
pub record StakingValidator : Type 0 where
  pub operator : Bytes
  pub bonded_tokens : ℕ
  pub validator_shares : ℕ

pub record Delegation : Type 0 where
  pub validator : Bytes
  pub shares : ℕ

-- The trait `GovStakingKeeper`, at the state that the tally reads.
pub record StakingKeeper : Type 0 where
  pub bonded_validators_by_power : List StakingValidator
  pub delegations : Bytes → List Delegation
  pub total_bonded_tokens : ℕ

pub record TallyParams : Type 0 where
  pub quorum : ℕ
  pub threshold : ℕ
  pub veto_threshold : ℕ

pub record ValidatorGovInfo : Type 0 where
  pub address : Bytes
  pub bounded_tokens : ℕ
  pub delegator_shares : ℕ
  pub delegator_deduction : ℕ
  pub vote : List VoteOptionWeighted

-- The map has an entry for every option from the start, so that it is a field for each.
pub record TallyResultMap : Type 0 where
  pub of_empty : ℕ
  pub of_yes : ℕ
  pub of_abstain : ℕ
  pub of_no : ℕ
  pub of_veto : ℕ

pub record TallyResult : Type 0 where
  pub yes_tokens : ℕ
  pub abstain_tokens : ℕ
  pub no_tokens : ℕ
  pub no_with_veto_tokens : ℕ

-- The variables of `tally`, and the votes in the store. The map of the validators is walked in the
-- order of its keys; the code's order is any.
pub record Count : Type 0 where
  pub curr_validators : BtreeMap Bytes ValidatorGovInfo
  pub tally_results : TallyResultMap
  pub total_voting_power : ℕ
  pub votes : Votes

pub record Verdict : Type 0 where
  pub passes : Bool
  pub burn_deposit : Bool
  pub tally_result : TallyResult

abbrev pub no_results : TallyResultMap
no_results = record { of_empty = 0; of_yes = 0; of_abstain = 0; of_no = 0; of_veto = 0 }

-- `get_mut`, to read and to write
unfoldable pub result_of : VoteOption → TallyResultMap → ℕ
result_of empty r = r.of_empty
result_of yes r = r.of_yes
result_of abstain r = r.of_abstain
result_of no r = r.of_no
result_of no_with_veto r = r.of_veto

unfoldable pub set_result : VoteOption → ℕ → TallyResultMap → TallyResultMap
set_result empty n r = record r { of_empty = n }
set_result yes n r = record r { of_yes = n }
set_result abstain n r = record r { of_abstain = n }
set_result no n r = record r { of_no = n }
set_result no_with_veto n r = record r { of_veto = n }

abbrev pub info_of : StakingValidator → ValidatorGovInfo
info_of v = record {
  address = v.operator;
  bounded_tokens = v.bonded_tokens;
  delegator_shares = v.validator_shares;
  delegator_deduction = 0;
  vote = [];
}

unfoldable pub validators_of :
    List StakingValidator → BtreeMap Bytes ValidatorGovInfo → BtreeMap Bytes ValidatorGovInfo
validators_of [] m = m
validators_of (v ∷ vs) m = validators_of vs (insert v.operator (info_of v) m)

-- `if let Some(validator) = curr_validators.get_mut(&val_addr)`
abbrev pub noted :
    MsgVoteWeighted
    → Option ValidatorGovInfo
    → BtreeMap Bytes ValidatorGovInfo
    → BtreeMap Bytes ValidatorGovInfo
noted v none m = m
noted v (some info) m = insert v.voter (record info { vote = v.options }) m

unfoldable pub note_vote :
    MsgVoteWeighted → BtreeMap Bytes ValidatorGovInfo → BtreeMap Bytes ValidatorGovInfo
note_vote v m = noted v (get v.voter m) m

module _ (d : Decimals) where
  unfoldable pub to_result : TallyResultMap → TallyResult
  to_result r = record {
    yes_tokens = d.to_uint_floor r.of_yes;
    abstain_tokens = d.to_uint_floor r.of_abstain;
    no_tokens = d.to_uint_floor r.of_no;
    no_with_veto_tokens = d.to_uint_floor r.of_veto;
  }

  -- Shares times the bonded tokens over all shares.
  unfoldable pub voting_power : ℕ → ValidatorGovInfo → Option ℕ
  voting_power shares info = d.from_atomics info.bounded_tokens >>= λ tokens.
      d.checked_mul shares tokens >>= λ product. d.checked_div product info.delegator_shares

  unfoldable pub count_options :
      ℕ → List VoteOptionWeighted → TallyResultMap → Option TallyResultMap
  unfolding result_of set_result
  count_options power [] r = some r
  count_options power (o ∷ os) r = d.checked_mul power o.weight.weight_of >>= λ weighted.
      d.checked_add (result_of o.option r) weighted >>= λ sum.
      count_options power os (set_result o.option sum r)

  -- `if let Some(validator) = curr_validators.get_mut(delegation.validator())`
  unfoldable pub count_power :
      MsgVoteWeighted → Delegation → Option ValidatorGovInfo → Count → Option Count
  unfolding voting_power count_options
  count_power v delegation none c = some c
  count_power v delegation (some info) c =
      d.checked_add info.delegator_deduction delegation.shares >>= λ deduction.
      voting_power delegation.shares info >>= λ power.
      count_options power v.options c.tally_results >>= λ results.
      d.checked_add c.total_voting_power power >>= λ total. some (record c {
        curr_validators =
            insert delegation.validator (record info { delegator_deduction = deduction })
              c.curr_validators;
        tally_results = results;
        total_voting_power = total;
      })

  unfoldable pub count_delegation : ℕ → MsgVoteWeighted → Delegation → Count → Option Count
  unfolding count_power vote_del
  count_delegation proposal_id v delegation c =
      count_power v delegation (get delegation.validator c.curr_validators) c >>= λ counted.
      some (record counted { votes = vote_del proposal_id v.voter counted.votes })

  unfoldable pub count_delegations : ℕ → MsgVoteWeighted → List Delegation → Count → Option Count
  unfolding count_delegation
  count_delegations proposal_id v [] c = some c
  count_delegations proposal_id v (x ∷ xs) c =
      count_delegation proposal_id v x c >>= λ c'. count_delegations proposal_id v xs c'

  unfoldable pub count_votes : StakingKeeper → ℕ → List MsgVoteWeighted → Count → Option Count
  unfolding note_vote count_delegations
  count_votes k proposal_id [] c = some c
  count_votes k proposal_id (v ∷ vs) c =
      count_delegations proposal_id v (k.delegations v.voter)
        (record c { curr_validators = note_vote v c.curr_validators })
      >>= λ c'. count_votes k proposal_id vs c'

  -- The power that is left to the validator goes to the options of its own vote, if it has voted.
  unfoldable pub count_own : ValidatorGovInfo → List VoteOptionWeighted → Count → Option Count
  unfolding voting_power count_options
  count_own info [] c = some c
  count_own info (o ∷ os) c =
      d.checked_sub info.delegator_shares info.delegator_deduction >>= λ shares.
      voting_power shares info >>= λ power.
      count_options power (o ∷ os) c.tally_results >>= λ results.
      d.checked_add c.total_voting_power power >>= λ total.
      some (record c { tally_results = results; total_voting_power = total })

  unfoldable pub count_validator : ValidatorGovInfo → Count → Option Count
  unfolding count_own
  count_validator info c = count_own info info.vote c

  unfoldable pub count_validators : BtreeMap Bytes ValidatorGovInfo → Count → Option Count
  unfolding count_validator
  count_validators [] c = some c
  count_validators ((_, info) ∷ m) c = count_validator info c >>= λ c'. count_validators m c'

  -- What follows the loops.
  unfoldable pub verdict : TallyParams → ℕ → TallyResultMap → ℕ → Option Verdict
  unfolding to_result
  verdict params total_bonded_tokens r total =
      let answer : Bool → Bool → Option Verdict = λ passes burn.
        some (record { passes = passes; burn_deposit = burn; tally_result = to_result r }) in
      if total_bonded_tokens == 0
      then answer false false
      else (d.from_atomics total_bonded_tokens >>= λ bonded.
          d.checked_div total bonded >>= λ percent_voting.
          if ltb percent_voting params.quorum
          then answer false true
          else if total == r.of_abstain
          then answer false false
          else (d.checked_div r.of_veto total >>= λ veto.
              if ltb params.veto_threshold veto
              then answer false true
              else (d.checked_sub total r.of_abstain >>= λ voting.
                  d.checked_div r.of_yes voting >>= λ in_favour.
                  answer (ltb params.threshold in_favour) false)))

  unfoldable pub tally : StakingKeeper → TallyParams → ℕ → Votes → Option (Verdict × Votes)
  unfolding validators_of count_votes count_validators verdict weighted_votes
  tally k params proposal_id m =
      count_votes k proposal_id (weighted_votes proposal_id m) (record {
        curr_validators = validators_of k.bonded_validators_by_power [];
        tally_results = no_results;
        total_voting_power = 0;
        votes = m;
      })
      >>= λ voted. count_validators voted.curr_validators voted >>= λ c.
          verdict params k.total_bonded_tokens c.tally_results c.total_voting_power >>= λ v.
          some (v, c.votes)
