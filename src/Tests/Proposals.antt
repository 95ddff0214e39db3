-- ===== src/Tests/Proposals.antt =====
-- The theorems of Gov, with one decimal digit.
use gears.Base.{◌≡◌, refl, true, false, some, [], ◌∷◌}
use gears.Base.Maps.{get, insert, remove}
use gears.Base.Options.{Gives}
use gears.Gov.Votes.{yes, MsgVoteWeighted, Votes, try_from}
use gears.Gov.Tally.{StakingKeeper, TallyParams, TallyResultMap, verdict, tally}
use gears.Gov.Tally.Verdicts.{IsLost, tally-IsLost}
use gears.Tests.Validators.{tenths, tenths-RoundsDown}

-- One validator has half of its shares from the voter.
abbrev staking : StakingKeeper
staking = record {
  bonded_validators_by_power =
      record { operator = 1 ∷ []; bonded_tokens = 9; validator_shares = 100 } ∷ [];
  delegations = λ _. record { validator = 1 ∷ []; shares = 50 } ∷ [];
  total_bonded_tokens = 9;
}

abbrev tally_params : TallyParams
tally_params = record { quorum = 3; threshold = 5; veto_threshold = 3 }

abbrev in_favour : MsgVoteWeighted
in_favour = record {
  proposal_id = 7;
  voter = 2 ∷ [];
  options = record { option = yes; weight = record { weight_of = 0 } } ∷ [];
}

abbrev cast : Votes
cast = (32 ∷ 0 ∷ 0 ∷ 0 ∷ 0 ∷ 0 ∷ 0 ∷ 0 ∷ 7 ∷ 1 ∷ 2 ∷ [], in_favour) ∷ []

accepted : try_from 0 ≡ some (record { weight_of = 0 })
unfolding try_from
accepted = refl

-- The quorum is there, all are in favour, and the proposal is rejected.
rejected :
    tally tenths staking tally_params 7 cast
    ≡ some (
      record {
        passes = false;
        burn_deposit = false;
        tally_result = record {
          yes_tokens = 0;
          abstain_tokens = 0;
          no_tokens = 0;
          no_with_veto_tokens = 0;
        };
      },
      [],
    )
unfolding tally get insert remove
rejected = refl

tally-IsLost_example :
    Gives
      (tally tenths staking tally_params 7 cast)
      (λ answer. IsLost tenths tenths-RoundsDown answer.0)
tally-IsLost_example =
    tally-IsLost tenths tenths-RoundsDown staking tally_params 7 cast (((0, accepted), tt), tt)

abbrev sums : TallyResultMap
sums = record { of_empty = 0; of_yes = 30; of_abstain = 5; of_no = 10; of_veto = 0 }

carried :
    verdict tenths tally_params 9 sums 45
    ≡ some (record {
      passes = true;
      burn_deposit = false;
      tally_result = record {
        yes_tokens = 3;
        abstain_tokens = 0;
        no_tokens = 1;
        no_with_veto_tokens = 0;
      };
    })
unfolding verdict
carried = refl
