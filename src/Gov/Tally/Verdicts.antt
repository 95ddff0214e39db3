-- ===== src/Gov/Tally/Verdicts.antt =====
-- `tally` of x/gov/src/keeper.rs: what votes whose weights `VoteWeight::try_from` accepts come to.
use gears.Base.{
  ℕ, ◌*◌, ◌≤◌, ◌<◌, ◌≡◌, refl, sym, ◌∙◌, ap, subst, Bool, true, false, List, [], ◌∷◌, Option, none,
  some, All, ltb, ◌==◌, if◌then◌else◌, arith,
}
use gears.Base.Maps.{BtreeMap, get, All-insert}
use gears.Base.Options.{Gives, bind-Gives, bind-gives, if-Gives}
use gears.Base.Order.{Bytes, bytes_ord, ◌≟◌}
use gears.KvStore.Prefix.Exact.{begins_with}
use gears.Staking.Validator.{Decimals, RoundsDown}
use gears.Gov.Votes.{
  VoteOption, VoteWeight, empty, yes, abstain, no, no_with_veto, VoteOptionWeighted,
  MsgVoteWeighted, Votes, try_from, weighted_votes, votes_prefix,
}
use gears.Gov.Tally.{
  StakingValidator, Delegation, StakingKeeper, TallyParams, ValidatorGovInfo, TallyResultMap, Count,
  Verdict, no_results, result_of, set_result, info_of, validators_of, noted, note_vote, to_result,
  voting_power, count_options, count_power, count_delegation, count_delegations, count_votes,
  count_own, count_validator, count_validators, verdict, tally,
}

-- A weight that the program can hold.
abbrev pub IsAccepted : VoteOptionWeighted → Type 0
IsAccepted o = (value : ℕ) × (try_from value ≡ some o.weight)

abbrev pub AreAccepted : List VoteOptionWeighted → Type 0
AreAccepted options = All IsAccepted options

try_from-zero : (value : ℕ) (w : VoteWeight) → try_from value ≡ some w → w.weight_of ≡ 0
unfolding try_from
try_from-zero value w e = ground arith

abbrev pub InfoAccepted : Bytes × ValidatorGovInfo → Type 0
InfoAccepted e = AreAccepted e.1.vote

-- What holds between the steps: no result but zero, and accepted weights only.
abbrev IsBare : Count → Type 0
IsBare c = (c.tally_results ≡ no_results) × All InfoAccepted c.curr_validators

get-Accepted :
    (k : Bytes) (m : BtreeMap Bytes ValidatorGovInfo)
    → All InfoAccepted m
    → Gives (get k m) (λ info. AreAccepted info.vote)
unfolding get
get-Accepted k [] a = tt
get-Accepted k ((j, v) ∷ m) a =
    if-Gives _ (j ≟ k) (some v) (get k m) (λ _. a.0) (λ _. get-Accepted k m a.1)

validators_of-Accepted :
    (vs : List StakingValidator) (m : BtreeMap Bytes ValidatorGovInfo)
    → All InfoAccepted m
    → All InfoAccepted (validators_of vs m)
unfolding validators_of
validators_of-Accepted [] m a = a
validators_of-Accepted (v ∷ vs) m a =
    validators_of-Accepted vs _ (All-insert InfoAccepted v.operator (info_of v) m tt a)

noted-Accepted :
    (v : MsgVoteWeighted) (found : Option ValidatorGovInfo) (m : BtreeMap Bytes ValidatorGovInfo)
    → AreAccepted v.options
    → All InfoAccepted m
    → All InfoAccepted (noted v found m)
noted-Accepted v none m h a = a
noted-Accepted v (some info) m h a =
    All-insert InfoAccepted v.voter (record info { vote = v.options }) m h a

result_of-no : (o : VoteOption) → result_of o no_results ≡ 0
unfolding result_of
result_of-no empty = refl
result_of-no yes = refl
result_of-no abstain = refl
result_of-no no = refl
result_of-no no_with_veto = refl

set_result-no : (o : VoteOption) → set_result o 0 no_results ≡ no_results
unfolding set_result
set_result-no empty = refl
set_result-no yes = refl
set_result-no abstain = refl
set_result-no no = refl
set_result-no no_with_veto = refl

if-All :
    {A : Type 0} (P : A → Type 0) (b : Bool) (xs ys : List A)
    → All P xs
    → All P ys
    → All P (if b then xs else ys)
if-All P true xs ys a c = a
if-All P false xs ys a c = c

weighted_votes-Accepted :
    (proposal_id : ℕ) (m : Votes)
    → All (λ (e : Bytes × MsgVoteWeighted). AreAccepted e.1.options) m
    → All (λ (v : MsgVoteWeighted). AreAccepted v.options) (weighted_votes proposal_id m)
unfolding weighted_votes
weighted_votes-Accepted proposal_id [] a = tt
weighted_votes-Accepted proposal_id ((k, v) ∷ m) (h, a) =
    if-All _ (begins_with (votes_prefix proposal_id) k) (v ∷ weighted_votes proposal_id m) _
      (h, weighted_votes-Accepted proposal_id m a) (weighted_votes-Accepted proposal_id m a)

module _ (d : Decimals) (l : RoundsDown d) where
  zero_of_scaled : (m z : ℕ) → m * z ≤ 0 → 0 < z → m ≡ 0
  zero_of_scaled m z e p = grind arith

  mul_zero : (a w m : ℕ) → w ≡ 0 → d.checked_mul a w ≡ some m → m ≡ 0
  mul_zero a w m z e =
      let floor : m * d.scale ≤ a * 0 =
        subst (λ x. m * d.scale ≤ a * x) z (l.checked_mul_floor a w m e) in
      zero_of_scaled m d.scale (omega arith) l.scale_positive

  count_options-no :
      (power : ℕ) (os : List VoteOptionWeighted)
      → AreAccepted os
      → Gives (count_options d power os no_results) (λ r. r ≡ no_results)
  unfolding count_options
  count_options-no power [] a = refl
  count_options-no power (o ∷ os) ((value, e), a) =
      bind-gives _ (d.checked_mul power o.weight.weight_of) _ λ m f.
        bind-gives _ (d.checked_add (result_of o.option no_results) m) _ λ s g.
          let z : s ≡ 0 = omega (
            arith,
            l.checked_add_exact _ m s g,
            result_of-no o.option,
            mul_zero power _ m (try_from-zero value o.weight e) f,
          ) in
          subst (λ r. Gives (count_options d power os r) (λ r. r ≡ no_results))
            (sym (ap (λ x. set_result o.option x no_results) z ∙ set_result-no o.option))
            (count_options-no power os a)

  count_on-no :
      (power : ℕ) (os : List VoteOptionWeighted) (r : TallyResultMap)
      → AreAccepted os
      → r ≡ no_results
      → Gives (count_options d power os r) (λ r. r ≡ no_results)
  count_on-no power os r a e =
      subst (λ r. Gives (count_options d power os r) (λ r. r ≡ no_results)) (sym e)
        (count_options-no power os a)

  count_power-IsBare :
      (v : MsgVoteWeighted) (x : Delegation) (found : Option ValidatorGovInfo) (c : Count)
      → AreAccepted v.options
      → Gives found (λ info. AreAccepted info.vote)
      → IsBare c
      → Gives (count_power d v x found c) IsBare
  unfolding count_power
  count_power-IsBare v x none c h a b = b
  count_power-IsBare v x (some info) c h a b =
      bind-gives IsBare (d.checked_add info.delegator_deduction x.shares) _ λ deduction _.
        bind-gives IsBare (voting_power d x.shares info) _ λ power _.
          bind-Gives IsBare (count_options d power v.options c.tally_results) _
            (count_on-no power v.options c.tally_results h b.0)
            λ results e. bind-gives IsBare (d.checked_add c.total_voting_power power) _ λ total _. (
              e,
              All-insert InfoAccepted x.validator (record info { delegator_deduction = deduction })
                  c.curr_validators a b.1,
            )

  count_delegation-IsBare :
      (proposal_id : ℕ) (v : MsgVoteWeighted) (x : Delegation) (c : Count)
      → AreAccepted v.options
      → IsBare c
      → Gives (count_delegation d proposal_id v x c) IsBare
  unfolding count_delegation
  count_delegation-IsBare proposal_id v x c h b =
      bind-Gives IsBare (count_power d v x (get x.validator c.curr_validators) c) _
        (count_power-IsBare v x _ c h (get-Accepted x.validator c.curr_validators b.1) b)
        λ counted b'. b'

  count_delegations-IsBare :
      (proposal_id : ℕ) (v : MsgVoteWeighted) (xs : List Delegation) (c : Count)
      → AreAccepted v.options
      → IsBare c
      → Gives (count_delegations d proposal_id v xs c) IsBare
  unfolding count_delegations
  count_delegations-IsBare proposal_id v [] c h b = b
  count_delegations-IsBare proposal_id v (x ∷ xs) c h b =
      bind-Gives IsBare (count_delegation d proposal_id v x c) _
        (count_delegation-IsBare proposal_id v x c h b)
        λ c' b'. count_delegations-IsBare proposal_id v xs c' h b'

  count_votes-IsBare :
      (k : StakingKeeper) (proposal_id : ℕ) (vs : List MsgVoteWeighted) (c : Count)
      → All (λ (v : MsgVoteWeighted). AreAccepted v.options) vs
      → IsBare c
      → Gives (count_votes d k proposal_id vs c) IsBare
  unfolding count_votes note_vote
  count_votes-IsBare k proposal_id [] c h b = b
  count_votes-IsBare k proposal_id (v ∷ vs) c (h, hs) b =
      bind-Gives IsBare
        (count_delegations d proposal_id v (k.delegations v.voter)
          (record c { curr_validators = note_vote v c.curr_validators }))
        _
        (count_delegations-IsBare proposal_id v (k.delegations v.voter) _ h
          (b.0, noted-Accepted v (get v.voter c.curr_validators) c.curr_validators h b.1))
        λ c' b'. count_votes-IsBare k proposal_id vs c' hs b'

  count_own-no :
      (info : ValidatorGovInfo) (os : List VoteOptionWeighted) (c : Count)
      → AreAccepted os
      → c.tally_results ≡ no_results
      → Gives (count_own d info os c) (λ c. c.tally_results ≡ no_results)
  unfolding count_own
  count_own-no info [] c a e = e
  count_own-no info (o ∷ os) c a e =
      bind-gives _ (d.checked_sub info.delegator_shares info.delegator_deduction) _ λ shares _.
        bind-gives _ (voting_power d shares info) _ λ power _.
          bind-Gives _ (count_options d power (o ∷ os) c.tally_results) _
            (count_on-no power (o ∷ os) c.tally_results a e)
            λ results f. bind-gives _ (d.checked_add c.total_voting_power power) _ λ total _. f

  count_validators-no :
      (m : BtreeMap Bytes ValidatorGovInfo) (c : Count)
      → All InfoAccepted m
      → c.tally_results ≡ no_results
      → Gives (count_validators d m c) (λ c. c.tally_results ≡ no_results)
  unfolding count_validators count_validator
  count_validators-no [] c a e = e
  count_validators-no ((_, info) ∷ m) c (a, as') e =
      bind-Gives _ (count_own d info info.vote c) _ (count_own-no info info.vote c a e)
        λ c' e'. count_validators-no m c' as' e'

  -- The verdict is against, and every sum is zero.
  abbrev pub IsLost : Verdict → Type 0
  IsLost v = (v.passes ≡ false) × (v.tally_result ≡ to_result d no_results)

  -- A share of nothing is over no threshold.
  no_share :
      (total voting share threshold : ℕ)
      → (total == 0) ≡ false
      → d.checked_sub total 0 ≡ some voting
      → d.checked_div 0 voting ≡ some share
      → ltb threshold share ≡ false
  no_share total voting share threshold e f g =
      let positive : 0 < voting = ground (arith, l.checked_sub_exact total 0 voting f) in
      let z : share ≡ 0 =
        zero_of_scaled share voting (omega (arith, l.checked_div_floor 0 voting share g))
          positive in
      ground arith

  verdict-no :
      (params : TallyParams) (total_bonded total : ℕ)
      → Gives (verdict d params total_bonded no_results total) IsLost
  unfolding verdict
  verdict-no params total_bonded total =
      if-Gives IsLost (total_bonded == 0) _ _ (λ _. (refl, refl))
        λ _. bind-gives IsLost (d.from_atomics total_bonded) _ λ bonded _.
          bind-gives IsLost (d.checked_div total bonded) _ λ percent _.
            if-Gives IsLost (ltb percent params.quorum) _ _ (λ _. (refl, refl))
              λ _.
                if-Gives IsLost (total == 0) _ _ (λ _. (refl, refl))
                  λ voted. bind-gives IsLost (d.checked_div 0 total) _ λ veto _.
                    if-Gives IsLost (ltb params.veto_threshold veto) _ _ (λ _. (refl, refl))
                      λ _. bind-gives IsLost (d.checked_sub total 0) _ λ voting f.
                        bind-gives IsLost (d.checked_div 0 voting) _ λ in_favour g.
                          (no_share total voting in_favour params.threshold voted f g, refl)

  verdict_on-no :
      (params : TallyParams) (total_bonded total : ℕ) (r : TallyResultMap)
      → r ≡ no_results
      → Gives (verdict d params total_bonded r total) IsLost
  verdict_on-no params total_bonded total r e =
      subst (λ r. Gives (verdict d params total_bonded r total) IsLost) (sym e)
        (verdict-no params total_bonded total)

  -- Where every vote in the store has accepted weights, a tally that ends is against the proposal,
  -- whatever was voted, and all its sums are zero.
  pub tally-IsLost :
      (k : StakingKeeper) (params : TallyParams) (proposal_id : ℕ) (m : Votes)
      → All (λ (e : Bytes × MsgVoteWeighted). AreAccepted e.1.options) m
      → Gives (tally d k params proposal_id m) (λ answer. IsLost answer.0)
  unfolding tally
  tally-IsLost k params proposal_id m a =
      bind-Gives _ (count_votes d k proposal_id (weighted_votes proposal_id m) _) _
        (count_votes-IsBare k proposal_id (weighted_votes proposal_id m) _
          (weighted_votes-Accepted proposal_id m a)
          (refl, validators_of-Accepted k.bonded_validators_by_power [] tt))
        λ voted b.
          bind-Gives _ (count_validators d voted.curr_validators voted) _
            (count_validators-no voted.curr_validators voted b.1 b.0)
            λ c e.
              bind-Gives _
                (verdict d params k.total_bonded_tokens c.tally_results c.total_voting_power) _
                (verdict_on-no params k.total_bonded_tokens c.total_voting_power c.tally_results e)
                λ v lost. lost
