-- ===== src/Gov/Votes.antt =====
-- x/gov/src/msg/vote.rs and weighted_vote.rs, and the store of votes of x/gov/src/keeper.rs. A
-- decimal is its atomics.
use gears.Base.{
  ℕ, zero, suc, ◌%◌, ◌/◌, ◌||◌, List, [], ◌∷◌, ◌++◌, Option, none, some, ltb, length, if◌then◌else◌,
}
use gears.Base.Maps.{BtreeMap, get, insert, remove}
use gears.Base.Order.{Bytes, bytes_ord}
use gears.KvStore.Prefix.Exact.{begins_with}

pub data VoteOption : Type 0 where
  empty yes abstain no no_with_veto : VoteOption

pub record VoteWeight : Type 0 where
  pub weight_of : ℕ

pub record VoteOptionWeighted : Type 0 where
  pub option : VoteOption
  pub weight : VoteWeight

pub record MsgVoteWeighted : Type 0 where
  pub proposal_id : ℕ
  pub voter : Bytes
  pub options : List VoteOptionWeighted

unfoldable pub try_from : ℕ → Option VoteWeight
try_from value = if ltb value 0 || ltb 0 value then none else some (record { weight_of = value })

-- `u64::to_be_bytes` is that of 8 bytes.
unfoldable pub to_be_bytes : ℕ → ℕ → Bytes
to_be_bytes zero n = []
to_be_bytes (suc k) n = to_be_bytes k (n / 256) ++ n % 256 ∷ []

unfoldable pub votes_prefix : ℕ → Bytes
unfolding to_be_bytes
votes_prefix proposal_id = 32 ∷ to_be_bytes 8 proposal_id

unfoldable pub key : ℕ → Bytes → Bytes
unfolding votes_prefix
key proposal_id voter = votes_prefix proposal_id ++ length voter ∷ voter

-- The store of the module, as far as it holds votes.
abbrev pub Votes : Type 0
Votes = BtreeMap Bytes MsgVoteWeighted

unfoldable pub vote_get : ℕ → Bytes → Votes → Option MsgVoteWeighted
unfolding key
vote_get proposal_id voter m = get (key proposal_id voter) m

unfoldable pub vote_set : MsgVoteWeighted → Votes → Votes
unfolding key
vote_set vote m = insert (key vote.proposal_id vote.voter) vote m

unfoldable pub vote_del : ℕ → Bytes → Votes → Votes
unfolding key
vote_del proposal_id voter m = remove (key proposal_id voter) m

-- What `WeightedVoteIterator` yields.
unfoldable pub weighted_votes : ℕ → Votes → List MsgVoteWeighted
unfolding votes_prefix
weighted_votes proposal_id [] = []
weighted_votes proposal_id ((k, vote) ∷ m) =
    let rest = weighted_votes proposal_id m in
    if begins_with (votes_prefix proposal_id) k then vote ∷ rest else rest
