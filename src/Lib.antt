-- ===== src/Lib.antt =====
-- A verification library for gears, a framework for Cosmos chains.
--
-- Parts and how they interact:
-- - A key-value store (kv_store/src) lies over a persistent tree. An application bank keeps the
--   pending writes of the application; a transaction bank keeps those of the running transaction
--   over those of the block. Moving writes between these caches is what makes transactions and
--   blocks atomic.
--     KvStore/Cache: kv_store/src/cache.rs, `KVCache` as `KvCache`.
--     KvStore/Tree: the interface of trees/src/iavl/tree.rs, as the record `PersistentTree`.
--     KvStore/Application: kv_store/src/bank/kv/application.rs.
--     KvStore/Transaction: kv_store/src/bank/kv/transaction.rs; Transaction/Ops has the plain maps
--     that a transaction bank refines.
--     KvStore/Merge, KvStore/Range: kv_store/src/utils.rs and the `range` methods of the banks.
--     KvStore/Bounds: the bounds of the standard library.
--     KvStore/Prefix: kv_store/src/store/prefix.
-- - The tree behind the stores (trees/src/iavl) is balanced and hashed, and keeps its versions in a
--   database of nodes. Iavl/Store fills the interface `PersistentTree` with it.
--     Iavl/Node, Iavl/Rotate, Iavl/Insert, Iavl/Remove, Iavl/Tree: trees/src/iavl/tree.rs; the
--     modules below them have the proofs: heights, entries and keys, hashes. Iavl/Shape, Iavl/Keys
--     and Iavl/Merkle say what holds of a tree.
--     Iavl/NodeDb: trees/src/iavl/node_db.rs.
--     Iavl/Codec: the bytes of a node, over the record `VarInt` of variable-length integers.
--     Iavl/Query: trees/src/iavl/query_tree.rs.
--     Iavl/Range: trees/src/iavl/range.
-- - Staking: a delegation adds tokens to a validator and is issued shares, and a removal pays tokens
--   out for shares.
--     Staking/Validator: x/staking/src/types/validator.rs, over the record `Decimals` of the arithmetic
--     of the crate of `Uint256` and `Decimal256`.
-- - Slashing: each block says of each validator whether it signed; the bits of a window and their
--   counter are kept, and a validator that misses too many blocks is to be slashed and jailed.
--     Slashing/Store: x/slashing/src/keys.rs and the store of x/slashing/src/keeper.rs, over the record
--     `Codecs` of the serializers. Slashing/Params: x/slashing/src/params.rs. Slashing/Keeper:
--     `handle_validator_signature` and `begin_block`, over the record `StakingKeeper`, a trait of the
--     source.
-- - Time: Time/Timestamp and Time/Duration are tendermint/src/types/time, with the signed integers of
--   Base/Int.
-- - Gov: Gov/Votes is x/gov/src/msg/vote.rs and weighted_vote.rs; Gov/Tally is `tally` of
--   x/gov/src/keeper.rs, over the record `StakingKeeper` of what it reads; Gov/Deposits is
--   `deposit_add` and Gov/Deposits/Payouts `deposit_refund` and `deposit_del`, over the record
--   `BankKeeper`, a trait of the source, whose payments Gov/Deposits/Funds takes from Bank/Stored;
--   Gov/Submissions is `submit_proposal` and the handler of
--   `GovMsg::Proposal`. The store is the map of values that it reads as.
-- - Mint: Mint/Minter and Mint/Block are x/mint/src/types/minter.rs and `begin_block` of
--   x/mint/src/abci_handler.rs, over the record `Keepers` of the calls of the bank and of staking.
-- - Pagination is extensions/src/pagination, and Merkle is trees/src/merkle.rs, over the digest of
--   another crate.
-- - Gas: Gas/Amount is gears/src/types/auth/gas.rs; Gas/Meter is gears/src/types/gas; Gas/Guard and
--   Gas/Store are gears/src/types/store/gas, the stores that charge a meter for each access.
-- - Blocks: BaseApp/State is gears/src/baseapp/state.rs; BaseApp/Block is the calls of
--   gears/src/baseapp/abci.rs that open, fill, close and commit a block; BaseApp/Runner is `run_tx` of
--   gears/src/baseapp/mod.rs with the two modes of gears/src/baseapp/mode, over the record `Handler`.
-- - Coins: Coins is gears/src/types/base/coins/mod.rs, with coins/decimal.rs in Coins/Decimal,
--   coins/unsigned.rs in Coins/Unsigned, and the walk over two lists that they share in
--   Coins/Combine.
-- - The bank: Bank/Keeper and Bank/Delegation are x/bank/src/keeper/mod.rs, over the record `Ledger`
--   of Bank/Ledger: the store of balances, the accounts and the parameters of the module.
--   Bank/Stored fills the record from the metered stores of Gas/Store, with the keys of x/bank and
--   x/auth; Bank/Stored/Modules is x/bank/src/keeper/bank.rs, the payments between accounts and a
--   module, with the creation of the module's account in x/auth/src/keeper.rs.
-- - Base has what these share: tests on numbers, byte strings and their order, ordered maps and
--   sets, `Result`, and methods that write to a state and may fail. Tests applies the theorems to
--   concrete data.
--
-- How state and operations correspond: a method on `&mut self` is a function from the receiver to
-- the receiver that is left, beside its value. The tree is behind a shared pointer, so the banks
-- do not hold it: each operation takes its current state. A byte is a number, a byte string a
-- list; a map is an association list with ascending keys, and a set a list. Amounts of gas are
-- natural numbers with the bound of 63 bits written out; amounts of coins are natural numbers under
-- the record `Arithmetic`, whose limit is that of the 256-bit types of another crate.
--
-- The database keeps of a node its fields and the hashes of its children. A node of the model has
-- its children always, with a flag that says whether they are loaded; the load of a version
-- rebuilds them all from their hashes at once, where the code reads a child when it comes to it,
-- and fails where one is missing, where the code panics. The
-- panics of `expect` are results, which the theorems on `set` and `remove` exclude. Versions, sizes
-- and heights of nodes are natural numbers; the bound on the height shows that it fits in its 8
-- bits. The nodes that a removal orphans are dropped, as the code drops them.
--
-- Fuel: `drain`, the items of a merged iterator, is on fuel; one more than the number of entries in
-- the two ranges is enough, which the theorems on it suppose. `traverse`, `traverse_rev` and
-- `collect` of Iavl/Range are on fuel, and the number of nodes is enough, as the theorem shows.
-- `get_node` of Iavl/NodeDb is on 256 levels, since the height of a node is a `u8`.
-- `root_hash` of Merkle is on as much fuel as there are items, and `ilog2_on` on as much as the number.
--
-- The record `PersistentTree` asks of the tree that a removed key be gone while another key is
-- stored beside it, since the removal of the only key of the tree leaves its root in place.
--
-- Not modelled: locks and threads, logging, events, the database, protobuf, the multi stores (each
-- of their methods does the same to all banks), what the handlers of the modules compute (a block
-- handler is the list of its writes, a transaction the list of its operations), the bank's supply,
-- metadata and genesis, the keepers of staking, the
-- unjailing, queries and genesis of slashing, the walk of the queues and `end_block` of governance
-- with the gas errors of its stores, and the other modules under x/. In Slashing the
-- 32-bit arithmetic wraps around, as in a release build, and the store is the map it reads as.
pub mod Base
pub mod KvStore
pub mod Gas
pub mod BaseApp
pub mod Coins
pub mod Bank
pub mod Iavl
pub mod Staking
pub mod Time
pub mod Slashing
pub mod Pagination
pub mod Mint
pub mod Merkle
pub mod Gov
pub mod Tests
