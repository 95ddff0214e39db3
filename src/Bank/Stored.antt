-- ===== src/Bank/Stored.antt =====
-- x/bank/src/keeper/mod.rs: the keys of balances, over the metered stores of the modules. The
-- serializers are parameters.
pub mod Keys
pub mod Accesses
pub mod Moves
pub mod Modules
use gears.Base.{ℕ, Bool, true, false, List, [], ◌∷◌, ◌++◌, Option, none, some, length}
use mathlib.Core.Option
use gears.Base.Order.{Bytes}
use gears.Base.Results.{Result, ok, err, ok_or, map_err}
use gears.Base.Exec.{Exec, pure, lift, ◌>>=◌}
use gears.Coins.{Coin}
use gears.Gas.Meter.{GasMeter}
use gears.Gas.Guard.{GasStoreErrors}
use gears.Gas.Store.{GasStore}
use gears.Gas.Store
use gears.Gas.Store.Prefix
use gears.KvStore.Tree.{PersistentTree}
use gears.KvStore.Transaction.{TransactionKvBank}
use gears.KvStore.Transaction
use gears.Bank.Ledger.{AccessError, refused, corrupt, Contents}

abbrev pub is_some : Option Bytes → Bool
is_some none = false
is_some (some _) = true

-- Protobuf and JSON, and the prefix and the keys of the parameters of the module.
pub record Codecs : Type 0 where
  pub coin_encode_vec : Coin → Bytes
  pub coin_decode : Bytes → Option Coin
  pub account_decodes : Bytes → Bool
  pub params_fields : List Bytes
  pub params_prefix : Bytes
  pub params_parse : Option (List Bytes) → Option (List (Bytes × Bool) × Bool)

-- The meter of the transaction, and its stores of the bank, of auth and of the parameters.
pub record Context : Type 0 where
  pub meter : GasMeter
  pub bank : TransactionKvBank
  pub auth : TransactionKvBank
  pub params : TransactionKvBank

-- The trees under the three stores.
pub record Trees (Tree : Type 0) : Type 0 where
  pub bank : Tree
  pub auth : Tree
  pub params : Tree

unfoldable pub create_denom_balance_prefix : Bytes → Bytes
create_denom_balance_prefix addr = 2 ∷ length addr ∷ addr

-- The key in the store below the prefix store.
unfoldable pub balance_key : Bytes → Bytes → Bytes
unfolding create_denom_balance_prefix
balance_key addr denom = create_denom_balance_prefix addr ++ denom

-- `create_auth_store_key` of x/auth/src/keeper.rs
unfoldable pub create_auth_store_key : Bytes → Bytes
create_auth_store_key address = 1 ∷ address

abbrev pub Accessing : Type 0 → Type 0
Accessing A = Exec Context AccessError A

abbrev pub at_bank : {A : Type 0} → Exec GasStore GasStoreErrors A → Accessing A
at_bank m c =
    let (r, s) = m (record { meter = c.meter; bank = c.bank }) in
    (map_err refused r, record c { meter = s.meter; bank = s.bank })

-- A read leaves the store of another module as it is.
abbrev pub at_auth : {A : Type 0} → Exec GasStore GasStoreErrors A → Accessing A
at_auth m c =
    let (r, s) = m (record { meter = c.meter; bank = c.auth }) in
    (map_err refused r, record c { meter = s.meter })

abbrev pub at_params : {A : Type 0} → Exec GasStore GasStoreErrors A → Accessing A
at_params m c =
    let (r, s) = m (record { meter = c.meter; bank = c.params }) in
    (map_err refused r, record c { meter = s.meter })

-- `unwrap_or_corrupt` of what is there.
abbrev pub decoded :
    {A : Type 0} → (Bytes → Option A) → Option Bytes → Result AccessError (Option A)
decoded decode none = ok none
decoded decode (some bytes) = elim (decode bytes) [ none ↦ err corrupt | some a ↦ ok (some a) ]

-- Whether an account is there, which is read.
abbrev pub is_there : (Bytes → Bool) → Option Bytes → Result AccessError Bool
is_there decodes none = ok false
is_there decodes (some bytes) = elim (decodes bytes) [ true ↦ ok true | false ↦ err corrupt ]

abbrev pub readable : {A : Type 0} → (Bytes → Option A) → Option Bytes → Option A
readable decode none = none
readable decode (some bytes) = decode bytes

module _ (p : PersistentTree) (codec : Codecs) where
  open p use {Tree}

  -- What stands under the key of a balance.
  unfoldable pub balances : Trees Tree → Context → Contents
  unfolding balance_key
  balances t c addr denom =
      readable codec.coin_decode (Transaction.get p t.bank c.bank (balance_key addr denom))

  unfoldable pub get_balance : Trees Tree → Bytes → Bytes → Accessing (Option Coin)
  unfolding create_denom_balance_prefix
  get_balance t addr denom =
      at_bank (Prefix.get p (create_denom_balance_prefix addr) t.bank denom) >>= λ found.
      lift (decoded codec.coin_decode found)

  unfoldable pub put_balance : Bytes → Bytes → Coin → Accessing (Unit {0})
  unfolding create_denom_balance_prefix
  put_balance addr denom c =
      at_bank (Prefix.set (create_denom_balance_prefix addr) denom (codec.coin_encode_vec c))

  unfoldable pub delete_balance : Trees Tree → Bytes → Bytes → Accessing (Unit {0})
  unfolding create_denom_balance_prefix
  delete_balance t addr denom =
      at_bank (Prefix.delete p (create_denom_balance_prefix addr) t.bank denom) >>= λ _. pure tt

  -- Of the account, only whether there is one.
  unfoldable pub get_account : Trees Tree → Bytes → Accessing Bool
  unfolding create_auth_store_key
  get_account t addr = at_auth (Store.get p t.auth (create_auth_store_key addr)) >>= λ found.
      lift (is_there codec.account_decodes found)

  unfoldable pub has_account : Trees Tree → Bytes → Accessing Bool
  unfolding create_auth_store_key
  has_account t addr =
      at_auth (Store.get p t.auth (create_auth_store_key addr)) >>= λ found. pure (is_some found)

  -- The read stops at the first field that is missing.
  abbrev pub next_field :
      Accessing (Option (List Bytes)) → Option Bytes → Accessing (Option (List Bytes))
  next_field rest none = pure none
  next_field rest (some value) = rest >>= λ found. pure (Option.map (λ vs. value ∷ vs) found)

  unfoldable pub read_fields : Trees Tree → List Bytes → Accessing (Option (List Bytes))
  read_fields t [] = pure (some [])
  read_fields t (k ∷ ks) =
      let rest = read_fields t ks in
      at_params (Prefix.get p codec.params_prefix t.params k) >>= next_field rest

  unfoldable pub try_get_params : Trees Tree → Accessing (List (Bytes × Bool) × Bool)
  unfolding read_fields
  try_get_params t = read_fields t codec.params_fields >>= λ fields.
      lift (ok_or corrupt (codec.params_parse fields))
