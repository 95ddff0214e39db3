-- ===== src/Bank/Stored/Accesses.antt =====
-- The metered stores fill the interface `Ledger`.
use gears.Base.{
  ◌≡◌, refl, sym, ◌∙◌, ap, Bool, true, false, ◌&&◌, List, [], ◌∷◌, ◌++◌, Option, none, some,
  if◌then◌else◌, arith,
}
use gears.Base.Order.{Bytes, bytes_ord, ◌≟◌}
use gears.Base.Results.{Result, ok, ok_or, map_err-ok}
use gears.Base.Exec.{pure, lift}
use gears.Base.Exec.Ensures.{Ensures, bind-Ensures, weaken-Ensures}
use gears.Coins.{Coin}
use gears.Gas.Store.{GasStore}
use gears.Gas.Store
use gears.Gas.Store.Prefix
use gears.Gas.Store.Prefix.{get-found, set-bank, delete-bank}
use mathlib.Core.Option
use gears.KvStore.Tree.{PersistentTree}
use gears.KvStore.Transaction.{TransactionKvBank}
use gears.KvStore.Transaction
use gears.KvStore.Transaction.Views.{get-set, get-delete}
use gears.Bank.Ledger.{Ledger, refused, corrupt, replaced}
use gears.Bank.Stored.{
  Codecs, Context, Trees, balance_key, create_denom_balance_prefix, create_auth_store_key,
  Accessing, at_bank, at_auth, at_params, decoded, is_there, is_some, readable, balances,
  get_balance, put_balance, delete_balance, get_account, has_account, next_field, read_fields,
  try_get_params,
}
use gears.Bank.Stored.Keys.{balance_key-eq}

lift-Ensures :
    {S E A : Type 0} (r : Result E A) → Ensures {S = S} (lift r) (λ s a t. (t ≡ s) × (r ≡ ok a))
lift-Ensures r = record { holds = λ s a h. (refl, h) }

decoded-readable :
    (decode : Bytes → Option Coin) (stored : Option Bytes) (found : Option Coin)
    → decoded decode stored ≡ ok found
    → found ≡ readable decode stored
decoded-readable decode none found h = ground arith
decoded-readable decode (some bytes) found h = ground arith

module _ (p : PersistentTree) (codec : Codecs)
    (reads_back : (c : Coin) → codec.coin_decode (codec.coin_encode_vec c) ≡ some c) where
  open p use {Tree}

  at_bank-get :
      (t : Tree) (prefix k : Bytes)
      → Ensures
          (at_bank (Prefix.get p prefix t k))
          (λ c found c'. (found ≡ Transaction.get p t c.bank (prefix ++ k)) × (c'.bank ≡ c.bank))
  at_bank-get t prefix k = record {
    holds = λ c found h.
        let s : GasStore = record { meter = c.meter; bank = c.bank } in
        let cases = get-found p prefix t k s in
        (cases.1 found (map_err-ok refused (Prefix.get p prefix t k s).0 found h), cases.0);
  }

  at_bank-set :
      (prefix k v : Bytes)
      → Ensures
          (at_bank (Prefix.set prefix k v))
          (λ c _ c'. c'.bank ≡ Transaction.set c.bank (prefix ++ k) v)
  at_bank-set prefix k v = record {
    holds = λ c _ h.
        let s : GasStore = record { meter = c.meter; bank = c.bank } in
        set-bank prefix k v s (map_err-ok refused (Prefix.set prefix k v s).0 tt h);
  }

  at_bank-delete :
      (t : Tree) (prefix k : Bytes)
      → Ensures
          (at_bank (Prefix.delete p prefix t k))
          (λ c _ c'. c'.bank ≡ (Transaction.delete p t c.bank (prefix ++ k)).1)
  at_bank-delete t prefix k = record {
    holds = λ c old h.
        let s : GasStore = record { meter = c.meter; bank = c.bank } in
        delete-bank p prefix t k s old (map_err-ok refused (Prefix.delete p prefix t k s).0 old h);
  }

  module _ (t : Trees Tree) where
    abbrev Same : Context → Context → Type 0
    Same c c' = (b e : Bytes) → balances p codec t c' b e ≡ balances p codec t c b e

    bank-Same : (c c' : Context) → c'.bank ≡ c.bank → Same c c'
    unfolding balances
    bank-Same c c' h b e =
        ap (λ x. readable codec.coin_decode (Transaction.get p t.bank x (balance_key b e))) h

    at_key :
        (c : Context) (a d : Bytes)
        → balances p codec t c a d
          ≡ readable codec.coin_decode (Transaction.get p t.bank c.bank (balance_key a d))
    unfolding balances
    at_key c a d = refl

    pub get_balance-Ensures :
        (a d : Bytes)
        → Ensures
            (get_balance p codec t a d)
            (λ c found c'. (found ≡ balances p codec t c a d) × Same c c')
    unfolding get_balance balance_key
    get_balance-Ensures a d =
        bind-Ensures _ _ (at_bank-get t.bank (create_denom_balance_prefix a) d)
          (λ found. lift-Ensures (decoded codec.coin_decode found))
          λ c stored c' found c'' (e, same) (f, g). (
            decoded-readable codec.coin_decode stored found g
                ∙ ap (readable codec.coin_decode) e
                ∙ sym (at_key c a d),
            bank-Same c c'' (ap (λ (x : Context). x.bank) f ∙ same),
          )

    replaced_at :
        (c c' : Context) (a d : Bytes) (bytes : Option Bytes) (coin : Option Coin)
        → readable codec.coin_decode bytes ≡ coin
        → ((j : Bytes)
            → Transaction.get p t.bank c'.bank j
              ≡ (if balance_key a d ≟ j then bytes else Transaction.get p t.bank c.bank j))
        → (b e : Bytes) → balances p codec t c' b e ≡ replaced a d coin (balances p codec t c) b e
    replaced_at c c' a d bytes coin h f b e =
        at_key c' b e
        ∙ ap (readable codec.coin_decode) (f (balance_key b e))
        ∙ ap
            (λ x.
              readable codec.coin_decode
                (if x then bytes else Transaction.get p t.bank c.bank (balance_key b e)))
            (balance_key-eq a b d e)
        ∙ choose ((a ≟ b) && (d ≟ e))
      where
        choose :
            (x : Bool)
            → readable codec.coin_decode
                (if x then bytes else Transaction.get p t.bank c.bank (balance_key b e))
              ≡ (if x then coin else balances p codec t c b e)
        choose true = h
        choose false = sym (at_key c b e)

    pub put_balance-Ensures :
        (a d : Bytes) (coin : Coin)
        → Ensures (put_balance p codec a d coin) (λ c _ c'.
          (b e : Bytes)
          → balances p codec t c' b e ≡ replaced a d (some coin) (balances p codec t c) b e)
    unfolding put_balance balance_key
    put_balance-Ensures a d coin =
        weaken-Ensures (at_bank-set (create_denom_balance_prefix a) d (codec.coin_encode_vec coin))
          λ c _ c' h.
            replaced_at c c' a d (some (codec.coin_encode_vec coin)) (some coin) (reads_back coin)
              (λ j.
                ap (λ x. Transaction.get p t.bank x j) h
                ∙ get-set p t.bank c.bank (balance_key a d) (codec.coin_encode_vec coin) j)

    pub delete_balance-Ensures :
        (a d : Bytes)
        → Ensures (delete_balance p codec t a d) (λ c _ c'.
          (b e : Bytes) → balances p codec t c' b e ≡ replaced a d none (balances p codec t c) b e)
    unfolding delete_balance balance_key
    delete_balance-Ensures a d =
        bind-Ensures _ _ (at_bank-delete t.bank (create_denom_balance_prefix a) d)
          (λ old. lift-Ensures (ok tt))
          λ c old c' x c'' h (f, g). replaced_at c c'' a d none none refl (λ j.
            ap (λ (x : Context). Transaction.get p t.bank x.bank j) f
            ∙ ap (λ x. Transaction.get p t.bank x j) h
            ∙ get-delete p t.bank c.bank (balance_key a d) j)

    -- A read of another store, and what follows it without an access.
    pub other-Same :
        {A : Type 0} (m : Accessing A)
        → ((c : Context) → (m c).1.bank ≡ c.bank)
        → Ensures m (λ c _ c'. Same c c')
    other-Same m f = record { holds = λ c a h. bank-Same c (m c).1 (f c) }

    pub get_account-Ensures : (a : Bytes) → Ensures (get_account p codec t a) (λ c _ c'. Same c c')
    unfolding get_account
    get_account-Ensures a =
        bind-Ensures _ _
          (other-Same (at_auth (Store.get p t.auth (create_auth_store_key a))) (λ c. refl))
          (λ found. lift-Ensures (is_there codec.account_decodes found))
          λ c stored c' found c'' same (f, g) b e. ap (λ x. balances p codec t x b e) f ∙ same b e

    pub has_account-Ensures : (a : Bytes) → Ensures (has_account p codec t a) (λ c _ c'. Same c c')
    unfolding has_account
    has_account-Ensures a =
        bind-Ensures _ _
          (other-Same (at_auth (Store.get p t.auth (create_auth_store_key a))) (λ c. refl))
          (λ found. lift-Ensures (ok (is_some found)))
          λ c stored c' found c'' same (f, g) b e. ap (λ x. balances p codec t x b e) f ∙ same b e

    next_field-Same :
        (m : Accessing (Option (List Bytes))) (found : Option Bytes)
        → Ensures m (λ c _ c'. Same c c')
        → Ensures (next_field p codec m found) (λ c _ c'. Same c c')
    next_field-Same m none h = other-Same (pure none) (λ c. refl)
    next_field-Same m (some value) h =
        bind-Ensures _ _ h (λ rest. lift-Ensures (ok (Option.map (λ vs. value ∷ vs) rest)))
          λ c rest c' x c'' same (f, g) b e. ap (λ x. balances p codec t x b e) f ∙ same b e

    read_fields-Ensures :
        (ks : List Bytes) → Ensures (read_fields p codec t ks) (λ c _ c'. Same c c')
    unfolding read_fields
    read_fields-Ensures [] = record { holds = λ c a h b e. refl }
    read_fields-Ensures (k ∷ ks) =
        bind-Ensures _ _
          (other-Same (at_params (Prefix.get p codec.params_prefix t.params k)) (λ c. refl))
          (λ found. next_field-Same (read_fields p codec t ks) found (read_fields-Ensures ks))
          λ c found c' x c'' same after b e. after b e ∙ same b e

    pub try_get_params-Ensures : Ensures (try_get_params p codec t) (λ c _ c'. Same c c')
    unfolding try_get_params
    try_get_params-Ensures =
        bind-Ensures _ _ (read_fields-Ensures codec.params_fields)
          (λ fields. lift-Ensures (ok_or corrupt (codec.params_parse fields)))
          λ c fields c' x c'' same (f, g) b e. ap (λ x. balances p codec t x b e) f ∙ same b e

    -- The bank's ledger.
    abbrev pub stored_ledger : Ledger
    stored_ledger = record {
      State = Context;
      contents = balances p codec t;
      get = get_balance p codec t;
      set = put_balance p codec;
      delete = delete_balance p codec t;
      get_account = get_account p codec t;
      params = try_get_params p codec t;
      get_lem = get_balance-Ensures;
      set_lem = put_balance-Ensures;
      delete_lem = delete_balance-Ensures;
      get_account_lem = get_account-Ensures;
      params_lem = try_get_params-Ensures;
    }
