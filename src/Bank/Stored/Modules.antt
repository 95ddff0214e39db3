-- ===== src/Bank/Stored/Modules.antt =====
-- x/bank/src/keeper/bank.rs: coins between an account and a module, and the module's own account in
-- x/auth/src/keeper.rs. The number of an account is a u64.
use gears.Base.{
  ℕ, ◌+◌, ◌%◌, ◌^◌, ◌≡◌, refl, ◌∙◌, Bool, false, List, [], ◌∷◌, Option, none, some, ◌||◌,
  if◌then◌else◌, arith,
}
use gears.Base.Order.{Bytes, bytes_ord, ◌≟◌}
use gears.Base.Results.{Result, ok, err, ok_or, map_err}
use gears.Base.Exec.{Exec, pure, lift, ◌>>=◌}
use gears.Base.Exec.Ensures.{Ensures, bind-Ensures, if-Ensures, fail-Ensures, weaken-Ensures}
use gears.Coins.{Coin}
use gears.Coins.Combine.{Arithmetic}
use gears.Gas.Guard.{GasStoreErrors}
use gears.Gas.Store.{GasStore}
use gears.Gas.Store
use gears.KvStore.Tree.{PersistentTree}
use gears.Bank.Ledger.{Ledger, AccessError, refused, corrupt}
use gears.Bank.Keeper.{BankKeeperError, blocked, metered, send_coins}
use gears.Bank.Moves.{metered-Ensures, amount, total}
use gears.Bank.Transfers.{send_coins-Ensures}
use gears.Bank.Stored.{
  Codecs, Context, Trees, Accessing, create_auth_store_key, at_auth, balances, has_account,
}
use gears.Bank.Stored.Accesses.{stored_ledger, other-Same, has_account-Ensures}

-- The numbers of accounts, and the account of a module, in protobuf.
pub record AccountCodecs : Type 0 where
  pub number_encode : ℕ → Bytes
  pub number_decode : Bytes → Option ℕ
  pub account_encode : Bytes → ℕ → Bytes

abbrev global_account_number_key : Bytes
global_account_number_key =
    103 ∷ 108 ∷ 111 ∷ 098 ∷ 097 ∷ 108 ∷ 065 ∷ 099 ∷ 099 ∷ 111 ∷ 117 ∷ 110 ∷ 116 ∷ 078 ∷ 117 ∷ 109
    ∷ 098 ∷ 101 ∷ 114 ∷ []

abbrev at_auth_mut : {A : Type 0} → Exec GasStore GasStoreErrors A → Accessing A
at_auth_mut m c =
    let (r, s) = m (record { meter = c.meter; bank = c.auth }) in
    (map_err refused r, record c { meter = s.meter; auth = s.bank })

abbrev number_of : (Bytes → Option ℕ) → Option Bytes → Result AccessError ℕ
number_of decode none = ok 0
number_of decode (some bytes) = ok_or corrupt (decode bytes)

-- `blocked_addr::<M>().contains(address)`
unfoldable pub is_blocked : Bytes → List Bytes → Bool
is_blocked address [] = false
is_blocked address (a ∷ addresses) = (a ≟ address) || is_blocked address addresses

module _ (u : Arithmetic) (p : PersistentTree) (codec : Codecs) (accounts : AccountCodecs)
    (reads_back : (c : Coin) → codec.coin_decode (codec.coin_encode_vec c) ≡ some c) where
  open p use {Tree}

  unfoldable pub next_account_number : Trees Tree → Accessing ℕ
  next_account_number t =
      (at_auth (Store.get p t.auth global_account_number_key) >>= λ found.
      lift (number_of accounts.number_decode found))
      >>= λ n.
          at_auth_mut
            (Store.set global_account_number_key (accounts.number_encode ((n + 1) % 2 ^ 64)))
          >>= λ _. pure n

  unfoldable pub check_create_new_module_account : Trees Tree → Bytes → Accessing (Unit {0})
  unfolding next_account_number create_auth_store_key
  check_create_new_module_account t addr = has_account p codec t addr >>= λ found.
      if found
      then pure tt
      else (next_account_number t >>= λ n.
          at_auth_mut (Store.set (create_auth_store_key addr) (accounts.account_encode addr n)))

  module _ (t : Trees Tree) (module_address : Bytes) where
    abbrev l : Ledger
    l = stored_ledger p codec reads_back t

    unfoldable pub send_coins_from_account_to_module :
        Bytes → List Coin → Exec Context BankKeeperError (Unit {0})
    unfolding check_create_new_module_account send_coins
    send_coins_from_account_to_module from_address coins =
        metered u l (check_create_new_module_account t module_address) >>= λ _.
        send_coins u l
          (record { from_address = from_address; to_address = module_address; amount = coins })

    unfoldable pub send_coins_from_module_to_account :
        List Bytes → Bytes → List Coin → Exec Context BankKeeperError (Unit {0})
    unfolding is_blocked send_coins
    send_coins_from_module_to_account blocked_addr address coins =
        if is_blocked address blocked_addr
        then lift (err (blocked address))
        else send_coins u l
            (record { from_address = module_address; to_address = address; amount = coins })

    abbrev Moved : Bytes → Bytes → List Coin → Context → Context → Type 0
    Moved from to coins c c' =
        (a d : Bytes)
        → amount (balances p codec t c' a d) + (if from ≟ a then total coins d else 0)
          ≡ amount (balances p codec t c a d) + (if to ≟ a then total coins d else 0)

    abbrev Same : Context → Context → Type 0
    Same c c' = (a d : Bytes) → balances p codec t c' a d ≡ balances p codec t c a d

    next_account_number-Ensures : Ensures (next_account_number t) (λ c _ c'. Same c c')
    unfolding next_account_number
    next_account_number-Ensures =
        bind-Ensures _ _
          (bind-Ensures _ _ {T = λ c _ c'. Same c c'}
            (other-Same p codec reads_back t
              (at_auth (Store.get p t.auth global_account_number_key)) (λ c. refl))
            (λ found.
              other-Same p codec reads_back t (lift (number_of accounts.number_decode found))
                (λ c. refl))
            (λ c x c' y c'' h k a d. k a d ∙ h a d))
          (λ n.
            bind-Ensures _ _ {T = λ c _ c'. Same c c'}
              (other-Same p codec reads_back t
                (at_auth_mut
                  (Store.set global_account_number_key (accounts.number_encode ((n + 1) % 2 ^ 64))))
                (λ c. refl))
              (λ x. other-Same p codec reads_back t (pure n) (λ c. refl))
              (λ c x c' y c'' h k a d. k a d ∙ h a d))
          (λ c x c' y c'' h k a d. k a d ∙ h a d)

    checked-Ensures :
        Ensures (check_create_new_module_account t module_address) (λ c _ c'. Same c c')
    unfolding check_create_new_module_account
    checked-Ensures =
        bind-Ensures _ _ (has_account-Ensures p codec reads_back t module_address)
          (λ found.
            if-Ensures found _ _ (λ _. other-Same p codec reads_back t (pure tt) (λ c. refl))
              (λ _.
                bind-Ensures _ _ {T = λ c _ c'. Same c c'} next_account_number-Ensures
                  (λ n.
                    other-Same p codec reads_back t
                      (at_auth_mut (
                        Store.set (create_auth_store_key module_address)
                          (accounts.account_encode module_address n)))
                      (λ c. refl))
                  (λ c x c' y c'' h k a d. k a d ∙ h a d)))
          (λ c x c' y c'' h k a d. k a d ∙ h a d)

    pub send_coins_from_account_to_module-Ensures :
        (from : Bytes) (coins : List Coin)
        → Ensures
            (send_coins_from_account_to_module from coins)
            (λ c _ c'. Moved from module_address coins c c')
    unfolding send_coins_from_account_to_module
    send_coins_from_account_to_module-Ensures from coins =
        bind-Ensures _ _ (metered-Ensures u l _ checked-Ensures) (λ _. send_coins-Ensures u l _)
          (λ c x c' y c'' h k a d. ground (arith, (k a d).0, h a d))

    pub send_coins_from_module_to_account-Ensures :
        (blocked_addr : List Bytes) (address : Bytes) (coins : List Coin)
        → Ensures
            (send_coins_from_module_to_account blocked_addr address coins)
            (λ c _ c'. Moved module_address address coins c c')
    unfolding send_coins_from_module_to_account
    send_coins_from_module_to_account-Ensures blocked_addr address coins =
        if-Ensures (is_blocked address blocked_addr) _ _ (λ _. fail-Ensures _)
          (λ _. weaken-Ensures (send_coins-Ensures u l _) (λ c x c' h a d. (h a d).0))
