-- ===== src/Gov/Deposits/Payouts/Refunds.antt =====
-- `deposit_refund` of x/gov/src/keeper.rs: every deposit is paid back, or a payment is refused.
use gears.Base.{
  ℕ, ◌+◌, ◌≡◌, ◌⊎◌, inl, inr, refl, sym, subst, false, List, [], ◌∷◌, Option, none, some, All,
  arith, if◌then◌else◌,
}
use gears.Base.Maps.{BtreeMap, remove, IsAscending, get-above, remove_absent, sum}
use gears.Base.Options.{◌>>=◌}
use gears.Base.Order.{Bytes, bytes_ord, ◌≟◌, ≟_refl}
use gears.Bank.Moves.{total}
use gears.Gov.Deposits.{Deposit, BankKeeper, State, deposit_key}
use gears.Gov.Deposits.Sums.{deposited}
use gears.Gov.Deposits.Backed.{Custody, IsEntry, IsBacked}
use gears.Gov.Deposits.Payouts.{all_deposits, refund_each, deposit_refund}

-- The first entry of an ordered map stands under its key only.
remove_first :
    (k : Bytes) (x : Deposit) (m : BtreeMap Bytes Deposit)
    → IsAscending ((k, x) ∷ m)
    → remove k ((k, x) ∷ m) ≡ m
unfolding remove
remove_first k x m (above, s) = ground (arith, ≟_refl k, remove_absent k m (get-above k m above))

-- The coins of a denomination in the deposits of an account.
abbrev pub owed : Bytes → BtreeMap Bytes Deposit → Bytes → ℕ
owed b m d = sum (λ (x : Deposit). if x.depositor ≟ b then total x.amount d else 0) m

module _ {S : Type 0} (k : BankKeeper S) (custody : Custody k) where
  open custody use {module_address, held}

  -- The bank refuses the payment of a deposit, after it made those before.
  abbrev pub IsRefused : List Deposit → S → Type 0
  IsRefused [] funds = ⊥
  IsRefused (x ∷ xs) funds =
      (k.send_coins_from_module_to_account x.depositor x.amount funds ≡ none)
      ⊎ ((next : S) × (k.send_coins_from_module_to_account x.depositor x.amount funds ≡ some next)
          × IsRefused xs next)

  -- No deposit and no coin of the module is left, and each account has its deposits more.
  abbrev pub IsRefunded : BtreeMap Bytes Deposit → State S → State S → Type 0
  IsRefunded m s t =
      (t.deposits ≡ [])
      × (t.proposals ≡ s.proposals)
      × ((d : Bytes) → held t.funds module_address d ≡ 0)
      × ((b d : Bytes)
          → (module_address ≟ b) ≡ false
          → held t.funds b d ≡ held s.funds b d + owed b m d)

  abbrev pub Outcome : BtreeMap Bytes Deposit → State S → Option (State S) → Type 0
  Outcome m s none = IsRefused (all_deposits m) s.funds
  Outcome m s (some t) = IsRefunded m s t

  abbrev after : Deposit → State S → S → State S
  after x s u = record s {
    deposits = remove (deposit_key x.proposal_id x.depositor) s.deposits;
    funds = u;
  }

  -- The outcome of the other payments, with one before them.
  paid-Outcome :
      (j : Bytes) (x : Deposit) (m : BtreeMap Bytes Deposit) (s : State S) (u : S)
      → k.send_coins_from_module_to_account x.depositor x.amount s.funds ≡ some u
      → (o : Option (State S)) → Outcome m (after x s u) o
      → Outcome ((j, x) ∷ m) s o
  unfolding all_deposits
  paid-Outcome j x m s u e none h = inr (u, e, h)
  paid-Outcome j x m s u e (some t) (gone, kept, left, others) = (
    gone,
    kept,
    left,
    λ b d n. ground (arith, others b d n, custody.pays x.depositor x.amount s.funds u e b d),
  )

  either-Outcome :
      (j : Bytes) (x : Deposit) (m : BtreeMap Bytes Deposit) (s : State S)
      → (f : S → Option (State S)) (r : Option S)
      → k.send_coins_from_module_to_account x.depositor x.amount s.funds ≡ r
      → ((u : S)
          → k.send_coins_from_module_to_account x.depositor x.amount s.funds ≡ some u
          → Outcome m (after x s u) (f u))
      → Outcome ((j, x) ∷ m) s (r >>= f)
  unfolding all_deposits
  either-Outcome j x m s f none e rest = inl e
  either-Outcome j x m s f (some u) e rest = paid-Outcome j x m s u e (f u) (rest u e)

  refund_each-Outcome :
      (m : BtreeMap Bytes Deposit) (s : State S)
      → s.deposits ≡ m
      → IsAscending m
      → All (IsEntry k custody) m
      → ((d : Bytes) → held s.funds module_address d ≡ deposited m d)
      → Outcome m s (refund_each k (all_deposits m) s)
  unfolding refund_each all_deposits
  refund_each-Outcome [] s e a entries backed = (e, refl, backed, λ b d n. omega arith)
  refund_each-Outcome ((j, x) ∷ m) s e a (entry, entries) backed =
      let place : remove (deposit_key x.proposal_id x.depositor) s.deposits ≡ m =
        subst (λ z. remove z s.deposits ≡ m) entry.0
          (subst (λ z. remove j z ≡ m) (sym e) (remove_first j x m a)) in
      either-Outcome j x m s _ _ refl (λ u paid.
        refund_each-Outcome m (after x s u) place a.1 entries (λ d. ground (
          arith,
          backed d,
          entry.1,
          ≟_refl module_address,
          custody.pays x.depositor x.amount s.funds u paid module_address d,
        )))

  -- Where the module holds the coins of the deposits, a refund panics only where the bank refuses
  -- the payment of a deposit, after it made those before; otherwise no deposit is left, the module
  -- holds no coin, every other account has the coins of its deposits more, and the proposals are as
  -- they were.
  pub deposit_refund-Outcome :
      (s : State S) → IsBacked k custody s → Outcome s.deposits s (deposit_refund k s)
  unfolding deposit_refund
  deposit_refund-Outcome s (ascending, entries, backed) =
      refund_each-Outcome s.deposits s refl ascending entries backed
