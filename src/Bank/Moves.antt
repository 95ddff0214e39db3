-- ===== src/Bank/Moves.antt =====
-- What each step of a transfer does to the balances, where it succeeds.
use gears.Base.{
  ◌≡◌, ℕ, ◌+◌, ◌-◌, ◌≤◌, ◌&&◌, Option, none, some, List, [], ◌∷◌, arith, ltb, ◌==◌, if◌then◌else◌,
}
use gears.Base.Order.{Bytes, bytes_ord, ◌≟◌, cmp_bytes-eq}
use gears.Base.Results.{ok_or, map_err-ok}
use gears.Base.Exec.{Exec, lift, ◌>>=◌}
use gears.Base.Exec.Ensures.{Ensures, bind-Ensures, if-Ensures, weaken-Ensures, fail-Ensures}
use gears.Coins.{Coin}
use gears.Coins.Combine.{Arithmetic}
use gears.Bank.Ledger.{Ledger, AccessError}
use gears.Bank.Keeper.{
  BankKeeperError, metered, increased, debit_coin, debit_one, debit, credit_one, credit, or_new,
}

-- The amount of a balance, 0 where there is none.
abbrev pub amount : Option Coin → ℕ
amount none = 0
amount (some c) = c.amount

-- The sum of the coins of a denomination.
abbrev pub total : List Coin → Bytes → ℕ
total [] d = 0
total (c ∷ cs) d = (if c.denom ≟ d then c.amount else 0) + total cs d

module _ (u : Arithmetic) (l : Ledger) where
  open l use {State}

  pub metered-Ensures :
      {A : Type 0} (m : Exec State AccessError A) {R : State → A → State → Type 0}
      → Ensures m R
      → Ensures (metered u l m) R
  metered-Ensures m h = record { holds = λ s a e. h.holds s a (map_err-ok _ (m s).0 a e) }

  abbrev pub held : State → Bytes → Bytes → ℕ
  held s a d = amount (l.contents s a d)

  pub increased-Ensures :
      (h c : Coin)
      → Ensures
          (increased u l h c)
          (λ s n t. (n.amount ≡ h.amount + c.amount) × (t ≡ s) × (n.denom ≡ h.denom))
  unfolding increased
  increased-Ensures h c = record { holds = λ s n e. ground (arith, u.add_lem h.amount c.amount) }

  -- An account less some coins, and with some coins more.
  abbrev pub Debits : Bytes → List Coin → State → State → Type 0
  Debits from coins s t =
      (a d : Bytes) → held t a d + (if from ≟ a then total coins d else 0) ≡ held s a d

  abbrev pub Credits : Bytes → List Coin → State → State → Type 0
  Credits to coins s t =
      (a d : Bytes) → held t a d ≡ held s a d + (if to ≟ a then total coins d else 0)

  debit_coin-Ensures :
      (from : Bytes) (c h : Coin)
      → Ensures (debit_coin u l from c h) (λ s _ t.
        (c.amount ≤ h.amount)
        × ((a d : Bytes)
            → held t a d
              ≡ (if (from ≟ a) && (c.denom ≟ d) then h.amount - c.amount else held s a d)))
  unfolding debit_coin
  debit_coin-Ensures from c h =
      let n = h.amount - c.amount in
      if-Ensures (ltb h.amount c.amount) _ _ (λ e. fail-Ensures _)
        (λ enough.
          if-Ensures (n == 0) _ _
            (λ zero.
              weaken-Ensures (metered-Ensures _ (l.delete_lem from c.denom))
                (λ s x t r. (ground arith, λ a d. ground (arith, r a d))))
            (λ some'.
              weaken-Ensures (metered-Ensures _ (l.set_lem from c.denom (record h { amount = n })))
                (λ s x t r. (ground arith, λ a d. ground (arith, r a d)))))

  -- The lookup of a balance that must be there.
  required-Ensures :
      (e : BankKeeperError) (found : Option Coin)
      → Ensures {S = State} (lift (ok_or e found)) (λ s h t. (found ≡ some h) × (t ≡ s))
  required-Ensures e none = fail-Ensures e
  required-Ensures e (some b) = record { holds = λ s h p. ground arith }

  looked_up-Ensures :
      (from : Bytes) (c : Coin) (e : BankKeeperError)
      → Ensures (metered u l (l.get from c.denom) >>= λ found. lift (ok_or e found)) (λ s h t.
        (l.contents s from c.denom ≡ some h) × ((a d : Bytes) → held t a d ≡ held s a d))
  looked_up-Ensures from c e =
      bind-Ensures _ _ (metered-Ensures _ (l.get_lem from c.denom))
        (λ found. required-Ensures e found)
        (λ s found t h v r q. (ground arith, λ a d. ground (arith, r.1 a d)))

  pub debit_one-Ensures :
      (from : Bytes) (c : Coin) → Ensures (debit_one u l from c) (λ s _ t. Debits from (c ∷ []) s t)
  unfolding debit_one
  debit_one-Ensures from c =
      bind-Ensures _ _ (looked_up-Ensures from c _) (λ h. debit_coin-Ensures from c h)
        (λ s h t x v r q a d.
          ground (arith, r.1 a d, q.1 a d, cmp_bytes-eq from a, cmp_bytes-eq c.denom d))

  pub debit-Ensures :
      (from : Bytes) (coins : List Coin)
      → Ensures (debit u l from coins) (λ s _ t. Debits from coins s t)
  unfolding debit
  debit-Ensures from [] = record { holds = λ s x e a d. ground arith }
  debit-Ensures from (c ∷ coins) =
      bind-Ensures _ _ (debit_one-Ensures from c) (λ _. debit-Ensures from coins)
        (λ s x t y v r q a d. ground (arith, r a d, q a d))

  new_balance-Ensures :
      (to : Bytes) (c : Coin)
      → Ensures
          (metered u l (l.get to c.denom) >>= λ found. increased u l (or_new u l c.denom found) c)
          (λ s h t.
            (h.amount ≡ held s to c.denom + c.amount) × ((a d : Bytes) → held t a d ≡ held s a d))
  new_balance-Ensures to c =
      bind-Ensures _ _ (metered-Ensures _ (l.get_lem to c.denom))
        (λ found. increased-Ensures (or_new u l c.denom found) c)
        (λ s found t h v r q. (ground arith, λ a d. ground (arith, r.1 a d)))

  pub credit_one-Ensures :
      (to : Bytes) (c : Coin) → Ensures (credit_one u l to c) (λ s _ t. Credits to (c ∷ []) s t)
  unfolding credit_one
  credit_one-Ensures to c =
      bind-Ensures _ _ (new_balance-Ensures to c) (λ h. metered-Ensures _ (l.set_lem to c.denom h))
        (λ s h t x v r q a d.
          ground (arith, r.1 a d, q a d, cmp_bytes-eq to a, cmp_bytes-eq c.denom d))

  pub credit-Ensures :
      (to : Bytes) (coins : List Coin)
      → Ensures (credit u l to coins) (λ s _ t. Credits to coins s t)
  unfolding credit
  credit-Ensures to [] = record { holds = λ s x e a d. ground arith }
  credit-Ensures to (c ∷ coins) =
      bind-Ensures _ _ (credit_one-Ensures to c) (λ _. credit-Ensures to coins)
        (λ s x t y v r q a d. ground (arith, r a d, q a d))
