-- ===== src/Staking/Validator/Rate.antt =====
-- x/staking/src/types/validator.rs: what a share is worth.
use gears.Base.{
  ℕ, Bool, ◌⊎◌, ◌+◌, ◌*◌, ◌≤◌, ◌<◌, ◌≡◌, refl, sym, ap, true, false, inl, inr, Option, none, some,
  ◌==◌, if◌then◌else◌, subst, arith,
}
use gears.Base.Results.{Result, ok, err, Answers}
use gears.Staking.Validator.{
  Validator, ValidatorError, overflow, Decimals, RoundsDown, shares_to_issue, tokens_to_issue,
  tokens_from_shares, add_tokens_from_del, remove_del_shares,
}
use gears.Staking.Validator.Rounding.{Payout, Unfit, shares_to_issue-bound, tokens_to_issue-bound}

module _ (d : Decimals) (l : RoundsDown d) where
  -- A share of the second validator is worth what one of the first is, or more.
  abbrev pub KeepsRate : Validator → Validator → Type 0
  KeepsRate v u = v.tokens * u.delegator_shares ≤ u.tokens * v.delegator_shares

  paid_rate :
      (t s t' s' tokens shares : ℕ)
      → t ≡ t' + tokens
      → s ≡ s' + shares
      → tokens * s ≤ shares * t
      → t * s' ≤ t' * s
  paid_rate t s t' s' tokens shares e f g =
      let g' : tokens * (s' + shares) ≤ shares * (t' + tokens) =
        subst (λ z. tokens * (s' + shares) ≤ shares * z) e
          (subst (λ z. tokens * z ≤ shares * t) f g) in
      subst (λ z. z * s' ≤ t' * s) (sym e)
        (subst (λ z. (t' + tokens) * s' ≤ t' * z) (sym f) (omega arith))

  issued_rate :
      (t s t' s' amount issued : ℕ)
      → t' ≡ t + amount
      → s' ≡ s + issued
      → issued * t ≤ s * amount
      → t * s' ≤ t' * s
  issued_rate t s t' s' amount issued e f g =
      subst (λ z. t * s' ≤ z * s) (sym e)
        (subst (λ z. t * z ≤ (t + amount) * s) (sym f) (omega arith))

  -- After a removal: what was paid out was there, the last shares take all the tokens, and else what
  -- remains is worth as much or more a share. A failure leaves the validator as it was, and has one
  -- of two causes: more shares than there are, or a part of them whose worth does not fit.
  abbrev pub Removal : Validator → ℕ → Result ValidatorError ℕ × Validator → Type 0
  Removal v shares (ok tokens, u) =
      (v.tokens ≡ u.tokens + tokens)
      × (v.delegator_shares ≡ u.delegator_shares + shares)
      × (if u.delegator_shares == 0 then (u.tokens ≡ 0) else KeepsRate v u)
  Removal v shares (err e, u) =
      (u ≡ v)
      × ((v.delegator_shares < shares)
          ⊎ ((shares < v.delegator_shares) × (tokens_from_shares d v shares ≡ err e)))

  if-map : (P Q R : Type 0) (b : Bool) → (Q → R) → (if b then P else Q) → (if b then P else R)
  if-map P Q R true f p = p
  if-map P Q R false f q = f q

  remove-paid :
      (v : Validator) (shares remaining : ℕ)
      → v.delegator_shares ≡ remaining + shares
      → (r : Result ValidatorError (ℕ × ℕ))
      → Answers r (Payout d l v shares remaining) (Unfit d l v shares remaining)
      → Removal v shares (elim r [
        | err e ↦ (err e, v)
        | ok (tokens, left) ↦ (ok tokens, record v { tokens = left; delegator_shares = remaining })
      ])
  unfolding Payout
  remove-paid v shares remaining e (err x) (p, q) = (refl, inr (omega arith, q))
  remove-paid v shares remaining e (ok (tokens, left)) (p, q) = (
    p,
    e,
    if-map _ _ _ (remaining == 0)
        (λ g. paid_rate v.tokens v.delegator_shares left remaining tokens shares p e g) q,
  )

  -- `remove_del_shares` pays out what the validator held, all of it for the last shares, and else no
  -- more than lets what remains be worth as much a share as before. It fails only on more shares
  -- than there are, or on a part of them whose worth does not fit the arithmetic, and then changes
  -- nothing. The arithmetic is exact but for division, multiplication and floor, which round down,
  -- and a difference fails only where it is negative.
  pub remove_del_shares-rate :
      (shares : ℕ) (v : Validator) → Removal v shares (remove_del_shares d shares v)
  unfolding remove_del_shares
  remove_del_shares-rate shares v = go (d.checked_sub v.delegator_shares shares) refl
    where
      go :
          (r : Option ℕ)
          → d.checked_sub v.delegator_shares shares ≡ r
          → Removal v shares (elim r [
            | none ↦ (err overflow, v)
            | some remaining ↦ elim (tokens_to_issue d v shares remaining) [
              | err e ↦ (err e, v)
              | ok (tokens, left) ↦
                  (ok tokens, record v { tokens = left; delegator_shares = remaining })
            ]
          ])
      go none e = (refl, inl (l.checked_sub_none v.delegator_shares shares e))
      go (some remaining) e =
          let s = l.checked_sub_exact v.delegator_shares shares remaining e in
          remove-paid v shares remaining s (tokens_to_issue d v shares remaining)
            (tokens_to_issue-bound d l v shares remaining s)

  -- After a delegation: the tokens and the shares are added, the first ones at the rate 1, and later
  -- ones so that a share is worth as much as before or more. A failure leaves the validator as it
  -- was, where the shares to issue do not come out or the sum of the tokens does not fit, or with the tokens
  -- added and no shares for them, where the sum of the shares does not fit.
  abbrev pub Addition : Validator → ℕ → Result ValidatorError ℕ × Validator → Type 0
  Addition v amount (ok issued, u) =
      (u.tokens ≡ v.tokens + amount)
      × (u.delegator_shares ≡ v.delegator_shares + issued)
      × (if v.delegator_shares == 0 then (issued ≡ amount * d.scale) else KeepsRate v u)
  Addition v amount (err e, u) =
      ((u ≡ v) × ((shares_to_issue d v amount ≡ err e) ⊎ (d.uint_add v.tokens amount ≡ none)))
      ⊎ ((u ≡ record v { tokens = v.tokens + amount })
          × ((issued : ℕ) × (shares_to_issue d v amount ≡ ok issued)
              × (d.checked_add v.delegator_shares issued ≡ none)))

  add-shares :
      (v : Validator) (amount issued : ℕ)
      → (if v.delegator_shares == 0
          then (issued ≡ amount * d.scale)
          else (issued * v.tokens ≤ v.delegator_shares * amount))
      → shares_to_issue d v amount ≡ ok issued
      → (tokens : ℕ) → tokens ≡ v.tokens + amount
      → (r : Option ℕ) → d.checked_add v.delegator_shares issued ≡ r
      → ((c : ℕ)
          → d.checked_add v.delegator_shares issued ≡ some c
          → c ≡ v.delegator_shares + issued)
      → Addition v amount (elim r [
        | none ↦ (err overflow, record v { tokens = tokens })
        | some shares ↦ (ok issued, record v { tokens = tokens; delegator_shares = shares })
      ])
  add-shares v amount issued b i tokens e none g f =
      inr (ap (λ z. record v { tokens = z }) e, (issued, i, g))
  add-shares v amount issued b i tokens e (some shares) h f = (
    e,
    f shares h,
    if-map _ _ _ (v.delegator_shares == 0)
        (λ g. issued_rate v.tokens v.delegator_shares tokens shares amount issued e (f shares h) g)
        b,
  )

  add-tokens :
      (v : Validator) (amount issued : ℕ)
      → (if v.delegator_shares == 0
          then (issued ≡ amount * d.scale)
          else (issued * v.tokens ≤ v.delegator_shares * amount))
      → shares_to_issue d v amount ≡ ok issued
      → (r : Option ℕ) → d.uint_add v.tokens amount ≡ r
      → ((c : ℕ) → d.uint_add v.tokens amount ≡ some c → c ≡ v.tokens + amount)
      → Addition v amount (elim r [
        | none ↦ (err overflow, v)
        | some tokens ↦ elim (d.checked_add v.delegator_shares issued) [
          | none ↦ (err overflow, record v { tokens = tokens })
          | some shares ↦ (ok issued, record v { tokens = tokens; delegator_shares = shares })
        ]
      ])
  add-tokens v amount issued b i none g f = inl (refl, inr g)
  add-tokens v amount issued b i (some tokens) h f =
      add-shares v amount issued b i tokens (f tokens h) (d.checked_add v.delegator_shares issued)
        refl (l.checked_add_exact v.delegator_shares issued)

  add-issued :
      (v : Validator) (amount : ℕ) (r : Result ValidatorError ℕ)
      → shares_to_issue d v amount ≡ r
      → Answers r
          (λ c.
            if v.delegator_shares == 0
            then (c ≡ amount * d.scale)
            else (c * v.tokens ≤ v.delegator_shares * amount))
          (λ _. Unit)
      → Addition v amount (elim r [
        | err e ↦ (err e, v)
        | ok issued ↦ elim (d.uint_add v.tokens amount) [
          | none ↦ (err overflow, v)
          | some tokens ↦ elim (d.checked_add v.delegator_shares issued) [
            | none ↦ (err overflow, record v { tokens = tokens })
            | some shares ↦ (ok issued, record v { tokens = tokens; delegator_shares = shares })
          ]
        ]
      ])
  add-issued v amount (err e) i b = inl (refl, inl i)
  add-issued v amount (ok issued) i b =
      add-tokens v amount issued b i (d.uint_add v.tokens amount) refl
        (l.uint_add_exact v.tokens amount)

  -- `add_tokens_from_del` adds the tokens, and issues the first shares at the rate 1 and later ones
  -- so that no share is worth less than before. It fails where the shares to issue do not come out or the
  -- sum of the tokens does not fit, and changes nothing, or where the sum of the shares does not fit,
  -- and leaves the tokens added without shares. The arithmetic is as for `remove_del_shares`.
  pub add_tokens_from_del-rate :
      (amount : ℕ) (v : Validator) → Addition v amount (add_tokens_from_del d amount v)
  unfolding add_tokens_from_del
  add_tokens_from_del-rate amount v =
      add-issued v amount (shares_to_issue d v amount) refl (shares_to_issue-bound d l v amount)
