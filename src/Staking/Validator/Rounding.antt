-- ===== src/Staking/Validator/Rounding.antt =====
-- x/staking/src/types/validator.rs: the rounding of shares and of tokens.
use gears.Base.{
  ℕ, ◌<◌, ◌+◌, ◌*◌, ◌≤◌, ◌≡◌, refl, Option, none, some, ◌==◌, if◌then◌else◌, subst, arith,
}
use gears.Base.Results.{Result, ok, err, Answers, bind-Answers, if-Answers}
use native.Mathlib.Nat.{mul-le-mul_right, le_of_mul-le-mul_right}
use gears.Staking.Validator.{
  Validator, ValidatorError, Decimals, RoundsDown, lift, shares_from_tokens, tokens_from_shares,
  shares_to_issue, tokens_to_issue,
}

module _ (d : Decimals) (l : RoundsDown d) where
  lift-Answers :
      (P : ℕ → Type 0) (r : Option ℕ)
      → ((c : ℕ) → r ≡ some c → P c)
      → Answers (lift d r) P (λ _. Unit)
  lift-Answers P none f = tt
  lift-Answers P (some c) f = f c refl

  -- c T' ≤ p scale, and p scale ≤ S a scale, where T' = T scale.
  issue_bound :
      (s a t c p x y : ℕ)
      → x ≡ a * d.scale
      → y ≡ t * d.scale
      → p * d.scale ≤ s * x
      → c * y ≤ p * d.scale
      → c * t ≤ s * a
  issue_bound s a t c p x y e f g i =
      le_of_mul-le-mul_right {k = d.scale}
        (let g' : p * d.scale ≤ s * (a * d.scale) = subst (λ z. p * d.scale ≤ s * z) e g in
          let i' : c * (t * d.scale) ≤ p * d.scale = subst (λ z. c * z ≤ p * d.scale) f i in
          omega arith)
        l.scale_positive

  shares_from_tokens-bound :
      (v : Validator) (amount : ℕ)
      → Answers
          (shares_from_tokens d v amount)
          (λ c. c * v.tokens ≤ v.delegator_shares * amount)
          (λ _. Unit)
  unfolding shares_from_tokens
  shares_from_tokens-bound v amount =
      if-Answers (λ c. c * v.tokens ≤ v.delegator_shares * amount) (λ _. Unit) (v.tokens == 0) _ _
        (λ _. tt)
        λ _.
          bind-Answers _ _ (lift d (d.from_atomics amount)) _
            (lift-Answers (λ a. a ≡ amount * d.scale) (d.from_atomics amount)
              (λ c e. l.from_atomics_exact amount c e))
            λ a ea.
              bind-Answers _ _ (lift d (d.checked_mul v.delegator_shares a)) _
                (lift-Answers (λ p. p * d.scale ≤ v.delegator_shares * a)
                  (d.checked_mul v.delegator_shares a)
                  (λ c e. l.checked_mul_floor v.delegator_shares a c e))
                λ p ep.
                  bind-Answers _ _ (lift d (d.from_atomics v.tokens)) _
                    (lift-Answers (λ t. t ≡ v.tokens * d.scale) (d.from_atomics v.tokens)
                      (λ c e. l.from_atomics_exact v.tokens c e))
                    λ t et.
                      lift-Answers (λ c. c * v.tokens ≤ v.delegator_shares * amount)
                        (d.checked_div p t)
                        λ c e.
                          issue_bound v.delegator_shares amount v.tokens c p a t ea et ep
                            (l.checked_div_floor p t c e)

  -- Tokens for shares: u scale ≤ w, w S ≤ p scale, p scale ≤ c T scale.
  worth_bound :
      (c t s u w p y : ℕ)
      → y ≡ t * d.scale
      → p * d.scale ≤ c * y
      → w * s ≤ p * d.scale
      → u * d.scale ≤ w
      → u * s ≤ c * t
  worth_bound c t s u w p y f g i k =
      le_of_mul-le-mul_right {k = d.scale}
        (let g' : p * d.scale ≤ c * (t * d.scale) = subst (λ z. p * d.scale ≤ c * z) f g in
          let k' = mul-le-mul_right s k in omega arith)
        l.scale_positive

  tokens_from_shares-bound :
      (v : Validator) (shares : ℕ)
      → Answers
          (tokens_from_shares d v shares)
          (λ w. d.to_uint_floor w * v.delegator_shares ≤ shares * v.tokens)
          (λ _. Unit)
  unfolding tokens_from_shares
  tokens_from_shares-bound v shares =
      bind-Answers _ _ (lift d (d.from_atomics v.tokens)) _
        (lift-Answers (λ t. t ≡ v.tokens * d.scale) (d.from_atomics v.tokens)
          (λ c e. l.from_atomics_exact v.tokens c e))
        λ t et.
          bind-Answers _ _ (lift d (d.checked_mul shares t)) _
            (lift-Answers (λ p. p * d.scale ≤ shares * t) (d.checked_mul shares t)
              (λ c e. l.checked_mul_floor shares t c e))
            λ p ep.
              lift-Answers (λ w. d.to_uint_floor w * v.delegator_shares ≤ shares * v.tokens)
                (d.checked_div p v.delegator_shares)
                λ w e.
                  worth_bound shares v.tokens v.delegator_shares (d.to_uint_floor w) w p t et ep
                    (l.checked_div_floor p v.delegator_shares w e) (l.to_uint_floor_le w)

  pub shares_to_issue-bound :
      (v : Validator) (amount : ℕ)
      → Answers
          (shares_to_issue d v amount)
          (λ c.
            if v.delegator_shares == 0
            then (c ≡ amount * d.scale)
            else (c * v.tokens ≤ v.delegator_shares * amount))
          (λ _. Unit)
  unfolding shares_to_issue
  shares_to_issue-bound v amount =
      if-Answers _ (λ _. Unit) (v.delegator_shares == 0) _ _
        (λ e. rw e (
          lift-Answers (λ c. c ≡ amount * d.scale) (d.from_atomics amount)
            (λ c e. l.from_atomics_exact amount c e)))
        (λ e. rw e (shares_from_tokens-bound v amount))

  -- What is paid out for shares: it was there, and where shares remain it is no more than their part.
  unfoldable pub Payout : Validator → ℕ → ℕ → ℕ × ℕ → Type 0
  Payout v shares remaining (tokens, left) =
      (v.tokens ≡ left + tokens)
      × (if remaining == 0 then (left ≡ 0) else (tokens * v.delegator_shares ≤ shares * v.tokens))

  -- Where shares remain, their worth does not fit the arithmetic.
  abbrev pub Unfit : Validator → ℕ → ℕ → ValidatorError → Type 0
  Unfit v shares remaining e = (0 < remaining) × (tokens_from_shares d v shares ≡ err e)

  refused_worth :
      (C : Type 0) (P : ℕ → Type 0) (r : Result ValidatorError ℕ)
      → C
      → Answers r P (λ _. Unit)
      → Answers r P (λ e. C × (r ≡ err e))
  refused_worth C P (ok w) c p = p
  refused_worth C P (err e) c p = (c, refl)

  -- A part of the shares is worth no more than all the tokens.
  worth_fits :
      (u t s remaining shares : ℕ)
      → 0 < remaining
      → s ≡ remaining + shares
      → u * s ≤ shares * t
      → t < u
      → ⊥
  worth_fits u t s remaining shares h e b k =
      let b' : u * (remaining + shares) ≤ shares * t = subst (λ z. u * z ≤ shares * t) e b in
      let k' : (1 + t) * (remaining + shares) ≤ u * (remaining + shares) =
        mul-le-mul_right (remaining + shares) (omega arith) in
      omega arith

  paid-Answers :
      (v : Validator) (u : ℕ) (Q : ValidatorError → Type 0) (r : Option ℕ)
      → ((c : ℕ) → r ≡ some c → v.tokens ≡ c + u)
      → (r ≡ none → ⊥)
      → Answers (lift d r) (λ left. v.tokens ≡ left + u) Q
  paid-Answers v u Q none f g = elim (g refl) [ ]
  paid-Answers v u Q (some c) f g = f c refl

  pub tokens_to_issue-bound :
      (v : Validator) (shares remaining : ℕ)
      → v.delegator_shares ≡ remaining + shares
      → Answers
          (tokens_to_issue d v shares remaining)
          (Payout v shares remaining)
          (Unfit v shares remaining)
  unfolding tokens_to_issue Payout
  tokens_to_issue-bound v shares remaining s =
      if-Answers _ (Unfit v shares remaining) (remaining == 0) _ _ (λ e. (omega arith, rw e refl))
        (λ e.
          let h : 0 < remaining = ground arith in
          bind-Answers _ _ (tokens_from_shares d v shares) _
            (refused_worth (0 < remaining) _ (tokens_from_shares d v shares) h
              (tokens_from_shares-bound v shares))
            λ w b.
              bind-Answers _ _ (lift d (d.uint_sub v.tokens (d.to_uint_floor w))) _
                (paid-Answers v (d.to_uint_floor w) (Unfit v shares remaining)
                  (d.uint_sub v.tokens (d.to_uint_floor w))
                  (λ c e. l.uint_sub_exact v.tokens (d.to_uint_floor w) c e)
                  (λ g.
                    worth_fits (d.to_uint_floor w) v.tokens v.delegator_shares remaining shares h s
                      b (l.uint_sub_none v.tokens (d.to_uint_floor w) g)))
                λ left f. (f, rw e b))
