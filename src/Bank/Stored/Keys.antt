-- ===== src/Bank/Stored/Keys.antt =====
-- x/bank/src/keeper/mod.rs: no two balances have the same key.
use gears.Base.{◌≡◌, refl, Bool, true, ◌&&◌, [], ◌∷◌, ◌++◌, length, arith}
use gears.Base.Order.{Bytes, bytes_ord, ◌≟◌, ≟_refl, eq_of_≟}
use gears.Bank.Stored.{balance_key}

append-parts : (a b d e : Bytes) → length a ≡ length b → a ++ d ≡ b ++ e → (a ≡ b) × (d ≡ e)
append-parts [] [] d e l h = (refl, h)
append-parts [] (y ∷ b) d e l h = absurd (omega arith)
append-parts (x ∷ a) [] d e l h = absurd (omega arith)
append-parts (x ∷ a) (y ∷ b) d e l h =
    let first : x ≡ y = cc in
    let rest : a ++ d ≡ b ++ e = cc in
    let parts = append-parts a b d e (omega arith) rest in let same = parts.0 in (cc, parts.1)

balance_key-parts : (a b d e : Bytes) → balance_key a d ≡ balance_key b e → (a ≡ b) × (d ≡ e)
unfolding balance_key
balance_key-parts a b d e h =
    let l : length a ≡ length b = cc in
    let rest : a ++ d ≡ b ++ e = cc in append-parts a b d e l rest

same_truth : (x y : Bool) → (x ≡ true → y ≡ true) → (y ≡ true → x ≡ true) → x ≡ y
same_truth x y f g = ground arith

both_true : (x y : Bool) → (x && y) ≡ true → (x ≡ true) × (y ≡ true)
both_true x y h = ground arith

-- The keys of two balances are equal exactly where the addresses and the denominations are.
pub balance_key-eq : (a b d e : Bytes) → (balance_key a d ≟ balance_key b e) ≡ ((a ≟ b) && (d ≟ e))
balance_key-eq a b d e =
    same_truth (balance_key a d ≟ balance_key b e) ((a ≟ b) && (d ≟ e))
      (λ h.
        let (p, q) = balance_key-parts a b d e (eq_of_≟ _ _ h) in
        let x : (a ≟ b) ≡ true = rw p (≟_refl b) in
        let y : (d ≟ e) ≡ true = rw q (≟_refl e) in rw x y)
      (λ h.
        let (x, y) = both_true (a ≟ b) (d ≟ e) h in
        rw (eq_of_≟ a b x) (rw (eq_of_≟ d e y) (≟_refl (balance_key b e))))
