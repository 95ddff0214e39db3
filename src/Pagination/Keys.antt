-- ===== src/Pagination/Keys.antt =====
-- extensions/src/pagination/key.rs: pages that follow one another by their next keys.
use gears.Base.{
  ℕ, zero, suc, ◌≤◌, ◌<◌, ◌≡◌, ◌≢◌, refl, sym, ◌∙◌, ap, subst, List, [], ◌∷◌, ◌++◌, Option, none,
  some, take, drop, length, get_elem?, All, Bool-cases, inl, inr, arith, length-append,
}
use gears.Base.Order.{Bytes, bytes_ord, ◌≟◌, ≟_refl, eq_of_≟}
use mathlib.Core.List.{append_assoc, append-nil}
use gears.Pagination.{by_key, paginate, paginate_by_key, skip_to, map_key}
use gears.Pagination.Walks.{Parts, get-Parts, take_all}

module _ {A : Type 0} (try_len : List A → ℕ) (iterator_key : A → Bytes) where
  -- No two items have the same key.
  abbrev pub Distinct : List A → Type 0
  Distinct [] = Unit
  Distinct (x ∷ xs) = All (λ z. iterator_key x ≢ iterator_key z) xs × Distinct xs

  -- The items of a number of pages, the first of this key and each other of the next key of the one
  -- before it.
  unfoldable pub followed : ℕ → Bytes → ℕ → List A → List A
  followed zero key limit items = []
  followed (suc n) key limit items =
      let (result, page) =
        paginate try_len iterator_key (by_key (record { key = key; limit = limit })) items in
      page ++ elim result.next_key [ none ↦ [] | some next ↦ followed n next limit items ]

  All-here :
      (x y : A) (pre rest : List A)
      → All (λ z. iterator_key x ≢ iterator_key z) (pre ++ y ∷ rest)
      → iterator_key x ≢ iterator_key y
  All-here x y [] rest h = h.0
  All-here x y (z ∷ pre) rest h = All-here x y pre rest h.1

  skip_to-append :
      (y : A) (pre rest : List A)
      → Distinct (pre ++ y ∷ rest)
      → skip_to try_len iterator_key (iterator_key y) (pre ++ y ∷ rest) ≡ y ∷ rest
  unfolding skip_to
  skip_to-append y [] rest d = rw (≟_refl (iterator_key y)) refl
  skip_to-append y (x ∷ pre) rest d = elim (Bool-cases (iterator_key x ≟ iterator_key y)) [
    | inl e ↦ absurd (All-here x y pre rest d.0 (eq_of_≟ (iterator_key x) (iterator_key y) e))
    | inr e ↦ rw e (skip_to-append y pre rest d.1)
  ]

  followed-step :
      (n limit : ℕ) (y : A) (pre rest : List A)
      → Distinct (pre ++ y ∷ rest)
      → followed (suc n) (iterator_key y) limit (pre ++ y ∷ rest)
        ≡ take limit (y ∷ rest)
          ++ elim (map_key try_len iterator_key (get_elem? (y ∷ rest) limit)) [
            | none ↦ []
            | some next ↦ followed n next limit (pre ++ y ∷ rest)
          ]
  unfolding followed paginate paginate_by_key
  followed-step n limit y pre rest d =
      ap
        (λ z. take limit z ++ elim (map_key try_len iterator_key (get_elem? z limit)) [
          | none ↦ []
          | some next ↦ followed n next limit (pre ++ y ∷ rest)
        ])
        (skip_to-append y pre rest d)

  -- The walk over the rest of a list, with this much fuel.
  abbrev Walked : ℕ → ℕ → Type 0
  Walked n limit =
      (y : A) (pre rest : List A)
      → length (y ∷ rest) ≤ n
      → Distinct (pre ++ y ∷ rest)
      → followed n (iterator_key y) limit (pre ++ y ∷ rest) ≡ y ∷ rest

  length-take_pos :
      (limit : ℕ) (y : A) (rest : List A) → 0 < limit → 0 < length (take limit (y ∷ rest))
  length-take_pos zero y rest h = absurd (omega arith)
  length-take_pos (suc l) y rest h = omega arith

  page_rest :
      (n limit : ℕ)
      → 0 < limit
      → Walked n limit
      → (y : A) (pre rest : List A) → length (y ∷ rest) ≤ suc n
      → Distinct (pre ++ y ∷ rest)
      → (r : Option A) → Parts limit (y ∷ rest) r
      → take limit (y ∷ rest) ++ elim (map_key try_len iterator_key r) [
        | none ↦ []
        | some next ↦ followed n next limit (pre ++ y ∷ rest)
      ]
        ≡ y ∷ rest
  page_rest n limit p ih y pre rest h d none e =
      append-nil (take limit (y ∷ rest)) ∙ take_all limit (y ∷ rest) e
  page_rest n limit p ih y pre rest h d (some z) e =
      let page = take limit (y ∷ rest) in
      let rest' = drop (suc limit) (y ∷ rest) in
      let whole : pre ++ y ∷ rest ≡ (pre ++ page) ++ z ∷ rest' =
        ap (λ l. pre ++ l) e ∙ sym (append_assoc pre page (z ∷ rest')) in
      let short : length (z ∷ rest') ≤ n =
        omega
          (arith, ap length e, length-append page (z ∷ rest'), length-take_pos limit y rest p) in
      let w = ih z (pre ++ page) rest' short (subst Distinct whole d) in
      ap (λ l. page ++ l)
        (subst (λ l. followed n (iterator_key z) limit l ≡ z ∷ rest') (sym whole) w)
      ∙ sym e

  walked : (n limit : ℕ) → 0 < limit → Walked n limit
  walked zero limit p y pre rest h d = absurd (omega arith)
  walked (suc n) limit p y pre rest h d =
      followed-step n limit y pre rest d
      ∙ page_rest n limit p (walked n limit p) y pre rest h d (get_elem? (y ∷ rest) limit)
          (get-Parts limit (y ∷ rest))

  -- Where no two items have the same key and a page holds at least one, the pages that start at the
  -- first key and follow one another by their next keys give every item once and in order, and as
  -- many pages as there are items are enough.
  pub followed-all :
      (limit : ℕ) (x : A) (xs : List A)
      → 0 < limit
      → Distinct (x ∷ xs)
      → followed (length (x ∷ xs)) (iterator_key x) limit (x ∷ xs) ≡ x ∷ xs
  followed-all limit x xs p d = walked (length (x ∷ xs)) limit p x [] xs (omega arith) d
