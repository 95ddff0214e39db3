-- ===== src/Pagination/Walks.antt =====
-- extensions/src/pagination: page after page, an iterator is read whole.
use gears.Base.{
  ℕ, zero, suc, ◌+◌, ◌*◌, ◌≤◌, ◌≡◌, refl, sym, ◌∙◌, ap, List, [], ◌∷◌, ◌++◌, Option, none, some,
  take, drop, length, get_elem?, arith,
}
use gears.Base.Order.{Bytes, bytes_ord}
use gears.Pagination.{by_offset, paginate, paginate_by_offset}

module _ {A : Type 0} where
  take-take-drop : (n m : ℕ) (xs : List A) → take n xs ++ take m (drop n xs) ≡ take (n + m) xs
  take-take-drop zero m xs = let e : m ≡ 0 + m = omega arith in ap (λ k. take k xs) e
  take-take-drop (suc n) zero [] = let e : suc n ≡ suc n + 0 = omega arith in ap (λ k. take k []) e
  take-take-drop (suc n) (suc m) [] =
      let e : suc (n + suc m) ≡ suc n + suc m = omega arith in ap (λ k. take k []) e
  take-take-drop (suc n) m (x ∷ xs) =
      let e : suc (n + m) ≡ suc n + m = omega arith in
      ap (λ z. x ∷ z) (take-take-drop n m xs) ∙ ap (λ k. take k (x ∷ xs)) e

  drop-drop : (n m : ℕ) (xs : List A) → drop m (drop n xs) ≡ drop (n + m) xs
  drop-drop zero m xs = let e : m ≡ 0 + m = omega arith in ap (λ k. drop k xs) e
  drop-drop (suc n) zero [] = let e : suc n ≡ suc n + 0 = omega arith in ap (λ k. drop k []) e
  drop-drop (suc n) (suc m) [] =
      let e : suc (n + suc m) ≡ suc n + suc m = omega arith in ap (λ k. drop k []) e
  drop-drop (suc n) m (x ∷ xs) =
      let e : suc (n + m) ≡ suc n + m = omega arith in
      drop-drop n m xs ∙ ap (λ k. drop k (x ∷ xs)) e

  pub take_all : (n : ℕ) (xs : List A) → length xs ≤ n → take n xs ≡ xs
  take_all zero [] h = refl
  take_all zero (x ∷ xs) h = absurd (omega arith)
  take_all (suc n) [] h = refl
  take_all (suc n) (x ∷ xs) h = ap (λ z. x ∷ z) (take_all n xs (omega arith))

  -- Where there is an item at the place, it parts the list, and else the list ends before.
  abbrev pub Parts : ℕ → List A → Option A → Type 0
  Parts n xs none = length xs ≤ n
  Parts n xs (some y) = xs ≡ take n xs ++ y ∷ drop (suc n) xs

  pub get-Parts : (n : ℕ) (xs : List A) → Parts n xs (get_elem? xs n)
  get-Parts n [] = omega arith
  get-Parts zero (x ∷ xs) = refl
  get-Parts (suc n) (x ∷ xs) = go (get_elem? xs n) (get-Parts n xs)
    where
      go : (r : Option A) → Parts n xs r → Parts (suc n) (x ∷ xs) r
      go none h = omega arith
      go (some y) h = ap (λ z. x ∷ z) h

module _ {A : Type 0} (try_len : List A → ℕ) (iterator_key : A → Bytes) where
  -- The items of a number of pages, the first of this number.
  unfoldable pub numbered : ℕ → ℕ → ℕ → List A → List A
  numbered zero i limit items = []
  numbered (suc n) i limit items =
      (paginate try_len iterator_key (by_offset (record { offset = i; limit = limit })) items).1
      ++ numbered n (suc i) limit items

  numbered-take :
      (n i limit : ℕ) (items : List A)
      → numbered n i limit items ≡ take (n * limit) (drop (i * limit) items)
  unfolding numbered paginate paginate_by_offset
  numbered-take zero i limit items =
      let e : 0 ≡ 0 * limit = omega arith in ap (λ k. take k (drop (i * limit) items)) e
  numbered-take (suc n) i limit items =
      let e : i * limit + limit ≡ suc i * limit = omega arith in
      let f : limit + n * limit ≡ suc n * limit = omega arith in
      ap (λ z. take limit (drop (i * limit) items) ++ z)
        (numbered-take n (suc i) limit items
          ∙ ap (λ k. take (n * limit) (drop k items)) (sym e)
          ∙ ap (take (n * limit)) (sym (drop-drop (i * limit) limit items)))
      ∙ take-take-drop limit (n * limit) (drop (i * limit) items)
      ∙ ap (λ k. take k (drop (i * limit) items)) f

  -- Pages by number, from the first one on, give every item once and in order when they are enough.
  pub numbered-all :
      (n limit : ℕ) (items : List A) → length items ≤ n * limit → numbered n 0 limit items ≡ items
  numbered-all n limit items h =
      let e : 0 * limit ≡ 0 = omega arith in
      numbered-take n 0 limit items
      ∙ ap (λ k. take (n * limit) (drop k items)) e
      ∙ take_all (n * limit) items h
