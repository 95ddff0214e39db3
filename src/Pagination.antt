-- ===== src/Pagination.antt =====
-- extensions/src/pagination: a page of an iterator, by number or by the key at which it starts.
pub mod Walks
pub mod Keys
use gears.Base.{
  ℕ, ◌*◌, Bool, not, List, [], ◌∷◌, Option, none, some, take, drop, get_elem?, if◌then◌else◌,
}
use gears.Base.Order.{Bytes, bytes_ord, ◌≟◌}

pub record PaginationByOffset : Type 0 where
  pub offset : ℕ
  pub limit : ℕ

pub record PaginationByKey : Type 0 where
  pub key : Bytes
  pub limit : ℕ

pub data Pagination : Type 0 where
  by_offset : PaginationByOffset → Pagination
  by_key : PaginationByKey → Pagination

pub record PaginationResult (T : Type 0) : Type 0 where
  pub total : ℕ
  pub next_key : Option T

-- An iterator is the list of its items. `try_len` is the length that the iterator at hand reports of
-- what is left, or an upper bound of it.
module _ {A : Type 0} (try_len : List A → ℕ) where
  unfoldable pub paginate_by_offset : PaginationByOffset → List A → PaginationResult A × List A
  paginate_by_offset pagination items =
      let rest = drop (pagination.offset * pagination.limit) items in
      (
        record { total = try_len rest; next_key = get_elem? rest pagination.limit },
        take pagination.limit rest,
      )

module _ {A : Type 0} (try_len : List A → ℕ) (iterator_key : A → Bytes) where
  -- `skip_while(|this| this.iterator_key() != key)`
  unfoldable pub skip_to : Bytes → List A → List A
  skip_to key [] = []
  skip_to key (x ∷ xs) = let rest = skip_to key xs in if iterator_key x ≟ key then x ∷ xs else rest

  abbrev pub map_key : Option A → Option Bytes
  map_key none = none
  map_key (some a) = some (iterator_key a)

  unfoldable pub paginate_by_key : PaginationByKey → List A → PaginationResult Bytes × List A
  unfolding skip_to
  paginate_by_key pagination items =
      let rest = skip_to pagination.key items in
      (
        record { total = try_len rest; next_key = map_key (get_elem? rest pagination.limit) },
        take pagination.limit rest,
      )

  unfoldable pub paginate : Pagination → List A → PaginationResult Bytes × List A
  unfolding paginate_by_offset paginate_by_key
  paginate (by_offset pagination) items =
      let (result, page) = paginate_by_offset try_len pagination items in
      (record { total = result.total; next_key = map_key result.next_key }, page)
  paginate (by_key pagination) items = paginate_by_key pagination items

  unfoldable pub maybe_paginate :
      Option Pagination → List A → Option (PaginationResult Bytes) × List A
  unfolding paginate
  maybe_paginate none items = (none, items)
  maybe_paginate (some pagination) items =
      let (result, page) = paginate pagination items in (some result, page)
