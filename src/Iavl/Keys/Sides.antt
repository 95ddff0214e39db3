-- ===== src/Iavl/Keys/Sides.antt =====
-- trees/src/iavl/tree.rs: the side of a node on which a key is.
use gears.Base.{◌≡◌, sym, ◌∙◌, ap, some, All, ◌++◌}
use gears.Base.Order.{Bytes, bytes_ord, ◌≺◌}
use gears.Base.Maps.{IsAscending, first_key}
use gears.Base.Maps
use gears.Iavl.Node.{Node, inner, InnerNode}
use gears.Iavl.Keys.{to_list, IsKeyed, first_key-to_list}

module _ (m : InnerNode) (l r : Node) (keyed : IsKeyed (inner m l r))
    (s : IsAscending (to_list (inner m l r))) where
  pub sides-IsAscending : IsAscending (to_list l) × IsAscending (to_list r)
  unfolding to_list
  sides-IsAscending = Maps.IsAscending-append (to_list l) (to_list r) s

  pub first_key-right : first_key (to_list r) ≡ some m.key
  unfolding IsKeyed
  first_key-right = first_key-to_list r ∙ ap some (sym keyed.0)

  pub left_below :
      (key : Bytes) → (key ≺ m.key → ⊥) → All (λ (e : Bytes × Bytes). e.0 ≺ key) (to_list l)
  unfolding to_list
  left_below key more =
      Maps.below_trans m.key key (to_list l)
        (Maps.below_start m.key (to_list l) (to_list r) first_key-right s) more

  pub get-left :
      (key : Bytes) → key ≺ m.key → Maps.get key (to_list (inner m l r)) ≡ Maps.get key (to_list l)
  unfolding to_list
  get-left key less =
      Maps.get-append_left key m.key (to_list l) (to_list r) first_key-right sides-IsAscending.1
        less

  pub get-right :
      (key : Bytes)
      → (key ≺ m.key → ⊥)
      → Maps.get key (to_list (inner m l r)) ≡ Maps.get key (to_list r)
  unfolding to_list
  get-right key more = Maps.get-append_right key (to_list l) (to_list r) (left_below key more)

  pub insert-left :
      (key value : Bytes)
      → key ≺ m.key
      → Maps.insert key value (to_list (inner m l r))
        ≡ Maps.insert key value (to_list l) ++ to_list r
  unfolding to_list
  insert-left key value less =
      Maps.insert-append_left key value m.key (to_list l) (to_list r) first_key-right less

  pub insert-right :
      (key value : Bytes)
      → (key ≺ m.key → ⊥)
      → Maps.insert key value (to_list (inner m l r))
        ≡ to_list l ++ Maps.insert key value (to_list r)
  unfolding to_list
  insert-right key value more =
      Maps.insert-append_right key value (to_list l) (to_list r) (left_below key more)

  pub remove-left :
      (key : Bytes)
      → key ≺ m.key
      → Maps.remove key (to_list (inner m l r)) ≡ Maps.remove key (to_list l) ++ to_list r
  unfolding to_list
  remove-left key less =
      Maps.remove-append_left key m.key (to_list l) (to_list r) first_key-right sides-IsAscending.1
        less

  pub remove-right :
      (key : Bytes)
      → (key ≺ m.key → ⊥)
      → Maps.remove key (to_list (inner m l r)) ≡ to_list l ++ Maps.remove key (to_list r)
  unfolding to_list
  remove-right key more = Maps.remove-append_right key (to_list l) (to_list r) (left_below key more)

  pub right_from : All (λ (e : Bytes × Bytes). e.0 ≺ m.key → ⊥) (to_list r)
  right_from = Maps.from_start m.key (to_list r) first_key-right sides-IsAscending.1
