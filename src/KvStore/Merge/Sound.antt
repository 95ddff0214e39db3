-- ===== src/KvStore/Merge/Sound.antt =====
-- The merged items of two ascending ranges: ascending again, and read as the one over the other.
use gears.Base.{
  ◌≡◌, sym, subst, refl, List, [], ◌∷◌, ℕ, zero, suc, ◌+◌, ◌<◌, arith, length, or_option, inl, inr,
  All, Ordering,
}
use gears.Base.Order.{
  Bytes, bytes_ord, cmp_bytes, ◌≺◌, cmp_bytes-eq, cmp_bytes_refl, cmp_bytes-gt, Ordering-cases,
}
use gears.Base.Maps.{IsAscending, get-above, above_trans}
use gears.Base.Maps
use gears.KvStore.Merge.{next, drain}

abbrev Entries : Type 0
Entries = List (Bytes × Bytes)

abbrev merged : ℕ → Entries → Entries → Entries
merged fuel a b = drain fuel (record { a = a; b = b })

drain-All :
    (P : Bytes × Bytes → Type 0) (fuel : ℕ) (a b : Entries)
    → All P a
    → All P b
    → All P (merged fuel a b)
unfolding drain next
drain-All P zero a b pa pb = tt
drain-All P (suc fuel) [] [] pa pb = tt
drain-All P (suc fuel) [] (y ∷ b) pa pb = (pb.0, drain-All P fuel [] b tt pb.1)
drain-All P (suc fuel) (x ∷ a) [] pa pb = (pa.0, drain-All P fuel a [] pa.1 tt)
drain-All P (suc fuel) ((k, v) ∷ a) ((j, w) ∷ b) pa pb = ground (
  arith,
  drain-All P fuel a ((j, w) ∷ b) pa.1 pb,
  drain-All P fuel a b pa.1 pb.1,
  drain-All P fuel ((k, v) ∷ a) b pa pb.1,
)

abbrev Above : Bytes → Entries → Type 0
Above k m = All (λ (e : Bytes × Bytes). k ≺ e.0) m

Above-eq : (k j : Bytes) (m : Entries) → cmp_bytes k j ≡ Ordering.eq → Above j m → Above k m
Above-eq k j m e h = subst (λ x. Above x m) (sym (cmp_bytes-eq k j e)) h

module _ (fuel : ℕ) (k v j w : Bytes) (a b : Entries) where
  abbrev both : Entries
  both = merged (suc fuel) ((k, v) ∷ a) ((j, w) ∷ b)

  drain-lt : cmp_bytes k j ≡ Ordering.lt → both ≡ (k, v) ∷ merged fuel a ((j, w) ∷ b)
  unfolding drain next
  drain-lt e = ground arith

  drain-eq : cmp_bytes k j ≡ Ordering.eq → both ≡ (k, v) ∷ merged fuel a b
  unfolding drain next
  drain-eq e = ground arith

  drain-gt : cmp_bytes k j ≡ Ordering.gt → both ≡ (j, w) ∷ merged fuel ((k, v) ∷ a) b
  unfolding drain next
  drain-gt e = ground arith

-- The merged items ascend, with no key twice.
pub drain-IsAscending :
    (fuel : ℕ) (a b : Entries) → IsAscending a → IsAscending b → IsAscending (merged fuel a b)
unfolding drain next
drain-IsAscending zero a b sa sb = tt
drain-IsAscending (suc fuel) [] [] sa sb = tt
drain-IsAscending (suc fuel) [] ((j, w) ∷ b) sa sb =
    (drain-All (λ e. j ≺ e.0) fuel [] b tt sb.0, drain-IsAscending fuel [] b tt sb.1)
drain-IsAscending (suc fuel) ((k, v) ∷ a) [] sa sb =
    (drain-All (λ e. k ≺ e.0) fuel a [] sa.0 tt, drain-IsAscending fuel a [] sa.1 tt)
drain-IsAscending (suc fuel) ((k, v) ∷ a) ((j, w) ∷ b) sa sb =
    elim (Ordering-cases (cmp_bytes k j)) [
      | inl e ↦
          let higher = above_trans k j b e sb.0 in
          subst (λ l. IsAscending l) (sym (drain-lt fuel k v j w a b e))
            (
              drain-All (λ x. k ≺ x.0) fuel a ((j, w) ∷ b) sa.0 (e, higher),
              drain-IsAscending fuel a ((j, w) ∷ b) sa.1 sb,
            )
      | inr (inl e) ↦
          subst (λ l. IsAscending l) (sym (drain-eq fuel k v j w a b e))
            (
              drain-All (λ x. k ≺ x.0) fuel a b sa.0 (Above-eq k j b e sb.0),
              drain-IsAscending fuel a b sa.1 sb.1,
            )
      | inr (inr e) ↦
          let lower = cmp_bytes-gt k j e in
          subst (λ l. IsAscending l) (sym (drain-gt fuel k v j w a b e))
            (
              drain-All (λ x. j ≺ x.0) fuel ((k, v) ∷ a) b (lower, above_trans j k a lower sa.0)
                  sb.0,
              drain-IsAscending fuel ((k, v) ∷ a) b sa sb.1,
            )
    ]

get-drain :
    (fuel : ℕ) (a b : Entries) (q : Bytes)
    → IsAscending a
    → IsAscending b
    → length a + length b < fuel
    → Maps.get q (merged fuel a b) ≡ or_option (Maps.get q a) (Maps.get q b)
unfolding drain next Maps.get
get-drain zero a b q sa sb h = elim h [ ]
get-drain (suc fuel) [] [] q sa sb h = refl
get-drain (suc fuel) [] ((j, w) ∷ b) q sa sb h = ground (arith, get-drain fuel [] b q tt sb.1)
get-drain (suc fuel) ((k, v) ∷ a) [] q sa sb h = ground (arith, get-drain fuel a [] q sa.1 tt)
get-drain (suc fuel) ((k, v) ∷ a) ((j, w) ∷ b) q sa sb h = ground (
  arith,
  get-drain fuel a ((j, w) ∷ b) q sa.1 sb,
  get-drain fuel a b q sa.1 sb.1,
  get-drain fuel ((k, v) ∷ a) b q sa sb.1,
  cmp_bytes-eq k j,
  cmp_bytes-eq k q,
  cmp_bytes-eq j q,
  cmp_bytes_refl q,
  get-above k a,
  get-above j b,
  get-above j a,
  above_trans j k a,
  cmp_bytes-gt k j,
)

-- Merging two ascending ranges, with fuel for their items: the items ascend, and a key reads what
-- the first range holds of it, or else what the second does.
pub drain-merges :
    (fuel : ℕ) (a b : Entries)
    → IsAscending a
    → IsAscending b
    → length a + length b < fuel
    → IsAscending (merged fuel a b)
      × ((q : Bytes) → Maps.get q (merged fuel a b) ≡ or_option (Maps.get q a) (Maps.get q b))
drain-merges fuel a b sa sb h =
    (drain-IsAscending fuel a b sa sb, λ q. get-drain fuel a b q sa sb h)
