-- ===== src/Coins/Valid.antt =====
-- What `new` accepts: at least one coin, no amount zero, and denominations in strict order.
use gears.Base.{◌<◌, ◌≡◌, ◌↔◌, refl, false, List, [], ◌∷◌, arith, All}
use gears.Base.Order.{Bytes, bytes_ord, cmp_bytes-lt, cmp_bytes-gt, ◌≺◌, cmp_bytes_trans}
use gears.Base.Results.{ok}
use gears.Coins.{Coin, any_zero, check_order, new, amount_of}

abbrev pub Above : Bytes → List Coin → Type 0
Above d cs = All (λ (c : Coin). d ≺ c.denom) cs

-- Denominations ascend, and amounts are positive.
abbrev pub IsSorted : List Coin → Type 0
IsSorted [] = Unit
IsSorted (c ∷ cs) = (0 < c.amount) × Above c.denom cs × IsSorted cs

abbrev pub IsNonempty : List Coin → Type 0
IsNonempty [] = ⊥
IsNonempty (c ∷ cs) = Unit

abbrev pub IsValid : List Coin → Type 0
IsValid cs = IsNonempty cs × IsSorted cs

pub Above-trans : (d e : Bytes) (cs : List Coin) → d ≺ e → Above e cs → Above d cs
Above-trans d e [] h a = tt
Above-trans d e (c ∷ cs) h a = (cmp_bytes_trans d e c.denom h a.0, Above-trans d e cs h a.1)

check_order_sound :
    (d : Bytes) (cs : List Coin)
    → check_order d cs ≡ ok tt
    → any_zero cs ≡ false
    → Above d cs × IsSorted cs
unfolding check_order any_zero
check_order_sound d [] h z = (tt, tt)
check_order_sound d (c ∷ cs) h z =
    ground (arith, check_order_sound c.denom cs, cmp_bytes-gt c.denom d, Above-trans d c.denom cs)

check_order_complete :
    (d : Bytes) (cs : List Coin)
    → Above d cs
    → IsSorted cs
    → (check_order d cs ≡ ok tt) × (any_zero cs ≡ false)
unfolding check_order any_zero
check_order_complete d [] a s = (refl, refl)
check_order_complete d (c ∷ cs) a s =
    ground (arith, check_order_complete c.denom cs s.1 s.2, cmp_bytes-lt d c.denom)

-- `new` accepts exactly the valid lists, and returns them unchanged.
pub new-exact : (cs ds : List Coin) → (new cs ≡ ok ds) ↔ (IsValid cs × (ds ≡ cs))
unfolding new
new-exact [] ds = (λ h. cc, λ h. absurd h.0.0)
new-exact (c ∷ cs) ds = (
  λ h. ground (arith, check_order_sound c.denom cs),
  λ h. ground (arith, check_order_complete c.denom cs h.0.1.1 h.0.1.2),
)

-- A denomination below all the others is not held.
pub amount_of-Above : (d : Bytes) (cs : List Coin) → Above d cs → amount_of cs d ≡ 0
unfolding amount_of
amount_of-Above d [] a = refl
amount_of-Above d (c ∷ cs) a = ground (arith, amount_of-Above d cs a.1, cmp_bytes-lt d c.denom)
