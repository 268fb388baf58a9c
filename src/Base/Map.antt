-- ===== src/Base/Map.antt =====
-- `BTreeMap`: the entries in the order of their keys, over an abstract order (`Ord` of Rust).
pub mod Laws
pub mod Sums
use Prim.Native.Nat.{Ordering}
use mathlib.Core.Path.{◌≡◌}
use mathlib.Core.Bool.{Bool, true, false, ◌||◌}
use mathlib.Core.List.{List, [], ◌∷◌, map}
use mathlib.Core.Option.{Option, none, some}
use fractalnetworks_gateway.Base.Tests.{if◌then◌else◌}

pub record Order (K : Type 0) : Type 0 where
  pub cmp : K → K → Ordering
  pub cmp_refl : (a : K) → cmp a a ≡ Ordering.eq
  pub cmp_eq : (a b : K) → cmp a b ≡ Ordering.eq → a ≡ b
  pub cmp_gt : (a b : K) → cmp a b ≡ Ordering.gt → cmp b a ≡ Ordering.lt
  pub cmp_trans :
      (a b c : K) → cmp a b ≡ Ordering.lt → cmp b c ≡ Ordering.lt → cmp a c ≡ Ordering.lt

abbrev pub Map : Type 0 → Type 0 → Type 0
Map K V = List (K × V)

module _ {K : Type 0} ⦃o : Order K⦄ where
  -- `==` on keys
  abbrev pub same : K → K → Bool
  same a b = elim (o.cmp a b) [ Ordering.eq ↦ true | _ ↦ false ]

  module _ {V : Type 0} where
    unfoldable pub get : K → Map K V → Option V
    get k [] = none
    get k ((j, v) ∷ m) = if same k j then some v else get k m

    unfoldable pub insert : K → V → Map K V → Map K V
    insert k v [] = (k, v) ∷ []
    insert k v ((j, w) ∷ m) =
        let later = insert k v m in
        elim (o.cmp k j) [
          | Ordering.lt ↦ (k, v) ∷ (j, w) ∷ m
          | Ordering.eq ↦ (k, v) ∷ m
          | Ordering.gt ↦ (j, w) ∷ later
        ]

    unfoldable pub remove : K → Map K V → Map K V
    remove k [] = []
    remove k ((j, w) ∷ m) = let rest = remove k m in if same k j then rest else (j, w) ∷ rest

    -- `entry(k).or_insert(v)`, whose value the caller then reads and may change.
    abbrev pub get_or : K → V → Map K V → V
    get_or k v m = elim (get k m) [ none ↦ v | some w ↦ w ]

module _ {K V : Type 0} where
  abbrev pub keys : Map K V → List K
  keys = map (λ (k, v). k)

  abbrev pub values : Map K V → List V
  values = map (λ (k, v). v)
