-- ===== src/Base/Map/Laws.antt =====
-- The laws of the map operations, and that they keep the entries in order.
use Prim.Native.Nat.{Ordering, suc, ◌≤◌}
use mathlib.Core.Path.{◌≡◌, refl}
use mathlib.Core.List.{[], ◌∷◌}
use mathlib.Core.Option.{none, some}
use mathlib.Core.Bool.{true}
use native.Mathlib.Omega.{arith}
use fractalnetworks_gateway.Base.Tests.{if◌then◌else◌}
use fractalnetworks_gateway.Base.Lists.{length, All}
use fractalnetworks_gateway.Base.Map.{Order, Map, same, get, insert, remove}

module _ {K : Type 0} ⦃o : Order K⦄ where
  pub same_refl : (k : K) → same k k ≡ true
  same_refl k = ground (arith, o.cmp_refl k)

  pub same→eq : (j k : K) → same j k ≡ true → j ≡ k
  same→eq j k h = ground (arith, o.cmp_eq j k)

  module _ {V : Type 0} where
    pub get-nil : (j : K) → get {V = V} j [] ≡ none
    unfolding get
    get-nil j = refl

    pub get-cons :
        (j k : K) (v : V) (m : Map K V)
        → get j ((k, v) ∷ m) ≡ (if same j k then some v else get j m)
    unfolding get
    get-cons j k v m = refl

    pub get-insert :
        (j k : K) (v : V) (m : Map K V)
        → get j (insert k v m) ≡ (if same j k then some v else get j m)
    unfolding get insert
    get-insert j k v [] = refl
    get-insert j k v ((i, w) ∷ m) = ground (
      arith,
      get-insert j k v m,
      o.cmp_eq k i,
      o.cmp_eq j k,
      o.cmp_eq j i,
      o.cmp_refl i,
      o.cmp_refl k,
    )

    -- An insertion adds one entry at most, and what holds of all entries goes on to hold.
    pub insert-All :
        (P : K × V → Type 0) (k : K) (v : V) (m : Map K V)
        → P (k, v)
        → All P m
        → All P (insert k v m)
    unfolding insert
    insert-All P k v [] h hs = (h, tt)
    insert-All P k v ((i, w) ∷ m) h (h', hs) = ground (arith, insert-All P k v m h hs)

    pub length-insert : (k : K) (v : V) (m : Map K V) → length (insert k v m) ≤ suc (length m)
    unfolding insert
    length-insert k v [] = omega arith
    length-insert k v ((i, w) ∷ m) = ground (arith, length-insert k v m)

    pub get-remove :
        (j k : K) (m : Map K V) → get j (remove k m) ≡ (if same j k then none else get j m)
    unfolding get remove
    get-remove j k [] = ground arith
    get-remove j k ((i, w) ∷ m) = ground (
      arith,
      get-remove j k m,
      o.cmp_eq k i,
      o.cmp_eq j k,
      o.cmp_eq j i,
      o.cmp_refl i,
      o.cmp_refl k,
    )

    -- `k` stands before every key of the map.
    abbrev pub Below : K → Map K V → Type 0
    Below k [] = Unit
    Below k ((j, v) ∷ m) = (o.cmp k j ≡ Ordering.lt) × Below k m

    abbrev pub IsSorted : Map K V → Type 0
    IsSorted [] = Unit
    IsSorted ((k, v) ∷ m) = Below k m × IsSorted m

    Below-trans : (j k : K) (m : Map K V) → o.cmp j k ≡ Ordering.lt → Below k m → Below j m
    Below-trans j k [] h b = tt
    Below-trans j k ((i, v) ∷ m) h (b, bs) = (o.cmp_trans j k i h b, Below-trans j k m h bs)

    Below-insert :
        (j k : K) (v : V) (m : Map K V)
        → o.cmp j k ≡ Ordering.lt
        → Below j m
        → Below j (insert k v m)
    unfolding insert
    Below-insert j k v [] h b = (h, tt)
    Below-insert j k v ((i, w) ∷ m) h (b, bs) = ground (arith, Below-insert j k v m h bs)

    Below-remove : (j k : K) (m : Map K V) → Below j m → Below j (remove k m)
    unfolding remove
    Below-remove j k [] b = tt
    Below-remove j k ((i, w) ∷ m) (b, bs) = ground (arith, Below-remove j k m bs)

    pub insert-IsSorted : (k : K) (v : V) (m : Map K V) → IsSorted m → IsSorted (insert k v m)
    unfolding insert
    insert-IsSorted k v [] s = (tt, tt)
    insert-IsSorted k v ((j, w) ∷ m) (b, s) = ground (
      arith,
      insert-IsSorted k v m s,
      o.cmp_eq k j,
      λ (h : o.cmp k j ≡ Ordering.lt). Below-trans k j m h b,
      λ (h : o.cmp k j ≡ Ordering.gt). Below-insert j k v m (o.cmp_gt k j h) b,
    )

    pub remove-IsSorted : (k : K) (m : Map K V) → IsSorted m → IsSorted (remove k m)
    unfolding remove
    remove-IsSorted k [] s = tt
    remove-IsSorted k ((j, w) ∷ m) (b, s) =
        ground (arith, remove-IsSorted k m s, Below-remove j k m b)

  pub ruleset map_laws = (get-nil, get-insert, get-remove)
