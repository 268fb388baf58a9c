-- ===== src/Base/Map/Sums.antt =====
-- Extensionality of ordered maps, and sums over their values.
use Prim.Native.Nat.{ℕ, ◌+◌, Ordering}
use mathlib.Core.Path.{◌≡◌, refl}
use mathlib.Core.List.{[], ◌∷◌}
use mathlib.Core.Option.{Option, none, some}
use native.Mathlib.Omega.{arith}
use fractalnetworks_gateway.Base.Map.{Order, Map, get, insert}
use fractalnetworks_gateway.Base.Map.Laws.{Below, IsSorted}

abbrev pub measure : {V : Type 0} → (V → ℕ) → Option V → ℕ
measure f none = 0
measure f (some v) = f v

abbrev pub sum_by : {K V : Type 0} → (V → ℕ) → Map K V → ℕ
sum_by f [] = 0
sum_by f ((k, v) ∷ m) = f v + sum_by f m

module _ {K V : Type 0} ⦃o : Order K⦄ where
  pub get_of_Below : (k : K) (m : Map K V) → Below k m → get k m ≡ none
  unfolding get
  get_of_Below k [] b = refl
  get_of_Below k ((j, v) ∷ m) (b, bs) = ground (arith, get_of_Below k m bs)

  Below-lt : (j k : K) (m : Map K V) → o.cmp j k ≡ Ordering.lt → Below k m → Below j m
  Below-lt j k [] h b = tt
  Below-lt j k ((i, v) ∷ m) h (b, bs) = (o.cmp_trans j k i h b, Below-lt j k m h bs)

  pub sum-insert :
      (f : V → ℕ) (k : K) (v : V) (m : Map K V)
      → IsSorted m
      → sum_by f (insert k v m) + measure f (get k m) ≡ sum_by f m + f v
  unfolding get insert
  sum-insert f k v [] s = omega arith
  sum-insert f k v ((j, w) ∷ m) (b, s) = ground (
    arith,
    sum-insert f k v m s,
    λ (h : o.cmp k j ≡ Ordering.lt). get_of_Below k m (Below-lt k j m h b),
  )

  -- A key that stands before all of `m` is in no map with the same entries as `m`.
  cons_head :
      (k j : K) (v w : V) (m n : Map K V)
      → IsSorted ((k, v) ∷ m)
      → IsSorted ((j, w) ∷ n)
      → ((i : K) → get i ((k, v) ∷ m) ≡ get i ((j, w) ∷ n))
      → (k ≡ j) × (v ≡ w)
  unfolding get
  cons_head k j v w m n (b, s) (b', s') h = ground (
    arith,
    h k,
    h j,
    o.cmp_refl k,
    o.cmp_refl j,
    o.cmp_eq k j,
    o.cmp_eq j k,
    o.cmp_gt k j,
    λ (p : o.cmp k j ≡ Ordering.lt). get_of_Below k n (Below-lt k j n p b'),
    λ (p : o.cmp j k ≡ Ordering.lt). get_of_Below j m (Below-lt j k m p b),
  )

  cons_tail :
      (k j : K) (v w : V) (m n : Map K V)
      → Below k m
      → Below j n
      → k ≡ j
      → ((i : K) → get i ((k, v) ∷ m) ≡ get i ((j, w) ∷ n))
      → (i : K) → get i m ≡ get i n
  unfolding get
  cons_tail k j v w m n b b' e h i = ground (
    arith,
    h i,
    o.cmp_eq i k,
    o.cmp_eq i j,
    o.cmp_refl i,
    get_of_Below k m b,
    get_of_Below j n b',
  )

  -- Two ordered maps with the same lookups are the same map.
  pub map_ext : (m n : Map K V) → IsSorted m → IsSorted n → ((k : K) → get k m ≡ get k n) → m ≡ n
  unfolding get
  map_ext [] [] s s' h = refl
  map_ext [] ((j, w) ∷ n) s s' h = absurd (ground (arith, h j, o.cmp_refl j))
  map_ext ((k, v) ∷ m) [] s s' h = absurd (ground (arith, h k, o.cmp_refl k))
  map_ext ((k, v) ∷ m) ((j, w) ∷ n) (b, s) (b', s') h =
      let heads = cons_head k j v w m n (b, s) (b', s') h in
      cc (heads.0, heads.1, map_ext m n s s' (cons_tail k j v w m n b b' heads.0 h))
