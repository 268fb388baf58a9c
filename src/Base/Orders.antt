-- ===== src/Base/Orders.antt =====
-- The orders of the keys that the standard library gives: numbers, and texts in dictionary order.
use Prim.Native.Nat.{ℕ, compare, Ordering}
use mathlib.Core.Path.{◌≡◌, refl}
use mathlib.Core.List.{[], ◌∷◌}
use native.Mathlib.Omega.{arith}
use fractalnetworks_gateway.Base.Text.{Text}
use fractalnetworks_gateway.Base.Map.{Order}

pub compare_refl : (a : ℕ) → compare a a ≡ Ordering.eq
compare_refl a = ground arith

pub compare-eq : (a b : ℕ) → compare a b ≡ Ordering.eq → a ≡ b
compare-eq a b h = ground arith

pub compare_gt : (a b : ℕ) → compare a b ≡ Ordering.gt → compare b a ≡ Ordering.lt
compare_gt a b h = ground arith

pub compare_trans :
    (a b c : ℕ) → compare a b ≡ Ordering.lt → compare b c ≡ Ordering.lt → compare a c ≡ Ordering.lt
compare_trans a b c h k = ground arith

instance abbrev pub nat_order : Order ℕ
nat_order = record {
  cmp = compare;
  cmp_refl = compare_refl;
  cmp_eq = compare-eq;
  cmp_gt = compare_gt;
  cmp_trans = compare_trans;
}

unfoldable pub compare_text : Text → Text → Ordering
compare_text [] [] = Ordering.eq
compare_text [] (d ∷ t) = Ordering.lt
compare_text (c ∷ s) [] = Ordering.gt
compare_text (c ∷ s) (d ∷ t) =
    let later = compare_text s t in
    elim (compare c d) [
      | Ordering.lt ↦ Ordering.lt
      | Ordering.eq ↦ later
      | Ordering.gt ↦ Ordering.gt
    ]

pub text_refl : (s : Text) → compare_text s s ≡ Ordering.eq
unfolding compare_text
text_refl [] = refl
text_refl (c ∷ s) = ground (arith, text_refl s)

pub text_eq : (s t : Text) → compare_text s t ≡ Ordering.eq → s ≡ t
unfolding compare_text
text_eq [] [] h = refl
text_eq [] (d ∷ t) h = cc
text_eq (c ∷ s) [] h = cc
text_eq (c ∷ s) (d ∷ t) h = ground (arith, text_eq s t)

pub text_gt : (s t : Text) → compare_text s t ≡ Ordering.gt → compare_text t s ≡ Ordering.lt
unfolding compare_text
text_gt [] [] h = cc
text_gt [] (d ∷ t) h = cc
text_gt (c ∷ s) [] h = refl
text_gt (c ∷ s) (d ∷ t) h = ground (arith, text_gt s t)

pub text_trans :
    (s t u : Text)
    → compare_text s t ≡ Ordering.lt
    → compare_text t u ≡ Ordering.lt
    → compare_text s u ≡ Ordering.lt
unfolding compare_text
text_trans [] [] u h k = cc
text_trans [] (d ∷ t) [] h k = cc
text_trans [] (d ∷ t) (e ∷ u) h k = refl
text_trans (c ∷ s) [] u h k = cc
text_trans (c ∷ s) (d ∷ t) [] h k = cc
text_trans (c ∷ s) (d ∷ t) (e ∷ u) h k = ground (arith, text_trans s t u)

instance abbrev pub text_order : Order Text
text_order = record {
  cmp = compare_text;
  cmp_refl = text_refl;
  cmp_eq = text_eq;
  cmp_gt = text_gt;
  cmp_trans = text_trans;
}
