-- ===== src/Base/Text.antt =====
-- Text as the list of its code points, literals, and the decimal form that `format!("{}", n)` writes.
use Prim.Native.Char.{code}
use Prim.Native.String.{String}
use Prim.Native.Nat.{ℕ, zero, suc, ◌+◌, ◌-◌, ◌*◌, ◌/◌, ◌%◌, ◌<◌}
use mathlib.Core.Path.{◌≡◌, refl, ap, ◌∙◌, sym}
use mathlib.Core.Logic.{◌↔◌}
use mathlib.Core.Bool.{Bool, true, false, ◌&&◌}
use mathlib.Core.List.{List, [], ◌∷◌, ◌++◌, foldl, foldl-append}
use native.Mathlib.Omega.{arith}
use fractalnetworks_gateway.Base.Tests.{ltb, ◌==◌, if◌then◌else◌}

abbrev pub Text : Type 0
Text = List ℕ

abbrev pub text : String → Text
text String.[] = []
text (String.◌∷◌ c s) = code c ∷ text s

abbrev pub newline : ℕ
newline = 10

abbrev pub tab : ℕ
tab = 9

unfoldable pub eq : Text → Text → Bool
eq [] [] = true
eq (c ∷ s) (d ∷ t) = c == d && eq s t
eq _ _ = false

pub eq_iff : (s t : Text) → (eq s t ≡ true) ↔ (s ≡ t)
unfolding eq
eq_iff [] [] = (λ _. refl, λ _. refl)
eq_iff [] (d ∷ t) = (λ h. cc, λ h. cc)
eq_iff (c ∷ s) [] = (λ h. cc, λ h. cc)
eq_iff (c ∷ s) (d ∷ t) = ground (arith, eq_iff s t)

-- `str::starts_with`
unfoldable pub starts_with : Text → Text → Bool
starts_with s [] = true
starts_with [] (d ∷ t) = false
starts_with (c ∷ s) (d ∷ t) = c == d && starts_with s t

pub starts_with-append : (p s : Text) → starts_with (p ++ s) p ≡ true
unfolding starts_with
starts_with-append [] s = refl
starts_with-append (c ∷ p) s = ground (arith, starts_with-append p s)

-- The digits of `n`; the fuel covers one digit a round.
unfoldable pub digits : ℕ → ℕ → Text
digits zero n = []
digits (suc f) n =
    let more = digits f (n / 10) ++ ((48 + n % 10) ∷ []) in if ltb n 10 then (48 + n) ∷ [] else more

unfoldable pub show : ℕ → Text
unfolding digits
show n = digits (suc n) n

abbrev add_digit : ℕ → ℕ → ℕ
add_digit n c = n * 10 + (c - 48)

-- The number that a text of digits stands for.
unfoldable pub value : Text → ℕ
value = foldl add_digit 0

value-digits : (f n : ℕ) → n < f → value (digits f n) ≡ n
unfolding digits value
value-digits zero n h = absurd (omega arith)
value-digits (suc f) n h = ground (
  arith,
  foldl-append add_digit 0 (digits f (n / 10)) ((48 + n % 10) ∷ []),
  λ (p : n / 10 < f). value-digits f (n / 10) p,
)

pub value-show : (n : ℕ) → value (show n) ≡ n
unfolding show
value-show n = value-digits (suc n) n (omega arith)

-- Two numbers that are printed alike are equal.
pub show-injective : (m n : ℕ) → show m ≡ show n → m ≡ n
show-injective m n h = sym (value-show m) ∙ ap value h ∙ value-show n

append_cancel : (p s t : Text) → p ++ s ≡ p ++ t → s ≡ t
append_cancel [] s t h = h
append_cancel (c ∷ p) s t h = append_cancel p s t (cc)

pub append-show-injective : (p : Text) (m n : ℕ) → p ++ show m ≡ p ++ show n → m ≡ n
append-show-injective p m n h = show-injective m n (append_cancel p (show m) (show n) h)
