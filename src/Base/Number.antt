-- ===== src/Base/Number.antt =====
-- `str::parse` for the unsigned integers below a limit.
use Prim.Native.Nat.{ℕ, zero, suc, ◌+◌, ◌-◌, ◌*◌, ◌/◌, ◌%◌, ◌<◌}
use mathlib.Core.Path.{◌≡◌, ◌∙◌}
use mathlib.Core.Bool.{Bool, true, false, ◌&&◌}
use mathlib.Core.List.{[], ◌∷◌, ◌++◌, append-nil, append_assoc}
use native.Mathlib.Omega.{arith}
use native.Mathlib.Decide.{dec_lt}
use fractalnetworks_gateway.Base.Tests.{ltb, leb, ◌==◌, if◌then◌else◌}
use fractalnetworks_gateway.Base.Text.{Text, text, digits, show}
use fractalnetworks_gateway.Base.Result.{Result, ok, err}
use fractalnetworks_gateway.Base.Split.{lacks, lacks-append}

abbrev pub is_digit : ℕ → Bool
is_digit c = leb b'0' c && leb c b'9'

-- The digits from `n` on.
pub read : ℕ → ℕ → Text → Result ℕ
read limit n [] = ok n
read limit n (c ∷ s) =
    let rest = read limit (n * 10 + (c - 48)) s in
    if is_digit c
    then if ltb (n * 10 + (c - 48)) limit
      then rest
      else err (text "number too large to fit in target type" ∷ [])
    else err (text "invalid digit found in string" ∷ [])

-- What follows a plus sign.
pub read_some : ℕ → Text → Result ℕ
unfolding read
read_some limit [] = err (text "invalid digit found in string" ∷ [])
read_some limit (c ∷ s) = read limit 0 (c ∷ s)

unfoldable pub parse_uint : ℕ → Text → Result ℕ
unfolding read read_some
parse_uint limit [] = err (text "cannot parse integer from empty string" ∷ [])
parse_uint limit (c ∷ s) = if c == b'+' then read_some limit s else read limit 0 (c ∷ s)

-- The digits of a number below the limit are read to that number.
read-digits :
    (limit f n : ℕ) (t : Text) → n < f → n < limit → read limit 0 (digits f n ++ t) ≡ read limit n t
unfolding digits read
read-digits limit zero n t h k = absurd (omega arith)
read-digits limit (suc f) n t h k = elim (dec_lt n 10) [
  | yes p ↦ ground arith
  | no p ↦
      let small : ltb n 10 ≡ false = ground arith in
      let last : n / 10 * 10 + (48 + n % 10 - 48) ≡ n = omega arith in
      rw small (
        rw append_assoc (
          read-digits limit f (n / 10) ((48 + n % 10) ∷ t) (omega arith) (omega arith)
          ∙ rw last (ground arith)))
]

-- The text of digits begins with one.
digits-first : (f n : ℕ) → n < f → (c : ℕ) × (s : Text) × (digits f n ≡ c ∷ s) × (is_digit c ≡ true)
unfolding digits
digits-first zero n h = absurd (omega arith)
digits-first (suc f) n h = elim (dec_lt n 10) [
  | yes p ↦ let small : ltb n 10 ≡ true = ground arith in (48 + n, [], rw small, ground arith)
  | no p ↦
      let small : ltb n 10 ≡ false = ground arith in
      let (c, s, e, d) = digits-first f (n / 10) (omega arith) in
      (c, s ++ ((48 + n % 10) ∷ []), rw small (rw e), d)
]

-- What `Display` writes of a number below the limit is parsed to that number.
pub parse_uint-show : (limit n : ℕ) → n < limit → parse_uint limit (show n) ≡ ok n
unfolding parse_uint show read
parse_uint-show limit n h =
    let (c, s, e, d) = digits-first (suc n) n (omega arith) in
    let whole = rw append-nil at (read-digits limit (suc n) n [] (omega arith) h) in
    rw e (ground (arith, d, rw e at whole))

-- A parsed number is below the limit.
read-lt : (limit n m : ℕ) (s : Text) → n < limit → read limit n s ≡ ok m → m < limit
unfolding read
read-lt limit n m [] h e = ground arith
read-lt limit n m (c ∷ s) h e =
    ground (arith, λ (p : n * 10 + (c - 48) < limit). read-lt limit (n * 10 + (c - 48)) m s p)

pub parse_uint-lt : (limit m : ℕ) (s : Text) → 0 < limit → parse_uint limit s ≡ ok m → m < limit
unfolding parse_uint read_some
parse_uint-lt limit m [] h e = cc
parse_uint-lt limit m (c ∷ []) h e = ground (arith, read-lt limit 0 m (c ∷ []) h)
parse_uint-lt limit m (c ∷ d ∷ s) h e =
    ground (arith, read-lt limit 0 m (c ∷ d ∷ s) h, read-lt limit 0 m (d ∷ s) h)

-- Only digits are written.
lacks-digits : (k f n : ℕ) → is_digit k ≡ false → n < f → lacks k (digits f n) ≡ true
unfolding digits
lacks-digits k zero n d h = absurd (omega arith)
lacks-digits k (suc f) n d h = ground (
  arith,
  lacks-append k (digits f (n / 10)) ((48 + n % 10) ∷ []),
  λ (p : n / 10 < f). lacks-digits k f (n / 10) d p,
)

pub lacks-show : (k n : ℕ) → is_digit k ≡ false → lacks k (show n) ≡ true
unfolding show
lacks-show k n d = lacks-digits k (suc n) n d (omega arith)
