-- ===== src/Base/Split.antt =====
-- `str::split` at one character, `str::lines`, and the texts that they take apart again.
use mathlib.Core.Path.{◌≡◌, refl, sym, ap, ◌∙◌}
use mathlib.Core.Bool.{Bool, true, false, ◌&&◌}
use mathlib.Core.List.{List, [], ◌∷◌, ◌++◌, map, append_assoc}
use native.Mathlib.Omega.{arith}
use Prim.Native.Nat.{ℕ}
use fractalnetworks_gateway.Base.Tests.{◌==◌, if◌then◌else◌}
use fractalnetworks_gateway.Base.Text.{Text, newline}

abbrev pub carriage_return : ℕ
carriage_return = 13

abbrev pub cons_first : ℕ → List Text → List Text
cons_first c [] = (c ∷ []) ∷ []
cons_first c (piece ∷ later) = (c ∷ piece) ∷ later

-- `str::split(separator)`: there is always at least one piece.
unfoldable pub split : ℕ → Text → List Text
split separator [] = [] ∷ []
split separator (c ∷ s) =
    let later = split separator s in if c == separator then [] ∷ later else cons_first c later

abbrev pub begins_line_end : Text → Bool
begins_line_end [] = false
begins_line_end (c ∷ s) = c == newline

-- `str::lines`: a line ends at a line feed, with or without a carriage return before it, or at the
-- end of the text.
unfoldable pub lines : Text → List Text
lines [] = []
lines (c ∷ s) =
    let later = lines s in
    if c == newline
    then [] ∷ later
    else if c == carriage_return && begins_line_end s
    then later
    else cons_first c later

-- `join(separator)`
unfoldable pub join : Text → List Text → Text
join separator [] = []
join separator (piece ∷ []) = piece
join separator (piece ∷ next ∷ later) = piece ++ (separator ++ join separator (next ∷ later))

-- The character is not in the text.
abbrev pub lacks : ℕ → Text → Bool
lacks c [] = true
lacks c (d ∷ s) = if d == c then false else lacks c s

pub lacks-append : (c : ℕ) (s t : Text) → lacks c (s ++ t) ≡ (lacks c s && lacks c t)
lacks-append c [] t = ground arith
lacks-append c (d ∷ s) t = ground (arith, lacks-append c s t)

pub split-lacks : (c : ℕ) (s : Text) → lacks c s ≡ true → split c s ≡ s ∷ []
unfolding split
split-lacks c [] h = refl
split-lacks c (d ∷ s) h = ground (arith, split-lacks c s)

pub split-append : (c : ℕ) (s t : Text) → lacks c s ≡ true → split c (s ++ (c ∷ t)) ≡ s ∷ split c t
unfolding split
split-append c [] t h = ground arith
split-append c (d ∷ s) t h = ground (arith, split-append c s t)

-- Every text of the list lacks the character.
abbrev pub all_lack : ℕ → List Text → Bool
all_lack c [] = true
all_lack c (s ∷ later) = lacks c s && all_lack c later

pub lacks-join :
    (c : ℕ) (separator : Text) (pieces : List Text)
    → lacks c separator ≡ true
    → all_lack c pieces ≡ true
    → lacks c (join separator pieces) ≡ true
unfolding join
lacks-join c separator [] h k = refl
lacks-join c separator (s ∷ []) h k = ground arith
lacks-join c separator (s ∷ t ∷ later) h k = ground (
  arith,
  lacks-append c s (separator ++ join separator (t ∷ later)),
  lacks-append c separator (join separator (t ∷ later)),
  lacks-join c separator (t ∷ later) h,
)

pub all_lack-map :
    (c : ℕ) {A : Type 0} (display : A → Text) (l : List A)
    → ((a : A) → lacks c (display a) ≡ true)
    → all_lack c (map display l) ≡ true
all_lack-map c display [] k = refl
all_lack-map c display (a ∷ l) k = rw (k a) (all_lack-map c display l k)

-- Pieces that lack the separator are taken apart again.
pub split-join :
    (c : ℕ) (s : Text) (later : List Text)
    → all_lack c (s ∷ later) ≡ true
    → split c (join (c ∷ []) (s ∷ later)) ≡ s ∷ later
unfolding join
split-join c s [] h = split-lacks c s (ground arith)
split-join c s (t ∷ later) h =
    split-append c s (join (c ∷ []) (t ∷ later)) (ground arith)
    ∙ ap (λ rest. s ∷ rest) (split-join c t later (ground arith))

-- A line with neither of the characters that end a line is a line of its own.
pub lines-append :
    (s t : Text)
    → lacks newline s ≡ true
    → lacks carriage_return s ≡ true
    → lines (s ++ (newline ∷ t)) ≡ s ∷ lines t
unfolding lines
lines-append [] t h k = refl
lines-append (c ∷ s) t h k = ground (arith, lines-append s t)

-- Lines, each with its line feed, are taken apart again.
abbrev pub unlines : List Text → Text
unlines [] = []
unlines (s ∷ later) = s ++ (newline ∷ unlines later)

pub lines-unlines :
    (ls : List Text)
    → all_lack newline ls ≡ true
    → all_lack carriage_return ls ≡ true
    → lines (unlines ls) ≡ ls
unfolding lines
lines-unlines [] h k = refl
lines-unlines (s ∷ later) h k =
    lines-append s (unlines later) (ground arith) (ground arith)
    ∙ ap (λ rest. s ∷ rest) (lines-unlines later (ground arith) (ground arith))

pub unlines-append : (ls ms : List Text) → unlines (ls ++ ms) ≡ unlines ls ++ unlines ms
unlines-append [] ms = refl
unlines-append (l ∷ ls) ms =
    ap (λ r. l ++ (newline ∷ r)) (unlines-append ls ms)
    ∙ sym (append_assoc l (newline ∷ unlines ls) (unlines ms))
