-- ===== src/Gateway/Iptables/Cleaning.antt =====
-- A cleaned rule file is clean: `clean_iptables` leaves it as it is.
use fractalnetworks_gateway.Base.{
  ℕ, ◌≡◌, refl, ap, ◌∙◌, true, false, ◌==◌, filter, map, List, [], ◌∷◌, ◌++◌, append_assoc, All,
  arith, inl, inr, Bool-cases,
}
use fractalnetworks_gateway.Base.Text.{Text, newline}
use fractalnetworks_gateway.Base.Split.{
  lines, join, lacks, lacks-append, lacks-join, all_lack, carriage_return, cons_first, unlines,
  lines-unlines,
}
use fractalnetworks_gateway.Gateway.Iptables.{is_rule, is_filled, clean_iptables}

-- The documented behaviour of `Regex::replace` with a pattern that matches a packet counter at the end of
-- the line, by the counter [0:0]: what is replaced matches again, no line end comes in, and an
-- empty line or a comment comes only of one.
pub record Replaces (replace_counter : Text → Text) : Type 0 where
  pub once : (s : Text) → replace_counter (replace_counter s) ≡ replace_counter s
  pub no_newline : (s : Text) → lacks newline s ≡ true → lacks newline (replace_counter s) ≡ true
  pub no_return :
      (s : Text) → lacks carriage_return s ≡ true → lacks carriage_return (replace_counter s) ≡ true
  pub filled : (s : Text) → is_filled s ≡ true → is_filled (replace_counter s) ≡ true
  pub rule : (s : Text) → is_rule s ≡ true → is_rule (replace_counter s) ≡ true

all_lack-cons_first :
    (k c : ℕ) (ls : List Text)
    → (c == k) ≡ false
    → all_lack k ls ≡ true
    → all_lack k (cons_first c ls) ≡ true
all_lack-cons_first k c [] d h = ground arith
all_lack-cons_first k c (l ∷ ls) d h = ground arith

-- No line holds a line feed, and none a carriage return that the text does not hold.
pub newline-lines : (s : Text) → all_lack newline (lines s) ≡ true
unfolding lines
newline-lines [] = refl
newline-lines (c ∷ s) = elim (Bool-cases (c == newline)) [
  | inl p ↦ rw p (newline-lines s)
  | inr p ↦
      ground
        (arith, p, newline-lines s, all_lack-cons_first newline c (lines s) p (newline-lines s))
]

pub return-lines :
    (s : Text) → lacks carriage_return s ≡ true → all_lack carriage_return (lines s) ≡ true
unfolding lines
return-lines [] h = refl
return-lines (c ∷ s) h = elim (Bool-cases (c == carriage_return)) [
  | inl p ↦ absurd (ground (arith, p, h))
  | inr p ↦
      let later = return-lines s (ground (arith, p, h)) in
      ground (arith, p, later, all_lack-cons_first carriage_return c (lines s) p later)
]

pub unlines-eq-join :
    (s : Text) (ls : List Text) → join (newline ∷ []) (s ∷ ls) ++ (newline ∷ []) ≡ unlines (s ∷ ls)
unfolding join
unlines-eq-join s [] = refl
unlines-eq-join s (t ∷ ls) =
    append_assoc s (newline ∷ join (newline ∷ []) (t ∷ ls)) (newline ∷ [])
    ∙ ap (λ rest. s ++ (newline ∷ rest)) (unlines-eq-join t ls)

module _ (replace_counter : Text → Text) (R : Replaces replace_counter) where
  -- A line that cleaning leaves as it is.
  abbrev pub IsTidy : Text → Type 0
  IsTidy l =
      (is_rule l ≡ true)
      × (is_filled l ≡ true)
      × (lacks newline l ≡ true)
      × (lacks carriage_return l ≡ true)
      × (replace_counter l ≡ l)

  abbrev pub kept : List Text → List Text
  kept ls = map replace_counter (filter is_filled (filter is_rule ls))

  pub kept-IsTidy :
      (ls : List Text)
      → all_lack newline ls ≡ true
      → all_lack carriage_return ls ≡ true
      → All IsTidy (kept ls)
  kept-IsTidy [] h k = tt
  kept-IsTidy (l ∷ ls) h k =
      let later = kept-IsTidy ls (ground (arith, h)) (ground (arith, k)) in
      elim (Bool-cases (is_rule l)) [
        | inl p ↦ elim (Bool-cases (is_filled l)) [
          | inl q ↦ rw p (
              rw q (
                (
                  R.rule l p,
                  R.filled l q,
                  R.no_newline l (ground (arith, h)),
                  R.no_return l (ground (arith, k)),
                  R.once l,
                ),
                later,
              ))
          | inr q ↦ rw p (rw q later)
        ]
        | inr p ↦ rw p later
      ]

  kept_tidy : (cs : List Text) → All IsTidy cs → kept cs ≡ cs
  kept_tidy [] t = refl
  kept_tidy (c ∷ cs) ((rule, filled, _, _, same), t) = rw (rule, filled, same, kept_tidy cs t)

  all_lack-IsTidy :
      (cs : List Text)
      → All IsTidy cs
      → (all_lack newline cs ≡ true) × (all_lack carriage_return cs ≡ true)
  all_lack-IsTidy [] t = (refl, refl)
  all_lack-IsTidy (c ∷ cs) ((_, _, n, r, _), t) =
      let (ns, rs) = all_lack-IsTidy cs t in (rw (n, ns), rw (r, rs))

  clean_tidy :
      (cs : List Text)
      → All IsTidy cs
      → clean_iptables replace_counter (join (newline ∷ []) cs ++ (newline ∷ []))
        ≡ join (newline ∷ []) cs ++ (newline ∷ [])
  unfolding clean_iptables lines join
  clean_tidy [] t = refl
  clean_tidy (c ∷ cs) t =
      let (ns, rs) = all_lack-IsTidy (c ∷ cs) t in
      ap (λ x. join (newline ∷ []) (kept x) ++ (newline ∷ []))
        (ap lines (unlines-eq-join c cs) ∙ lines-unlines (c ∷ cs) ns rs)
      ∙ ap (λ x. join (newline ∷ []) x ++ (newline ∷ [])) (kept_tidy (c ∷ cs) t)

  filtered_newline :
      (ls : List Text) → all_lack newline ls ≡ true → all_lack newline (kept ls) ≡ true
  filtered_newline [] h = refl
  filtered_newline (l ∷ ls) h =
      let later = filtered_newline ls (ground (arith, h)) in
      let here = R.no_newline l (ground (arith, h)) in
      elim (Bool-cases (is_rule l)) [
        | inl p ↦ elim (Bool-cases (is_filled l)) [
          | inl q ↦ rw p (rw q (rw (here, later)))
          | inr q ↦ rw p (rw q later)
        ]
        | inr p ↦ rw p later
      ]

  pub newline-kept : (s : Text) → all_lack newline (kept (lines s)) ≡ true
  newline-kept s = filtered_newline (lines s) (newline-lines s)

  pub clean_iptables_twice :
      (input : Text)
      → lacks carriage_return input ≡ true
      → clean_iptables replace_counter (clean_iptables replace_counter input)
        ≡ clean_iptables replace_counter input
  unfolding clean_iptables
  clean_iptables_twice input h =
      clean_tidy (kept (lines input))
        (kept-IsTidy (lines input) (newline-lines input) (return-lines input h))

  -- No carriage return comes into the cleaned text.
  pub return-clean :
      (input : Text)
      → lacks carriage_return input ≡ true
      → lacks carriage_return (clean_iptables replace_counter input) ≡ true
  unfolding clean_iptables
  return-clean input h =
      let tidy = kept-IsTidy (lines input) (newline-lines input) (return-lines input h) in
      let (_, rs) = all_lack-IsTidy (kept (lines input)) tidy in
      let joined = lacks-join carriage_return (newline ∷ []) (kept (lines input)) refl rs in
      ground (
        arith,
        joined,
        lacks-append carriage_return (join (newline ∷ []) (kept (lines input))) (newline ∷ []),
      )
