-- ===== src/Gateway/Iptables/Rules.antt =====
-- What saved rules and the rules of a text have to do with `clean_iptables` of src/gateway.rs: they show
-- them exactly if they are the same when cleaned.
use mathlib.Core.Path.{subst}
use fractalnetworks_gateway.Base.{
  ℕ, ◌&&◌, ◌≡◌, refl, sym, ap, ◌∙◌, true, false, List, [], ◌∷◌, ◌++◌, All, arith, inl, inr,
  Bool-cases,
}
use fractalnetworks_gateway.Base.Text.{Text, newline}
use fractalnetworks_gateway.Base.Split.{
  lines, join, lacks, lacks-append, all_lack, carriage_return, unlines, lines-unlines,
}
use fractalnetworks_gateway.Gateway.Iptables.{is_rule, is_filled, clean_iptables}
use fractalnetworks_gateway.Gateway.Iptables.Cleaning.{
  Replaces, IsTidy, kept, kept-IsTidy, newline-lines, return-lines, newline-kept, unlines-eq-join,
  clean_iptables_twice,
}
use fractalnetworks_gateway.Gateway.Iptables.Shown.{Shown, done, comment, blank, blank_rule, rule}

module _ (replace_counter : Text → Text) (R : Replaces replace_counter) where
  kept-Shown :
      {saved rules : List Text}
      → Shown replace_counter saved rules
      → kept replace_counter R saved ≡ kept replace_counter R rules
  kept-Shown done = refl
  kept-Shown (comment line s) = kept-Shown s
  kept-Shown (blank s) = kept-Shown s
  kept-Shown (blank_rule s) = kept-Shown s
  kept-Shown (rule p q e s) = let later = kept-Shown s in rw (p, q, e, later)

  -- Rules that are shown are the same when they are cleaned.
  pub clean-Shown :
      (saved rules : Text)
      → Shown replace_counter (lines saved) (lines rules)
      → clean_iptables replace_counter saved ≡ clean_iptables replace_counter rules
  unfolding clean_iptables
  clean-Shown saved rules s = ap (λ ls. join (newline ∷ []) ls ++ (newline ∷ [])) (kept-Shown s)

  -- Lines show what is kept of them.
  replaced-Shown :
      (l t : Text) (ls ks : List Text)
      → is_rule l ≡ true
      → is_filled l ≡ true
      → replace_counter l ≡ t
      → is_rule t ≡ true
      → is_filled t ≡ true
      → replace_counter t ≡ t
      → Shown replace_counter ls ks
      → Shown replace_counter (l ∷ ls) (t ∷ ks)
  replaced-Shown [] t ls ks a b e a' b' same s = cc
  replaced-Shown (c ∷ l) [] ls ks a b e a' b' same s = cc
  replaced-Shown (c ∷ l) (d ∷ t) ls ks a b e a' b' same s =
      rule (ground (arith, a)) (ground (arith, a')) (e ∙ sym same) s

  skipped-Shown :
      (l : Text) (ls ks : List Text)
      → (is_rule l && is_filled l) ≡ false
      → Shown replace_counter ls ks
      → Shown replace_counter (l ∷ ls) ks
  skipped-Shown [] ls ks h s = blank s
  skipped-Shown (c ∷ l) ls ks h s =
      let hash : c ≡ b'#' = ground (arith, h) in
      subst (λ c'. Shown replace_counter ((c' ∷ l) ∷ ls) ks) (sym hash) (comment l s)

  Shown-kept : (ls : List Text) → Shown replace_counter ls (kept replace_counter R ls)
  Shown-kept [] = done
  Shown-kept (l ∷ ls) =
      let later = Shown-kept ls in
      elim (Bool-cases (is_rule l)) [
        | inl p ↦ elim (Bool-cases (is_filled l)) [
          | inl q ↦ rw p (
              rw q (
                replaced-Shown l (replace_counter l) ls (kept replace_counter R ls) p q refl
                  (R.rule l p) (R.filled l q) (R.once l) later))
          | inr q ↦ rw p (rw q (skipped-Shown l ls (kept replace_counter R ls) (rw (p, q)) later))
        ]
        | inr p ↦ rw p (skipped-Shown l ls (kept replace_counter R ls) (rw p) later)
      ]

  all_lack-unlines : (c : ℕ) (ls : List Text) → lacks c (unlines ls) ≡ true → all_lack c ls ≡ true
  all_lack-unlines c [] h = refl
  all_lack-unlines c (l ∷ ls) h =
      let parts = lacks-append c l (newline ∷ unlines ls) in
      ground (arith, parts, h, all_lack-unlines c ls)

  kept_lines :
      (ks : List Text)
      → all_lack newline ks ≡ true
      → (ls : List Text) → Shown replace_counter ls ks
      → lacks carriage_return (join (newline ∷ []) ks ++ (newline ∷ [])) ≡ true
      → Shown replace_counter ls (lines (join (newline ∷ []) ks ++ (newline ∷ [])))
  unfolding lines join
  kept_lines [] n ls s h = blank_rule s
  kept_lines (k ∷ ks) n ls s h =
      let whole = unlines-eq-join k ks in
      let back =
        lines-unlines (k ∷ ks) n (all_lack-unlines carriage_return (k ∷ ks) (rw whole at h)) in
      subst (Shown replace_counter ls) (sym (ap lines whole ∙ back)) s

  -- Saved rules that are, when they are cleaned, a text without a carriage return show that text.
  pub Shown-clean :
      (saved t : Text)
      → t ≡ clean_iptables replace_counter saved
      → lacks carriage_return t ≡ true
      → Shown replace_counter (lines saved) (lines t)
  unfolding clean_iptables
  Shown-clean saved t e h = rw e (
      kept_lines (kept replace_counter R (lines saved)) (newline-kept replace_counter R saved)
        (lines saved) (Shown-kept (lines saved)) (rw e at h))

  -- If the replacement of counters is idempotent and makes no line end, comment or empty line, then
  -- a rule file that holds no carriage return is cleaned to lines, each with its end, that are the
  -- lines of the file in their order, but for comments, blank lines and packet counters. Each of them
  -- is no comment, is not empty, holds no line end and has its counter replaced. And cleaning the
  -- result once more changes nothing.
  pub clean_iptables-IsTidy :
      (input : Text)
      → lacks carriage_return input ≡ true
      → (ls : List Text) × Shown replace_counter (lines input) ls
        × All (IsTidy replace_counter R) ls
        × (clean_iptables replace_counter input ≡ join (newline ∷ []) ls ++ (newline ∷ []))
        × (clean_iptables replace_counter (clean_iptables replace_counter input)
            ≡ clean_iptables replace_counter input)
  unfolding clean_iptables
  clean_iptables-IsTidy input h = (
    kept replace_counter R (lines input),
    Shown-kept (lines input),
    kept-IsTidy replace_counter R (lines input) (newline-lines input) (return-lines input h),
    refl,
    clean_iptables_twice replace_counter R input h,
  )
