-- ===== src/Gateway/Iptables/Shown.antt =====
-- When the lines that `iptables-save` prints show the rules of a text.
use fractalnetworks_gateway.Base.{ℕ, ◌==◌, ◌≡◌, false, List, [], ◌∷◌}
use fractalnetworks_gateway.Base.Text.{Text}

-- The lines on the left are those on the right, in their order, but for comments, which the left alone may
-- have, for blank lines, and for the packet counters that `replace_counter` takes out of a line.
pub data Shown (replace_counter : Text → Text) : List Text → List Text → Type 0 where
  done : Shown replace_counter [] []
  comment :
      (line : Text) {saved rules : List Text}
      → Shown replace_counter saved rules
      → Shown replace_counter ((b'#' ∷ line) ∷ saved) rules
  blank :
      {saved rules : List Text}
      → Shown replace_counter saved rules
      → Shown replace_counter ([] ∷ saved) rules
  blank_rule :
      {saved rules : List Text}
      → Shown replace_counter saved rules
      → Shown replace_counter saved ([] ∷ rules)
  rule :
      {c d : ℕ} {line line' : Text} {saved rules : List Text}
      → (c == b'#') ≡ false
      → (d == b'#') ≡ false
      → replace_counter (c ∷ line) ≡ replace_counter (d ∷ line')
      → Shown replace_counter saved rules
      → Shown replace_counter ((c ∷ line) ∷ saved) ((d ∷ line') ∷ rules)
