-- ===== src/Types/Stats/Dump/Fields.antt =====
-- The fields of a line of the dump: parsed back one by one, and free of what cuts lines and fields.
use fractalnetworks_gateway.Base.{
  ℕ, zero, suc, ◌+◌, ◌/◌, ◌%◌, ltb, if◌then◌else◌, ◌^◌, ◌<◌, ◌≡◌, refl, true, false, Option, none,
  some, List, [], ◌∷◌, map, arith, inl, inr, Bool-cases,
}
use fractalnetworks_gateway.Base.Text.{Text, text, tab, newline, show, eq, eq_iff}
use fractalnetworks_gateway.Base.Split.{
  carriage_return, lacks, lacks-append, all_lack, lacks-join, all_lack-map,
}
use fractalnetworks_gateway.Base.Number.{is_digit, parse_uint-show, lacks-show}
use fractalnetworks_gateway.Base.Result.{Result, ok}
use fractalnetworks_gateway.Base.Time.{checked_add_secs}
use fractalnetworks_gateway.Crates.{Crates, IsPrinted, is_plain}
use fractalnetworks_gateway.Types.Stats.Parse.{optional, collect, handshake_of}
use fractalnetworks_gateway.Types.Stats.Dump.{
  DumpedPeer, DumpedNetwork, print_optional, print_list, peer_pieces, network_pieces, time_of,
  hex_digits, show_mark,
}

pub not_in_parentheses : (s : Text) → lacks b'(' s ≡ true → eq s (text "(none)") ≡ false
unfolding eq
not_in_parentheses [] h = refl
not_in_parentheses (c ∷ s) h = ground arith

pub not_off : (n : ℕ) → eq (show n) (text "off") ≡ false
not_off n = elim (Bool-cases (eq (show n) (text "off"))) [
  | inl p ↦
      let e = (eq_iff (show n) (text "off")).0 p in
      let l = lacks-show b'o' n refl in absurd (cc (e, l))
  | inr p ↦ p
]

module _ {A : Type 0} (display : A → Text) (parse : Text → Result A)
    (back : (a : A) → parse (display a) ≡ ok a) where
  pub optional-print :
      (absent : Text) (o : Option A)
      → ((a : A) → eq (display a) absent ≡ false)
      → optional absent parse (print_optional absent display o) ≡ ok o
  unfolding optional
  optional-print absent none apart = rw ((eq_iff absent absent).1 refl)
  optional-print absent (some a) apart = rw (apart a, back a)

  pub collect-map : (l : List A) → collect parse (map display l) ≡ ok l
  unfolding collect
  collect-map [] = refl
  collect-map (a ∷ l) = rw (back a, collect-map l)

pub handshake_of-show : (secs : ℕ) → secs < 2 ^ 63 → handshake_of (show secs) ≡ ok (time_of secs)
unfolding handshake_of checked_add_secs
handshake_of-show secs h = rw (parse_uint-show (2 ^ 64) secs (omega arith)) (ground arith)

lacks-print_optional :
    (c : ℕ) {A : Type 0} (absent : Text) (display : A → Text) (o : Option A)
    → lacks c absent ≡ true
    → ((a : A) → lacks c (display a) ≡ true)
    → lacks c (print_optional absent display o) ≡ true
lacks-print_optional c absent display none h k = h
lacks-print_optional c absent display (some a) h k = k a

-- A character that neither digits, nor the absent marks, nor plain texts hold.
pub record IsFree (c : ℕ) : Type 0 where
  pub low : c < 48
  pub no_digit : is_digit c ≡ false
  pub no_mark : lacks c (text "(none)off,") ≡ true
  pub no_plain : (s : Text) → is_plain s ≡ true → lacks c s ≡ true

pub IsFree-tab : IsFree tab
IsFree-tab = record {
  low = omega arith;
  no_digit = refl;
  no_mark = refl;
  no_plain = λ s h. ground arith;
}

pub IsFree-newline : IsFree newline
IsFree-newline = record {
  low = omega arith;
  no_digit = refl;
  no_mark = refl;
  no_plain = λ s h. ground arith;
}

pub IsFree-carriage_return : IsFree carriage_return
IsFree-carriage_return = record {
  low = omega arith;
  no_digit = refl;
  no_mark = refl;
  no_plain = λ s h. ground arith;
}

lacks-hex_digits : (c fuel n : ℕ) → c < 48 → lacks c (hex_digits fuel n) ≡ true
unfolding hex_digits
lacks-hex_digits c zero n h = refl
lacks-hex_digits c (suc fuel) n h = ground (
  arith,
  lacks-hex_digits c fuel (n / 16) h,
  lacks-append c (hex_digits fuel (n / 16))
      ((if ltb (n % 16) 10 then 48 + n % 16 else 87 + n % 16) ∷ []),
)

lacks-show_mark : (c n : ℕ) → c < 48 → lacks c (show_mark n) ≡ true
unfolding show_mark
lacks-show_mark c n h = ground (arith, lacks-hex_digits c (suc n) n h)

pub not_off_mark : (n : ℕ) → eq (show_mark n) (text "off") ≡ false
unfolding show_mark eq
not_off_mark n = refl

module _ {X : Crates} (P : IsPrinted X) (c : ℕ) (free : IsFree c) where
  lacks-print_list : (l : List X.IpNet) → lacks c (print_list X.show_net l) ≡ true
  lacks-print_list [] = ground (arith, free.no_mark)
  lacks-print_list (a ∷ l) =
      lacks-join c (b',' ∷ []) (map X.show_net (a ∷ l)) (ground (arith, free.no_mark))
        (all_lack-map c X.show_net (a ∷ l) (λ n. free.no_plain _ (P.plain_net n)))

  lacks-print_off : (o : Option ℕ) → lacks c (print_optional (text "off") show o) ≡ true
  lacks-print_off o =
      lacks-print_optional c (text "off") show o (ground (arith, free.no_mark))
        (λ n. lacks-show c n free.no_digit)

  lacks-print_mark : (o : Option ℕ) → lacks c (print_optional (text "off") show_mark o) ≡ true
  lacks-print_mark o =
      lacks-print_optional c (text "off") show_mark o (ground (arith, free.no_mark))
        (λ n. lacks-show_mark c n free.low)

  pub all_lack-peer_pieces : (w : DumpedPeer X) → all_lack c (peer_pieces w) ≡ true
  all_lack-peer_pieces w = rw (
    free.no_plain _ (P.plain_pubkey w.public_key),
    lacks-print_optional c (text "(none)") X.show_secret w.preshared_key
        (ground (arith, free.no_mark)) (λ k. free.no_plain _ (P.plain_secret k)),
    lacks-print_optional c (text "(none)") X.show_socket w.endpoint (ground (arith, free.no_mark))
        (λ a. free.no_plain _ (P.plain_socket a)),
    lacks-print_list w.allowed_ips,
    lacks-show c w.latest_handshake free.no_digit,
    lacks-show c w.transfer_rx free.no_digit,
    lacks-show c w.transfer_tx free.no_digit,
    lacks-print_off w.persistent_keepalive,
  )

  pub all_lack-network_pieces : (n : DumpedNetwork X) → all_lack c (network_pieces n) ≡ true
  all_lack-network_pieces n = rw (
    free.no_plain _ (P.plain_privkey n.private_key),
    free.no_plain _ (P.plain_pubkey n.public_key),
    lacks-show c n.listen_port free.no_digit,
    lacks-print_mark n.fwmark,
  )
