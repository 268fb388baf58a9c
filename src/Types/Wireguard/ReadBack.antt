-- ===== src/Types/Wireguard/ReadBack.antt =====
-- The text of `to_config` is read back line by line.
use fractalnetworks_gateway.Base.{
  ℕ, ◌≡◌, refl, ap, ◌∙◌, Bool, true, ◌&&◌, Option, none, some, List, [], ◌∷◌, ◌++◌, map, arith,
}
use fractalnetworks_gateway.Base.Text.{Text, text, show, newline, eq}
use fractalnetworks_gateway.Base.Split.{
  carriage_return, join, lines, lacks, lacks-append, lacks-join, all_lack, all_lack-map,
  lines-unlines,
}
use fractalnetworks_gateway.Base.Number.{lacks-show}
use fractalnetworks_gateway.Base.Map.{Map}
use fractalnetworks_gateway.Crates.{Crates, IsPrinted, is_plain}
use fractalnetworks_gateway.Client.Config.{NetworkState, PeerState}
use fractalnetworks_gateway.Types.Wireguard.{to_config}
use fractalnetworks_gateway.Types.Wireguard.Sections.{
  sections, allowed_ips_setting, optional_setting, peer_settings, interface_settings, peer_lines,
  to_config-eq-unlines, sections-peer_lines,
}

-- No line ends inside the text.
abbrev is_line : Text → Bool
is_line s = lacks newline s && lacks carriage_return s

abbrev are_lines : List Text → Bool
are_lines [] = true
are_lines (s ∷ ls) = is_line s && are_lines ls

is_line-append : (s t : Text) → is_line s ≡ true → is_line t ≡ true → is_line (s ++ t) ≡ true
is_line-append s t h k = ground (arith, lacks-append newline s t, lacks-append carriage_return s t)

are_lines-append :
    (ls ms : List Text) → are_lines ls ≡ true → are_lines ms ≡ true → are_lines (ls ++ ms) ≡ true
are_lines-append [] ms h k = k
are_lines-append (l ∷ ls) ms h k = ground (arith, are_lines-append ls ms)

are_lines-all_lack :
    (ls : List Text)
    → are_lines ls ≡ true
    → (all_lack newline ls ≡ true) × (all_lack carriage_return ls ≡ true)
are_lines-all_lack [] h = (refl, refl)
are_lines-all_lack (l ∷ ls) h = ground (arith, are_lines-all_lack ls)

is_line-plain : (s : Text) → is_plain s ≡ true → is_line s ≡ true
is_line-plain s h = ground (arith, h)

is_line-show : (n : ℕ) → is_line (show n) ≡ true
is_line-show n = rw (lacks-show newline n refl, lacks-show carriage_return n refl)

are_lines-optional_setting :
    {A : Type 0} (label : Text) (display : A → Text) (o : Option A)
    → is_line label ≡ true
    → ((a : A) → is_line (display a) ≡ true)
    → are_lines (optional_setting label display o) ≡ true
are_lines-optional_setting label display none h k = refl
are_lines-optional_setting label display (some a) h k =
    rw (is_line-append label (display a) h (k a))

module _ {X : Crates} (P : IsPrinted X) where
  is_line-allowed_ips_setting : (p : PeerState X) → is_line (allowed_ips_setting p) ≡ true
  is_line-allowed_ips_setting p =
      let shown = map (λ (a : X.IpNet). X.show_net (X.trunc a)) p.allowed_ips in
      let lack = λ (c : ℕ) (h : (s : Text) → is_plain s ≡ true → lacks c s ≡ true).
        all_lack-map c (λ (a : X.IpNet). X.show_net (X.trunc a)) p.allowed_ips
          (λ a. h (X.show_net (X.trunc a)) (P.plain_net (X.trunc a))) in
      is_line-append (text "AllowedIPs = ") (join (text ", ") shown) refl (
        rw (
          lacks-join newline (text ", ") shown refl (lack newline (λ s h. ground (arith, h))),
          lacks-join carriage_return (text ", ") shown refl
              (lack carriage_return (λ s h. ground (arith, h))),
        ))

  are_lines-peer_settings :
      (k : X.Pubkey) (p : PeerState X) → are_lines (peer_settings (k, p)) ≡ true
  are_lines-peer_settings k p =
      let secret =
        are_lines-optional_setting (text "PresharedKey = ") X.show_secret p.preshared_key refl
          (λ s. is_line-plain (X.show_secret s) (P.plain_secret s)) in
      let endpoint =
        are_lines-optional_setting (text "Endpoint = ") X.show_socket p.endpoint refl
          (λ a. is_line-plain (X.show_socket a) (P.plain_socket a)) in
      let key =
        is_line-append (text "PublicKey = ") (X.show_pubkey k) refl
          (is_line-plain (X.show_pubkey k) (P.plain_pubkey k)) in
      rw (
        key,
        is_line-allowed_ips_setting p,
        are_lines-append (optional_setting (text "PresharedKey = ") X.show_secret p.preshared_key) _
            secret
            (are_lines-append (optional_setting (text "Endpoint = ") X.show_socket p.endpoint) _
              endpoint refl),
      )

  are_lines-peer_lines : (peers : Map X.Pubkey (PeerState X)) → are_lines (peer_lines peers) ≡ true
  unfolding peer_lines
  are_lines-peer_lines [] = refl
  are_lines-peer_lines ((k, p) ∷ peers) =
      are_lines-append (peer_settings (k, p)) ([] ∷ peer_lines peers) (are_lines-peer_settings k p)
        (are_lines-peer_lines peers)

  are_lines-interface_settings : (n : NetworkState X) → are_lines (interface_settings n) ≡ true
  are_lines-interface_settings n = rw (
    is_line-append (text "ListenPort = ") (show n.listen_port) refl (is_line-show n.listen_port),
    is_line-append (text "PrivateKey = ") (X.show_privkey n.private_key) refl
        (is_line-plain (X.show_privkey n.private_key) (P.plain_privkey n.private_key)),
  )

  -- If what is printed of keys, sockets and networks stays on its line, the text of a network has one section
  -- for the interface, with its port and its key, and then one section for each peer, in
  -- order, with the settings of that peer and no others.
  pub sections-to_config :
      (n : NetworkState X)
      → sections (lines (to_config n)) ≡ interface_settings n ∷ map peer_settings n.peers
  sections-to_config n =
      let written = interface_settings n ++ peer_lines n.peers in
      let (ns, rs) = are_lines-all_lack written (
        are_lines-append (interface_settings n) (peer_lines n.peers)
          (are_lines-interface_settings n) (are_lines-peer_lines n.peers)) in
      ap (λ s. sections (lines s)) (to_config-eq-unlines n)
      ∙ ap sections (lines-unlines written ns rs)
      ∙ unfold sections eq in rw (sections-peer_lines n.peers)
