-- ===== src/Types/Wireguard/Sections.antt =====
-- What `wg syncconf` finds in the text of `to_config`: the section of the interface, and one for each peer
-- with exactly its settings.
use fractalnetworks_gateway.Base.{
  ◌≡◌, refl, ap, Option, none, some, List, [], ◌∷◌, ◌++◌, append_assoc, map, if◌then◌else◌,
}
use fractalnetworks_gateway.Base.Text.{Text, text, show, eq}
use fractalnetworks_gateway.Base.Split.{join, unlines, unlines-append}
use fractalnetworks_gateway.Base.Map.{Map}
use fractalnetworks_gateway.Crates.{Crates, SocketAddr}
use fractalnetworks_gateway.Client.Config.{NetworkState, PeerState}
use fractalnetworks_gateway.Types.Wireguard.{
  optional_line, peer_to_config, peers_to_config, to_config,
}

abbrev peer_header : Text
peer_header = text "[Peer]"

-- The line goes to the section that stands first.
abbrev add_line : Text → List (List Text) → List (List Text)
add_line l [] = (l ∷ []) ∷ []
add_line l (section ∷ later) = (l ∷ section) ∷ later

-- The sections of a configuration, each with its lines in order: empty lines are skipped, and a peer's
-- header begins a new section.
unfoldable pub sections : List Text → List (List Text)
sections [] = [] ∷ []
sections (l ∷ ls) =
    let rest = sections ls in
    if eq l [] then rest else if eq l (text "[Peer]") then [] ∷ rest else add_line l rest

abbrev pub optional_setting : {A : Type 0} → Text → (A → Text) → Option A → List Text
optional_setting label display none = []
optional_setting label display (some a) = (label ++ display a) ∷ []

unlines-optional_setting :
    {A : Type 0} (label : Text) (display : A → Text) (o : Option A)
    → unlines (optional_setting label display o) ≡ optional_line label display o
unlines-optional_setting label display none = refl
unlines-optional_setting label display (some a) = refl

module _ {X : Crates} where
  abbrev pub allowed_ips_setting : PeerState X → Text
  allowed_ips_setting p =
      text "AllowedIPs = " ++ join (text ", ") (map (λ a. X.show_net (X.trunc a)) p.allowed_ips)

  -- The settings of a peer.
  abbrev pub peer_settings : X.Pubkey × PeerState X → List Text
  peer_settings (k, p) =
      (text "PublicKey = " ++ X.show_pubkey k)
      ∷ allowed_ips_setting p
      ∷ (optional_setting (text "PresharedKey = ") X.show_secret p.preshared_key
          ++ (optional_setting (text "Endpoint = ") X.show_socket p.endpoint
              ++ (text "PersistentKeepalive = 25" ∷ [])))

  -- The settings of the interface.
  abbrev pub interface_settings : NetworkState X → List Text
  interface_settings n =
      text "[Interface]"
      ∷ (text "ListenPort = " ++ show n.listen_port)
      ∷ (text "PrivateKey = " ++ X.show_privkey n.private_key)
      ∷ []

  -- The lines that are written.
  unfoldable pub peer_lines : Map X.Pubkey (PeerState X) → List Text
  peer_lines [] = []
  peer_lines (p ∷ peers) = [] ∷ text "[Peer]" ∷ (peer_settings p ++ ([] ∷ peer_lines peers))

  peers_to_config-eq-unlines :
      (peers : Map X.Pubkey (PeerState X)) → peers_to_config peers ≡ unlines (peer_lines peers)
  unfolding peers_to_config peer_to_config peer_lines
  peers_to_config-eq-unlines [] = refl
  peers_to_config-eq-unlines ((k, p) ∷ peers) =
      simp
        (append_assoc, unlines-append, unlines-optional_setting, peers_to_config-eq-unlines peers)

  pub to_config-eq-unlines :
      (n : NetworkState X) → to_config n ≡ unlines (interface_settings n ++ peer_lines n.peers)
  unfolding to_config
  to_config-eq-unlines n = simp (append_assoc, peers_to_config-eq-unlines n.peers)

  -- The lines of one peer are one section, in front of what follows.
  sections-settings :
      (k : X.Pubkey) (p : PeerState X) (secret : Option X.Secret) (endpoint : Option SocketAddr)
      (rest : List Text) (later : List (List Text))
      → sections rest ≡ [] ∷ later
      → sections (
          (text "PublicKey = " ++ X.show_pubkey k)
            ∷ allowed_ips_setting p
            ∷ (optional_setting (text "PresharedKey = ") X.show_secret secret
                ++ (optional_setting (text "Endpoint = ") X.show_socket endpoint
                    ++ (text "PersistentKeepalive = 25" ∷ [])))
          ++ rest)
        ≡ ((text "PublicKey = " ++ X.show_pubkey k)
            ∷ allowed_ips_setting p
            ∷ (optional_setting (text "PresharedKey = ") X.show_secret secret
                ++ (optional_setting (text "Endpoint = ") X.show_socket endpoint
                    ++ (text "PersistentKeepalive = 25" ∷ []))))
          ∷ later
  unfolding sections eq
  sections-settings k p none none rest later h = rw h
  sections-settings k p none (some e) rest later h = rw h
  sections-settings k p (some s) none rest later h = rw h
  sections-settings k p (some s) (some e) rest later h = rw h

  pub sections-peer_lines :
      (peers : Map X.Pubkey (PeerState X))
      → sections (peer_lines peers) ≡ [] ∷ map peer_settings peers
  unfolding sections peer_lines eq
  sections-peer_lines [] = refl
  sections-peer_lines ((k, p) ∷ peers) =
      ap (λ s. [] ∷ s)
        (sections-settings k p p.preshared_key p.endpoint ([] ∷ peer_lines peers)
          (map peer_settings peers) (sections-peer_lines peers))
