-- ===== src/Types/Wireguard.antt =====
-- `to_config` of `NetworkState` and of `PeerState` in src/types.rs: the text that `wg syncconf` reads.
pub mod Sections
pub mod ReadBack
use fractalnetworks_gateway.Base.{Option, none, some, List, [], ◌∷◌, ◌++◌, map}
use fractalnetworks_gateway.Base.Text.{Text, text, show, newline}
use fractalnetworks_gateway.Base.Split.{join}
use fractalnetworks_gateway.Base.Map.{Map}
use fractalnetworks_gateway.Crates.{Crates}
use fractalnetworks_gateway.Client.Config.{NetworkState, PeerState}

-- `writeln!`
abbrev pub line : Text → Text
line s = s ++ (newline ∷ [])

-- The line that an optional setting writes.
abbrev pub optional_line : {A : Type 0} → Text → (A → Text) → Option A → Text
optional_line label display none = []
optional_line label display (some a) = line (label ++ display a)

module _ {X : Crates} where
  unfoldable pub peer_to_config : X.Pubkey → PeerState X → Text
  peer_to_config public_key self =
      line (text "[Peer]")
      ++ (line (text "PublicKey = " ++ X.show_pubkey public_key)
          ++ (line (
                text "AllowedIPs = "
                ++ join (text ", ") (map (λ a. X.show_net (X.trunc a)) self.allowed_ips))
              ++ (optional_line (text "PresharedKey = ") X.show_secret self.preshared_key
                  ++ (optional_line (text "Endpoint = ") X.show_socket self.endpoint
                      ++ line (text "PersistentKeepalive = 25")))))

  -- Each peer stands behind an empty line.
  unfoldable pub peers_to_config : Map X.Pubkey (PeerState X) → Text
  peers_to_config [] = []
  peers_to_config ((public_key, peer) ∷ peers) =
      line (newline ∷ peer_to_config public_key peer) ++ peers_to_config peers

  unfoldable pub to_config : NetworkState X → Text
  unfolding peer_to_config peers_to_config
  to_config self =
      line (text "[Interface]")
      ++ (line (text "ListenPort = " ++ show self.listen_port)
          ++ (line (text "PrivateKey = " ++ X.show_privkey self.private_key)
              ++ peers_to_config self.peers))
