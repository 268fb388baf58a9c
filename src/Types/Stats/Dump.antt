-- ===== src/Types/Stats/Dump.antt =====
-- What `wg show … dump` prints, with what the parsers make of it: the description that the parsers of
-- src/types.rs are compared with.
pub mod Fields
pub mod RoundTrip
use mathlib.Core.List.{append-nil}
use fractalnetworks_gateway.Base.{
  ℕ, zero, suc, ◌/◌, ◌%◌, ◌+◌, ◌*◌, ◌^◌, ◌<◌, ◌≡◌, refl, ap, ◌∙◌, Bool, true, false, ◌&&◌, ◌==◌,
  Option, none, some, List, [], ◌∷◌, ◌++◌, map, length, All, if◌then◌else◌, arith, ltb, dec_lt, inl,
  inr, Bool-cases,
}
use fractalnetworks_gateway.Base.Text.{Text, text, tab, newline, show, eq, eq_iff}
use fractalnetworks_gateway.Base.Split.{
  carriage_return, join, split, lacks, lacks-append, all_lack, split-join, unlines, lines-unlines,
}
use fractalnetworks_gateway.Base.Number.{is_digit, parse_uint-show, lacks-show, parse_uint}
use fractalnetworks_gateway.Base.Result.{Result, ok, err, bind_result, context_of}
use fractalnetworks_gateway.Base.Word.{usize_size, u16_size}
use fractalnetworks_gateway.Base.Time.{unix_epoch, nanos, SystemTime, checked_add_secs}
use fractalnetworks_gateway.Crates.{Crates, SocketAddr, IsPrinted, is_plain}
use fractalnetworks_gateway.Types.Stats.{PeerStats, NetworkStats}
use fractalnetworks_gateway.Types.Stats.Parse.{
  component, optional, collect, handshake_of, endpoint_of, allowed_ips_of, peer_of_components,
  peer_from_str,
}

-- What a line of the dump tells of a peer. The time of the latest handshake is in seconds, 0 for never.
pub record DumpedPeer (X : Crates) : Type 0 where
  pub public_key : X.Pubkey
  pub preshared_key : Option X.Secret
  pub endpoint : Option SocketAddr
  pub allowed_ips : List X.IpNet
  pub latest_handshake : ℕ
  pub transfer_rx : ℕ
  pub transfer_tx : ℕ
  pub persistent_keepalive : Option ℕ

abbrev pub print_optional : {A : Type 0} → Text → (A → Text) → Option A → Text
print_optional absent display none = absent
print_optional absent display (some a) = display a

-- The digits of a number in base 16, from `a` on in lower case.
pub hex_digits : ℕ → ℕ → Text
hex_digits zero n = []
hex_digits (suc fuel) n =
    let last = (if ltb (n % 16) 10 then 48 + n % 16 else 87 + n % 16) ∷ [] in
    let front = hex_digits fuel (n / 16) in if ltb n 16 then last else front ++ last

-- A mark is printed with `0x%x`.
unfoldable pub show_mark : ℕ → Text
unfolding hex_digits
show_mark n = b'0' ∷ b'x' ∷ hex_digits (suc n) n

abbrev pub print_list : {A : Type 0} → (A → Text) → List A → Text
print_list display [] = text "(none)"
print_list display (a ∷ later) = join (b',' ∷ []) (map display (a ∷ later))

abbrev pub time_of : ℕ → Option SystemTime
time_of secs = if secs == 0 then none else some (unix_epoch + secs * nanos)

module _ {X : Crates} where
  abbrev pub peer_pieces : DumpedPeer X → List Text
  peer_pieces w =
      X.show_pubkey w.public_key
      ∷ print_optional (text "(none)") X.show_secret w.preshared_key
      ∷ print_optional (text "(none)") X.show_socket w.endpoint
      ∷ print_list X.show_net w.allowed_ips
      ∷ show w.latest_handshake
      ∷ show w.transfer_rx
      ∷ show w.transfer_tx
      ∷ print_optional (text "off") show w.persistent_keepalive
      ∷ []

  unfoldable pub peer_line : DumpedPeer X → Text
  peer_line w = join (tab ∷ []) (peer_pieces w)

  -- What the parser makes of it: everything, but for the keepalive interval, which it takes to be the
  -- time of the handshake.
  abbrev pub parsed_peer : DumpedPeer X → PeerStats X
  parsed_peer w = record {
    public_key = w.public_key;
    preshared_key = w.preshared_key;
    endpoint = w.endpoint;
    allowed_ips = w.allowed_ips;
    latest_handshake = time_of w.latest_handshake;
    transfer_rx = w.transfer_rx;
    transfer_tx = w.transfer_tx;
    persistent_keepalive = elim w.persistent_keepalive [
      | none ↦ none
      | some _ ↦ some w.latest_handshake
    ];
  }

  -- The numbers fit into the types of the source, and the handshake into a `SystemTime`.
  abbrev pub InRange : DumpedPeer X → Type 0
  InRange w =
      (w.latest_handshake < 2 ^ 63) × (w.transfer_rx < usize_size) × (w.transfer_tx < usize_size)

-- What the dump tells of a network.
pub record DumpedNetwork (X : Crates) : Type 0 where
  pub private_key : X.Privkey
  pub public_key : X.Pubkey
  pub listen_port : ℕ
  pub fwmark : Option ℕ
  pub peers : List (DumpedPeer X)

module _ {X : Crates} where
  abbrev pub network_pieces : DumpedNetwork X → List Text
  network_pieces n =
      X.show_privkey n.private_key
      ∷ X.show_pubkey n.public_key
      ∷ show n.listen_port
      ∷ print_optional (text "off") show_mark n.fwmark
      ∷ []

  unfoldable pub network_line : DumpedNetwork X → Text
  network_line n = join (tab ∷ []) (network_pieces n)

  -- The line of the network, and one for each peer.
  abbrev pub dump : DumpedNetwork X → Text
  dump n = unlines (network_line n ∷ map peer_line n.peers)

  abbrev pub parsed_network : DumpedNetwork X → NetworkStats X
  parsed_network n = record {
    private_key = n.private_key;
    public_key = n.public_key;
    listen_port = n.listen_port;
    fwmark = none;
    peers = map parsed_peer n.peers;
  }

  -- What the parser makes of a dump: the network, or an error if it has a mark.
  abbrev pub read_back : DumpedNetwork X → Result (NetworkStats X)
  read_back n = elim n.fwmark [
    | none ↦ ok (parsed_network n)
    | some _ ↦ err (text "invalid digit found in string" ∷ [])
  ]

  abbrev pub NetworkInRange : DumpedNetwork X → Type 0
  NetworkInRange n = (n.listen_port < u16_size) × All InRange n.peers
