-- ===== src/Types/Stats/Parse.antt =====
-- `FromStr` of `NetworkStats` and of `PeerStats` in src/types.rs, which read what `wg show … dump` prints.
use fractalnetworks_gateway.Base.{
  ℕ, ◌^◌, ◌==◌, ltb, Option, none, some, List, [], ◌∷◌, length, get_elem?, if◌then◌else◌,
}
use fractalnetworks_gateway.Base.Text.{Text, text, tab, eq}
use fractalnetworks_gateway.Base.Split.{split, lines}
use fractalnetworks_gateway.Base.Number.{parse_uint}
use fractalnetworks_gateway.Base.Result.{Result, ok, err, bind_result, context_of, ok_or}
use fractalnetworks_gateway.Base.Word.{usize_size, u16_size}
use fractalnetworks_gateway.Base.Time.{SystemTime, unix_epoch, checked_add_secs}
use fractalnetworks_gateway.Crates.{Crates, SocketAddr}
use fractalnetworks_gateway.Types.Stats.{PeerStats, NetworkStats}

-- `components[i]`, which is read only where the number of components is known.
abbrev pub component : ℕ → List Text → Text
component i components = elim (get_elem? components i) [ none ↦ [] | some s ↦ s ]

abbrev pub wrong_len : Text
wrong_len = text "Wrong network stats line len"

module _ {A : Type 0} where
  -- A field that is absent or parsed.
  unfoldable pub optional : Text → (Text → Result A) → Text → Result (Option A)
  optional absent parse s = if eq s absent then ok none else bind_result (parse s) λ a. ok (some a)

  -- `.map(parse).collect::<Result<Vec<_>, _>>()`
  unfoldable pub collect : (Text → Result A) → List Text → Result (List A)
  collect parse [] = ok []
  collect parse (s ∷ later) =
      bind_result (parse s) λ a. bind_result (collect parse later) λ rest. ok (a ∷ rest)

abbrev pub handshake_at : ℕ → Result (Option SystemTime)
handshake_at timestamp =
    bind_result
      (ok_or (checked_add_secs unix_epoch timestamp)
        (text "Error parsing latest handshake time" ∷ []))
      λ t. ok (some t)

-- Lines 301 to 312.
unfoldable pub handshake_of : Text → Result (Option SystemTime)
handshake_of s =
    bind_result (parse_uint (2 ^ 64) s)
      λ timestamp. if ltb 0 timestamp then handshake_at timestamp else ok none

-- Lines 239 to 243.
unfoldable pub fwmark_of : Text → Result (Option ℕ)
unfolding optional
fwmark_of = optional (text "off") (parse_uint u16_size)

-- Lines 315 to 319: the interval is parsed from the component of the handshake.
unfoldable pub keepalive_of : Text → Text → Result (Option ℕ)
keepalive_of handshake s =
    if eq s (text "off")
    then ok none
    else bind_result (parse_uint usize_size handshake) λ n. ok (some n)

module _ (X : Crates) where
  -- Lines 287 to 291.
  unfoldable pub endpoint_of : Text → Result (Option SocketAddr)
  unfolding optional
  endpoint_of =
      optional (text "(none)") λ s. context_of (text "Parsing endpoint") (X.parse_socket s)

  -- Lines 292 to 300.
  unfoldable pub allowed_ips_of : Text → Result (List X.IpNet)
  unfolding collect
  allowed_ips_of s =
      if eq s (text "(none)")
      then ok []
      else context_of (text "Parsing IpNet") (collect X.parse_net (split b',' s))

  -- The fields in the order in which they are written.
  unfoldable pub peer_of_components : List Text → Result (PeerStats X)
  unfolding optional endpoint_of allowed_ips_of handshake_of keepalive_of
  peer_of_components components =
      bind_result (X.parse_pubkey (component 0 components)) λ public_key.
        bind_result (optional (text "(none)") X.parse_secret (component 1 components))
          λ preshared_key. bind_result (endpoint_of (component 2 components)) λ endpoint.
            bind_result (allowed_ips_of (component 3 components)) λ allowed_ips.
              bind_result (handshake_of (component 4 components)) λ latest_handshake.
                bind_result (parse_uint usize_size (component 5 components)) λ transfer_rx.
                  bind_result (parse_uint usize_size (component 6 components)) λ transfer_tx.
                    bind_result (keepalive_of (component 4 components) (component 7 components))
                      λ persistent_keepalive. ok (record {
                        public_key = public_key;
                        preshared_key = preshared_key;
                        endpoint = endpoint;
                        allowed_ips = allowed_ips;
                        latest_handshake = latest_handshake;
                        transfer_rx = transfer_rx;
                        transfer_tx = transfer_tx;
                        persistent_keepalive = persistent_keepalive;
                      })

  -- `PeerStats::from_str`
  unfoldable pub peer_from_str : Text → Result (PeerStats X)
  unfolding peer_of_components
  peer_from_str output =
      let components = split tab output in
      if length components == 8 then peer_of_components components else err (wrong_len ∷ [])

  unfoldable pub network_of_components : List Text → List Text → Result (NetworkStats X)
  unfolding fwmark_of collect peer_from_str
  network_of_components components peer_lines =
      bind_result (X.parse_privkey (component 0 components)) λ private_key.
        bind_result (X.parse_pubkey (component 1 components)) λ public_key.
          bind_result (parse_uint u16_size (component 2 components)) λ listen_port.
            bind_result (fwmark_of (component 3 components)) λ fwmark.
              bind_result (collect peer_from_str peer_lines) λ peers. ok (record {
                private_key = private_key;
                public_key = public_key;
                listen_port = listen_port;
                fwmark = fwmark;
                peers = peers;
              })

  -- What follows `lines.next()`.
  unfoldable pub network_of_lines : List Text → Result (NetworkStats X)
  unfolding network_of_components
  network_of_lines [] = err (text "Missing network line" ∷ [])
  network_of_lines (network_stats ∷ peer_lines) =
      let components = split tab network_stats in
      if length components == 4
      then network_of_components components peer_lines
      else err (wrong_len ∷ [])

  -- `NetworkStats::from_str`
  unfoldable pub network_from_str : Text → Result (NetworkStats X)
  unfolding network_of_lines
  network_from_str output = network_of_lines (lines output)
