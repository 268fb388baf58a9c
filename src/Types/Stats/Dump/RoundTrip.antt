-- ===== src/Types/Stats/Dump/RoundTrip.antt =====
-- `FromStr` of the statistics reads back what the dump prints.
use fractalnetworks_gateway.Base.{
  ℕ, ◌^◌, ◌<◌, ◌≡◌, refl, ap, true, Option, none, some, List, [], ◌∷◌, map, All, arith,
}
use fractalnetworks_gateway.Base.Text.{text, tab, newline, show, eq_iff}
use fractalnetworks_gateway.Base.Split.{
  carriage_return, join, lacks, all_lack, split-join, lacks-join, all_lack-map, lines-unlines,
}
use fractalnetworks_gateway.Base.Number.{parse_uint, parse_uint-show}
use fractalnetworks_gateway.Base.Result.{ok, err, bind_result, context_of}
use fractalnetworks_gateway.Base.Word.{usize_size, u16_size}
use fractalnetworks_gateway.Crates.{Crates, SocketAddr, IsPrinted}
use fractalnetworks_gateway.Types.Stats.{NetworkStats}
use fractalnetworks_gateway.Types.Stats.Parse.{
  optional, collect, endpoint_of, allowed_ips_of, peer_of_components, peer_from_str,
}
use fractalnetworks_gateway.Types.Stats.Parse.{network_from_str, keepalive_of, fwmark_of}
use fractalnetworks_gateway.Types.Stats.Dump.{
  DumpedPeer, DumpedNetwork, InRange, NetworkInRange, show_mark, read_back, print_list,
  print_optional, peer_pieces, network_pieces, peer_line, network_line, parsed_peer, dump,
}
use fractalnetworks_gateway.Types.Stats.Dump.Fields.{
  not_in_parentheses, not_off, not_off_mark, optional-print, collect-map, handshake_of-show, IsFree,
  IsFree-tab, IsFree-newline, IsFree-carriage_return, all_lack-peer_pieces, all_lack-network_pieces,
}

keepalive_of-print :
    (secs : ℕ) (o : Option ℕ)
    → secs < 2 ^ 63
    → keepalive_of (show secs) (print_optional (text "off") show o)
      ≡ ok (elim o [ none ↦ none | some _ ↦ some secs ])
unfolding keepalive_of
keepalive_of-print secs none h = rw ((eq_iff (text "off") (text "off")).1 refl)
keepalive_of-print secs (some n) h = rw (not_off n, parse_uint-show usize_size secs (omega arith))

parse_uint-mark :
    (n : ℕ) → parse_uint u16_size (show_mark n) ≡ err (text "invalid digit found in string" ∷ [])
unfolding parse_uint show_mark
parse_uint-mark n = refl

-- A mark is not read back: the `x` is no digit.
fwmark_of-print :
    (o : Option ℕ)
    → fwmark_of (print_optional (text "off") show_mark o)
      ≡ elim o [ none ↦ ok none | some _ ↦ err (text "invalid digit found in string" ∷ []) ]
unfolding fwmark_of optional
fwmark_of-print none = rw ((eq_iff (text "off") (text "off")).1 refl)
fwmark_of-print (some n) = rw (not_off_mark n, parse_uint-mark n)

module _ {X : Crates} (P : IsPrinted X) where
  endpoint_of-print :
      (o : Option SocketAddr)
      → endpoint_of X (print_optional (text "(none)") X.show_socket o) ≡ ok o
  unfolding endpoint_of
  endpoint_of-print o =
      optional-print X.show_socket (λ s. context_of (text "Parsing endpoint") (X.parse_socket s))
        (λ a. ap (context_of (text "Parsing endpoint")) (P.parse-socket a)) (text "(none)") o
        (λ a. not_in_parentheses (X.show_socket a) (ground (arith, P.plain_socket a)))

  allowed_ips_of-print : (l : List X.IpNet) → allowed_ips_of X (print_list X.show_net l) ≡ ok l
  unfolding allowed_ips_of
  allowed_ips_of-print [] = rw ((eq_iff (text "(none)") (text "(none)")).1 refl)
  allowed_ips_of-print (a ∷ l) =
      let shown = map X.show_net (a ∷ l) in
      let open_free = all_lack-map b'(' X.show_net (a ∷ l) (λ n. ground (arith, P.plain_net n)) in
      let comma_free = all_lack-map b',' X.show_net (a ∷ l) (λ n. ground (arith, P.plain_net n)) in
      rw (
        not_in_parentheses (join (b',' ∷ []) shown)
            (lacks-join b'(' (b',' ∷ []) shown refl open_free),
        split-join b',' (X.show_net a) (map X.show_net l) comma_free,
        collect-map X.show_net X.parse_net P.parse-net (a ∷ l),
      )

  module _ (w : DumpedPeer X) (r : InRange w) where
    -- A line of the dump is read back whole, but for the keepalive interval.
    pub peer_from_str-peer_line : peer_from_str X (peer_line w) ≡ ok (parsed_peer w)
    unfolding peer_from_str peer_of_components peer_line
    peer_from_str-peer_line = rw (
      split-join tab (X.show_pubkey w.public_key) _ (all_lack-peer_pieces P tab IsFree-tab w),
      P.parse-pubkey w.public_key,
      optional-print X.show_secret X.parse_secret P.parse-secret (text "(none)") w.preshared_key
          (λ k. not_in_parentheses (X.show_secret k) (ground (arith, P.plain_secret k))),
      endpoint_of-print w.endpoint,
      allowed_ips_of-print w.allowed_ips,
      handshake_of-show w.latest_handshake r.0,
      parse_uint-show usize_size w.transfer_rx r.1,
      parse_uint-show usize_size w.transfer_tx r.2,
      keepalive_of-print w.latest_handshake w.persistent_keepalive r.0,
    )

  collect_peers :
      (ws : List (DumpedPeer X))
      → All InRange ws
      → collect (peer_from_str X) (map peer_line ws) ≡ ok (map parsed_peer ws)
  unfolding collect
  collect_peers [] r = refl
  collect_peers (w ∷ ws) (r, rs) = rw (peer_from_str-peer_line w r, collect_peers ws rs)

  -- A character that is free, and that is no tabulator, is in no line.
  lines_lack :
      (c : ℕ) (n : DumpedNetwork X)
      → IsFree c
      → lacks c (tab ∷ []) ≡ true
      → all_lack c (network_line n ∷ map peer_line n.peers) ≡ true
  unfolding network_line peer_line
  lines_lack c n free t = rw (
    lacks-join c (tab ∷ []) (network_pieces n) t (all_lack-network_pieces P c free n),
    all_lack-map c peer_line n.peers
        (λ w. lacks-join c (tab ∷ []) (peer_pieces w) t (all_lack-peer_pieces P c free w)),
  )

  -- With the rest parsed, the mark decides.
  mark_read :
      (o : Option ℕ) (stats : Option ℕ → NetworkStats X)
      → bind_result
          (fwmark_of (print_optional (text "off") show_mark o))
          (λ fwmark. ok (stats fwmark))
        ≡ elim o [
          | none ↦ ok (stats none)
          | some _ ↦ err (text "invalid digit found in string" ∷ [])
        ]
  mark_read none stats = rw (fwmark_of-print none)
  mark_read (some m) stats = rw (fwmark_of-print (some m))

  -- If keys, sockets and networks parse back from what is printed of them, without a separator in
  -- it, and the numbers fit into their types, then the dump of a network with any number of peers
  -- is read back whole, but for the keepalive intervals, if the network has no firewall mark. With
  -- a mark, which is printed in base 16 behind `0x`, the whole dump is an error.
  pub network_from_str-dump :
      (n : DumpedNetwork X) → NetworkInRange n → network_from_str X (dump n) ≡ read_back n
  unfolding network_from_str network_line
  network_from_str-dump n (port, rs) =
      rw
        (
          lines-unlines (network_line n ∷ map peer_line n.peers)
              (lines_lack newline n IsFree-newline refl)
              (lines_lack carriage_return n IsFree-carriage_return refl),
          split-join tab (X.show_privkey n.private_key) _
              (all_lack-network_pieces P tab IsFree-tab n),
          P.parse-privkey n.private_key,
          P.parse-pubkey n.public_key,
          parse_uint-show u16_size n.listen_port port,
          collect_peers n.peers rs,
        )
        (mark_read n.fwmark (λ fwmark. record {
          private_key = n.private_key;
          public_key = n.public_key;
          listen_port = n.listen_port;
          fwmark = fwmark;
          peers = map parsed_peer n.peers;
        }))
