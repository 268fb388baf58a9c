-- ===== src/Watchdog/Peer.antt =====
-- `watchdog_peer` of src/watchdog.rs.
pub mod Events
pub mod Quiet
pub mod Announce
pub mod Tracking
pub mod Deltas
pub mod Returning
pub mod Storing
use fractalnetworks_gateway.Base.{
  ℕ, Bool, true, false, ◌&&◌, ◌||◌, not, Option, none, some, [], ◌∷◌, ltb, ◌==◌, if◌then◌else◌,
}
use fractalnetworks_gateway.Base.Text.{text}
use fractalnetworks_gateway.Base.Result.{
  Result, ok, err, Call, pure, lift, unwrap, ok_or, ◌>>=◌, ◌>>◌,
}
use fractalnetworks_gateway.Base.Map.{Map, get, insert}
use fractalnetworks_gateway.Base.Word.{Build, add_usize, sub_usize}
use fractalnetworks_gateway.Base.Time.{SystemTime, unix_epoch, duration_since, as_secs}
use fractalnetworks_gateway.Crates.{Crates, SocketAddr, socket_v4, socket_v6}
use fractalnetworks_gateway.Client.Traffic.{Traffic, TrafficInfo, new, add_info}
use fractalnetworks_gateway.Client.Event.{
  GatewayEvent, peer_connected, peer_disconnected, endpoint, GatewayPeerConnectedEvent,
  GatewayPeerDisconnectedEvent, GatewayPeerEndpointEvent,
}
use fractalnetworks_gateway.Types.Stats.{PeerStats, NetworkStats}
use fractalnetworks_gateway.System.{System}

-- `WIREGUARD_HANDSHAKE_TIMEOUT`, in seconds
abbrev pub handshake_timeout : ℕ
handshake_timeout = 180

-- `==` on sockets, and on optional ones
abbrev pub same_socket : SocketAddr → SocketAddr → Bool
same_socket (socket_v4 a p) (socket_v4 b q) = a == b && p == q
same_socket (socket_v4 a p) (socket_v6 b q g t) = false
same_socket (socket_v6 a p f s) (socket_v4 b q) = false
same_socket (socket_v6 a p f s) (socket_v6 b q g t) = a == b && p == q && f == g && s == t

abbrev pub same_endpoint : Option SocketAddr → Option SocketAddr → Bool
same_endpoint none none = true
same_endpoint none (some b) = false
same_endpoint (some a) none = false
same_endpoint (some a) (some b) = same_socket a b

-- The handshake that is kept at a time: it is forgotten when it is too long ago or in the future.
unfoldable pub recent : SystemTime → SystemTime → Option SystemTime
recent now handshake = elim (duration_since now handshake) [
  | some duration ↦ if ltb handshake_timeout (as_secs duration) then none else some handshake
  | none ↦ none
]

-- A counter of the cache is above the new one.
abbrev pub is_invalid : {X : Crates} → PeerStats X → PeerStats X → Bool
is_invalid previous peer =
    ltb peer.transfer_rx previous.transfer_rx || ltb peer.transfer_tx previous.transfer_tx

-- What the watchdog works on in one network: the world, the slice of traffic, the cached peers.
pub record Watch (X : Crates) (S : System X) : Type 0 where
  pub world : S.World
  pub traffic : TrafficInfo X.Pubkey
  pub peers : Map X.Pubkey (PeerStats X)

module _ {X : Crates} (S : System X) where
  unfoldable pub on_world : {A : Type 0} → Call S.World A → Call (Watch X S) A
  on_world m w = let (r, world) = m w.world in (r, record w { world = world })

  -- `global.event(…)`
  abbrev pub event : GatewayEvent X → Call (Watch X S) (Unit {0})
  event e = on_world (S.send_event e)

  unfoldable pub previous_of : X.Pubkey → Call (Watch X S) (Option (PeerStats X))
  previous_of key w = (ok (get ⦃o = X.pubkey_order⦄ key w.peers), w)

  -- `traffic.add(…)`
  unfoldable pub add_traffic :
      Build → X.Pubkey → X.Pubkey → ℕ → Traffic → Call (Watch X S) (Unit {0})
  add_traffic b network peer time item w =
      elim (add_info ⦃o = X.pubkey_order⦄ b w.traffic network peer time item) [
        | Result.ok traffic ↦ (ok tt, record w { traffic = traffic })
        | Result.err e ↦ (Result.err e, w)
        | Result.panic ↦ (Result.panic, w)
      ]

  unfoldable pub store : PeerStats X → Call (Watch X S) (Unit {0})
  store peer w =
      (ok tt, record w { peers = insert ⦃o = X.pubkey_order⦄ peer.public_key peer w.peers })

  pub expire_at : PeerStats X → Option SystemTime → Call (Watch X S) (PeerStats X)
  expire_at peer none = pure peer
  expire_at peer (some handshake) = do
    now ← on_world S.now
    pure (record peer { latest_handshake = recent now handshake })

  -- Lines 112 to 122: the clock is read only if there is a handshake.
  unfoldable pub expire : PeerStats X → Call (Watch X S) (PeerStats X)
  unfolding expire_at
  expire peer = expire_at peer peer.latest_handshake

  -- Lines 140 to 144.
  unfoldable pub add_difference :
      Build → NetworkStats X → ℕ → PeerStats X → PeerStats X → Call (Watch X S) (Unit {0})
  add_difference b stats time previous peer = do
    rx ← lift (sub_usize b peer.transfer_rx previous.transfer_rx)
    tx ← lift (sub_usize b peer.transfer_tx previous.transfer_tx)
    add_traffic b stats.public_key peer.public_key time (new rx tx)

  -- Lines 134 to 145.
  unfoldable pub note_difference :
      Build → NetworkStats X → ℕ → PeerStats X → PeerStats X → Call (Watch X S) (Unit {0})
  note_difference b stats time previous peer = do
    rx ← lift (sub_usize b previous.transfer_rx peer.transfer_rx)
    tx ← lift (sub_usize b previous.transfer_tx peer.transfer_tx)
    difference ← lift (add_usize b rx tx)
    if ltb 0 difference then add_difference b stats time previous peer else pure tt

  -- Lines 125 to 146: counters that ran backwards are only logged.
  unfoldable pub note_traffic :
      Build → NetworkStats X → PeerStats X → PeerStats X → Call (Watch X S) (Unit {0})
  unfolding note_difference
  note_traffic b stats previous peer = do
    now ← on_world S.now
    since ← lift (
        ok_or (duration_since now unix_epoch)
          (text "second time provided was later than self" ∷ []))
    if is_invalid previous peer
        then pure tt
        else note_difference b stats (as_secs since) previous peer

  pub endpoint_event : X.Pubkey → X.Pubkey → Option SocketAddr → Call (Watch X S) (Unit {0})
  endpoint_event network peer none = pure tt
  endpoint_event network peer (some e) =
      event (endpoint (record { network = network; peer = peer; endpoint = e }))

  -- Lines 148 to 158.
  unfoldable pub note_endpoint :
      NetworkStats X → PeerStats X → PeerStats X → Call (Watch X S) (Unit {0})
  unfolding endpoint_event
  note_endpoint stats previous peer =
      if not (same_endpoint peer.endpoint previous.endpoint)
      then endpoint_event stats.public_key peer.public_key peer.endpoint
      else pure tt

  abbrev pub connected_event : NetworkStats X → PeerStats X → Call (Watch X S) (Unit {0})
  connected_event stats peer = do
    e ← lift (unwrap peer.endpoint)
    event (
        peer_connected
          (record { network = stats.public_key; peer = peer.public_key; endpoint = e }))

  abbrev pub disconnected_event : X.Pubkey → X.Pubkey → Call (Watch X S) (Unit {0})
  disconnected_event network peer =
      event (peer_disconnected (record { network = network; peer = peer }))

  -- Lines 160 to 181, by the two handshakes.
  unfoldable pub announce_change :
      NetworkStats X
      → PeerStats X
      → Option SystemTime
      → Option SystemTime
      → Call (Watch X S) (Unit {0})
  announce_change stats peer (some _) none = disconnected_event stats.public_key peer.public_key
  announce_change stats peer none (some _) = connected_event stats peer
  announce_change stats peer none none = pure tt
  announce_change stats peer (some _) (some _) = pure tt

  -- Lines 183 to 191, by the handshake.
  unfoldable pub announce_new :
      NetworkStats X → PeerStats X → Option SystemTime → Call (Watch X S) (Unit {0})
  announce_new stats peer none = pure tt
  announce_new stats peer (some _) = connected_event stats peer

  -- Lines 124 to 192.
  unfoldable pub report :
      Build → NetworkStats X → Option (PeerStats X) → PeerStats X → Call (Watch X S) (Unit {0})
  unfolding note_traffic note_endpoint announce_change announce_new
  report b stats (some previous) peer = do
    note_traffic b stats previous peer
    note_endpoint stats previous peer
    announce_change stats peer previous.latest_handshake peer.latest_handshake
  report b stats none peer = announce_new stats peer peer.latest_handshake

  unfoldable pub watchdog_peer : Build → NetworkStats X → PeerStats X → Call (Watch X S) (Unit {0})
  watchdog_peer b stats fresh = do
    peer ← expire fresh
    previous ← previous_of peer.public_key
    report b stats previous peer
    store peer
