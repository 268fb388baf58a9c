-- ===== src/Watchdog/Peer/Storing.antt =====
-- What `watchdog_peer` of src/watchdog.rs leaves in the cache, where events go out and the clock can be read.
use fractalnetworks_gateway.Base.{
  ◌-◌, ◌≡◌, refl, ap, ◌∙◌, Bool, false, ◌&&◌, Option, none, some, is_some, if◌then◌else◌, leb,
  arith,
}
use fractalnetworks_gateway.Base.Result.{Result, ok, err, panic, Call, continue, pure, ◌>>=◌, ◌>>◌}
use fractalnetworks_gateway.Base.Returns.{Yields}
use fractalnetworks_gateway.Base.Map.{get}
use fractalnetworks_gateway.Base.Map.Laws.{get-insert}
use fractalnetworks_gateway.Base.Time.{SystemTime, as_secs}
use fractalnetworks_gateway.Base.Word.{release}
use fractalnetworks_gateway.Crates.{Crates, SocketAddr}
use fractalnetworks_gateway.Types.Stats.{PeerStats, NetworkStats}
use fractalnetworks_gateway.System.{System}
use fractalnetworks_gateway.Watchdog.Peer.{
  Watch, handshake_timeout, recent, on_world, expire, expire_at, previous_of, report, store,
  watchdog_peer,
}
use fractalnetworks_gateway.Watchdog.Peer.Events.{Journal, is_key}
use fractalnetworks_gateway.Watchdog.Peer.Quiet.{Quiet-expire}
use fractalnetworks_gateway.Watchdog.Peer.Announce.{Announces-report}
use fractalnetworks_gateway.Watchdog.Peer.Returning.{Calm, Returns-report}

-- A handshake of the last 180 seconds.
abbrev pub is_recent : SystemTime → Option SystemTime → Bool
is_recent now none = false
is_recent now (some h) = leb h now && leb (as_secs (now - h)) handshake_timeout

abbrev pub handshake_at : SystemTime → Option SystemTime → Option SystemTime
handshake_at now none = none
handshake_at now (some h) = recent now h

pub recent-is_recent :
    (now : SystemTime) (o : Option SystemTime) → is_some (handshake_at now o) ≡ is_recent now o
unfolding recent
recent-is_recent now none = refl
recent-is_recent now (some h) = ground arith

module _ {X : Crates} where
  -- A peer with a handshake has an endpoint.
  abbrev pub HasEndpoint : PeerStats X → Type 0
  HasEndpoint peer = (e : SocketAddr) × (peer.endpoint ≡ some e)

  abbrev pub up_to_date : SystemTime → PeerStats X → PeerStats X
  up_to_date now peer = record peer { latest_handshake = handshake_at now peer.latest_handshake }

module _ {X : Crates} {S : System X} {now : SystemTime} (J : Journal S) (C : Calm S now)
    (stats : NetworkStats X) where
  expire_at_lem :
      (fresh : PeerStats X) (h : Option SystemTime)
      → fresh.latest_handshake ≡ h
      → (w : Watch X S)
      → (expire_at S fresh h w).0 ≡ ok (record fresh { latest_handshake = handshake_at now h })
  unfolding expire_at pure ◌>>=◌ on_world
  expire_at_lem fresh none e w = ap (λ o. ok (record fresh { latest_handshake = o })) e
  expire_at_lem fresh (some h) e w = rw (C.clock w.world) refl

  expired : (fresh : PeerStats X) (w : Watch X S) → (expire S fresh w).0 ≡ ok (up_to_date now fresh)
  unfolding expire
  expired fresh w = expire_at_lem fresh fresh.latest_handshake refl w

  abbrev rest : PeerStats X → Call (Watch X S) (Unit {0})
  rest peer = do
    previous ← previous_of S peer.public_key
    report S release stats previous peer
    store S peer

  -- The call returned, and the entry of the peer is this.
  pub record Stored (peer : PeerStats X) (w : Watch X S) (r : Result (Unit {0}) × Watch X S)
      : Type 0 where
    pub returned : r.0 ≡ ok tt
    pub entries :
        (p : X.Pubkey)
        → get ⦃o = X.pubkey_order⦄ p r.1.peers
          ≡ (if is_key X p peer.public_key then some peer else get ⦃o = X.pubkey_order⦄ p w.peers)

  store-Stored :
      (peer : PeerStats X) (w w' : Watch X S) (r : Result (Unit {0}))
      → Yields r
      → w'.peers ≡ w.peers
      → Stored peer w (continue r (λ _. store S peer) w')
  unfolding store
  store-Stored peer w w' (ok u) y e = record {
    returned = refl;
    entries = λ p. rw (get-insert ⦃o = X.pubkey_order⦄, e) refl;
  }
  store-Stored peer w w' (err x) (a, h) e = cc
  store-Stored peer w w' panic (a, h) e = cc

  rest-Stored :
      (peer : PeerStats X) → HasEndpoint peer → (w : Watch X S) → Stored peer w (rest peer w)
  unfolding ◌>>=◌ previous_of
  rest-Stored peer (e, h) w =
      let previous = get ⦃o = X.pubkey_order⦄ peer.public_key w.peers in
      let (r, w') = report S release stats previous peer w in
      store-Stored peer w w' r ((Returns-report C stats peer e h previous).returns w)
        ((Announces-report J stats peer release previous).peers w)

  -- The world and the traffic may have changed before.
  carried :
      (peer : PeerStats X) (w w' : Watch X S)
      → w'.peers ≡ w.peers
      → {r : Result (Unit {0}) × Watch X S} → Stored peer w' r
      → Stored peer w r
  carried peer w w' e s = record {
    returned = s.returned;
    entries = λ p.
        s.entries p
        ∙ ap (λ m. if is_key X p peer.public_key then some peer else get ⦃o = X.pubkey_order⦄ p m)
            e;
  }

  pub watchdog_peer-Stored :
      (fresh : PeerStats X)
      → HasEndpoint fresh
      → (w : Watch X S) → Stored (up_to_date now fresh) w (watchdog_peer S release stats fresh w)
  unfolding watchdog_peer ◌>>=◌
  watchdog_peer-Stored fresh known w =
      let (r, w') = expire S fresh w in
      after r w' (expired fresh w) ((Quiet-expire J fresh).peers w)
    where
      after :
          (r : Result (PeerStats X)) (w' : Watch X S)
          → r ≡ ok (up_to_date now fresh)
          → w'.peers ≡ w.peers
          → Stored (up_to_date now fresh) w (continue r rest w')
      after r w' e same =
          rw e
            (carried (up_to_date now fresh) w w' same (rest-Stored (up_to_date now fresh) known w'))
