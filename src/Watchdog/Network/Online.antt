-- ===== src/Watchdog/Network/Online.antt =====
-- Where events go out and the clock can be read, a run over one network of src/watchdog.rs brings the
-- listeners to what the statistics say.
use fractalnetworks_gateway.Base.{
  ◌≡◌, refl, sym, ap, ◌∙◌, Bool, true, false, Option, none, some, List, [], ◌∷◌, All, if◌then◌else◌,
  arith, inl, inr, Bool-cases,
}
use fractalnetworks_gateway.Base.Result.{Result, ok, err, panic, continue, pure, ◌>>=◌}
use fractalnetworks_gateway.Base.Map.{Map, get}
use fractalnetworks_gateway.Base.Map.Laws.{same→eq}
use fractalnetworks_gateway.Base.Time.{SystemTime}
use fractalnetworks_gateway.Base.Word.{release}
use fractalnetworks_gateway.Crates.{Crates}
use fractalnetworks_gateway.Types.Stats.{PeerStats, NetworkStats}
use fractalnetworks_gateway.System.{System}
use fractalnetworks_gateway.Watchdog.Peer.{Watch, watchdog_peer}
use fractalnetworks_gateway.Watchdog.Peer.Events.{Journal, is_key, connected}
use fractalnetworks_gateway.Watchdog.Peer.Tracking.{Tracks}
use fractalnetworks_gateway.Watchdog.Network.{
  swallow, swallowed, peer_loop, is_listed, dead_peers, sweep, watchdog_entry,
}
use fractalnetworks_gateway.Watchdog.Network.Sweep.{
  peer_loop-Tracks, among, among-dead_peers, Removed, remove_loop-Removed,
}
use fractalnetworks_gateway.Watchdog.Network.Apart.{remove_loop_returns}
use fractalnetworks_gateway.Watchdog.Peer.Announce.{live}
use fractalnetworks_gateway.Watchdog.Peer.Returning.{Calm}
use fractalnetworks_gateway.Watchdog.Peer.Storing.{
  is_recent, recent-is_recent, HasEndpoint, up_to_date, Stored, watchdog_peer-Stored,
}

module _ {X : Crates} where
  -- Whether the last of the statistics that are about the peer has a recent handshake.
  unfoldable pub online_from : SystemTime → X.Pubkey → List (PeerStats X) → Bool → Bool
  online_from now p [] before = before
  online_from now p (peer ∷ peers) before =
      online_from now p peers
        (if is_key X p peer.public_key then is_recent now peer.latest_handshake else before)

  -- The cached entry after the loop.
  abbrev latest :
      SystemTime → X.Pubkey → List (PeerStats X) → Option (PeerStats X) → Option (PeerStats X)
  latest now p [] before = before
  latest now p (peer ∷ peers) before =
      latest now p peers (if is_key X p peer.public_key then some (up_to_date now peer) else before)

  live_if :
      (c : Bool) (now : SystemTime) (peer : PeerStats X) (before : Option (PeerStats X))
      → live (if c then some (up_to_date now peer) else before)
        ≡ (if c then is_recent now peer.latest_handshake else live before)
  live_if true now peer before = recent-is_recent now peer.latest_handshake
  live_if false now peer before = refl

  live-latest :
      (now : SystemTime) (p : X.Pubkey) (peers : List (PeerStats X)) (before : Option (PeerStats X))
      → live (latest now p peers before) ≡ online_from now p peers (live before)
  unfolding online_from
  live-latest now p [] before = refl
  live-latest now p (peer ∷ peers) before =
      live-latest now p peers _
      ∙ ap (online_from now p peers) (live_if (is_key X p peer.public_key) now peer before)

module _ {X : Crates} {S : System X} {now : SystemTime} (J : Journal S) (C : Calm S now)
    (stats : NetworkStats X) where
  -- The loop over the peers returned, and the entries are these.
  record Looped (peers : List (PeerStats X)) (w : Watch X S) (r : Result (Unit {0}) × Watch X S)
      : Type 0 where
    returned : r.0 ≡ ok tt
    entries :
        (p : X.Pubkey)
        → get ⦃o = X.pubkey_order⦄ p r.1.peers
          ≡ latest now p peers (get ⦃o = X.pubkey_order⦄ p w.peers)

  then-Looped :
      (peer : PeerStats X) (peers : List (PeerStats X)) (w w' : Watch X S) (r : Result (Unit {0}))
      → Stored J C stats (up_to_date now peer) w (r, w')
      → Looped peers w' (peer_loop S release stats peers w')
      → Looped (peer ∷ peers) w (continue (swallowed r) (λ _. peer_loop S release stats peers) w')
  then-Looped peer peers w w' r s l = rw s.returned (record {
    returned = l.returned;
    entries = λ p. l.entries p ∙ ap (latest now p peers) (s.entries p);
  })

  peer_loop-Looped :
      (peers : List (PeerStats X))
      → All HasEndpoint peers
      → (w : Watch X S) → Looped peers w (peer_loop S release stats peers w)
  unfolding peer_loop pure ◌>>=◌ swallow
  peer_loop-Looped [] h w = record { returned = refl; entries = λ p. refl }
  peer_loop-Looped (peer ∷ peers) (h, hs) w =
      let (r, w') = watchdog_peer S release stats peer w in
      then-Looped peer peers w w' r (watchdog_peer-Stored J C stats peer h w)
        (peer_loop-Looped peers hs w')

  -- What was there before does not count for a peer that is listed.
  latest-is_listed :
      (p : X.Pubkey) (peers : List (PeerStats X)) (before : Option (PeerStats X))
      → is_listed S peers p ≡ true
      → latest now p peers before ≡ latest now p peers none
  latest-is_listed p [] before h = cc
  latest-is_listed p (peer ∷ peers) before h = elim (Bool-cases (is_key X p peer.public_key)) [
    | inl q ↦ rw q refl
    | inr q ↦ rw q (latest-is_listed p peers before (ground (arith, h, q)))
  ]

  latest_unlisted :
      (p : X.Pubkey) (peers : List (PeerStats X)) (before : Option (PeerStats X))
      → is_listed S peers p ≡ false
      → latest now p peers before ≡ before
  latest_unlisted p [] before h = refl
  latest_unlisted p (peer ∷ peers) before h =
      let other : is_key X p peer.public_key ≡ false = ground (arith, h) in
      rw other (latest_unlisted p peers before (ground (arith, h)))

  -- Only peers that are not listed are removed.
  dead-is_listed :
      (peers : List (PeerStats X)) (m : Map X.Pubkey (PeerStats X)) (p : X.Pubkey)
      → is_listed S peers p ≡ true
      → among J release stats (dead_peers S peers m) p ≡ false
  unfolding dead_peers
  dead-is_listed peers [] p h = refl
  dead-is_listed peers ((k, v) ∷ m) p h = elim (Bool-cases (is_listed S peers k)) [
    | inl q ↦ rw q (dead-is_listed peers m p h)
    | inr q ↦ elim (Bool-cases (is_key X p k)) [
      | inl e ↦
          let listed : is_listed S peers k ≡ true = rw (← (same→eq ⦃o = X.pubkey_order⦄ p k e)) h in
          absurd cc
      | inr e ↦ rw (q, e) (dead-is_listed peers m p h)
    ]
  ]

  entry_after :
      (p : X.Pubkey) (looped w : Watch X S) (r : Result (Unit {0}) × Watch X S)
      → Removed J release stats (dead_peers S stats.peers looped.peers) looped r.1
      → Looped stats.peers w (ok tt, looped)
      → get ⦃o = X.pubkey_order⦄ p r.1.peers ≡ latest now p stats.peers none
  entry_after p looped w r removed l =
      let dead = dead_peers S stats.peers looped.peers in
      elim (Bool-cases (is_listed S stats.peers p)) [
        | inl q ↦
            removed.entries p
            ∙ rw (dead-is_listed stats.peers looped.peers p q) (l.entries p)
            ∙ latest-is_listed p stats.peers (get ⦃o = X.pubkey_order⦄ p w.peers) q
        | inr q ↦ removed.entries p ∙ elim (Bool-cases (among J release stats dead p)) [
          | inl a ↦ rw a (sym (latest_unlisted p stats.peers none q))
          | inr a ↦
              rw a (among-dead_peers J release stats stats.peers looped.peers p q a)
              ∙ sym (latest_unlisted p stats.peers none q)
        ]
      ]

  -- If every event goes out, a failed send reaches nobody, the clock shows a time after the Unix epoch
  -- and every listed peer has an endpoint, then a run of a release build over a network returns, and
  -- if the listeners agreed with the cache before, then afterwards they take a peer of the network for
  -- connected exactly when its statistics, the last ones where it is listed more than once, have a
  -- handshake of the last 180 seconds.
  pub watchdog_entry-online_from :
      (w : Watch X S)
      → Tracks J stats w
      → All HasEndpoint stats.peers
      → ((watchdog_entry S release stats w).0 ≡ ok tt)
        × ((p : X.Pubkey)
            → connected X stats.public_key p (J.sent (watchdog_entry S release stats w).1.world)
              ≡ online_from now p stats.peers false)
  unfolding watchdog_entry ◌>>=◌
  watchdog_entry-online_from w t h =
      let (r, w') = peer_loop S release stats stats.peers w in
      swept r w' (peer_loop-Looped stats.peers h w)
        (peer_loop-Tracks J release stats stats.peers w t)
    where
      swept :
          (r : Result (Unit {0})) (w' : Watch X S)
          → Looped stats.peers w (r, w')
          → Tracks J stats w'
          → ((continue r (λ _. sweep S stats) w').0 ≡ ok tt)
            × ((p : X.Pubkey)
                → connected X stats.public_key p
                    (J.sent (continue r (λ _. sweep S stats) w').1.world)
                  ≡ online_from now p stats.peers false)
      swept (ok u) w' l t' =
          let dead = dead_peers S stats.peers w'.peers in
          let returned = remove_loop_returns J release stats C.delivers dead w' in
          let removed = remove_loop-Removed J release stats dead w' t' returned in
          (
            returned,
            λ p.
                removed.tracks.agrees p
                ∙ ap live (entry_after p w' w (sweep S stats w') removed l)
                ∙ live-latest now p stats.peers none,
          )
      swept (err x) w' l t' = absurd (let e = l.returned in cc)
      swept panic w' l t' = absurd (let e = l.returned in cc)
