-- ===== src/Watchdog/Network/Sweep.antt =====
-- What a run over one network leaves in its cache entry and tells the listeners.
use fractalnetworks_gateway.Base.{
  ◌≡◌, refl, ◌∙◌, Bool, false, any, none, List, [], ◌∷◌, if◌then◌else◌, arith, inl, inr, Bool-cases,
}
use fractalnetworks_gateway.Base.Result.{Result, ok, err, panic, Call, continue, ◌>>=◌}
use fractalnetworks_gateway.Base.Map.{Map, get, remove}
use fractalnetworks_gateway.Base.Map.Laws.{get-nil, get-cons, get-remove, same_refl, same→eq}
use fractalnetworks_gateway.Base.Word.{Build}
use fractalnetworks_gateway.Crates.{Crates}
use fractalnetworks_gateway.Client.Event.{peer_disconnected}
use fractalnetworks_gateway.Types.Stats.{PeerStats, NetworkStats}
use fractalnetworks_gateway.System.{System}
use fractalnetworks_gateway.Watchdog.Peer.{Watch, disconnected_event, watchdog_peer}
use fractalnetworks_gateway.Watchdog.Peer.Events.{Journal, is_key, connected}
use fractalnetworks_gateway.Watchdog.Peer.Quiet.{view-event_ok, peers-event}
use fractalnetworks_gateway.Watchdog.Peer.Tracking.{Tracks, watchdog_peer-Tracks}
use fractalnetworks_gateway.Watchdog.Network.{
  swallowed, swallow, peer_loop, is_listed, dead_peers, drop_peer, remove_loop, sweep,
  watchdog_entry,
}

module _ {X : Crates} {S : System X} (J : Journal S) (b : Build) (stats : NetworkStats X) where
  continue-Tracks :
      (r : Result (Unit {0})) (k : Call (Watch X S) (Unit {0})) (w : Watch X S)
      → Tracks J stats w
      → ((w' : Watch X S) → Tracks J stats w' → Tracks J stats (k w').1)
      → Tracks J stats (continue r (λ _. k) w).1
  continue-Tracks (ok u) k w t step = step w t
  continue-Tracks (err e) k w t step = t
  continue-Tracks panic k w t step = t

  -- The loop over the peers keeps the agreement, whatever happens in it.
  pub peer_loop-Tracks :
      (peers : List (PeerStats X)) (w : Watch X S)
      → Tracks J stats w
      → Tracks J stats (peer_loop S b stats peers w).1
  unfolding peer_loop ◌>>=◌ swallow
  peer_loop-Tracks [] w t = t
  peer_loop-Tracks (peer ∷ peers) w t =
      continue-Tracks (swallowed (watchdog_peer S b stats peer w).0) (peer_loop S b stats peers)
        (watchdog_peer S b stats peer w).1 (watchdog_peer-Tracks J stats b peer w t)
        (λ w' t'. peer_loop-Tracks peers w' t')

  -- One removal whose event goes out.
  drop-Tracks :
      (k : X.Pubkey) (w : Watch X S)
      → Tracks J stats w
      → (disconnected_event S stats.public_key k (drop_peer S k w)).0 ≡ ok tt
      → Tracks J stats (disconnected_event S stats.public_key k (drop_peer S k w)).1
  drop-Tracks k w t h = record {
    agrees = λ p. elim (Bool-cases (is_key X p k)) [
      | inl q ↦
          view-event_ok J _ (drop_peer S k w) stats.public_key p h
          ∙ rw (
            peers-event J (peer_disconnected (record { network = stats.public_key; peer = k }))
                (drop_peer S k w),
            get-remove ⦃o = X.pubkey_order⦄,
            q,
            same_refl ⦃o = X.pubkey_order⦄ stats.public_key,
          )
      | inr q ↦
          view-event_ok J _ (drop_peer S k w) stats.public_key p h
          ∙ rw
              (
                peers-event J (peer_disconnected (record { network = stats.public_key; peer = k }))
                    (drop_peer S k w),
                get-remove ⦃o = X.pubkey_order⦄,
                q,
                same_refl ⦃o = X.pubkey_order⦄ stats.public_key,
              )
              (t.agrees p)
    ];
  }

  abbrev pub among : List X.Pubkey → X.Pubkey → Bool
  among keys p = any (is_key X p) keys

  -- What a removal loop that returned has done: the peers are gone, the rest is untouched, and the
  -- listeners know.
  pub record Removed (dead : List X.Pubkey) (w w' : Watch X S) : Type 0 where
    pub tracks : Tracks J stats w'
    pub entries :
        (p : X.Pubkey)
        → get ⦃o = X.pubkey_order⦄ p w'.peers
          ≡ (if among dead p then none else get ⦃o = X.pubkey_order⦄ p w.peers)

  drop_then :
      (k : X.Pubkey) (dead : List X.Pubkey) (r : Result (Unit {0})) (w w₁ : Watch X S)
      → (continue r (λ _. remove_loop S stats.public_key dead) w₁).0 ≡ ok tt
      → w₁.peers ≡ remove ⦃o = X.pubkey_order⦄ k w.peers
      → ((remove_loop S stats.public_key dead w₁).0 ≡ ok tt
          → Removed dead w₁ (remove_loop S stats.public_key dead w₁).1)
      → Removed (k ∷ dead) w (continue r (λ _. remove_loop S stats.public_key dead) w₁).1
  drop_then k dead (ok u) w w₁ h e rest = record {
    tracks = (rest h).tracks;
    entries = λ p. (rest h).entries p ∙ rw (e, get-remove ⦃o = X.pubkey_order⦄) (ground arith);
  }
  drop_then k dead (err x) w w₁ h e rest = cc
  drop_then k dead panic w w₁ h e rest = cc

  continue_ok :
      (r : Result (Unit {0})) (m : Call (Watch X S) (Unit {0})) (w : Watch X S)
      → (continue r (λ _. m) w).0 ≡ ok tt
      → r ≡ ok tt
  continue_ok (ok u) m w h = refl
  continue_ok (err e) m w h = cc
  continue_ok panic m w h = cc

  pub remove_loop-Removed :
      (dead : List X.Pubkey) (w : Watch X S)
      → Tracks J stats w
      → (remove_loop S stats.public_key dead w).0 ≡ ok tt
      → Removed dead w (remove_loop S stats.public_key dead w).1
  unfolding remove_loop ◌>>=◌
  remove_loop-Removed [] w t h = record { tracks = t; entries = λ p. refl }
  remove_loop-Removed (k ∷ dead) w t h =
      let sent = disconnected_event S stats.public_key k (drop_peer S k w) in
      let r = continue_ok sent.0 (remove_loop S stats.public_key dead) sent.1 h in
      drop_then k dead sent.0 w sent.1 h
        (peers-event J (peer_disconnected (record { network = stats.public_key; peer = k }))
          (drop_peer S k w))
        (λ h'. remove_loop-Removed dead sent.1 (drop-Tracks k w t r) h')

  -- A cached peer that the statistics do not list is among the dead.
  pub among-dead_peers :
      (peers : List (PeerStats X)) (m : Map X.Pubkey (PeerStats X)) (p : X.Pubkey)
      → is_listed S peers p ≡ false
      → among (dead_peers S peers m) p ≡ false
      → get ⦃o = X.pubkey_order⦄ p m ≡ none
  unfolding dead_peers
  among-dead_peers peers [] p h a = get-nil ⦃o = X.pubkey_order⦄ p
  among-dead_peers peers ((k, v) ∷ m) p h a = elim (Bool-cases (is_key X p k)) [
    | inl q ↦
        let listed : is_listed S peers k ≡ false = rw (← (same→eq ⦃o = X.pubkey_order⦄ p k q)) h in
        absurd (ground (arith, a, q, listed))
    | inr q ↦
        rw (get-cons ⦃o = X.pubkey_order⦄, q) (among-dead_peers peers m p h (ground (arith, a, q)))
  ]

  swept_entry :
      (w : Watch X S)
      → Tracks J stats w
      → (watchdog_entry S b stats w).0 ≡ ok tt
      → Tracks J stats (watchdog_entry S b stats w).1
        × ((p : X.Pubkey)
            → is_listed S stats.peers p ≡ false
            → get ⦃o = X.pubkey_order⦄ p (watchdog_entry S b stats w).1.peers ≡ none)
  unfolding watchdog_entry ◌>>=◌
  swept_entry w t h =
      let looped = peer_loop S b stats stats.peers w in
      swept looped.0 looped.1 (peer_loop-Tracks stats.peers w t) h
    where
      swept :
          (r : Result (Unit {0})) (w' : Watch X S)
          → Tracks J stats w'
          → (continue r (λ _. sweep S stats) w').0 ≡ ok tt
          → Tracks J stats (continue r (λ _. sweep S stats) w').1
            × ((p : X.Pubkey)
                → is_listed S stats.peers p ≡ false
                → get ⦃o = X.pubkey_order⦄ p (continue r (λ _. sweep S stats) w').1.peers ≡ none)
      swept (ok u) w' t' h' =
          let done = remove_loop-Removed (dead_peers S stats.peers w'.peers) w' t' h' in
          (
            done.tracks,
            λ p l. elim (Bool-cases (among (dead_peers S stats.peers w'.peers) p)) [
              | inl q ↦ done.entries p ∙ rw q
              | inr q ↦ done.entries p ∙ rw q (among-dead_peers stats.peers w'.peers p l q)
            ],
          )
      swept (err e) w' t' h' = cc
      swept panic w' t' h' = cc

  -- The agreement is kept by a run that returns.
  watchdog_entry-Tracks :
      (w : Watch X S)
      → Tracks J stats w
      → (watchdog_entry S b stats w).0 ≡ ok tt
      → Tracks J stats (watchdog_entry S b stats w).1
  watchdog_entry-Tracks w t h = (swept_entry w t h).0

  -- If a failed send reaches nobody and the listeners agree with the cache, then after a run over
  -- the network that succeeds no peer that the statistics do not list is in the cache, or
  -- connected for the listeners.
  pub watchdog_entry-forgets :
      (w : Watch X S) (p : X.Pubkey)
      → Tracks J stats w
      → (watchdog_entry S b stats w).0 ≡ ok tt
      → is_listed S stats.peers p ≡ false
      → (get ⦃o = X.pubkey_order⦄ p (watchdog_entry S b stats w).1.peers ≡ none)
        × (connected X stats.public_key p (J.sent (watchdog_entry S b stats w).1.world) ≡ false)
  watchdog_entry-forgets w p t h l =
      let (t', gone) = swept_entry w t h in (gone p l, t'.agrees p ∙ rw (gone p l))
