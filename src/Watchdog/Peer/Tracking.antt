-- ===== src/Watchdog/Peer/Tracking.antt =====
-- The events that a run over one peer sends agree with what it caches.
use fractalnetworks_gateway.Base.{
  [], ◌≡◌, ◌≢◌, refl, ◌∙◌, false, Option, is_some, arith, inl, inr, Bool-cases,
}
use fractalnetworks_gateway.Base.Result.{Result, ok, err, panic, Call, continue, ◌>>=◌, ◌>>◌}
use fractalnetworks_gateway.Base.Map.{get}
use fractalnetworks_gateway.Base.Map.Laws.{get-nil, get-insert, same→eq}
use fractalnetworks_gateway.Base.Word.{Build}
use fractalnetworks_gateway.Crates.{Crates}
use fractalnetworks_gateway.Types.Stats.{PeerStats, NetworkStats}
use fractalnetworks_gateway.System.{System}
use fractalnetworks_gateway.Watchdog.Peer.{Watch, expire, report, watchdog_peer, store, previous_of}
use fractalnetworks_gateway.Watchdog.Peer.Events.{Journal, is_key, connected, connected-nil}
use fractalnetworks_gateway.Watchdog.Peer.Quiet.{view, Quiet-expire}
use fractalnetworks_gateway.Watchdog.Peer.Announce.{Announces, live, Announces-report}

module _ {X : Crates} {S : System X} (J : Journal S) (stats : NetworkStats X) where
  abbrev network : X.Pubkey
  network = stats.public_key

  abbrev cached : Watch X S → X.Pubkey → Option (PeerStats X)
  cached w p = get ⦃o = X.pubkey_order⦄ p w.peers

  -- The listeners take a peer of this network for connected exactly when its cached entry has a
  -- handshake.
  pub record Tracks (w : Watch X S) : Type 0 where
    pub agrees : (p : X.Pubkey) → view J network p w ≡ live (cached w p)

  -- It is so at the start, with nothing cached and nothing sent.
  pub start-Tracks : (w : Watch X S) → w.peers ≡ [] → J.sent w.world ≡ [] → Tracks w
  start-Tracks w h k = record {
    agrees =
        λ p. rw (k, h, connected-nil X network p, get-nil ⦃o = X.pubkey_order⦄ {V = PeerStats X} p);
  }

  module _ (b : Build) (peer : PeerStats X) (w : Watch X S) (t : Tracks w) where
    abbrev key : X.Pubkey
    key = peer.public_key

    abbrev reported : Result (Unit {0}) × Watch X S
    reported = report S b stats (cached w key) peer w

    announced :
        Announces J network key
          (live (cached w key))
          (is_some peer.latest_handshake)
          (report S b stats (cached w key) peer)
    announced = Announces-report J stats peer b (cached w key)

    -- What is left to do once the report is made.
    abbrev finish : Result (Unit {0}) → Watch X S → Result (Unit {0}) × Watch X S
    finish r w' = continue r (λ _. store S peer) w'

    finish-Tracks :
        (r : Result (Unit {0})) (w' : Watch X S)
        → w'.peers ≡ w.peers
        → (r ≡ ok tt → view J network key w' ≡ is_some peer.latest_handshake)
        → (r ≢ ok tt → view J network key w' ≡ live (cached w key))
        → ((p : X.Pubkey) → is_key X p key ≡ false → view J network p w' ≡ live (cached w p))
        → Tracks (finish r w').1
    unfolding store
    finish-Tracks (ok u) w' e told failed others = record {
      agrees = λ p. elim (Bool-cases (is_key X p key)) [
        | inl q ↦
            rw (get-insert ⦃o = X.pubkey_order⦄, q)
              (rw (same→eq ⦃o = X.pubkey_order⦄ p key q) (told refl))
        | inr q ↦ rw (get-insert ⦃o = X.pubkey_order⦄, q, e) (others p q)
      ];
    }
    finish-Tracks (err x) w' e told failed others = record {
      agrees = λ p. elim (Bool-cases (is_key X p key)) [
        | inl q ↦ rw (e, same→eq ⦃o = X.pubkey_order⦄ p key q) (failed (λ h. cc))
        | inr q ↦ rw e (others p q)
      ];
    }
    finish-Tracks panic w' e told failed others = record {
      agrees = λ p. elim (Bool-cases (is_key X p key)) [
        | inl q ↦ rw (e, same→eq ⦃o = X.pubkey_order⦄ p key q) (failed (λ h. cc))
        | inr q ↦ rw e (others p q)
      ];
    }

    after_expire-Tracks : Tracks (finish reported.0 reported.1).1
    after_expire-Tracks =
        finish-Tracks reported.0 reported.1 (announced.peers w)
          (λ h. announced.told w h (t.agrees key)) (λ h. announced.failed w h ∙ t.agrees key)
          (λ p d. announced.others w network p (rw d (ground arith)) ∙ t.agrees p)

    elsewhere_finish :
        (r : Result (Unit {0})) (w' : Watch X S) (n p : X.Pubkey)
        → view J n p w' ≡ view J n p w
        → view J n p (finish r w').1 ≡ view J n p w
    unfolding store
    elsewhere_finish (ok u) w' n p e = e
    elsewhere_finish (err x) w' n p e = e
    elsewhere_finish panic w' n p e = e

    after_expire_elsewhere :
        (n p : X.Pubkey)
        → is_key X n network ≡ false
        → view J n p (finish reported.0 reported.1).1 ≡ view J n p w
    after_expire_elsewhere n p d =
        elsewhere_finish reported.0 reported.1 n p (announced.others w n p (rw d))

  -- The rest of `watchdog_peer`, once the handshake is brought up to date.
  abbrev rest : Build → PeerStats X → Call (Watch X S) (Unit {0})
  rest b peer = do
    previous ← previous_of S peer.public_key
    report S b stats previous peer
    store S peer

  module _ (b : Build) where
    rest-Tracks : (peer : PeerStats X) (w : Watch X S) → Tracks w → Tracks (rest b peer w).1
    unfolding ◌>>=◌ previous_of
    rest-Tracks peer w t = after_expire-Tracks b peer w t

    rest_elsewhere :
        (peer : PeerStats X) (w : Watch X S)
        → Tracks w
        → (n p : X.Pubkey) → is_key X n network ≡ false
        → view J n p (rest b peer w).1 ≡ view J n p w
    unfolding ◌>>=◌ previous_of
    rest_elsewhere peer w t n p d = after_expire_elsewhere b peer w t n p d

    Tracks-Quiet :
        (w w' : Watch X S)
        → w'.peers ≡ w.peers
        → ((n p : X.Pubkey) → view J n p w' ≡ view J n p w)
        → Tracks w
        → Tracks w'
    Tracks-Quiet w w' e v t = record { agrees = λ p. v network p ∙ rw e (t.agrees p) }

    rest_of-Tracks :
        (r : Result (PeerStats X)) (w w' : Watch X S)
        → ((n p : X.Pubkey) → view J n p w' ≡ view J n p w)
        → Tracks w'
        → Tracks (continue r (rest b) w').1
          × ((n p : X.Pubkey)
              → is_key X n network ≡ false
              → view J n p (continue r (rest b) w').1 ≡ view J n p w)
    rest_of-Tracks (ok peer) w w' v t =
        (rest-Tracks peer w' t, λ n p d. rest_elsewhere peer w' t n p d ∙ v n p)
    rest_of-Tracks (err x) w w' v t = (t, λ n p d. v n p)
    rest_of-Tracks panic w w' v t = (t, λ n p d. v n p)

    watched :
        (fresh : PeerStats X) (w : Watch X S)
        → Tracks w
        → Tracks (watchdog_peer S b stats fresh w).1
          × ((n p : X.Pubkey)
              → is_key X n network ≡ false
              → view J n p (watchdog_peer S b stats fresh w).1 ≡ view J n p w)
    unfolding watchdog_peer ◌>>=◌
    watched fresh w t =
        let quiet = Quiet-expire J fresh in
        let (r, w') = expire S fresh w in
        rest_of-Tracks r w w' (quiet.views w) (Tracks-Quiet w w' (quiet.peers w) (quiet.views w) t)

    -- If a failed send reaches nobody and the listeners take for connected exactly the peers of
    -- the network whose cached entry has a handshake, that still holds after a run over one peer,
    -- whatever its outcome, a failed send and a panic included.
    pub watchdog_peer-Tracks :
        (fresh : PeerStats X) (w : Watch X S)
        → Tracks w
        → Tracks (watchdog_peer S b stats fresh w).1
    watchdog_peer-Tracks fresh w t = (watched fresh w t).0

    -- If a failed send reaches nobody and the listeners agree with the cache, a run over one peer
    -- changes nothing in what they take for connected in another network.
    pub watchdog_peer_elsewhere :
        (fresh : PeerStats X) (w : Watch X S) (n p : X.Pubkey)
        → Tracks w
        → is_key X n network ≡ false
        → connected X n p (J.sent (watchdog_peer S b stats fresh w).1.world)
          ≡ connected X n p (J.sent w.world)
    watchdog_peer_elsewhere fresh w n p t h = (watched fresh w t).1 n p h
