-- ===== src/Watchdog/Peer/Announce.antt =====
-- What a run over one peer tells the listeners of that peer.
use fractalnetworks_gateway.Base.{
  ◌≡◌, ◌≢◌, refl, ◌∙◌, Bool, true, false, ◌&&◌, Option, none, some, is_some, inl, inr,
}
use fractalnetworks_gateway.Base.Result.{
  Result, ok, err, panic, Call, pure, lift, unwrap, continue, ◌>>=◌, ◌>>◌,
}
use fractalnetworks_gateway.Base.Map.Laws.{same_refl}
use fractalnetworks_gateway.Base.Word.{Build}
use fractalnetworks_gateway.Base.Time.{SystemTime}
use fractalnetworks_gateway.Crates.{Crates, SocketAddr}
use fractalnetworks_gateway.Client.Event.{GatewayEvent, peer_connected}
use fractalnetworks_gateway.Types.Stats.{PeerStats, NetworkStats}
use fractalnetworks_gateway.System.{System}
use fractalnetworks_gateway.Watchdog.Peer.{
  Watch, event, disconnected_event, announce_change, announce_new, report,
}
use fractalnetworks_gateway.Watchdog.Peer.Events.{Journal, is_key, update}
use fractalnetworks_gateway.Watchdog.Peer.Quiet.{
  view, Quiet, Result-cases, Quiet-note_traffic, Quiet-note_endpoint, view-event_ok,
  view-event_failed, peers-event,
}

-- A cached entry is live if it has a handshake.
abbrev pub live : {X : Crates} → Option (PeerStats X) → Bool
live none = false
live (some p) = is_some p.latest_handshake

module _ {X : Crates} {S : System X} (J : Journal S) (network key : X.Pubkey) where
  -- A call that touches no cached peer, and that tells of one peer of one network at most: if it
  -- succeeds and the peer was taken for `old`, it is now taken for `now`. A call that fails tells
  -- nothing.
  pub record Announces (old now : Bool) (m : Call (Watch X S) (Unit {0})) : Type 0 where
    pub peers : (w : Watch X S) → (m w).1.peers ≡ w.peers
    pub others :
        (w : Watch X S) (n p : X.Pubkey)
        → (is_key X n network && is_key X p key) ≡ false
        → view J n p (m w).1 ≡ view J n p w
    pub told :
        (w : Watch X S)
        → (m w).0 ≡ ok tt
        → view J network key w ≡ old
        → view J network key (m w).1 ≡ now
    pub failed :
        (w : Watch X S) → (m w).0 ≢ ok tt → view J network key (m w).1 ≡ view J network key w

  Announces-pure : (b : Bool) → Announces b b (pure tt)
  unfolding pure
  Announces-pure b = record {
    peers = λ w. refl;
    others = λ w n p h. refl;
    told = λ w h e. e;
    failed = λ w h. refl;
  }

  Announces-Quiet :
      (q m : Call (Watch X S) (Unit {0})) (old now : Bool)
      → Quiet J q
      → Announces old now m
      → Announces old now (q >> m)
  unfolding ◌>>=◌
  Announces-Quiet q m old now qq am = record {
    peers = λ w. peers_after (q w).0 w (q w).1 (qq.peers w);
    others = λ w n p h. others_after (q w).0 w (q w).1 n p h (qq.views w n p);
    told = λ w. told_after (q w).0 w (q w).1 (qq.views w network key);
    failed = λ w. failed_after (q w).0 w (q w).1 (qq.views w network key);
  }
    where
      peers_after :
          (r : Result (Unit {0})) (w w' : Watch X S)
          → w'.peers ≡ w.peers
          → (continue r (λ _. m) w').1.peers ≡ w.peers
      peers_after (ok u) w w' e = am.peers w' ∙ e
      peers_after (err x) w w' e = e
      peers_after panic w w' e = e

      others_after :
          (r : Result (Unit {0})) (w w' : Watch X S) (n p : X.Pubkey)
          → (is_key X n network && is_key X p key) ≡ false
          → view J n p w' ≡ view J n p w
          → view J n p (continue r (λ _. m) w').1 ≡ view J n p w
      others_after (ok u) w w' n p h e = am.others w' n p h ∙ e
      others_after (err x) w w' n p h e = e
      others_after panic w w' n p h e = e

      told_after :
          (r : Result (Unit {0})) (w w' : Watch X S)
          → view J network key w' ≡ view J network key w
          → (continue r (λ _. m) w').0 ≡ ok tt
          → view J network key w ≡ old
          → view J network key (continue r (λ _. m) w').1 ≡ now
      told_after (ok u) w w' e h o = am.told w' h (e ∙ o)
      told_after (err x) w w' e h o = cc
      told_after panic w w' e h o = cc

      failed_after :
          (r : Result (Unit {0})) (w w' : Watch X S)
          → view J network key w' ≡ view J network key w
          → (continue r (λ _. m) w').0 ≢ ok tt
          → view J network key (continue r (λ _. m) w').1 ≡ view J network key w
      failed_after (ok u) w w' e h = am.failed w' h ∙ e
      failed_after (err x) w w' e h = e
      failed_after panic w w' e h = e

  Announces-event :
      (e : GatewayEvent X) (old now : Bool)
      → ((n p : X.Pubkey) (b : Bool)
          → (is_key X n network && is_key X p key) ≡ false
          → update X n p b e ≡ b)
      → ((b : Bool) → update X network key b e ≡ now)
      → Announces old now (event S e)
  Announces-event e old now away here = record {
    peers = λ w. peers-event J e w;
    others = λ w n p h. elim (Result-cases (event S e w).0) [
      | inl r ↦ view-event_ok J e w n p r ∙ away n p (view J n p w) h
      | inr r ↦ view-event_failed J e w n p r
    ];
    told = λ w r o. view-event_ok J e w network key r ∙ here (view J network key w);
    failed = λ w r. view-event_failed J e w network key r;
  }

  Announces-disconnected : (old : Bool) → Announces old false (disconnected_event S network key)
  Announces-disconnected old =
      Announces-event _ old false (λ n p b h. rw h)
        (λ b. rw (same_refl ⦃o = X.pubkey_order⦄ network, same_refl ⦃o = X.pubkey_order⦄ key))

module _ {X : Crates} {S : System X} (J : Journal S) (stats : NetworkStats X)
    (peer : PeerStats X) where
  Announces-panic :
      (k : SocketAddr → Call (Watch X S) (Unit {0})) (old now : Bool)
      → Announces J stats.public_key peer.public_key old now (lift panic >>= k)
  unfolding ◌>>=◌
  Announces-panic k old now = record {
    peers = λ w. refl;
    others = λ w n p h. refl;
    told = λ w h. cc;
    failed = λ w h. refl;
  }

  abbrev tell : SocketAddr → Call (Watch X S) (Unit {0})
  tell e =
      event S (
        peer_connected
          (record { network = stats.public_key; peer = peer.public_key; endpoint = e }))

  Announces-connected_from :
      (e : Option SocketAddr) (old : Bool)
      → Announces J stats.public_key peer.public_key old true (lift (unwrap e) >>= tell)
  unfolding ◌>>=◌
  Announces-connected_from none old = Announces-panic tell old true
  Announces-connected_from (some e) old =
      Announces-event J stats.public_key peer.public_key _ old true (λ n p b h. rw h)
        (λ b. rw (
          same_refl ⦃o = X.pubkey_order⦄ stats.public_key,
          same_refl ⦃o = X.pubkey_order⦄ peer.public_key,
        ))

  Announces-change :
      (old now : Option SystemTime)
      → Announces J stats.public_key peer.public_key
          (is_some old)
          (is_some now)
          (announce_change S stats peer old now)
  unfolding announce_change
  Announces-change (some _) none = Announces-disconnected J stats.public_key peer.public_key true
  Announces-change none (some _) = Announces-connected_from peer.endpoint false
  Announces-change none none = Announces-pure J stats.public_key peer.public_key false
  Announces-change (some _) (some _) = Announces-pure J stats.public_key peer.public_key true

  Announces-new :
      (now : Option SystemTime)
      → Announces J stats.public_key peer.public_key false
          (is_some now)
          (announce_new S stats peer now)
  unfolding announce_new
  Announces-new none = Announces-pure J stats.public_key peer.public_key false
  Announces-new (some _) = Announces-connected_from peer.endpoint false

  pub Announces-report :
      (b : Build) (previous : Option (PeerStats X))
      → Announces J stats.public_key peer.public_key
          (live previous)
          (is_some peer.latest_handshake)
          (report S b stats previous peer)
  unfolding report
  Announces-report b none = Announces-new peer.latest_handshake
  Announces-report b (some previous) =
      Announces-Quiet J stats.public_key peer.public_key _ _ _ _
        (Quiet-note_traffic J b stats previous peer)
        (Announces-Quiet J stats.public_key peer.public_key _ _ _ _
          (Quiet-note_endpoint J stats previous peer)
          (Announces-change previous.latest_handshake peer.latest_handshake))
