-- ===== src/Watchdog/Peer/Quiet.antt =====
-- The parts of `watchdog_peer` that change neither the cached peers nor the view of who is connected.
use fractalnetworks_gateway.Base.{
  ℕ, not, ap, ◌≡◌, ◌≢◌, refl, ◌∙◌, Bool, true, false, Option, none, some, if◌then◌else◌, arith, inl,
  inr, ◌⊎◌,
}
use fractalnetworks_gateway.Base.Result.{Result, ok, err, panic, Call, pure, lift, continue, ◌>>=◌}
use fractalnetworks_gateway.Base.Word.{Build}
use fractalnetworks_gateway.Base.Time.{SystemTime}
use fractalnetworks_gateway.Client.Traffic.{Traffic}
use fractalnetworks_gateway.Crates.{Crates, SocketAddr}
use fractalnetworks_gateway.Client.Event.{GatewayEvent, GatewayPeerEndpointEvent, endpoint}
use fractalnetworks_gateway.Types.Stats.{PeerStats, NetworkStats}
use fractalnetworks_gateway.System.{System}
use fractalnetworks_gateway.Watchdog.Peer.{
  Watch, add_traffic, add_difference, expire_at, event, endpoint_event, same_endpoint, on_world,
  expire, note_difference, note_traffic, note_endpoint, previous_of,
}
use fractalnetworks_gateway.Watchdog.Peer.Events.{Journal, update, connected, connected-append}

pub Result-cases : (r : Result (Unit {0})) → (r ≡ ok tt) ⊎ (r ≢ ok tt)
Result-cases (ok u) = inl refl
Result-cases (err e) = inr (λ h. cc)
Result-cases panic = inr (λ h. cc)

module _ {X : Crates} {S : System X} (J : Journal S) where
  abbrev pub view : X.Pubkey → X.Pubkey → Watch X S → Bool
  view n p w = connected X n p (J.sent w.world)

  -- A call that changes neither the cached peers nor the view of who is connected.
  pub record Quiet {A : Type 0} (m : Call (Watch X S) A) : Type 0 where
    pub peers : (w : Watch X S) → (m w).1.peers ≡ w.peers
    pub views : (w : Watch X S) (n p : X.Pubkey) → view n p (m w).1 ≡ view n p w

  pub Quiet-pure : {A : Type 0} (a : A) → Quiet (pure a)
  unfolding pure
  Quiet-pure a = record { peers = λ w. refl; views = λ w n p. refl }

  pub Quiet-lift : {A : Type 0} (r : Result A) → Quiet (lift r)
  unfolding lift
  Quiet-lift r = record { peers = λ w. refl; views = λ w n p. refl }

  pub Quiet-if :
      {A : Type 0} (b : Bool) (m k : Call (Watch X S) A)
      → Quiet m
      → Quiet k
      → Quiet (if b then m else k)
  Quiet-if true m k qm qk = qm
  Quiet-if false m k qm qk = qk

  module _ {A B : Type 0} (f : A → Call (Watch X S) B) (qf : (a : A) → Quiet (f a)) where
    continue_peers :
        (r : Result A) (w w' : Watch X S) → w'.peers ≡ w.peers → (continue r f w').1.peers ≡ w.peers
    continue_peers (ok a) w w' e = (qf a).peers w' ∙ e
    continue_peers (err x) w w' e = e
    continue_peers panic w w' e = e

    continue_views :
        (r : Result A) (w w' : Watch X S) (n p : X.Pubkey)
        → view n p w' ≡ view n p w
        → view n p (continue r f w').1 ≡ view n p w
    continue_views (ok a) w w' n p e = (qf a).views w' n p ∙ e
    continue_views (err x) w w' n p e = e
    continue_views panic w w' n p e = e

    Quiet-then : (m : Call (Watch X S) A) → Quiet m → Quiet (m >>= f)
    unfolding ◌>>=◌
    Quiet-then m qm = record {
      peers = λ w. continue_peers (m w).0 w (m w).1 (qm.peers w);
      views = λ w n p. continue_views (m w).0 w (m w).1 n p (qm.views w n p);
    }

  pub Quiet-bind :
      {A B : Type 0} (m : Call (Watch X S) A) (f : A → Call (Watch X S) B)
      → Quiet m
      → ((a : A) → Quiet (f a))
      → Quiet (m >>= f)
  Quiet-bind m f qm qf = Quiet-then f qf m qm

  pub Quiet-now : Quiet (on_world S S.now)
  unfolding on_world
  Quiet-now = record {
    peers = λ w. refl;
    views = λ w n p. ap (connected X n p) (J.sent-now w.world);
  }

  pub Quiet-previous_of : (key : X.Pubkey) → Quiet (previous_of S key)
  unfolding previous_of
  Quiet-previous_of key = record { peers = λ w. refl; views = λ w n p. refl }

  added_peers :
      (b : Build) (n p : X.Pubkey) (time : ℕ) (item : Traffic) (w : Watch X S)
      → (add_traffic S b n p time item w).1.peers ≡ w.peers
  unfolding add_traffic
  added_peers b n p time item w = ground arith

  added_world :
      (b : Build) (n p : X.Pubkey) (time : ℕ) (item : Traffic) (w : Watch X S)
      → (add_traffic S b n p time item w).1.world ≡ w.world
  unfolding add_traffic
  added_world b n p time item w = ground arith

  pub Quiet-add_traffic :
      (b : Build) (network peer : X.Pubkey) (time : ℕ) (item : Traffic)
      → Quiet (add_traffic S b network peer time item)
  Quiet-add_traffic b network peer time item = record {
    peers = λ w. added_peers b network peer time item w;
    views = λ w n p. rw (added_world b network peer time item w);
  }

  pub ruleset quiet_rules = (
    Quiet-pure, Quiet-lift, Quiet-if, Quiet-bind, Quiet-now, Quiet-previous_of, Quiet-add_traffic,
  )

  Quiet-expire_at : (peer : PeerStats X) (h : Option SystemTime) → Quiet (expire_at S peer h)
  unfolding expire_at
  Quiet-expire_at peer none = search quiet_rules
  Quiet-expire_at peer (some h) = search quiet_rules

  pub Quiet-expire : (peer : PeerStats X) → Quiet (expire S peer)
  unfolding expire
  Quiet-expire peer = Quiet-expire_at peer peer.latest_handshake

  Quiet-add_difference :
      (b : Build) (stats : NetworkStats X) (time : ℕ) (previous peer : PeerStats X)
      → Quiet (add_difference S b stats time previous peer)
  unfolding add_difference
  Quiet-add_difference b stats time previous peer = search quiet_rules

  Quiet-note_difference :
      (b : Build) (stats : NetworkStats X) (time : ℕ) (previous peer : PeerStats X)
      → Quiet (note_difference S b stats time previous peer)
  unfolding note_difference
  Quiet-note_difference b stats time previous peer =
      search (quiet_rules, Quiet-add_difference) depth 8

  pub Quiet-note_traffic :
      (b : Build) (stats : NetworkStats X) (previous peer : PeerStats X)
      → Quiet (note_traffic S b stats previous peer)
  unfolding note_traffic
  Quiet-note_traffic b stats previous peer = search (quiet_rules, Quiet-note_difference) depth 8

  -- A send that succeeds tells the listeners of its event; one that fails tells them nothing.
  pub view-event_ok :
      (e : GatewayEvent X) (w : Watch X S) (n p : X.Pubkey)
      → (event S e w).0 ≡ ok tt
      → view n p (event S e w).1 ≡ update X n p (view n p w) e
  unfolding on_world
  view-event_ok e w n p h = rw (J.sent-ok e w.world h) (connected-append X n p (J.sent w.world) e)

  pub view-event_failed :
      (e : GatewayEvent X) (w : Watch X S) (n p : X.Pubkey)
      → (event S e w).0 ≢ ok tt
      → view n p (event S e w).1 ≡ view n p w
  unfolding on_world
  view-event_failed e w n p h = rw (J.sent-failed e w.world h)

  pub peers-event : (e : GatewayEvent X) (w : Watch X S) → (event S e w).1.peers ≡ w.peers
  unfolding on_world
  peers-event e w = refl

  view-endpoint :
      (e : GatewayPeerEndpointEvent X) (w : Watch X S) (n p : X.Pubkey)
      → view n p (event S (endpoint e) w).1 ≡ view n p w
  view-endpoint e w n p = elim (Result-cases (event S (endpoint e) w).0) [
    | inl h ↦ view-event_ok (endpoint e) w n p h
    | inr h ↦ view-event_failed (endpoint e) w n p h
  ]

  Quiet-endpoint_event :
      (network peer : X.Pubkey) (e : Option SocketAddr) → Quiet (endpoint_event S network peer e)
  unfolding endpoint_event
  Quiet-endpoint_event network peer none = Quiet-pure tt
  Quiet-endpoint_event network peer (some e) = record {
    peers = peers-event _;
    views = view-endpoint _;
  }

  pub Quiet-note_endpoint :
      (stats : NetworkStats X) (previous peer : PeerStats X)
      → Quiet (note_endpoint S stats previous peer)
  unfolding note_endpoint
  Quiet-note_endpoint stats previous peer =
      Quiet-if (not (same_endpoint peer.endpoint previous.endpoint)) _ (pure tt)
        (Quiet-endpoint_event stats.public_key peer.public_key peer.endpoint) (Quiet-pure tt)
