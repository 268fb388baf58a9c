-- ===== src/Watchdog/Peer/Returning.antt =====
-- `watchdog_peer` of src/watchdog.rs in a release build returns where events go out, the clock stands after
-- the Unix epoch, and a peer with a handshake has an endpoint.
use fractalnetworks_gateway.Base.{
  ℕ, ◌+◌, ◌-◌, ◌%◌, ◌≡◌, refl, Bool, true, false, not, Option, none, some, if◌then◌else◌, ltb, leb,
}
use fractalnetworks_gateway.Base.Result.{ok}
use fractalnetworks_gateway.Base.Returns.{
  Yields, Yields-bind, Returns, Returns-pure, Returns-lift, Returns-if, Returns-bind, Returns-known,
}
use fractalnetworks_gateway.Base.Map.{Order}
use fractalnetworks_gateway.Base.Time.{SystemTime, unix_epoch}
use fractalnetworks_gateway.Base.Word.{release, add_usize, sub_usize, usize_size}
use fractalnetworks_gateway.Crates.{Crates, SocketAddr}
use fractalnetworks_gateway.Client.Event.{GatewayEvent}
use fractalnetworks_gateway.Client.Traffic.{
  Traffic, DeviceTraffic, NetworkTraffic, TrafficInfo, add_assign, add_device, add_network,
  add_info,
}
use fractalnetworks_gateway.Types.Stats.{PeerStats, NetworkStats}
use fractalnetworks_gateway.System.{System}
use fractalnetworks_gateway.Watchdog.Peer.{
  Watch, on_world, event, add_traffic, add_difference, note_difference, note_traffic,
  endpoint_event, note_endpoint, same_endpoint, announce_change, announce_new, connected_event,
  report, is_invalid,
}

-- Every event goes out, and the clock shows one time, after the Unix epoch.
pub record Calm {X : Crates} (S : System X) (now : SystemTime) : Type 0 where
  pub delivers : (e : GatewayEvent X) (w : S.World) → (S.send_event e w).0 ≡ ok tt
  pub clock : (w : S.World) → (S.now w).0 ≡ ok now
  pub after_epoch : leb unix_epoch now ≡ true

-- Sums and differences on `usize` wrap around.
Yields-if : (c : Bool) (m n : ℕ) → Yields (if c then ok m else ok n)
Yields-if true m n = (m, refl)
Yields-if false m n = (n, refl)

Yields-add_usize : (m n : ℕ) → Yields (add_usize release m n)
unfolding add_usize
Yields-add_usize m n = Yields-if (ltb (m + n) usize_size) (m + n) ((m + n) % usize_size)

Yields-sub_usize : (m n : ℕ) → Yields (sub_usize release m n)
unfolding sub_usize
Yields-sub_usize m n = Yields-if (leb n m) (m - n) ((m + usize_size - n) % usize_size)

Yields-add_assign : (self other : Traffic) → Yields (add_assign release self other)
unfolding add_assign
Yields-add_assign self other =
    Yields-bind _ _ (Yields-add_usize self.tx other.tx)
      (λ tx. Yields-bind _ _ (Yields-add_usize self.rx other.rx) (λ rx. (_, refl)))

Yields-add_device :
    (self : DeviceTraffic) (time : ℕ) (t : Traffic) → Yields (add_device release self time t)
unfolding add_device
Yields-add_device self time t =
    Yields-bind _ _ (Yields-add_assign self.traffic t) (λ total. (_, refl))

module _ {Pubkey : Type 0} ⦃o : Order Pubkey⦄ where
  Yields-add_network :
      (self : NetworkTraffic Pubkey) (k : Pubkey) (time : ℕ) (t : Traffic)
      → Yields (add_network release self k time t)
  unfolding add_network
  Yields-add_network self k time t =
      Yields-bind _ _ (Yields-add_assign self.traffic t)
        (λ total. Yields-bind _ _ (Yields-add_device _ time t) (λ d. (_, refl)))

  Yields-add_info :
      (self : TrafficInfo Pubkey) (n k : Pubkey) (time : ℕ) (t : Traffic)
      → Yields (add_info release self n k time t)
  unfolding add_info
  Yields-add_info self n k time t =
      Yields-bind _ _ (Yields-add_assign self.traffic t)
        (λ total. Yields-bind _ _ (Yields-add_network _ k time t) (λ d. (_, refl)))

module _ {X : Crates} {S : System X} where
  Returns-add_traffic :
      (n k : X.Pubkey) (time : ℕ) (t : Traffic) → Returns (add_traffic S release n k time t)
  unfolding add_traffic
  Returns-add_traffic n k time t = record {
    returns = λ w.
        let (traffic, e) = Yields-add_info ⦃o = X.pubkey_order⦄ w.traffic n k time t in
        (tt, rw (add_traffic, e) refl);
  }

  Returns-note_difference :
      (stats : NetworkStats X) (time : ℕ) (previous peer : PeerStats X)
      → Returns (note_difference S release stats time previous peer)
  unfolding note_difference add_difference
  Returns-note_difference stats time previous peer =
      Returns-bind _ _ (Returns-lift _ (Yields-sub_usize _ _)) (λ rx.
        Returns-bind _ _ (Returns-lift _ (Yields-sub_usize _ _)) (λ tx.
          Returns-bind _ _ (Returns-lift _ (Yields-add_usize _ _)) (λ difference.
            Returns-if (ltb 0 difference) _ _
              (Returns-bind _ _ (Returns-lift _ (Yields-sub_usize _ _)) (λ rx'.
                Returns-bind _ _ (Returns-lift _ (Yields-sub_usize _ _))
                  (λ tx'. Returns-add_traffic _ _ time _)))
              (Returns-pure tt))))

  module _ {now : SystemTime} (C : Calm S now) where
    Returns-event : (e : GatewayEvent X) → Returns (event S e)
    unfolding on_world
    Returns-event e = record { returns = λ w. (tt, C.delivers e w.world) }

    clock_lem : (w : Watch X S) → (on_world S S.now w).0 ≡ ok now
    unfolding on_world
    clock_lem w = C.clock w.world

    Returns-note_traffic :
        (stats : NetworkStats X) (previous peer : PeerStats X)
        → Returns (note_traffic S release stats previous peer)
    unfolding note_traffic
    Returns-note_traffic stats previous peer = Returns-known _ _ now clock_lem (
        Returns-bind _ _ (Returns-lift _ (rw C.after_epoch (_, refl))) (λ since.
          Returns-if (is_invalid previous peer) _ _ (Returns-pure tt)
            (Returns-note_difference stats _ previous peer)))

    Returns-endpoint_event :
        (n k : X.Pubkey) (e : Option SocketAddr) → Returns (endpoint_event S n k e)
    unfolding endpoint_event
    Returns-endpoint_event n k none = Returns-pure tt
    Returns-endpoint_event n k (some e) = Returns-event _

    Returns-note_endpoint :
        (stats : NetworkStats X) (previous peer : PeerStats X)
        → Returns (note_endpoint S stats previous peer)
    unfolding note_endpoint
    Returns-note_endpoint stats previous peer =
        Returns-if (not (same_endpoint peer.endpoint previous.endpoint)) _ _
          (Returns-endpoint_event stats.public_key peer.public_key peer.endpoint) (Returns-pure tt)

    module _ (stats : NetworkStats X) (peer : PeerStats X) (e : SocketAddr)
        (known : peer.endpoint ≡ some e) where
      Returns-connected_event : Returns (connected_event S stats peer)
      Returns-connected_event =
          Returns-bind _ _ (Returns-lift _ (rw known (e, refl))) (λ e'. Returns-event _)

      Returns-announce_change :
          (old new : Option SystemTime) → Returns (announce_change S stats peer old new)
      unfolding announce_change
      Returns-announce_change (some _) none = Returns-event _
      Returns-announce_change none (some _) = Returns-connected_event
      Returns-announce_change none none = Returns-pure tt
      Returns-announce_change (some _) (some _) = Returns-pure tt

      Returns-announce_new : (new : Option SystemTime) → Returns (announce_new S stats peer new)
      unfolding announce_new
      Returns-announce_new none = Returns-pure tt
      Returns-announce_new (some _) = Returns-connected_event

      pub Returns-report :
          (previous : Option (PeerStats X)) → Returns (report S release stats previous peer)
      unfolding report
      Returns-report none = Returns-announce_new peer.latest_handshake
      Returns-report (some previous) =
          Returns-bind _ _ (Returns-note_traffic stats previous peer) (λ _.
            Returns-bind _ _ (Returns-note_endpoint stats previous peer)
              (λ _. Returns-announce_change previous.latest_handshake peer.latest_handshake))
