-- ===== src/Watchdog/Network/Apart.antt =====
-- A run over one network of src/watchdog.rs says nothing of another one, and where every event goes out it
-- leaves the listeners in agreement with the cache whatever its outcome.
use fractalnetworks_gateway.Base.{◌≡◌, refl, ◌∙◌, false, List, [], ◌∷◌, inl, inr}
use fractalnetworks_gateway.Base.Result.{Result, ok, err, panic, Call, continue, ◌>>=◌}
use fractalnetworks_gateway.Base.Word.{Build}
use fractalnetworks_gateway.Crates.{Crates}
use fractalnetworks_gateway.Client.Event.{GatewayEvent, peer_disconnected}
use fractalnetworks_gateway.Types.Stats.{PeerStats, NetworkStats}
use fractalnetworks_gateway.System.{System}
use fractalnetworks_gateway.Watchdog.Peer.{Watch, disconnected_event, watchdog_peer, on_world}
use fractalnetworks_gateway.Watchdog.Peer.Events.{Journal, is_key}
use fractalnetworks_gateway.Watchdog.Peer.Quiet.{
  view, view-event_ok, view-event_failed, Result-cases,
}
use fractalnetworks_gateway.Watchdog.Peer.Tracking.{
  Tracks, watchdog_peer-Tracks, watchdog_peer_elsewhere,
}
use fractalnetworks_gateway.Watchdog.Network.{
  swallowed, swallow, peer_loop, dead_peers, drop_peer, remove_loop, sweep, watchdog_entry,
}
use fractalnetworks_gateway.Watchdog.Network.Sweep.{peer_loop-Tracks, remove_loop-Removed}

module _ {X : Crates} (S : System X) where
  -- Every event goes out.
  abbrev pub Delivers : Type 0
  Delivers = (e : GatewayEvent X) (w : S.World) → (S.send_event e w).0 ≡ ok tt

module _ {X : Crates} {S : System X} (J : Journal S) (b : Build) (stats : NetworkStats X) where
  module _ (n p : X.Pubkey) (apart : is_key X n stats.public_key ≡ false) where
    -- What follows a step says nothing of the network either.
    then_elsewhere :
        (r : Result (Unit {0})) (k : Call (Watch X S) (Unit {0})) (w : Watch X S)
        → view J n p (k w).1 ≡ view J n p w
        → view J n p (continue r (λ _. k) w).1 ≡ view J n p w
    then_elsewhere (ok u) k w h = h
    then_elsewhere (err e) k w h = refl
    then_elsewhere panic k w h = refl

    peer_loop_elsewhere :
        (peers : List (PeerStats X)) (w : Watch X S)
        → Tracks J stats w
        → view J n p (peer_loop S b stats peers w).1 ≡ view J n p w
    unfolding peer_loop ◌>>=◌ swallow
    peer_loop_elsewhere [] w t = refl
    peer_loop_elsewhere (peer ∷ peers) w t =
        let (r, w') = watchdog_peer S b stats peer w in
        then_elsewhere (swallowed r) (peer_loop S b stats peers) w'
          (peer_loop_elsewhere peers w' (watchdog_peer-Tracks J stats b peer w t))
        ∙ watchdog_peer_elsewhere J stats b peer w n p t apart

    disconnected_elsewhere :
        (k : X.Pubkey) (w : Watch X S)
        → view J n p (disconnected_event S stats.public_key k w).1 ≡ view J n p w
    disconnected_elsewhere k w = elim (Result-cases (disconnected_event S stats.public_key k w).0) [
      | inl h ↦ view-event_ok J _ w n p h ∙ rw apart refl
      | inr h ↦ view-event_failed J _ w n p h
    ]

    remove_loop_elsewhere :
        (dead : List X.Pubkey) (w : Watch X S)
        → view J n p (remove_loop S stats.public_key dead w).1 ≡ view J n p w
    unfolding remove_loop ◌>>=◌
    remove_loop_elsewhere [] w = refl
    remove_loop_elsewhere (k ∷ dead) w =
        let sent = disconnected_event S stats.public_key k (drop_peer S k w) in
        then_elsewhere sent.0 (remove_loop S stats.public_key dead) sent.1
          (remove_loop_elsewhere dead sent.1)
        ∙ disconnected_elsewhere k (drop_peer S k w)

    -- What the listeners know of another network stays as it is.
    pub watchdog_entry_elsewhere :
        (w : Watch X S)
        → Tracks J stats w
        → view J n p (watchdog_entry S b stats w).1 ≡ view J n p w
    unfolding watchdog_entry ◌>>=◌
    watchdog_entry_elsewhere w t =
        let (r, w') = peer_loop S b stats stats.peers w in
        then_elsewhere r (sweep S stats) w'
          (remove_loop_elsewhere (dead_peers S stats.peers w'.peers) w')
        ∙ peer_loop_elsewhere stats.peers w t

  module _ (delivers : Delivers S) where
    pub remove_loop_returns :
        (dead : List X.Pubkey) (w : Watch X S) → (remove_loop S stats.public_key dead w).0 ≡ ok tt
    unfolding remove_loop ◌>>=◌ on_world
    remove_loop_returns [] w = refl
    remove_loop_returns (k ∷ dead) w =
        rw (delivers (peer_disconnected (record { network = stats.public_key; peer = k })) w.world)
          (remove_loop_returns dead _)

    -- Also where the run panics.
    pub watchdog_entry_keeps :
        (w : Watch X S) → Tracks J stats w → Tracks J stats (watchdog_entry S b stats w).1
    unfolding watchdog_entry ◌>>=◌
    watchdog_entry_keeps w t =
        let (r, w') = peer_loop S b stats stats.peers w in
        kept r w' (peer_loop-Tracks J b stats stats.peers w t)
      where
        kept :
            (r : Result (Unit {0})) (w' : Watch X S)
            → Tracks J stats w'
            → Tracks J stats (continue r (λ _. sweep S stats) w').1
        kept (ok u) w' t' =
            let dead = dead_peers S stats.peers w'.peers in
            (remove_loop-Removed J b stats dead w' t' (remove_loop_returns dead w')).tracks
        kept (err x) w' t' = t'
        kept panic w' t' = t'
