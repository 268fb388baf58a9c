-- ===== src/Watchdog/Peer/Events.antt =====
-- The journal of the events sent, the view of who is connected that it gives, and what the parts of
-- `watchdog_peer` do to it.
use mathlib.Core.List.{foldl, foldl-append}
use fractalnetworks_gateway.Base.{
  ◌≡◌, ◌≢◌, refl, Bool, true, false, ◌&&◌, List, [], ◌∷◌, ◌++◌, if◌then◌else◌,
}
use fractalnetworks_gateway.Base.Text.{Text}
use fractalnetworks_gateway.Base.Result.{ok}
use fractalnetworks_gateway.Base.Map.{same}
use fractalnetworks_gateway.Crates.{Crates}
use fractalnetworks_gateway.Client.Traffic.{TrafficInfo}
use fractalnetworks_gateway.Client.Event.{GatewayEvent, peer_connected, peer_disconnected, endpoint}
use fractalnetworks_gateway.System.{System}

-- An account of the events that went out. A send that fails reached nobody, and no other call of the
-- watchdog sends an event.
pub record Journal {X : Crates} (S : System X) : Type 0 where
  pub sent : S.World → List (GatewayEvent X)
  pub sent-ok :
      (e : GatewayEvent X) (w : S.World)
      → (S.send_event e w).0 ≡ ok tt
      → sent (S.send_event e w).1 ≡ sent w ++ (e ∷ [])
  pub sent-failed :
      (e : GatewayEvent X) (w : S.World)
      → (S.send_event e w).0 ≢ ok tt
      → sent (S.send_event e w).1 ≡ sent w
  pub sent-now : (w : S.World) → sent (S.now w).1 ≡ sent w
  pub sent-netns_list : (w : S.World) → sent (S.netns_list w).1 ≡ sent w
  pub sent-traffic : (t : TrafficInfo X.Pubkey) (w : S.World) → sent (S.send_traffic t w).1 ≡ sent w
  pub sent-wireguard_stats :
      (netns wgif : Text) (w : S.World) → sent (S.wireguard_stats netns wgif w).1 ≡ sent w

module _ (X : Crates) where
  abbrev pub is_key : X.Pubkey → X.Pubkey → Bool
  is_key a b = same ⦃o = X.pubkey_order⦄ a b

  -- What one event says of a peer of a network that was connected or not.
  abbrev pub update : X.Pubkey → X.Pubkey → Bool → GatewayEvent X → Bool
  update n p b (peer_connected e) = if is_key n e.network && is_key p e.peer then true else b
  update n p b (peer_disconnected e) = if is_key n e.network && is_key p e.peer then false else b
  update n p b (endpoint e) = b

  -- Whether a listener takes a peer of a network for connected, after these events.
  pub connected : X.Pubkey → X.Pubkey → List (GatewayEvent X) → Bool
  connected n p = foldl (update n p) false

  pub connected-nil : (n p : X.Pubkey) → connected n p [] ≡ false
  unfolding connected
  connected-nil n p = refl

  pub connected-append :
      (n p : X.Pubkey) (es : List (GatewayEvent X)) (e : GatewayEvent X)
      → connected n p (es ++ (e ∷ [])) ≡ update n p (connected n p es) e
  unfolding connected
  connected-append n p es e = rw foldl-append
