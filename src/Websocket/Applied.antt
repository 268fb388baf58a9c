-- ===== src/Websocket/Applied.antt =====
-- What an answer of src/websocket.rs tells the manager of the machine.
use mathlib.Core.Path.{subst}
use fractalnetworks_gateway.Base.{Bool, ◌≡◌, refl, sym, ◌∙◌, List, [], ◌∷◌, ◌++◌, All}
use fractalnetworks_gateway.Base.Map.Laws.{IsSorted}
use fractalnetworks_gateway.Base.Orders.{nat_order}
use fractalnetworks_gateway.Base.Text.{Text}
use fractalnetworks_gateway.Base.Result.{Result, ok, err, panic}
use fractalnetworks_gateway.Base.Word.{Build}
use fractalnetworks_gateway.Crates.{Crates}
use fractalnetworks_gateway.Client.Config.{GatewayConfig}
use fractalnetworks_gateway.Client.Event.{GatewayRequest, GatewayResponse, applied}
use fractalnetworks_gateway.System.{System}
use fractalnetworks_gateway.Gateway.Iptables.Cleaning.{Replaces}
use fractalnetworks_gateway.Gateway.Namespaces.{Namespaces}
use fractalnetworks_gateway.Gateway.Effects.{Effects}
use fractalnetworks_gateway.Gateway.Effects.Serving.{IsServed}
use fractalnetworks_gateway.Gateway.Effects.Loading.{IsConfigured}
use fractalnetworks_gateway.Gateway.Nginx.{CustomForwarding}
use fractalnetworks_gateway.Gateway.Apply.{Gateway, networks_of, apply, on_world}
use fractalnetworks_gateway.Gateway.Settled.{view}
use fractalnetworks_gateway.Gateway.Settled.Twice.{InPlace}
use fractalnetworks_gateway.Gateway.Kernel.{Kernel}
use fractalnetworks_gateway.Gateway.Kernel.Placed.{Plain}
use fractalnetworks_gateway.Gateway.Kernel.Reaching.{apply-reaches}
use fractalnetworks_gateway.Websocket.{Connection, text_message, message, Session, round}
use fractalnetworks_gateway.Websocket.Answers.{SendLog, Tells, round-apply}

same_last : {A : Type 0} (l : List A) (a b : A) → l ++ (a ∷ []) ≡ l ++ (b ∷ []) → a ≡ b
same_last [] a b h = cc
same_last (x ∷ l) a b h = same_last l a b cc

-- Only success is told as such.
told_applied : (r : Result (Unit {0})) → Tells r applied → r ≡ ok tt
told_applied (ok u) h = refl
told_applied (err []) h = absurd h
told_applied (err (c ∷ causes)) h = absurd h
told_applied panic h = absurd h

-- The configuration is stored and in place, the WireGuard interfaces were synchronised with it, and NGINX
-- runs with it.
pub record IsInForce {X : Crates} {S : System X} (E : Effects S) (b : Build)
    (custom : CustomForwarding X) (config : GatewayConfig X) (g : Gateway S) : Type 0 where
  pub stored : g.config ≡ config
  pub in_place : InPlace S b (networks_of config) (view S g.world)
  pub configured : All (IsConfigured E g.world) (networks_of config)
  pub served : IsServed E b (networks_of config) custom g.world

module _ {X : Crates} {S : System X} (K : Kernel S) (H : Namespaces S) (E : Effects S)
    (R : Replaces S.replace_counter) (plain : Plain K) (N : Connection X) (L : SendLog N)
    (b : Build) (custom : CustomForwarding X) where
  after_apply :
      (config : GatewayConfig X) (g : Gateway S)
      → IsSorted config
      → (apply S b custom config g).0 ≡ ok tt
      → IsInForce E b custom config (apply S b custom config g).1
  unfolding apply on_world
  after_apply config g sorted h = record {
    stored = refl;
    in_place = (apply-reaches K H E R plain b custom config g sorted h).0;
    configured = (apply-reaches K H E R plain b custom config g sorted h).1;
    served = (apply-reaches K H E R plain b custom config g sorted h).2;
  }

  -- If the calls of the system do what they say, rendered rules hold no carriage return and are, cleaned,
  -- in the form in which they are saved, the replacement of counters is as `clean_iptables` needs it, and the configuration has its ports in order, and a
  -- round that serves a request to apply it returned and sent the manager that it was applied, then that
  -- configuration is stored, everything that `apply` reads back is in place, whatever was there before,
  -- the WireGuard interface of each network was last synchronised with the file of its keys, port and
  -- peers, and NGINX runs with what was rendered for the networks.
  pub round-IsInForce :
      (t : Text) (config : GatewayConfig X) (s : Session S N b custom) (go : Bool)
      → N.from_str t ≡ ok (GatewayRequest.apply config)
      → IsSorted config
      → (round S N b custom (message (text_message t)) s).0 ≡ ok go
      → L.sent (round S N b custom (message (text_message t)) s).1.socket
        ≡ L.sent s.socket ++ (GatewayResponse.apply applied ∷ [])
      → IsInForce E b custom config (round S N b custom (message (text_message t)) s).1.gateway
  round-IsInForce t config s go f sorted h told =
      let (status, _, e, log, left) = round-apply S N L b custom t config s go f h in
      let same =
        same_last (L.sent s.socket) (GatewayResponse.apply status) (GatewayResponse.apply applied)
          (sym log ∙ told) in
      let success : status ≡ applied = cc in
      let returned =
        told_applied (apply S b custom config s.gateway).0
          (subst (Tells (apply S b custom config s.gateway).0) success e) in
      subst (IsInForce E b custom config) (sym left) (after_apply config s.gateway sorted returned)
