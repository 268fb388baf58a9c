-- ===== src/Gateway/Kernel/Placed.antt =====
-- `apply` of src/gateway.rs over the networks of a configuration: each is brought into place and stays in
-- place while the next ones are.
use mathlib.Core.Path.{subst}
use fractalnetworks_gateway.Base.{ℕ, ◌≡◌, ◌≢◌, sym, List, [], ◌∷◌, All, true}
use fractalnetworks_gateway.Base.Map.Laws.{Below, IsSorted}
use fractalnetworks_gateway.Base.Orders.{nat_order}
use fractalnetworks_gateway.Base.Text.{Text}
use fractalnetworks_gateway.Base.Result.{ok, Call, pure}
use fractalnetworks_gateway.Base.Frames.{bind_ok}
use fractalnetworks_gateway.Base.Word.{Build}
use fractalnetworks_gateway.Base.Split.{lacks, carriage_return}
use fractalnetworks_gateway.Crates.{Crates}
use fractalnetworks_gateway.Client.Config.{NetworkState, GatewayConfig}
use fractalnetworks_gateway.Types.Ports.{PortConfig}
use fractalnetworks_gateway.System.{System}
use fractalnetworks_gateway.Gateway.Iptables.{clean_iptables}
use fractalnetworks_gateway.Gateway.Iptables.Cleaning.{Replaces}
use fractalnetworks_gateway.Gateway.Network.{apply_network}
use fractalnetworks_gateway.Gateway.Apply.{networks_of, apply_networks}
use fractalnetworks_gateway.Gateway.Settled.{view, Settled}
use fractalnetworks_gateway.Gateway.Kernel.{Fact, HoldsIn, Kernel}
use fractalnetworks_gateway.Gateway.Kernel.Facts.{Ready, facts_of, facts-Settled}
use fractalnetworks_gateway.Gateway.Kernel.Keeping.{Keeps, Keeps-pure, Keeps-bind}
use fractalnetworks_gateway.Gateway.Kernel.Making.{Makes}
use fractalnetworks_gateway.Gateway.Kernel.Networks.{Makes-facts, ready_network, Keeps-facts}

module _ {X : Crates} where
  -- The network is on another port than each of the others.
  abbrev pub IsApart : NetworkState X → List (NetworkState X) → Type 0
  IsApart n networks = All (λ (m : NetworkState X). m.listen_port ≢ n.listen_port) networks

  abbrev pub AllApart : List (NetworkState X) → Type 0
  AllApart [] = Unit
  AllApart (n ∷ networks) = IsApart n networks × AllApart networks

module _ {X : Crates} {S : System X} (K : Kernel S) where
  -- The rules that are rendered hold no carriage return, and those that are left when they are cleaned are
  -- in the form in which they are saved.
  abbrev pub Plain : Type 0
  Plain =
      (config : PortConfig) (t : Text)
      → S.render_iptables config ≡ ok t
      → (lacks carriage_return t ≡ true) × K.saved_form (clean_iptables S.replace_counter t)

module _ {X : Crates} (S : System X) where
  facts_made :
      (gs : List (Fact X)) (m : Call S.World (Unit {0})) (w : S.World) (u : Unit {0})
      → (m w).0 ≡ ok u
      → All (λ g. Makes S g m) gs
      → All (HoldsIn S (m w).1) gs
  facts_made [] m w u p h = tt
  facts_made (g ∷ gs) m w u p (h, hs) = (h.makes w u p, facts_made gs m w u p hs)

  pub facts_kept :
      (gs : List (Fact X)) (m : Call S.World (Unit {0})) (w : S.World) (u : Unit {0})
      → (m w).0 ≡ ok u
      → All (λ g. Keeps S g m) gs
      → All (HoldsIn S w) gs
      → All (HoldsIn S (m w).1) gs
  facts_kept [] m w u p h held = tt
  facts_kept (g ∷ gs) m w u p (h, hs) (held, rest) =
      (h.keeps w u p held, facts_kept gs m w u p hs rest)

-- All that is set up for the network is there.
pub record Placed {X : Crates} (S : System X) (b : Build) (w : S.World) (n : NetworkState X)
    : Type 0 where
  pub ready : Ready S b n
  pub facts : All (HoldsIn S w) (facts_of S b n ready)

module _ {X : Crates} {S : System X} (K : Kernel S) (b : Build) where
  pub Keeps-apply_networks :
      (g : Fact X) (networks : List (NetworkState X))
      → All (λ n. Keeps S g (apply_network S b n)) networks
      → Keeps S g (apply_networks S b networks)
  unfolding apply_networks
  Keeps-apply_networks g [] h = Keeps-pure tt
  Keeps-apply_networks g (n ∷ networks) (h, hs) =
      Keeps-bind _ _ h (λ _. Keeps-apply_networks g networks hs)

  later_network :
      (n m : NetworkState X)
      → m.listen_port ≢ n.listen_port
      → (w : S.World) (u : Unit {0}) → (apply_network S b m w).0 ≡ ok u
      → Placed S b w n
      → Placed S b (apply_network S b m w).1 n
  later_network n m apart w u p h = record {
    ready = h.ready;
    facts =
        facts_kept S (facts_of S b n h.ready) (apply_network S b m) w u p
          (Keeps-facts K b n m apart h.ready) h.facts;
  }

  later_networks :
      (n : NetworkState X) (networks : List (NetworkState X))
      → IsApart n networks
      → (w : S.World) (u : Unit {0}) → (apply_networks S b networks w).0 ≡ ok u
      → Placed S b w n
      → Placed S b (apply_networks S b networks w).1 n
  unfolding apply_networks pure
  later_networks n [] apart w u p h = h
  later_networks n (m ∷ networks) (first, apart) w u p h =
      let (v, q, q', r) = bind_ok (apply_network S b m) (λ _. apply_networks S b networks) w u p in
      let w₁ = (apply_network S b m w).1 in
      subst (λ w'. Placed S b w' n) (sym r)
        (later_networks n networks apart w₁ u q' (later_network n m first w v q h))

  module _ (R : Replaces S.replace_counter) (plain : Plain K) where
    apply_network-Placed :
        (n : NetworkState X) (w : S.World) (u : Unit {0})
        → (apply_network S b n w).0 ≡ ok u
        → Placed S b (apply_network S b n w).1 n
    apply_network-Placed n w u p =
        let ready = ready_network K b n plain w u p in
        record {
          ready = ready;
          facts =
              facts_made S (facts_of S b n ready) (apply_network S b n) w u p
                (Makes-facts K b n R ready (plain ready.config ready.rendered ready.rendered_ok).1);
        }

    -- After the networks are applied, each is in place.
    pub apply_networks-Placed :
        (networks : List (NetworkState X))
        → AllApart networks
        → (w : S.World) (u : Unit {0}) → (apply_networks S b networks w).0 ≡ ok u
        → All (Placed S b (apply_networks S b networks w).1) networks
    unfolding apply_networks
    apply_networks-Placed [] apart w u p = tt
    apply_networks-Placed (n ∷ networks) (apart, rest) w u p =
        let (v, q, q', r) =
          bind_ok (apply_network S b n) (λ _. apply_networks S b networks) w u p in
        let w₁ = (apply_network S b n w).1 in
        subst (λ w'. All (Placed S b w') (n ∷ networks)) (sym r)
          (
            later_networks n networks apart w₁ u q' (apply_network-Placed n w v q),
            apply_networks-Placed networks rest w₁ u q',
          )

  pub Placed-Settled :
      Replaces S.replace_counter
      → (networks : List (NetworkState X)) (w : S.World) → All (Placed S b w) networks
      → All (λ n. Settled S b n (view S w)) networks
  Placed-Settled R [] w h = tt
  Placed-Settled R (n ∷ networks) w (h, hs) =
      (facts-Settled R n h.ready (view S w) h.facts, Placed-Settled R networks w hs)

module _ {X : Crates} where
  Below-IsApart :
      (port : ℕ) (network : NetworkState X) (config : GatewayConfig X)
      → Below port config
      → IsApart (record network { listen_port = port }) (networks_of config)
  unfolding networks_of
  Below-IsApart port network [] h = tt
  Below-IsApart port network ((k, n) ∷ config) (h, hs) =
      let same = nat_order.cmp_refl port in (λ e. absurd cc, Below-IsApart port network config hs)

  -- The networks of a map are on different ports.
  pub networks_apart : (config : GatewayConfig X) → IsSorted config → AllApart (networks_of config)
  unfolding networks_of
  networks_apart [] s = tt
  networks_apart ((port, network) ∷ config) (h, s) =
      (Below-IsApart port network config h, networks_apart config s)
