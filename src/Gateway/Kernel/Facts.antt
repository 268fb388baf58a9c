-- ===== src/Gateway/Kernel/Facts.antt =====
-- The facts that `apply_network` of src/gateway.rs sets up for a network, and that together they say that
-- the network is in place.
use mathlib.Core.Path.{subst}
use fractalnetworks_gateway.Base.{
  ℕ, ◌≡◌, sym, ◌∙◌, true, Option, none, some, List, [], ◌∷◌, map, All,
}
use fractalnetworks_gateway.Base.Text.{Text}
use fractalnetworks_gateway.Base.Result.{ok}
use fractalnetworks_gateway.Base.Word.{Build}
use fractalnetworks_gateway.Base.Split.{lacks, carriage_return}
use fractalnetworks_gateway.Crates.{Crates}
use fractalnetworks_gateway.Client.Config.{NetworkState}
use fractalnetworks_gateway.Types.Names.{netns_name, wgif_name, veth_name}
use fractalnetworks_gateway.Types.Bridge.{veth_ipv4net}
use fractalnetworks_gateway.Types.Ports.{PortConfig, port_config}
use fractalnetworks_gateway.System.{System, InterfaceStatus}
use fractalnetworks_gateway.Gateway.Iptables.{clean_iptables}
use fractalnetworks_gateway.Gateway.Iptables.Cleaning.{Replaces, clean_iptables_twice}
use fractalnetworks_gateway.Gateway.Iptables.Rules.{clean-Shown}
use fractalnetworks_gateway.Gateway.Interfaces.{bridge_interface, has_addr}
use fractalnetworks_gateway.Gateway.Settled.{View, HasAddresses, IsUp, Settled}
use fractalnetworks_gateway.Gateway.Kernel.{
  Fact, namespace, wireguard, veth, readable, address, up, mtu, master, rules, Holds,
}

-- What is computed for a network: the address of its pair of interfaces, and its rules, which hold no
-- carriage return.
pub record Ready {X : Crates} (S : System X) (b : Build) (n : NetworkState X) : Type 0 where
  pub net : X.Ipv4Net
  pub net_ok : veth_ipv4net X n ≡ ok net
  pub config : PortConfig
  pub config_ok : port_config b n ≡ ok config
  pub rendered : Text
  pub rendered_ok : S.render_iptables config ≡ ok rendered
  pub clean : lacks carriage_return rendered ≡ true

module _ {X : Crates} (S : System X) (b : Build) (n : NetworkState X) (r : Ready S b n) where
  abbrev pub facts_of : List (Fact X)
  facts_of =
      namespace (netns_name n)
      ∷ wireguard (netns_name n) (wgif_name n)
      ∷ up (some (netns_name n)) (wgif_name n)
      ∷ mtu (some (netns_name n)) (wgif_name n) n.mtu
      ∷ readable (some (netns_name n)) (wgif_name n)
      ∷ veth (netns_name n) (veth_name n)
      ∷ address (some (netns_name n)) (veth_name n) (X.from_ipv4net r.net)
      ∷ master (veth_name n) bridge_interface
      ∷ up (some (netns_name n)) (veth_name n)
      ∷ up none (veth_name n)
      ∷ rules (netns_name n) (clean_iptables S.replace_counter r.rendered)
      ∷ map (address (some (netns_name n)) (wgif_name n)) n.address

module _ {X : Crates} (S : System X) (v : View X) (o : Option Text) (i : Text) where
  -- The addresses that are there are read in one answer.
  All-present :
      (current : List X.IpNet)
      → v.addr_list o i ≡ ok current
      → (l : List X.IpNet) → All (Holds S v) (map (address o i) l)
      → All (λ a. has_addr S current a ≡ true) l
  All-present current e [] h = tt
  All-present current e (a ∷ l) ((current', e', k), hs) =
      let same : current' ≡ current = cc in
      (subst (λ c. has_addr S c a ≡ true) same k, All-present current e l hs)

  pub has_addresses :
      Holds S v (readable o i)
      → (l : List X.IpNet) → All (Holds S v) (map (address o i) l)
      → HasAddresses S v o i l
  has_addresses (current, e) l h = record {
    current = current;
    listed = e;
    present = All-present current e l h;
  }

  same_status : (m : ℕ) (u : IsUp v o i) → Holds S v (mtu o i m) → u.status.mtu ≡ some m
  same_status m u (status, e, k) =
      let shown = u.shown in
      let same : status ≡ u.status = cc in subst (λ (s : InterfaceStatus). s.mtu ≡ some m) same k

module _ {X : Crates} {S : System X} {b : Build} (R : Replaces S.replace_counter)
    (n : NetworkState X) (r : Ready S b n) (v : View X) where
  pub facts-Settled : All (Holds S v) (facts_of S b n r) → Settled S b n v
  facts-Settled
        (
          ns,
          (
            wg,
            (
              wg_up,
              (
                unit,
                (wg_read, (pair, (pair_addr, (mas, (inner, (outer, ((saved, e, k), addrs))))))),
              ),
            ),
          ),
        ) =
      record {
        namespace = ns;
        wireguard = wg;
        wireguard_up = wg_up;
        mtu = same_status S v (some (netns_name n)) (wgif_name n) n.mtu wg_up unit;
        addresses = has_addresses S v (some (netns_name n)) (wgif_name n) wg_read n.address addrs;
        veth = pair;
        veth_net = r.net;
        veth_net_ok = r.net_ok;
        veth_address =
            has_addresses S v (some (netns_name n)) (veth_name n) (pair_addr.0, pair_addr.1)
              (X.from_ipv4net r.net ∷ []) (pair_addr, tt);
        master = mas;
        inner_up = inner;
        outer_up = outer;
        config = r.config;
        config_ok = r.config_ok;
        rendered = r.rendered;
        rendered_ok = r.rendered_ok;
        saved = saved;
        saved_ok = e;
        same_rules = sym (
            clean-Shown S.replace_counter R saved (clean_iptables S.replace_counter r.rendered) k
            ∙ clean_iptables_twice S.replace_counter R r.rendered r.clean);
      }
