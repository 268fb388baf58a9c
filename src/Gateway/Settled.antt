-- ===== src/Gateway/Settled.antt =====
-- What `apply_network` of src/gateway.rs does where the network is in place already. The view is what the
-- reading calls answer in a world.
pub mod Again
pub mod Twice
use fractalnetworks_gateway.Base.{
  ℕ, ◌≡◌, refl, ap, ◌∙◌, Bool, true, false, Option, none, some, List, [], ◌∷◌, ◌++◌, ◌==◌, All,
  if◌then◌else◌, arith,
}
use fractalnetworks_gateway.Base.Text.{Text, text, eq, eq_iff}
use fractalnetworks_gateway.Base.Result.{Result, ok, Call, pure, context, ◌>>=◌, ◌>>◌}
use fractalnetworks_gateway.Base.Frames.{Frames}
use fractalnetworks_gateway.Base.Word.{Build}
use fractalnetworks_gateway.Crates.{Crates}
use fractalnetworks_gateway.Client.Config.{NetworkState}
use fractalnetworks_gateway.Types.Names.{netns_name, wgif_name, veth_name}
use fractalnetworks_gateway.Types.Bridge.{veth_ipv4net}
use fractalnetworks_gateway.Types.Ports.{PortConfig, port_config}
use fractalnetworks_gateway.Types.Stats.{NetnsItem}
use fractalnetworks_gateway.Types.Wireguard.{to_config}
use fractalnetworks_gateway.System.{System, InterfaceStatus}
use fractalnetworks_gateway.Gateway.Iptables.{clean_iptables, apply_forwarding}
use fractalnetworks_gateway.Gateway.Interfaces.{
  bridge_interface, has_addr, add_missing, apply_addr, apply_interface_up, apply_link_master,
}
use fractalnetworks_gateway.Gateway.Network.{
  apply_netns, apply_wireguard, apply_veth, apply_network,
}

pub record View (X : Crates) : Type 0 where
  pub netns_list : Result (List NetnsItem)
  pub netns_exists : Text → Result Bool
  pub bridge_exists : Option Text → Text → Result Bool
  pub addr_list : Option Text → Text → Result (List X.IpNet)
  pub interface_show : Option Text → Text → Result InterfaceStatus
  pub wireguard_exists : Text → Text → Result Bool
  pub veth_exists : Text → Text → Result Bool
  pub link_get_master : Option Text → Text → Result (Option Text)
  pub iptables_save : Option Text → Result Text

abbrev pub view : {X : Crates} (S : System X) → S.World → View X
view S w = record {
  netns_list = (S.netns_list w).0;
  netns_exists = λ n. (S.netns_exists n w).0;
  bridge_exists = λ o i. (S.bridge_exists o i w).0;
  addr_list = λ o i. (S.addr_list o i w).0;
  interface_show = λ o i. (S.interface_show o i w).0;
  wireguard_exists = λ n i. (S.wireguard_exists n i w).0;
  veth_exists = λ n i. (S.veth_exists n i w).0;
  link_get_master = λ o i. (S.link_get_master o i w).0;
  iptables_save = λ o. (S.iptables_save o w).0;
}

-- A call that reads leaves the world as it is. Neither the file of a WireGuard interface nor its peers and
-- keys are something that the other calls read.
pub record Steady {X : Crates} (S : System X) : Type 0 where
  pub reads-netns_list : (w : S.World) → (S.netns_list w).1 ≡ w
  pub reads-netns_exists : (n : Text) (w : S.World) → (S.netns_exists n w).1 ≡ w
  pub reads-bridge_exists :
      (o : Option Text) (i : Text) (w : S.World) → (S.bridge_exists o i w).1 ≡ w
  pub reads-addr_list : (o : Option Text) (i : Text) (w : S.World) → (S.addr_list o i w).1 ≡ w
  pub reads-interface_show :
      (o : Option Text) (i : Text) (w : S.World) → (S.interface_show o i w).1 ≡ w
  pub reads-wireguard_exists : (n i : Text) (w : S.World) → (S.wireguard_exists n i w).1 ≡ w
  pub reads-veth_exists : (n i : Text) (w : S.World) → (S.veth_exists n i w).1 ≡ w
  pub reads-link_get_master :
      (o : Option Text) (i : Text) (w : S.World) → (S.link_get_master o i w).1 ≡ w
  pub reads-iptables_save : (o : Option Text) (w : S.World) → (S.iptables_save o w).1 ≡ w
  pub keeps-netns_write_file : (n p t : Text) → Frames (view S) (S.netns_write_file n p t)
  pub keeps-wireguard_syncconf : (n i : Text) → Frames (view S) (S.wireguard_syncconf n i)

-- The addresses are on the interface.
pub record HasAddresses {X : Crates} (S : System X) (v : View X) (o : Option Text) (i : Text)
    (addresses : List X.IpNet) : Type 0 where
  pub current : List X.IpNet
  pub listed : v.addr_list o i ≡ ok current
  pub present : All (λ a. has_addr S current a ≡ true) addresses

-- The interface is not down.
pub record IsUp {X : Crates} (v : View X) (o : Option Text) (i : Text) : Type 0 where
  pub status : InterfaceStatus
  pub shown : v.interface_show o i ≡ ok status
  pub up : status.is_down ≡ false

-- Everything that `apply_network` sets up is there, and the rules that are saved are those that it
-- renders, but for counters and comments.
pub record Settled {X : Crates} (S : System X) (b : Build) (n : NetworkState X) (v : View X)
    : Type 0 where
  pub namespace : v.netns_exists (netns_name n) ≡ ok true
  pub wireguard : v.wireguard_exists (netns_name n) (wgif_name n) ≡ ok true
  pub wireguard_up : IsUp v (some (netns_name n)) (wgif_name n)
  pub mtu : wireguard_up.status.mtu ≡ some n.mtu
  pub addresses : HasAddresses S v (some (netns_name n)) (wgif_name n) n.address
  pub veth : v.veth_exists (netns_name n) (veth_name n) ≡ ok true
  pub veth_net : X.Ipv4Net
  pub veth_net_ok : veth_ipv4net X n ≡ ok veth_net
  pub veth_address :
      HasAddresses S v (some (netns_name n)) (veth_name n) (X.from_ipv4net veth_net ∷ [])
  pub master : v.link_get_master none (veth_name n) ≡ ok (some bridge_interface)
  pub inner_up : IsUp v (some (netns_name n)) (veth_name n)
  pub outer_up : IsUp v none (veth_name n)
  pub config : PortConfig
  pub config_ok : port_config b n ≡ ok config
  pub rendered : Text
  pub rendered_ok : S.render_iptables config ≡ ok rendered
  pub saved : Text
  pub saved_ok : v.iptables_save (some (netns_name n)) ≡ ok saved
  pub same_rules :
      clean_iptables S.replace_counter rendered ≡ clean_iptables S.replace_counter saved

module _ {W A B : Type 0} where
  -- A call that only answers is passed over.
  pub bind_answer :
      (m : Call W A) (k : A → Call W B) (w : W) (a : A)
      → (m w).0 ≡ ok a
      → (m w).1 ≡ w
      → (m >>= k) w ≡ k a w
  unfolding ◌>>=◌
  bind_answer m k w a h e = rw (h, e)

  pub bind_quiet :
      (m : Call W A) (k : A → Call W B) (w : W) (a : A) → m w ≡ (ok a, w) → (m >>= k) w ≡ k a w
  unfolding ◌>>=◌
  bind_quiet m k w a h = rw h

pub context_quiet :
    {W A : Type 0} (c : Text) (m : Call W A) (w : W) (a : A)
    → m w ≡ (ok a, w)
    → context c m w ≡ (ok a, w)
unfolding context
context_quiet c m w a h = rw h

module _ {X : Crates} {S : System X} (T : Steady S) (w : S.World) where
  quiet-add_missing :
      (o : Option Text) (i : Text) (current addresses : List X.IpNet)
      → All (λ a. has_addr S current a ≡ true) addresses
      → add_missing S o i current addresses w ≡ (ok tt, w)
  unfolding add_missing ◌>>=◌
  quiet-add_missing o i current [] h = refl
  quiet-add_missing o i current (a ∷ addresses) (h, hs) =
      rw h (quiet-add_missing o i current addresses hs)

  pub quiet-apply_addr :
      (o : Option Text) (i : Text) (addresses : List X.IpNet)
      → HasAddresses S (view S w) o i addresses
      → apply_addr S o i addresses w ≡ (ok tt, w)
  unfolding apply_addr
  quiet-apply_addr o i addresses h =
      bind_answer (S.addr_list o i) (λ current. add_missing S o i current addresses) w h.current
        h.listed (T.reads-addr_list o i w)
      ∙ quiet-add_missing o i h.current addresses h.present

  pub quiet-apply_interface_up :
      (o : Option Text) (i : Text) → IsUp (view S w) o i → apply_interface_up S o i w ≡ (ok tt, w)
  unfolding apply_interface_up pure
  quiet-apply_interface_up o i h =
      bind_answer (S.interface_show o i) _ w h.status h.shown (T.reads-interface_show o i w)
      ∙ rw h.up refl

  pub quiet-apply_link_master :
      (o : Option Text) (i master : Text)
      → (view S w).link_get_master o i ≡ ok (some master)
      → apply_link_master S o i master w ≡ (ok tt, w)
  unfolding apply_link_master pure
  quiet-apply_link_master o i master h =
      bind_answer (S.link_get_master o i) _ w (some master) h (T.reads-link_get_master o i w)
      ∙ rw ((eq_iff master master).1 refl) refl
