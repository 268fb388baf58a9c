-- ===== src/Gateway/Network.antt =====
-- `apply_netns`, `apply_wireguard`, `apply_veth` and `apply_network` of src/gateway.rs.
use fractalnetworks_gateway.Base.{none, some, [], ◌∷◌, ◌++◌, ◌==◌, if◌then◌else◌}
use fractalnetworks_gateway.Base.Text.{text}
use fractalnetworks_gateway.Base.Result.{Call, pure, lift, context, ok_or, ◌>>=◌, ◌>>◌}
use fractalnetworks_gateway.Base.Word.{Build}
use fractalnetworks_gateway.Crates.{Crates}
use fractalnetworks_gateway.Client.Config.{NetworkState}
use fractalnetworks_gateway.Types.Names.{netns_name, wgif_name, veth_name}
use fractalnetworks_gateway.Types.Bridge.{veth_ipv4net}
use fractalnetworks_gateway.Types.Wireguard.{to_config}
use fractalnetworks_gateway.System.{System}
use fractalnetworks_gateway.Gateway.Iptables.{apply_forwarding}
use fractalnetworks_gateway.Gateway.Interfaces.{
  apply_addr, apply_interface_up, apply_link_master, bridge_interface,
}

module _ {X : Crates} (S : System X) where
  unfoldable pub apply_netns : NetworkState X → Call S.World (Unit {0})
  apply_netns network = do
    exists ← S.netns_exists (netns_name network)
    if exists then pure tt else S.netns_add (netns_name network)

  unfoldable pub apply_wireguard : NetworkState X → Call S.World (Unit {0})
  apply_wireguard network = do
    let netns = netns_name network
    let wgif = wgif_name network
    exists ← S.wireguard_exists netns wgif
    if exists then pure tt else S.wireguard_create (some netns) wgif
    status ← S.interface_show (some netns) wgif
    mtu ← lift (ok_or status.mtu (text "Missing MTU for WireGuard network" ∷ []))
    if mtu == network.mtu then pure tt else S.interface_mtu (some netns) wgif network.mtu
    context (text "Setting wireguard interface UP") (apply_interface_up S (some netns) wgif)
    S.netns_write_file netns (text "wireguard/" ++ (wgif ++ text ".conf")) (to_config network)
    context (text "Applying wireguard interface addresses")
        (apply_addr S (some netns) wgif network.address)
    S.wireguard_syncconf netns wgif

  unfoldable pub apply_veth : NetworkState X → Call S.World (Unit {0})
  apply_veth network = do
    let netns = netns_name network
    let veth = veth_name network
    exists ← S.veth_exists netns veth
    if exists then pure tt else S.veth_add netns veth veth
    addr ← lift (veth_ipv4net X network)
    context (text "Applying veth addr") (apply_addr S (some netns) veth (X.from_ipv4net addr ∷ []))
    context (text "Setting veth master") (apply_link_master S none veth bridge_interface)
    context (text "Making inner veth interface UP") (apply_interface_up S (some netns) veth)
    context (text "Marking outer veth interface UP") (apply_interface_up S none veth)

  -- The lock around the rules is held by no other task of the gateway.
  unfoldable pub apply_network : Build → NetworkState X → Call S.World (Unit {0})
  apply_network b network = do
    apply_netns network
    apply_wireguard network
    apply_veth network
    apply_forwarding S b network
