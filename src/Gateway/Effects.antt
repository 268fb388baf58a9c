-- ===== src/Gateway/Effects.antt =====
-- What the theorems assume of the outside calls as to the configuration that WireGuard and NGINX run with,
-- and which parts of an `apply` of src/gateway.rs leave that of a WireGuard interface alone.
pub mod Serving
pub mod Loading
use fractalnetworks_gateway.Base.{ℕ, ◌≡◌, ◌≢◌, Option, some, List, [], ◌∷◌, ◌++◌, if◌then◌else◌}
use fractalnetworks_gateway.Base.Text.{Text, text, eq}
use fractalnetworks_gateway.Base.Result.{ok, pure}
use fractalnetworks_gateway.Base.Frames.{
  Frames, Frames-lift, Frames-pure, Frames-if, Frames-bind, frame_rules,
}
use fractalnetworks_gateway.Base.Word.{Build}
use fractalnetworks_gateway.Crates.{Crates}
use fractalnetworks_gateway.Client.Config.{NetworkState}
use fractalnetworks_gateway.Types.Names.{netns_name}
use fractalnetworks_gateway.System.{System}
use fractalnetworks_gateway.Gateway.Interfaces.{
  add_missing, has_addr, apply_addr, apply_interface_up, apply_link_master,
}
use fractalnetworks_gateway.Gateway.Iptables.{apply_forwarding}
use fractalnetworks_gateway.Gateway.Network.{
  apply_netns, apply_wireguard, apply_veth, apply_network,
}
use fractalnetworks_gateway.Gateway.Nginx.{CustomForwarding, apply_nginx}

-- `files` are those in the configuration folder of a namespace, and `devices` the texts with which its
-- interfaces were last synchronised; `pages` are the other files, and `running` those that NGINX loaded last.
-- `wireguard_syncconf` applies the file that stands under `wireguard/` with the name of the interface. A device
-- of a namespace is changed by no call for another namespace, and by no other call than the synchronisation.
pub record Effects {X : Crates} (S : System X) : Type 0 where
  pub files : S.World → Text → Text → Option Text
  pub devices : S.World → Text → Text → Option Text
  pub pages : S.World → Text → Option Text
  pub running : S.World → Text → Option Text
  pub written :
      (n p t : Text) (w : S.World)
      → (S.netns_write_file n p t w).0 ≡ ok tt
      → files (S.netns_write_file n p t w).1 n p ≡ some t
  pub synced :
      (n i : Text) (w : S.World)
      → (S.wireguard_syncconf n i w).0 ≡ ok tt
      → devices (S.wireguard_syncconf n i w).1 n i
        ≡ files w n (text "wireguard/" ++ (i ++ text ".conf"))
  pub stored :
      (p t : Text) (w : S.World)
      → (S.write_file p t w).0 ≡ ok tt
      → (q : Text) → pages (S.write_file p t w).1 q ≡ (if eq q p then some t else pages w q)
  pub reloaded :
      (w : S.World)
      → (S.nginx_reload w).0 ≡ ok tt
      → (p : Text) → running (S.nginx_reload w).1 p ≡ pages w p
  pub files-addr_list :
      (n p : Text) (o : Option Text) (i : Text) → Frames (λ w. files w n p) (S.addr_list o i)
  pub files-addr_add :
      (n p : Text) (o : Option Text) (i : Text) (a : X.IpNet)
      → Frames (λ w. files w n p) (S.addr_add o i a)
  pub keeps-netns_exists : (m j n : Text) → Frames (λ w. devices w m j) (S.netns_exists n)
  pub keeps-netns_add : (m j n : Text) → m ≢ n → Frames (λ w. devices w m j) (S.netns_add n)
  pub keeps-write : (m j n p t : Text) → Frames (λ w. devices w m j) (S.netns_write_file n p t)
  pub keeps-addr_list :
      (m j : Text) (o : Option Text) (i : Text) → Frames (λ w. devices w m j) (S.addr_list o i)
  pub keeps-addr_add :
      (m j : Text) (o : Option Text) (i : Text) (a : X.IpNet)
      → Frames (λ w. devices w m j) (S.addr_add o i a)
  pub keeps-show :
      (m j : Text) (o : Option Text) (i : Text) → Frames (λ w. devices w m j) (S.interface_show o i)
  pub keeps-mtu :
      (m j : Text) (o : Option Text) (i : Text) (n : ℕ)
      → Frames (λ w. devices w m j) (S.interface_mtu o i n)
  pub keeps-up :
      (m j : Text) (o : Option Text) (i : Text) → Frames (λ w. devices w m j) (S.interface_up o i)
  pub keeps-wireguard_exists :
      (m j n i : Text) → Frames (λ w. devices w m j) (S.wireguard_exists n i)
  pub keeps-wireguard_create :
      (m j n i : Text) → m ≢ n → Frames (λ w. devices w m j) (S.wireguard_create (some n) i)
  pub keeps-syncconf :
      (m j n i : Text) → m ≢ n → Frames (λ w. devices w m j) (S.wireguard_syncconf n i)
  pub keeps-veth_exists : (m j n i : Text) → Frames (λ w. devices w m j) (S.veth_exists n i)
  pub keeps-veth_add : (m j n i k : Text) → Frames (λ w. devices w m j) (S.veth_add n i k)
  pub keeps-get_master :
      (m j : Text) (o : Option Text) (i : Text)
      → Frames (λ w. devices w m j) (S.link_get_master o i)
  pub keeps-set_master :
      (m j : Text) (o : Option Text) (i k : Text)
      → Frames (λ w. devices w m j) (S.link_set_master o i k)
  pub keeps-save : (m j : Text) (o : Option Text) → Frames (λ w. devices w m j) (S.iptables_save o)
  pub keeps-restore :
      (m j : Text) (o : Option Text) (t : Text)
      → Frames (λ w. devices w m j) (S.iptables_restore o t)
  pub keeps-write_file : (m j p t : Text) → Frames (λ w. devices w m j) (S.write_file p t)
  pub keeps-reload : (m j : Text) → Frames (λ w. devices w m j) S.nginx_reload

module _ {X : Crates} (S : System X) (f : S.World → Option Text)
    (keeps-list : (o : Option Text) (i : Text) → Frames f (S.addr_list o i))
    (keeps-add : (o : Option Text) (i : Text) (a : X.IpNet) → Frames f (S.addr_add o i a)) where
  missing-Frames :
      (o : Option Text) (i : Text) (current target : List X.IpNet)
      → Frames f (add_missing S o i current target)
  unfolding add_missing
  missing-Frames o i current [] = Frames-pure tt
  missing-Frames o i current (a ∷ target) =
      Frames-bind _ _
        (Frames-if (has_addr S current a) (pure tt) _ (Frames-pure tt) (keeps-add o i a))
        (λ _. missing-Frames o i current target)

  pub addr-Frames :
      (o : Option Text) (i : Text) (target : List X.IpNet) → Frames f (apply_addr S o i target)
  unfolding apply_addr
  addr-Frames o i target =
      Frames-bind _ _ (keeps-list o i) (λ current. missing-Frames o i current target)

module _ {X : Crates} {S : System X} (E : Effects S) (m j : Text) where
  abbrev pub device : S.World → Option Text
  device w = E.devices w m j

  device_addr :
      (o : Option Text) (i : Text) (target : List X.IpNet) → Frames device (apply_addr S o i target)
  device_addr = addr-Frames S device (E.keeps-addr_list m j) (E.keeps-addr_add m j)

  device_up : (o : Option Text) (i : Text) → Frames device (apply_interface_up S o i)
  unfolding apply_interface_up
  device_up o i = search (frame_rules, E.keeps-show, E.keeps-up)

  device_master : (o : Option Text) (i k : Text) → Frames device (apply_link_master S o i k)
  unfolding apply_link_master
  device_master o i k = search (frame_rules, E.keeps-get_master, E.keeps-set_master)

  pub device_veth : (n : NetworkState X) → Frames device (apply_veth S n)
  unfolding apply_veth
  device_veth n =
      search
        (frame_rules, E.keeps-veth_exists, E.keeps-veth_add, device_addr, device_master, device_up)
        depth 14

  pub device_forwarding : (b : Build) (n : NetworkState X) → Frames device (apply_forwarding S b n)
  unfolding apply_forwarding
  device_forwarding b n = search (frame_rules, E.keeps-save, E.keeps-restore) depth 10

  pub device_nginx :
      (b : Build) (ns : List (NetworkState X)) (custom : CustomForwarding X)
      → Frames device (apply_nginx S b ns custom)
  unfolding apply_nginx
  device_nginx b ns custom = Frames-bind _ _ (Frames-lift _) (λ f.
      Frames-bind _ _ (Frames-lift _) (λ config. Frames-bind _ _ (E.keeps-write_file m j _ _) (λ _.
        Frames-bind _ _ (Frames-lift _)
          (λ sites. Frames-bind _ _ (E.keeps-write_file m j _ _) (λ _. E.keeps-reload m j)))))

  -- A network in another namespace.
  module _ (n : NetworkState X) (apart : m ≢ netns_name n) where
    device_netns : Frames device (apply_netns S n)
    unfolding apply_netns
    device_netns =
        Frames-bind _ _ (E.keeps-netns_exists m j _)
          (λ exists. Frames-if exists (pure tt) _ (Frames-pure tt) (E.keeps-netns_add m j _ apart))

    device_create : (i : Text) → Frames device (S.wireguard_create (some (netns_name n)) i)
    device_create i = E.keeps-wireguard_create m j (netns_name n) i apart

    device_sync : (i : Text) → Frames device (S.wireguard_syncconf (netns_name n) i)
    device_sync i = E.keeps-syncconf m j (netns_name n) i apart

    device_wireguard : Frames device (apply_wireguard S n)
    unfolding apply_wireguard
    device_wireguard =
        search
          (
            frame_rules, E.keeps-wireguard_exists, device_create, E.keeps-show, E.keeps-mtu,
            E.keeps-write, device_sync, device_addr, device_up,
          )
          depth 14

    pub device_network : (b : Build) → Frames device (apply_network S b n)
    unfolding apply_network
    device_network b = Frames-bind _ _ device_netns (λ _.
        Frames-bind _ _ device_wireguard
          (λ _. Frames-bind _ _ (device_veth n) (λ _. device_forwarding b n)))
