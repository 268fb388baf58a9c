-- ===== src/Gateway/Kernel/Again.antt =====
-- A second `apply` of src/gateway.rs of the same configuration.
use fractalnetworks_gateway.Base.{◌≡◌}
use fractalnetworks_gateway.Base.Map.Laws.{IsSorted}
use fractalnetworks_gateway.Base.Orders.{nat_order}
use fractalnetworks_gateway.Base.Text.{text}
use fractalnetworks_gateway.Base.Result.{ok, context, ◌>>◌}
use fractalnetworks_gateway.Base.Word.{Build}
use fractalnetworks_gateway.Crates.{Crates}
use fractalnetworks_gateway.Client.Config.{GatewayConfig}
use fractalnetworks_gateway.System.{System}
use fractalnetworks_gateway.Gateway.Iptables.Cleaning.{Replaces}
use fractalnetworks_gateway.Gateway.Namespaces.{Namespaces}
use fractalnetworks_gateway.Gateway.Effects.{Effects}
use fractalnetworks_gateway.Gateway.Nginx.{CustomForwarding, apply_nginx}
use fractalnetworks_gateway.Gateway.Apply.{Gateway, networks_of, apply, on_world}
use fractalnetworks_gateway.Gateway.Settled.Twice.{rewrite_all, apply-InPlace}
use fractalnetworks_gateway.Gateway.Kernel.{Kernel}
use fractalnetworks_gateway.Gateway.Kernel.Placed.{Plain}
use fractalnetworks_gateway.Gateway.Kernel.Reaching.{apply-reaches}

module _ {X : Crates} {S : System X} (K : Kernel S) (N : Namespaces S) (E : Effects S)
    (R : Replaces S.replace_counter) (plain : Plain K) (b : Build) where
  open K use {steady}

  -- If the calls of the system do what they say, rendered rules hold no carriage return and are, cleaned,
  -- in the form in which they are saved, the replacement of counters is as `clean_iptables` needs it, and the configuration has its ports in order, then a
  -- second `apply` of it behind one that returned `ok` makes, changes and removes nothing: it only
  -- writes and synchronises the WireGuard configuration of each network, and then writes and reloads
  -- that of NGINX.
  pub apply-apply :
      (custom : CustomForwarding X) (config : GatewayConfig X) (g : Gateway S)
      → IsSorted config
      → (apply S b custom config g).0 ≡ ok tt
      → apply S b custom config (apply S b custom config g).1
        ≡ on_world S
            (rewrite_all S (networks_of config)
              >> context
                  (text "Applying nginx configuration")
                  (apply_nginx S b (networks_of config) custom))
            (record (apply S b custom config g).1 { config = config })
  apply-apply custom config g sorted h =
      apply-InPlace steady b custom config (apply S b custom config g).1
        (apply-reaches K N E R plain b custom config g sorted h).0
