-- ===== src/Gateway/Apply.antt =====
-- `apply` and `apply_partial` of src/gateway.rs. The configuration that `Global` keeps under its lock is
-- part of the state; the lock is held until the end, so no other apply comes in between.
pub mod Configured
pub mod Namespaces
use fractalnetworks_gateway.Base.{
  ℕ, Bool, true, false, not, any, ◌||◌, Option, none, some, List, [], ◌∷◌, map, if◌then◌else◌,
}
use fractalnetworks_gateway.Base.Text.{Text, text, eq, starts_with}
use fractalnetworks_gateway.Base.Result.{Result, ok, Call, pure, lift, context, ◌>>=◌, ◌>>◌}
use fractalnetworks_gateway.Base.Map.{Map, insert, remove, values}
use fractalnetworks_gateway.Base.Orders.{nat_order}
use fractalnetworks_gateway.Base.Word.{Build}
use fractalnetworks_gateway.Crates.{Crates}
use fractalnetworks_gateway.Client.Config.{NetworkState, GatewayConfig, GatewayConfigPartial}
use fractalnetworks_gateway.Types.Names.{netns_prefix, netns_of_port, netns_name}
use fractalnetworks_gateway.Types.Bridge.{bridge_net}
use fractalnetworks_gateway.Types.Stats.{NetnsItem}
use fractalnetworks_gateway.System.{System}
use fractalnetworks_gateway.Gateway.Interfaces.{bridge_interface, apply_bridge}
use fractalnetworks_gateway.Gateway.Network.{apply_network}
use fractalnetworks_gateway.Gateway.Nginx.{CustomForwarding, apply_nginx}

abbrev pub contains : List Text → Text → Bool
contains names n = any (eq n) names

-- The names of the listed namespaces as a `HashSet`. Its order is not specified; the model takes
-- that of the listing.
unfoldable pub to_set : List Text → List Text
to_set [] = []
to_set (n ∷ names) = let rest = to_set names in if contains names n then rest else n ∷ rest

-- `difference`
unfoldable pub difference : List Text → List Text → List Text
difference [] expected = []
difference (n ∷ names) expected =
    let rest = difference names expected in if contains expected n then rest else n ∷ rest

module _ {X : Crates} where
  -- The listed networks, each with the port that the configuration lists it under.
  unfoldable pub networks_of : GatewayConfig X → List (NetworkState X)
  networks_of [] = []
  networks_of ((port, network) ∷ config) =
      record network { listen_port = port } ∷ networks_of config

module _ {X : Crates} (S : System X) where
  -- The configuration in `Global`, and the world.
  pub record Gateway : Type 0 where
    pub config : GatewayConfig X
    pub world : S.World

  unfoldable pub on_world : {A : Type 0} → Call S.World A → Call Gateway A
  on_world m g = let (r, world) = m g.world in (r, record g { world = world })

  abbrev pub names_of : List NetnsItem → List Text
  names_of = map (λ (item : NetnsItem). item.name)

  -- Lines 95 to 101.
  unfoldable pub delete_surplus : List Text → Call S.World (Unit {0})
  delete_surplus [] = pure tt
  delete_surplus (netns ∷ surplus) = do
    if starts_with netns netns_prefix
        then context (text "Removing surplus network namespace") (S.netns_del netns)
        else pure tt
    delete_surplus surplus

  unfoldable pub apply_networks : Build → List (NetworkState X) → Call S.World (Unit {0})
  apply_networks b [] = pure tt
  apply_networks b (network ∷ networks) = do apply_network S b network; apply_networks b networks

  unfoldable pub create_bridge : Call S.World (Unit {0})
  create_bridge = do
    net ← lift (bridge_net X)
    context (text "Creating bridge interface")
        (apply_bridge S bridge_interface (X.from_ipv4net net ∷ []))

  -- `apply` once the configuration is stored.
  unfoldable pub apply_world :
      Build → CustomForwarding X → List (NetworkState X) → Call S.World (Unit {0})
  apply_world b custom networks = do
    create_bridge
    items ← S.netns_list
    delete_surplus (difference (to_set (names_of items)) (to_set (map netns_name networks)))
    apply_networks b networks
    context (text "Applying nginx configuration") (apply_nginx S b networks custom)

  -- The configuration is stored first, whatever happens then.
  unfoldable pub apply : Build → CustomForwarding X → GatewayConfig X → Call Gateway (Unit {0})
  apply b custom config g =
      on_world (apply_world b custom (networks_of config)) (record g { config = config })

  abbrev pub set_config : (GatewayConfig X → GatewayConfig X) → Call Gateway (Unit {0})
  set_config f g = (ok tt, record g { config = f g.config })

  -- Lines 131 to 145.
  unfoldable pub partial_loop : Build → List Text → GatewayConfigPartial X → Call Gateway (Unit {0})
  partial_loop b listed [] = pure tt
  partial_loop b listed ((port, none) ∷ partial) = do
    set_config (remove port)
    if contains listed (netns_of_port port)
        then on_world (S.netns_del (netns_of_port port))
        else pure tt
    partial_loop b listed partial
  partial_loop b listed ((port, some network) ∷ partial) = do
    on_world (apply_network S b network)
    set_config (insert port network)
    partial_loop b listed partial

  -- Lines 147 to 151; the networks go by the port that they hold themselves.
  unfoldable pub partial_nginx : Build → CustomForwarding X → Call Gateway (Unit {0})
  partial_nginx b custom g =
      on_world
        (context (text "Applying nginx configuration") (apply_nginx S b (values g.config) custom)) g

  unfoldable pub apply_partial :
      Build → CustomForwarding X → GatewayConfigPartial X → Call Gateway (Unit {0})
  apply_partial b custom partial = do
    on_world create_bridge
    items ← on_world S.netns_list
    partial_loop b (to_set (names_of items)) partial
    partial_nginx b custom
