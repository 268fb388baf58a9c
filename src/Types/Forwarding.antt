-- ===== src/Types/Forwarding.antt =====
-- `Forwarding` of src/types.rs: the tables from which the configuration of NGINX is rendered.
pub mod Upstreams
pub mod Servers
pub mod Loops
use fractalnetworks_gateway.Base.{
  ℕ, Bool, Option, none, some, is_some, if◌then◌else◌, List, [], ◌∷◌, ◌++◌,
}
use fractalnetworks_gateway.Base.Text.{Text, text, eq}
use fractalnetworks_gateway.Base.Result.{Result, ok, bind_result, unwrap}
use fractalnetworks_gateway.Base.Map.{Map, get, get_or, insert}
use fractalnetworks_gateway.Base.Orders.{text_order}
use fractalnetworks_gateway.Base.Word.{Build}
use fractalnetworks_gateway.Crates.{Crates, IpAddr, v4, SocketAddr, new_socket}
use fractalnetworks_gateway.Client.Config.{NetworkState}
use fractalnetworks_gateway.Types.Bridge.{veth_ipv4net}
use fractalnetworks_gateway.Types.Ports.{port_mappings}

-- The two tables of one scheme: the upstream of each host, and the servers of each upstream.
pub record Tables : Type 0 where
  pub forwarding : Map Text Text
  pub upstream : Map Text (List SocketAddr)

pub record Forwarding : Type 0 where
  pub https : Tables
  pub http : Tables
  pub ssh_forwarding : Map Text SocketAddr

abbrev pub no_tables : Tables
no_tables = record { forwarding = []; upstream = [] }

-- `Forwarding::new`
abbrev pub new : Forwarding
new = record { https = no_tables; http = no_tables; ssh_forwarding = [] }

module _ (X : Crates) where
  -- `format!("https_{}", base32::encode(…))`
  abbrev pub upstream_name : Text → Text → Text
  upstream_name prefix host = prefix ++ X.base32_encode host

  -- The body that `add_https` and `add_http` share. The name of the upstream is made only if the host
  -- has none.
  unfoldable pub register : Text → Text → SocketAddr → Tables → Tables
  register prefix host socket t =
      let upstream = get_or host (upstream_name prefix host) t.forwarding in
      record {
        forwarding =
            if is_some (get host t.forwarding)
            then t.forwarding
            else insert host upstream t.forwarding;
        upstream = insert upstream (get_or upstream [] t.upstream ++ (socket ∷ [])) t.upstream;
      }

  unfoldable pub add_https : Forwarding → X.Url → SocketAddr → Result Forwarding
  add_https self url socket =
      bind_result (unwrap (X.host_str url))
        λ host. ok (record self { https = register (text "https_") host socket self.https })

  unfoldable pub add_http : Forwarding → X.Url → SocketAddr → Result Forwarding
  add_http self url socket =
      bind_result (unwrap (X.host_str url))
        λ host. ok (record self { http = register (text "http_") host socket self.http })

  abbrev pub add_ssh : Forwarding → X.Url → SocketAddr → Result Forwarding
  add_ssh self url socket = ok self

  -- The `match url.scheme()` of `add`; an unknown scheme is only logged.
  unfoldable pub add_url : Forwarding → X.Url → SocketAddr → Result Forwarding
  add_url self url socket =
      if eq (X.scheme url) (text "https")
      then add_https self url socket
      else if eq (X.scheme url) (text "http")
      then add_http self url socket
      else if eq (X.scheme url) (text "ssh")
      then add_ssh self url socket
      else ok self

  unfoldable pub add_custom : Forwarding → X.Url → SocketAddr → Result Forwarding
  add_custom self url socket =
      if eq (X.scheme url) (text "https")
      then add_https self url socket
      else if eq (X.scheme url) (text "http")
      then add_http self url socket
      else ok self

  -- The loop of `add` over the port mappings. Each round asks for the veth address anew.
  unfoldable pub add_mappings :
      Forwarding → NetworkState X → List (X.Url × ℕ × SocketAddr) → Result Forwarding
  add_mappings self network [] = ok self
  add_mappings self network ((url, port, sock) ∷ mappings) =
      bind_result (veth_ipv4net X network) λ net.
        bind_result (add_url self url (new_socket (v4 (X.ipv4_addr net)) port))
          λ self'. add_mappings self' network mappings

  unfoldable pub add : Build → Forwarding → NetworkState X → Result Forwarding
  unfolding port_mappings add_mappings
  add b self network =
      bind_result (port_mappings b network) λ mappings. add_mappings self network mappings
