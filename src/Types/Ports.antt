-- ===== src/Types/Ports.antt =====
-- `PortMapping`, `PortConfig`, `port_mappings` and `port_config` of src/types.rs.
pub mod Numbering
pub mod Delivery
use fractalnetworks_gateway.Base.{ℕ, suc, ◌%◌, Option, none, some, List, [], ◌∷◌, ◌++◌, map}
use fractalnetworks_gateway.Base.Text.{Text}
use fractalnetworks_gateway.Base.Result.{Result, ok, bind_result, unwrap}
use fractalnetworks_gateway.Base.Map.{Map}
use fractalnetworks_gateway.Base.Word.{Build, add_u16, u16_size}
use fractalnetworks_gateway.Crates.{Crates, IpAddr, SocketAddr, ip, port_of}
use fractalnetworks_gateway.Client.Config.{NetworkState}
use fractalnetworks_gateway.Types.Names.{veth_name, wgif_name}

abbrev pub port_mapping_start : ℕ
port_mapping_start = 2000

pub record PortMapping : Type 0 where
  pub port_in : ℕ
  pub port_out : ℕ
  pub ip_out : IpAddr

pub record PortConfig : Type 0 where
  pub interface_in : Text
  pub interface_out : Text
  pub ip_source : IpAddr
  pub mappings : List PortMapping

module _ {U : Type 0} where
  with_url : U → List SocketAddr → List (U × SocketAddr)
  with_url url [] = []
  with_url url (a ∷ addrs) = (url, a) ∷ with_url url addrs

  -- `.map(…).flatten()`: each URL with each of its addresses, in order
  unfoldable pub flatten_proxy : Map U (List SocketAddr) → List (U × SocketAddr)
  unfolding with_url
  flatten_proxy [] = []
  flatten_proxy ((url, addrs) ∷ proxy) = with_url url addrs ++ flatten_proxy proxy

  -- `.enumerate().map(…)` from the index `i` on
  unfoldable pub number : Build → ℕ → List (U × SocketAddr) → Result (List (U × ℕ × SocketAddr))
  number b i [] = ok []
  number b i ((url, addr) ∷ pairs) =
      let rest = number b (suc i) pairs in
      bind_result (add_u16 b port_mapping_start (i % u16_size))
        λ port. bind_result rest λ later. ok ((url, port, addr) ∷ later)

abbrev pub mapping_of : {U : Type 0} → U × ℕ × SocketAddr → PortMapping
mapping_of (url, port, sock) = record { port_in = port; port_out = port_of sock; ip_out = ip sock }

-- `.first()`
abbrev pub first : {A : Type 0} → List A → Option A
first [] = none
first (a ∷ rest) = some a

module _ {X : Crates} where
  unfoldable pub port_mappings : Build → NetworkState X → Result (List (X.Url × ℕ × SocketAddr))
  port_mappings b self = number b 0 (flatten_proxy self.proxy)

  unfoldable pub port_config : Build → NetworkState X → Result PortConfig
  unfolding port_mappings veth_name wgif_name
  port_config b self = bind_result (unwrap (first self.address)) λ address.
      bind_result (port_mappings b self) λ mappings. ok (record {
        interface_in = veth_name self;
        interface_out = wgif_name self;
        ip_source = X.net_addr address;
        mappings = map mapping_of mappings;
      })
