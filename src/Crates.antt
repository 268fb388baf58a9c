-- ===== src/Crates.antt =====
-- What the gateway takes from crates that are not in the repository: keys (wireguard-keys), URLs (url),
-- networks (ipnet) and base32. They are parameters; `IsLawful` states what the code relies on.
-- Addresses and sockets are those of Rust's standard library.
pub mod Sample
use fractalnetworks_gateway.Base.{
  ℕ, ◌+◌, ◌-◌, ◌%◌, ◌^◌, ◌≤◌, ◌<◌, ◌≡◌, min, Option, some, Bool, true, ◌↔◌, ◌||◌, ◌&&◌,
}
use fractalnetworks_gateway.Base.Text.{Text, text, eq, tab, newline}
use fractalnetworks_gateway.Base.Split.{lacks, carriage_return}
use fractalnetworks_gateway.Base.Result.{Result, ok}
use fractalnetworks_gateway.Base.Map.{Order}

-- `IpAddr`, as the number of the address.
pub data IpAddr : Type 0 where
  v4 : ℕ → IpAddr
  v6 : ℕ → IpAddr

-- `SocketAddr`; the IPv6 form has its flow information and scope behind the port.
pub data SocketAddr : Type 0 where
  socket_v4 : ℕ → ℕ → SocketAddr
  socket_v6 : ℕ → ℕ → ℕ → ℕ → SocketAddr

-- `SocketAddr::new`
abbrev pub new_socket : IpAddr → ℕ → SocketAddr
new_socket (v4 a) port = socket_v4 a port
new_socket (v6 a) port = socket_v6 a port 0 0

-- `SocketAddr::ip`
abbrev pub ip : SocketAddr → IpAddr
ip (socket_v4 a port) = v4 a
ip (socket_v6 a port flow scope) = v6 a

-- `SocketAddr::port`
abbrev pub port_of : SocketAddr → ℕ
port_of (socket_v4 a port) = port
port_of (socket_v6 a port flow scope) = port

pub record Crates : Type 1 where
  pub Privkey : Type 0
  pub Pubkey : Type 0
  pub Secret : Type 0
  pub Url : Type 0
  pub IpNet : Type 0
  pub Ipv4Net : Type 0
  pub pubkey_order : Order Pubkey
  pub url_order : Order Url
  -- `Display` and `FromStr`
  pub show_privkey : Privkey → Text
  pub show_pubkey : Pubkey → Text
  pub show_secret : Secret → Text
  pub show_net : IpNet → Text
  -- `Display` and `FromStr` of `SocketAddr`, with their IPv6 forms
  pub show_socket : SocketAddr → Text
  pub parse_socket : Text → Result SocketAddr
  pub parse_privkey : Text → Result Privkey
  pub parse_pubkey : Text → Result Pubkey
  pub parse_secret : Text → Result Secret
  pub parse_net : Text → Result IpNet
  pub parse_url : Text → Result Url
  -- `Url`
  pub scheme : Url → Text
  pub host_str : Url → Option Text
  -- `IpNet`, and its `==`
  pub same_net : IpNet → IpNet → Bool
  pub net_addr : IpNet → IpAddr
  pub trunc : IpNet → IpNet
  pub from_ipv4net : Ipv4Net → IpNet
  -- `Ipv4Net`; an address is its 32-bit number
  pub new_ipv4net : ℕ → ℕ → Option Ipv4Net
  pub ipv4_addr : Ipv4Net → ℕ
  pub ipv4_network : Ipv4Net → ℕ
  pub prefix_len : Ipv4Net → ℕ
  -- `IpAdd` for `Ipv4Addr`
  pub saturating_add : ℕ → ℕ → ℕ
  -- `base32::encode` with the alphabet RFC4648 and no padding, of the bytes of a text
  pub base32_encode : Text → Text

-- The documented behaviour that the theorems use.
pub record IsLawful (X : Crates) : Type 0 where
  -- two networks are equal exactly when `==` says so
  pub same_net_iff : (a b : X.IpNet) → (X.same_net a b ≡ true) ↔ (a ≡ b)
  -- a prefix of at most 32 bits is accepted, and the parts read back
  pub new_ipv4net_ok :
      (a p : ℕ)
      → p ≤ 32
      → (n : X.Ipv4Net) × (X.new_ipv4net a p ≡ some n) × (X.ipv4_addr n ≡ a) × (X.prefix_len n ≡ p)
  -- the network address has the host bits cleared
  pub ipv4_network_lem :
      (n : X.Ipv4Net) → X.ipv4_network n ≡ X.ipv4_addr n - X.ipv4_addr n % 2 ^ (32 - X.prefix_len n)
  -- a web URL always has a host
  pub web_host :
      (u : X.Url)
      → (eq (X.scheme u) (text "https") || eq (X.scheme u) (text "http")) ≡ true
      → (h : Text) × (X.host_str u ≡ some h)
  pub saturating_add_lem : (a b : ℕ) → X.saturating_add a b ≡ min (a + b) (2 ^ 32 - 1)
  -- an encoding can be decoded, and the bytes of a text determine it
  pub base32_injective : (s t : Text) → X.base32_encode s ≡ X.base32_encode t → s ≡ t

-- A text that no separator of a line cuts, and that is not one in parentheses.
abbrev pub is_plain : Text → Bool
is_plain s =
    lacks tab s && lacks newline s && lacks carriage_return s && lacks b',' s && lacks b'(' s

-- The documented behaviour of `Display` and `FromStr`: what is printed is parsed to the same value, and
-- holds no separator (keys are in base64, addresses and networks in their usual notation).
pub record IsPrinted (X : Crates) : Type 0 where
  pub parse-privkey : (k : X.Privkey) → X.parse_privkey (X.show_privkey k) ≡ ok k
  pub parse-pubkey : (k : X.Pubkey) → X.parse_pubkey (X.show_pubkey k) ≡ ok k
  pub parse-secret : (k : X.Secret) → X.parse_secret (X.show_secret k) ≡ ok k
  pub parse-net : (n : X.IpNet) → X.parse_net (X.show_net n) ≡ ok n
  pub parse-socket : (a : SocketAddr) → X.parse_socket (X.show_socket a) ≡ ok a
  pub plain_privkey : (k : X.Privkey) → is_plain (X.show_privkey k) ≡ true
  pub plain_pubkey : (k : X.Pubkey) → is_plain (X.show_pubkey k) ≡ true
  pub plain_secret : (k : X.Secret) → is_plain (X.show_secret k) ≡ true
  pub plain_net : (n : X.IpNet) → is_plain (X.show_net n) ≡ true
  pub plain_socket : (a : SocketAddr) → is_plain (X.show_socket a) ≡ true
