-- ===== src/Crates/Sample.antt =====
-- Concrete crates that meet the laws: keys are numbers, a URL is its scheme and host, a network is an
-- address and a prefix length. They serve the examples.
pub mod Printed
use Prim.Native.Nat.{Ordering}
use fractalnetworks_gateway.Base.{
  List, map, ℕ, ◌-◌, ◌%◌, ◌^◌, ◌+◌, ◌≡◌, refl, min, leb, if◌then◌else◌, none, some, Bool, true,
  ◌&&◌, ◌==◌, ◌↔◌, [], ◌∷◌, arith,
}
use fractalnetworks_gateway.Base.Text.{Text, show, text, value}
use fractalnetworks_gateway.Base.Split.{split, join}
use fractalnetworks_gateway.Base.Result.{Result, ok, err}
use fractalnetworks_gateway.Base.Map.{Order}
use fractalnetworks_gateway.Base.Orders.{
  nat_order, text_order, compare_text, text_refl, text_eq, text_gt, text_trans,
}
use fractalnetworks_gateway.Crates.{Crates, IsLawful, SocketAddr, socket_v4, socket_v6, v4}

pub record SampleUrl : Type 0 where
  pub scheme : Text
  pub host : Text

abbrev compare_url : SampleUrl → SampleUrl → Ordering
compare_url u v = elim (compare_text u.scheme v.scheme) [
  | Ordering.lt ↦ Ordering.lt
  | Ordering.eq ↦ compare_text u.host v.host
  | Ordering.gt ↦ Ordering.gt
]

pub compare_url_refl : (u : SampleUrl) → compare_url u u ≡ Ordering.eq
compare_url_refl u = ground (arith, text_refl u.scheme, text_refl u.host)

pub compare_url-eq : (u v : SampleUrl) → compare_url u v ≡ Ordering.eq → u ≡ v
compare_url-eq u v h = ground (arith, text_eq u.scheme v.scheme, text_eq u.host v.host)

pub compare_url_gt :
    (u v : SampleUrl) → compare_url u v ≡ Ordering.gt → compare_url v u ≡ Ordering.lt
compare_url_gt u v h = ground (
  arith,
  text_eq u.scheme v.scheme,
  text_gt u.scheme v.scheme,
  text_gt u.host v.host,
  text_refl v.scheme,
)

pub compare_url_trans :
    (u v z : SampleUrl)
    → compare_url u v ≡ Ordering.lt
    → compare_url v z ≡ Ordering.lt
    → compare_url u z ≡ Ordering.lt
compare_url_trans u v z h k = ground (
  arith,
  text_eq u.scheme v.scheme,
  text_eq v.scheme z.scheme,
  text_trans u.scheme v.scheme z.scheme,
  text_trans u.host v.host z.host,
  text_refl v.scheme,
)

abbrev sample_url_order : Order SampleUrl
sample_url_order = record {
  cmp = compare_url;
  cmp_refl = compare_url_refl;
  cmp_eq = compare_url-eq;
  cmp_gt = compare_url_gt;
  cmp_trans = compare_url_trans;
}

pub record SampleNet : Type 0 where
  pub address : ℕ
  pub length : ℕ

abbrev same_sample_net : SampleNet → SampleNet → Bool
same_sample_net a b = (a.address == b.address) && (a.length == b.length)

abbrev base_of : SampleNet → ℕ
base_of n = n.address - n.address % 2 ^ (32 - n.length)

-- Every text is taken for the host of a site.
abbrev parse_site : Text → Result SampleUrl
parse_site s = ok (record { scheme = text "https"; host = s })

abbrev parse_key : Text → Result ℕ
parse_key s = ok (value s)

-- The numbers of a socket or of a network, with a character between them.
abbrev show_sample_socket : SocketAddr → Text
show_sample_socket (socket_v4 a p) = join (b'.' ∷ []) (map show (a ∷ p ∷ []))
show_sample_socket (socket_v6 a p f s) = join (b'.' ∷ []) (map show (a ∷ p ∷ f ∷ s ∷ []))

abbrev socket_of : List Text → Result SocketAddr
socket_of (a ∷ p ∷ []) = ok (socket_v4 (value a) (value p))
socket_of (a ∷ p ∷ f ∷ s ∷ []) = ok (socket_v6 (value a) (value p) (value f) (value s))
socket_of _ = err (text "no socket" ∷ [])

abbrev show_sample_net : SampleNet → Text
show_sample_net n = join (b'/' ∷ []) (map show (n.address ∷ n.length ∷ []))

abbrev net_of : List Text → Result SampleNet
net_of (a ∷ l ∷ []) = ok (record { address = value a; length = value l })
net_of _ = err (text "no network" ∷ [])

abbrev pub sample : Crates
sample = record {
  Privkey = ℕ;
  Pubkey = ℕ;
  Secret = ℕ;
  Url = SampleUrl;
  IpNet = SampleNet;
  Ipv4Net = SampleNet;
  pubkey_order = nat_order;
  url_order = sample_url_order;
  show_privkey = show;
  show_pubkey = show;
  show_secret = show;
  show_net = show_sample_net;
  show_socket = show_sample_socket;
  parse_socket = λ s. socket_of (split b'.' s);
  parse_privkey = parse_key;
  parse_pubkey = parse_key;
  parse_secret = parse_key;
  parse_net = λ s. net_of (split b'/' s);
  parse_url = parse_site;
  scheme = λ u. u.scheme;
  host_str = λ u. some u.host;
  same_net = same_sample_net;
  net_addr = λ n. v4 n.address;
  trunc = λ n. record { address = base_of n; length = n.length };
  from_ipv4net = λ n. n;
  new_ipv4net = λ a p. if leb p 32 then some (record { address = a; length = p }) else none;
  ipv4_addr = λ n. n.address;
  ipv4_network = base_of;
  prefix_len = λ n. n.length;
  saturating_add = λ a b. min (a + b) (2 ^ 32 - 1);
  base32_encode = λ s. s;
}

pub same_sample_net_iff : (a b : SampleNet) → (same_sample_net a b ≡ true) ↔ (a ≡ b)
same_sample_net_iff a b = (λ h. ground arith, λ h. ground arith)

abbrev pub sample-IsLawful : IsLawful sample
sample-IsLawful = record {
  same_net_iff = same_sample_net_iff;
  new_ipv4net_ok = λ a p h. (record { address = a; length = p }, ground arith, refl, refl);
  ipv4_network_lem = λ n. refl;
  web_host = λ u h. (u.host, refl);
  saturating_add_lem = λ a b. refl;
  base32_injective = λ s t h. h;
}
