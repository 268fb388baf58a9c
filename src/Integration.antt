-- ===== src/Integration.antt =====
-- integration/src/main.rs, the program that plays the manager and tests a gateway. What it takes
-- from outside, besides the calls of the daemon, is a parameter: random numbers (rand), keys
-- (wireguard-keys), networks (ipnet) and commands (tokio).
pub mod Generate
pub mod Exchange
pub mod Verify
pub mod Run
use fractalnetworks_gateway.Base.{ℕ, ◌+◌, ◌≤◌, ◌<◌, ◌≡◌, Bool, Option, some, List}
use fractalnetworks_gateway.Base.Text.{Text, text}
use fractalnetworks_gateway.Base.Result.{ok, Call}
use fractalnetworks_gateway.Crates.{Crates, IpAddr, v4}
use fractalnetworks_gateway.System.{System}

pub record Tools {X : Crates} (S : System X) : Type 1 where
  -- `thread_rng()`, `gen_range` of a half-open range, `choose_multiple`, and `Privkey::generate`
  pub Rng : Type 0
  pub gen_range : ℕ → ℕ → Call Rng ℕ
  pub choose_multiple : List ℕ → ℕ → Call Rng (List ℕ)
  pub generate : Rng → X.Privkey × Rng
  -- `Privkey::pubkey` and `Pubkey::to_hex`
  pub pubkey : X.Privkey → X.Pubkey
  pub to_hex : X.Pubkey → Text
  -- `IpNet::new`, and `IpAdd` for `Ipv6Addr`
  pub new_net : IpAddr → ℕ → Option X.IpNet
  pub saturating_add_v6 : ℕ → ℕ → ℕ
  -- `IpAddr::to_string`
  pub show_addr : IpAddr → Text
  -- whether a command with its arguments succeeds
  pub succeeds : Text → List Text → Call S.World Bool

-- The documented behaviour of the random numbers and of the networks.
pub record IsFair {X : Crates} {S : System X} (T : Tools S) : Type 0 where
  -- a range that is not empty yields one of its numbers
  pub gen_range_lem :
      (lo hi : ℕ) (r : T.Rng)
      → lo < hi
      → (n : ℕ) × (r' : T.Rng) × (T.gen_range lo hi r ≡ (ok n, r')) × (lo ≤ n) × (n < hi)
  -- the address of the tests is one of version 4, and every such address is a network of 32 bits
  pub own_net :
      (net : X.IpNet) × (a : ℕ) × (X.parse_net (text "10.0.0.1/8") ≡ ok net)
      × (X.net_addr net ≡ v4 a)
  pub new_net_v4 : (a : ℕ) → (net : X.IpNet) × (T.new_net (v4 a) 32 ≡ some net)
