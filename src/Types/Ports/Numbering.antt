-- ===== src/Types/Ports/Numbering.antt =====
-- The ports that `port_mappings` gives out, and when it gives out none.
use mathlib.Core.Option
use native.Mathlib.Nat.{zero-add}
use fractalnetworks_gateway.Base.{
  ℕ, zero, suc, ◌+◌, ◌%◌, ◌≤◌, ◌<◌, ◌≡◌, refl, some, List, [], ◌∷◌, length, get_elem?, ap, arith,
  dec_lt,
}
use fractalnetworks_gateway.Base.Result.{ok, panic}
use fractalnetworks_gateway.Base.Word.{Build, debug, add_u16, u16_size}
use fractalnetworks_gateway.Crates.{Crates, SocketAddr}
use fractalnetworks_gateway.Client.Config.{NetworkState}
use fractalnetworks_gateway.Types.Ports.{flatten_proxy, number, port_mappings, port_mapping_start}

-- The number of mappings for which there are ports.
abbrev pub capacity : ℕ
capacity = 63536

port_ok : (b : Build) (i : ℕ) → i < capacity → add_u16 b 2000 (i % u16_size) ≡ ok (2000 + i)
unfolding add_u16
port_ok b i h = ground arith

port_panics : (i : ℕ) → capacity ≤ i → i < u16_size → add_u16 debug 2000 (i % u16_size) ≡ panic
unfolding add_u16
port_panics i h k = ground arith

module _ {U : Type 0} where
  -- The pairs with the ports from 2000 + i on.
  abbrev pub numbered : ℕ → List (U × SocketAddr) → List (U × ℕ × SocketAddr)
  numbered i [] = []
  numbered i ((url, addr) ∷ pairs) = (url, port_mapping_start + i, addr) ∷ numbered (suc i) pairs

  pub number-numbered :
      (b : Build) (i : ℕ) (pairs : List (U × SocketAddr))
      → i + length pairs ≤ capacity
      → number b i pairs ≡ ok (numbered i pairs)
  unfolding number
  number-numbered b i [] h = refl
  number-numbered b i ((url, addr) ∷ pairs) h =
      rw (port_ok b i (omega arith), number-numbered b (suc i) pairs (omega arith))

  number-panics :
      (i : ℕ) (pairs : List (U × SocketAddr))
      → i ≤ capacity
      → capacity < i + length pairs
      → number debug i pairs ≡ panic
  unfolding number
  number-panics i [] h k = absurd (omega arith)
  number-panics i ((url, addr) ∷ pairs) h k = elim (dec_lt i capacity) [
    | yes p ↦ rw (port_ok debug i p, number-panics (suc i) pairs (omega arith) (omega arith))
    | no p ↦ rw (port_panics i (omega arith) (omega arith))
  ]

  pub get_elem?-numbered :
      (i j : ℕ) (pairs : List (U × SocketAddr))
      → get_elem? (numbered i pairs) j
        ≡ Option.map (λ (url, addr). (url, 2000 + (i + j), addr)) (get_elem? pairs j)
  get_elem?-numbered i zero [] = refl
  get_elem?-numbered i (suc j) [] = refl
  get_elem?-numbered i zero ((url, addr) ∷ pairs) = ap (λ k. some (url, k, addr)) (omega arith)
  get_elem?-numbered i (suc j) (_ ∷ pairs) =
      let shift : 2000 + (suc i + j) ≡ 2000 + (i + suc j) = omega arith in
      rw shift at (get_elem?-numbered (suc i) j pairs)

  pub length-numbered :
      (i : ℕ) (pairs : List (U × SocketAddr)) → length (numbered i pairs) ≡ length pairs
  length-numbered i [] = refl
  length-numbered i (_ ∷ pairs) = ap suc (length-numbered (suc i) pairs)

module _ {X : Crates} (s : NetworkState X) where
  -- With at most 63536 addresses in the proxy settings, none included, the numbering succeeds in any
  -- build, has one entry for each pair of a URL and an address and no other, and gives the j-th pair
  -- the port 2000 + j.
  pub port_mappings_ports :
      (b : Build) (j : ℕ)
      → length (flatten_proxy s.proxy) ≤ capacity
      → (ms : List (X.Url × ℕ × SocketAddr)) × (port_mappings b s ≡ ok ms)
        × (length ms ≡ length (flatten_proxy s.proxy))
        × (get_elem? ms j
            ≡ Option.map
                (λ (url, addr). (url, 2000 + j, addr))
                (get_elem? (flatten_proxy s.proxy) j))
  unfolding port_mappings
  port_mappings_ports b j h = (
    numbered 0 (flatten_proxy s.proxy),
    number-numbered b 0 (flatten_proxy s.proxy) (omega arith),
    length-numbered 0 (flatten_proxy s.proxy),
    rw zero-add at (get_elem?-numbered 0 j (flatten_proxy s.proxy)),
  )

  -- With more than 63536 addresses in the proxy settings, a debug build panics.
  pub port_mappings_panics :
      capacity < length (flatten_proxy s.proxy) → port_mappings debug s ≡ panic
  unfolding port_mappings
  port_mappings_panics h = number-panics 0 (flatten_proxy s.proxy) (omega arith) (omega arith)
