-- ===== src/Crates/Sample/Printed.antt =====
-- The concrete crates print and parse as the laws say.
use fractalnetworks_gateway.Base.{ℕ, ◌≡◌, refl, ap, true, false, List, [], ◌∷◌, map, arith}
use fractalnetworks_gateway.Base.Text.{show, value-show, tab, newline}
use fractalnetworks_gateway.Base.Split.{
  split, join, lacks, carriage_return, split-join, lacks-join, all_lack-map,
}
use fractalnetworks_gateway.Base.Number.{is_digit, lacks-show}
use fractalnetworks_gateway.Base.Result.{ok}
use fractalnetworks_gateway.Crates.{IsPrinted, is_plain, SocketAddr, socket_v4, socket_v6}
use fractalnetworks_gateway.Crates.Sample.{
  SampleNet, sample, show_sample_net, show_sample_socket, net_of, socket_of,
}

plain-show : (n : ℕ) → is_plain (show n) ≡ true
plain-show n = rw (
  lacks-show tab n refl,
  lacks-show newline n refl,
  lacks-show carriage_return n refl,
  lacks-show b',' n refl,
  lacks-show b'(' n refl,
)

module _ (k : ℕ) (ns : List ℕ) where
  numbers_lack :
      (c : ℕ)
      → is_digit c ≡ false
      → lacks c (k ∷ []) ≡ true
      → lacks c (join (k ∷ []) (map show ns)) ≡ true
  numbers_lack c d e =
      lacks-join c (k ∷ []) (map show ns) e (all_lack-map c show ns (λ n. lacks-show c n d))

  plain-numbers : is_plain (k ∷ []) ≡ true → is_plain (join (k ∷ []) (map show ns)) ≡ true
  plain-numbers h = rw (
    numbers_lack tab refl (ground (arith, h)),
    numbers_lack newline refl (ground (arith, h)),
    numbers_lack carriage_return refl (ground (arith, h)),
    numbers_lack b',' refl (ground (arith, h)),
    numbers_lack b'(' refl (ground (arith, h)),
  )

  split-numbers :
      (n : ℕ) → is_digit k ≡ false → split k (join (k ∷ []) (map show (n ∷ ns))) ≡ map show (n ∷ ns)
  split-numbers n d =
      split-join k (show n) (map show ns) (all_lack-map k show (n ∷ ns) (λ m. lacks-show k m d))

parse-sample_net : (n : SampleNet) → net_of (split b'/' (show_sample_net n)) ≡ ok n
parse-sample_net n =
    rw
      (split-numbers b'/' (n.length ∷ []) n.address refl, value-show n.address, value-show n.length)

parse-sample_socket : (a : SocketAddr) → socket_of (split b'.' (show_sample_socket a)) ≡ ok a
parse-sample_socket (socket_v4 a p) =
    rw (split-numbers b'.' (p ∷ []) a refl, value-show a, value-show p)
parse-sample_socket (socket_v6 a p f s) = rw (
  split-numbers b'.' (p ∷ f ∷ s ∷ []) a refl,
  value-show a,
  value-show p,
  value-show f,
  value-show s,
)

plain-sample_socket : (a : SocketAddr) → is_plain (show_sample_socket a) ≡ true
plain-sample_socket (socket_v4 a p) = plain-numbers b'.' (a ∷ p ∷ []) refl
plain-sample_socket (socket_v6 a p f s) = plain-numbers b'.' (a ∷ p ∷ f ∷ s ∷ []) refl

pub sample-IsPrinted : IsPrinted sample
sample-IsPrinted = record {
  parse-privkey = λ k. ap ok (value-show k);
  parse-pubkey = λ k. ap ok (value-show k);
  parse-secret = λ k. ap ok (value-show k);
  parse-net = parse-sample_net;
  parse-socket = parse-sample_socket;
  plain_privkey = plain-show;
  plain_pubkey = plain-show;
  plain_secret = plain-show;
  plain_net = λ n. plain-numbers b'/' (n.address ∷ n.length ∷ []) refl;
  plain_socket = plain-sample_socket;
}
