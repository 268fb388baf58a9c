-- ===== src/Watchdog/Peer/Deltas.antt =====
-- The traffic that is recorded for a peer between two runs, in a release and in a debug build.
use fractalnetworks_gateway.Base.{
  ℕ, ◌+◌, ◌-◌, ◌%◌, ◌≤◌, ◌<◌, ◌≡◌, ◌⊎◌, inl, inr, ltb, ◌==◌, if◌then◌else◌, Bool-cases, true, false,
  arith, dec_lt,
}
use fractalnetworks_gateway.Base.Result.{ok, panic, ◌>>=◌}
use fractalnetworks_gateway.Base.Word.{
  Build, debug, release, sub_usize, usize_size, add_usize-release,
}
use fractalnetworks_gateway.Crates.{Crates}
use fractalnetworks_gateway.Client.Traffic.{new}
use fractalnetworks_gateway.Types.Stats.{PeerStats, NetworkStats}
use fractalnetworks_gateway.System.{System}
use fractalnetworks_gateway.Watchdog.Peer.{Watch, add_traffic, add_difference, note_difference}

-- A subtraction the wrong way round.
sub_usize-release :
    (a b : ℕ)
    → a ≤ b
    → b < usize_size
    → sub_usize release a b ≡ ok ((usize_size - (b - a)) % usize_size)
unfolding sub_usize
sub_usize-release a b h k = ground arith

sub_usize-debug : (a b : ℕ) → a < b → sub_usize debug a b ≡ panic
unfolding sub_usize
sub_usize-debug a b h = ground arith

sub_usize_fits : (c : Build) (a b : ℕ) → a ≤ b → sub_usize c b a ≡ ok (b - a)
unfolding sub_usize
sub_usize_fits c a b h = ground arith

-- The test `difference > 0` on the wrapped difference.
wrapped_test :
    (x y : ℕ)
    → x < usize_size
    → y < usize_size
    → ltb 0 (((usize_size - x) % usize_size + (usize_size - y) % usize_size) % usize_size)
      ≡ (if (x + y) % usize_size == 0 then false else true)
wrapped_test x y h k = ground arith

module _ {X : Crates} (S : System X) (stats : NetworkStats X) (time : ℕ) where
  module _ (previous peer : PeerStats X) (w : Watch X S) where
    abbrev rx : ℕ
    rx = peer.transfer_rx - previous.transfer_rx

    abbrev tx : ℕ
    tx = peer.transfer_tx - previous.transfer_tx

    module _ (h : previous.transfer_rx ≤ peer.transfer_rx)
        (k : previous.transfer_tx ≤ peer.transfer_tx) where
      add_difference_lem :
          add_difference S release stats time previous peer w
          ≡ add_traffic S release stats.public_key peer.public_key time (new rx tx) w
      unfolding add_difference ◌>>=◌
      add_difference_lem = rw (
        sub_usize_fits release previous.transfer_rx peer.transfer_rx h,
        sub_usize_fits release previous.transfer_tx peer.transfer_tx k,
      )

      released :
          peer.transfer_rx < usize_size
          → peer.transfer_tx < usize_size
          → note_difference S release stats time previous peer w ≡ (
              if (rx + tx) % usize_size == 0
              then (ok tt, w)
              else add_traffic S release stats.public_key peer.public_key time (new rx tx) w)
      unfolding note_difference ◌>>=◌
      released fr ft =
          rw
            (
              sub_usize-release previous.transfer_rx peer.transfer_rx h fr,
              sub_usize-release previous.transfer_tx peer.transfer_tx k ft,
              add_usize-release,
              wrapped_test rx tx (omega arith) (omega arith),
            )
            (elim (Bool-cases ((rx + tx) % usize_size == 0)) [
              | inl e ↦ rw e
              | inr e ↦ rw e add_difference_lem
            ])

      panicked :
          (0 < rx) ⊎ (0 < tx) → note_difference S debug stats time previous peer w ≡ (panic, w)
      unfolding note_difference ◌>>=◌
      panicked t = elim (dec_lt previous.transfer_rx peer.transfer_rx) [
        | yes p ↦ rw (sub_usize-debug previous.transfer_rx peer.transfer_rx p)
        | no p ↦ rw (
          sub_usize_fits debug peer.transfer_rx previous.transfer_rx (omega arith),
          sub_usize-debug previous.transfer_tx peer.transfer_tx (omega arith),
        )
      ]

    -- For counters of 64 bits that did not run backwards, a release build records what was received
    -- and sent since, unless the sum of the two is a multiple of 2^64 (0, when nothing happened).
    pub note_difference-release :
        previous.transfer_rx ≤ peer.transfer_rx
        → previous.transfer_tx ≤ peer.transfer_tx
        → peer.transfer_rx < usize_size
        → peer.transfer_tx < usize_size
        → let rx = peer.transfer_rx - previous.transfer_rx in
          let tx = peer.transfer_tx - previous.transfer_tx in
          note_difference S release stats time previous peer w ≡ (
            if (rx + tx) % usize_size == 0
            then (ok tt, w)
            else add_traffic S release stats.public_key peer.public_key time (new rx tx) w)
    note_difference-release h k fr ft = released h k fr ft

    -- For counters that did not run backwards, a debug build panics as soon as there was any
    -- traffic, since it subtracts the new counter from the old one.
    pub note_difference-debug :
        previous.transfer_rx ≤ peer.transfer_rx
        → previous.transfer_tx ≤ peer.transfer_tx
        → (0 < peer.transfer_rx - previous.transfer_rx)
          ⊎ (0 < peer.transfer_tx - previous.transfer_tx)
        → note_difference S debug stats time previous peer w ≡ (panic, w)
    note_difference-debug h k t = panicked h k t
