-- ===== src/Tests/Runs.antt =====
-- The theorems on the runs of the watchdog, at a concrete system with a network of two peers, one of which
-- was heard of lately.
use fractalnetworks_gateway.Base.{
  ℕ, zero, suc, ◌+◌, ◌*◌, ◌≡◌, refl, sym, ap, ◌∙◌, Bool, true, false, none, some, [], ◌∷◌, All,
  arith, List,
}
use fractalnetworks_gateway.Base.Text.{Text, text, eq}
use fractalnetworks_gateway.Base.Result.{ok}
use fractalnetworks_gateway.Base.Map.Laws.{same→eq}
use fractalnetworks_gateway.Base.Orders.{nat_order}
use fractalnetworks_gateway.Base.Time.{unix_epoch, nanos}
use fractalnetworks_gateway.Base.Word.{release}
use fractalnetworks_gateway.Crates.Sample.{sample}
use fractalnetworks_gateway.Types.Stats.{PeerStats, NetworkStats, NetnsItem}
use fractalnetworks_gateway.System.{System}
use fractalnetworks_gateway.System.Sample.{sample_system, answer}
use fractalnetworks_gateway.Watchdog.Peer.Events.{Journal, connected}
use fractalnetworks_gateway.Watchdog.Peer.Announce.{live}
use fractalnetworks_gateway.Watchdog.Peer.Returning.{Calm}
use fractalnetworks_gateway.Watchdog.Peer.Storing.{HasEndpoint}
use fractalnetworks_gateway.Watchdog.Network.{Task, watchdog_run}
use fractalnetworks_gateway.Watchdog.Runs.{Keyed, Known, start-Known, cached, rest, run, Runs-Known}
use fractalnetworks_gateway.Watchdog.Runs.Live.{Reporting, watchdog_run-online_from}
use fractalnetworks_gateway.Tests.Data.{peer_with, stats_of}

-- A number for each name, and no number for two.
odd_times : ℕ → ℕ → ℕ
odd_times zero n = 2 * n + 1
odd_times (suc c) n = 2 * odd_times c n

odd_times-injective : (c d m n : ℕ) → odd_times c m ≡ odd_times d n → (c ≡ d) × (m ≡ n)
unfolding odd_times
odd_times-injective zero zero m n h = (refl, omega (arith, h))
odd_times-injective zero (suc d) m n h = absurd (omega (arith, h))
odd_times-injective (suc c) zero m n h = absurd (omega (arith, h))
odd_times-injective (suc c) (suc d) m n h =
    let (e, e') = odd_times-injective c d m n (omega (arith, h)) in (ap suc e, e')

odd_times_positive : (c n : ℕ) → odd_times c n ≡ 0 → ⊥
unfolding odd_times
odd_times_positive zero n h = omega (arith, h)
odd_times_positive (suc c) n h = odd_times_positive c n (omega (arith, h))

code : Text → ℕ
code [] = 0
code (c ∷ s) = odd_times c (code s)

code-injective : (s t : Text) → code s ≡ code t → s ≡ t
unfolding code
code-injective [] [] h = refl
code-injective [] (d ∷ t) h = absurd (odd_times_positive d (code t) (sym h))
code-injective (c ∷ s) [] h = absurd (odd_times_positive c (code s) h)
code-injective (c ∷ s) (d ∷ t) h =
    let (e, e') = odd_times-injective c d (code s) (code t) h in
    let tails = code-injective s t e' in cc

-- The clock shows 1000 seconds after the epoch.
abbrev heard : PeerStats sample
heard = peer_with 3 4

abbrev silent : PeerStats sample
silent = record heard { public_key = 8; latest_handshake = some (unix_epoch + 700 * nanos) }

abbrev peers_of : Bool → List (PeerStats sample)
peers_of true = heard ∷ silent ∷ []
peers_of false = []

abbrev report_of : Text → NetworkStats sample
report_of n = record (stats_of (peers_of (eq n (text "network-5")))) {
  public_key = code n;
  listen_port = code n;
}

abbrev live_system : System sample
live_system = record sample_system { wireguard_stats = λ n i. answer (report_of n) }

abbrev live_journal : Journal live_system
live_journal = record {
  sent = λ w. w.events;
  sent-ok = λ e w h. refl;
  sent-failed = λ e w h. absurd (h refl);
  sent-now = λ w. refl;
  sent-netns_list = λ w. refl;
  sent-traffic = λ t w. refl;
  sent-wireguard_stats = λ n i w. refl;
}

abbrev live_keyed : Keyed live_system
live_keyed = record {
  key_of = λ n. n;
  apart = λ m n h. same→eq m n h;
  reported = λ n i w stats h.
      let answered : report_of n ≡ stats = cc in
      sym (ap (λ (s : NetworkStats sample). s.public_key) answered)
      ∙ ap (λ (s : NetworkStats sample). s.listen_port) answered;
}

live-Calm : Calm live_system (unix_epoch + 1000 * nanos)
live-Calm = record { delivers = λ e w. refl; clock = λ w. refl; after_epoch = refl }

has_endpoints : (b : Bool) → All HasEndpoint (peers_of b)
has_endpoints true = ((_, refl), ((_, refl), tt))
has_endpoints false = tt

-- A network, and the namespace of somebody else.
abbrev first : Task live_system
first = record {
  world = record { names = text "network-5" ∷ text "mine" ∷ []; events = [] };
  cache = [];
}

abbrev items : List NetnsItem
items =
    record { name = text "network-5"; id = none } ∷ record { name = text "mine"; id = none } ∷ []

live-Reporting : Reporting live_system report_of items
live-Reporting = record {
  answered = (λ h n w. refl, (λ h n w. refl, tt));
  endpoints = (
    λ h. has_endpoints (eq (text "network-5") (text "network-5")),
    (λ h. has_endpoints (eq (text "mine") (text "network-5")), tt),
  );
  sliced = λ t w. refl;
}

first-Known : Known live_journal live_keyed first.world first.cache
first-Known = start-Known live_journal live_keyed first.world [] refl refl

first_returns : (watchdog_run live_system release first).0 ≡ ok tt
first_returns =
    (watchdog_run-online_from live_journal live_keyed live-Calm report_of first items live-Reporting
      first-Known refl).0

abbrev second : Task live_system
second = (watchdog_run live_system release first).1

Runs-Known_example :
    connected sample (code (text "network-5")) 7 (live_journal.sent second.world)
    ≡ live (cached live_journal live_keyed second.cache (code (text "network-5")) 7)
Runs-Known_example =
    Runs-Known live_journal live_keyed (λ e w. refl) release first second refl refl
      (run first first (rest first) first_returns) (code (text "network-5")) 7
