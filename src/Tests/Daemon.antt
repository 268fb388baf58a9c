-- ===== src/Tests/Daemon.antt =====
-- The theorems on the watchdog at concrete inputs.
use fractalnetworks_gateway.Base.{◌≡◌, refl, inl, none, false, [], ◌∷◌, arith}
use fractalnetworks_gateway.Base.Text.{text}
use fractalnetworks_gateway.Base.Result.{err, ok, panic, pure, lift, ◌>>=◌}
use fractalnetworks_gateway.Base.Map.{get, insert, remove}
use fractalnetworks_gateway.Base.Orders.{nat_order}
use fractalnetworks_gateway.Base.Word.{debug, release}
use fractalnetworks_gateway.Crates.Sample.{sample}
use fractalnetworks_gateway.Client.Traffic.{new}
use fractalnetworks_gateway.System.Sample.{sample_system, sample_journal}
use fractalnetworks_gateway.Watchdog.Peer.{
  Watch, watchdog_peer, expire, previous_of, report, announce_new, store, on_world, recent,
  note_difference, add_traffic,
}
use fractalnetworks_gateway.Watchdog.Peer.Events.{connected}
use fractalnetworks_gateway.Watchdog.Peer.Tracking.{Tracks, start-Tracks, watchdog_peer-Tracks}
use fractalnetworks_gateway.Watchdog.Peer.Deltas.{note_difference-release, note_difference-debug}
use fractalnetworks_gateway.System.{System}
use fractalnetworks_gateway.Watchdog.Network.{
  Task, watchdog_run, watchdog_entry, peer_loop, swallow, dead_peers, remove_loop,
}
use fractalnetworks_gateway.Watchdog.Network.Sweep.{watchdog_entry-forgets}
use fractalnetworks_gateway.Watchdog.Network.Failing.{Ends, watchdog_run_fails}
use fractalnetworks_gateway.Tests.Data.{peer_with, stats_of, start}

abbrev with_peer : Watch sample sample_system
with_peer = (watchdog_peer sample_system release (stats_of []) (peer_with 3 4) start).1

start-Tracks_test : Tracks sample_journal (stats_of []) start
start-Tracks_test = start-Tracks sample_journal (stats_of []) start refl refl

with_peer-Tracks : Tracks sample_journal (stats_of []) with_peer
with_peer-Tracks =
    watchdog_peer-Tracks sample_journal (stats_of []) release (peer_with 3 4) start
      start-Tracks_test

watchdog_peer-Tracks_example :
    Tracks sample_journal
      (stats_of [])
      (watchdog_peer sample_system release (stats_of []) (peer_with 5 6) with_peer).1
watchdog_peer-Tracks_example =
    watchdog_peer-Tracks sample_journal (stats_of []) release (peer_with 5 6) with_peer
      with_peer-Tracks

with_peer_returns : (watchdog_entry sample_system release (stats_of []) with_peer).0 ≡ ok tt
unfolding watchdog_entry peer_loop swallow dead_peers remove_loop watchdog_peer expire previous_of
    report announce_new store on_world recent pure lift ◌>>=◌ get insert remove
with_peer_returns = refl

watchdog_entry-forgets_example :
    (get 7 (watchdog_entry sample_system release (stats_of []) with_peer).1.peers ≡ none)
    × (connected sample 2 7 (
          sample_journal.sent
            (watchdog_entry sample_system release (stats_of []) with_peer).1.world)
        ≡ false)
watchdog_entry-forgets_example =
    watchdog_entry-forgets sample_journal release (stats_of []) with_peer 7 with_peer-Tracks
      with_peer_returns refl

note_difference-release_example :
    note_difference sample_system release (stats_of []) 1000 (peer_with 3 4) (peer_with 10 20) start
    ≡ add_traffic sample_system release 2 7 1000 (new 7 16) start
note_difference-release_example =
    note_difference-release sample_system (stats_of []) 1000 (peer_with 3 4) (peer_with 10 20) start
      (omega arith) (omega arith) (omega arith) (omega arith)

note_difference-debug_example :
    note_difference sample_system debug (stats_of []) 1000 (peer_with 3 4) (peer_with 10 20) start
    ≡ (panic, start)
note_difference-debug_example =
    note_difference-debug sample_system (stats_of []) 1000 (peer_with 3 4) (peer_with 10 20) start
      (omega arith) (omega arith) (inl (omega arith))

-- A system on which nobody receives the slices of traffic.
abbrev unheard_system : System sample
unheard_system = record sample_system { send_traffic = λ t w. (err (text "no receiver" ∷ []), w) }

-- A network that is listed, and another one that is known.
abbrev task : Task unheard_system
task = record {
  world = record { names = text "network-5" ∷ []; events = [] };
  cache = (9, []) ∷ [];
}

watchdog_run_fails_example :
    Ends unheard_system release task (watchdog_run unheard_system release task).0
watchdog_run_fails_example = watchdog_run_fails unheard_system release task
