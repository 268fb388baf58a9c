-- ===== src/Watchdog/Network.antt =====
-- `watchdog_netns`, `watchdog_run` and `watchdog` of src/watchdog.rs, and the task of
-- `Global::watchdog` in src/lib.rs that starts it again.
pub mod Sweep
pub mod Apart
pub mod Online
pub mod Failing
use fractalnetworks_gateway.Base.{ℕ, Bool, true, false, not, any, List, [], ◌∷◌, if◌then◌else◌}
use fractalnetworks_gateway.Base.Text.{Text, text, starts_with}
use fractalnetworks_gateway.Base.Result.{
  Result, ok, err, panic, Call, pure, context, continue, ◌>>=◌, ◌>>◌,
}
use fractalnetworks_gateway.Base.Map.{Map, get_or, insert, remove, same}
use fractalnetworks_gateway.Base.Orders.{nat_order}
use fractalnetworks_gateway.Base.Word.{Build}
use fractalnetworks_gateway.Crates.{Crates}
use fractalnetworks_gateway.Client.Traffic.{TrafficInfo, new_info}
use fractalnetworks_gateway.Types.Names.{netns_prefix, wgif_of_netns}
use fractalnetworks_gateway.Types.Stats.{PeerStats, NetworkStats, NetnsItem}
use fractalnetworks_gateway.System.{System}
use fractalnetworks_gateway.Watchdog.Peer.{Watch, disconnected_event, watchdog_peer}
use fractalnetworks_gateway.Watchdog.Peer.Events.{is_key}

-- `PeerCache`: the peers of each network by its port.
abbrev pub PeerCache : Crates → Type 0
PeerCache X = Map ℕ (Map X.Pubkey (PeerStats X))

-- `match … { Ok(_) => {}, Err(e) => error!(…) }`: an error is logged, a panic goes through.
abbrev pub swallowed : Result (Unit {0}) → Result (Unit {0})
swallowed (ok u) = ok u
swallowed (err e) = ok tt
swallowed panic = panic

unfoldable pub swallow : {W : Type 0} → Call W (Unit {0}) → Call W (Unit {0})
swallow m w = let (r, w') = m w in (swallowed r, w')

module _ {X : Crates} (S : System X) where
  -- Lines 71 to 78.
  unfoldable pub peer_loop :
      Build → NetworkStats X → List (PeerStats X) → Call (Watch X S) (Unit {0})
  peer_loop b stats [] = pure tt
  peer_loop b stats (peer ∷ peers) = do
    swallow (watchdog_peer S b stats peer)
    peer_loop b stats peers

  abbrev pub is_listed : List (PeerStats X) → X.Pubkey → Bool
  is_listed peers k = any (λ peer. is_key X k peer.public_key) peers

  -- Lines 81 to 86.
  unfoldable pub dead_peers : List (PeerStats X) → Map X.Pubkey (PeerStats X) → List X.Pubkey
  dead_peers peers [] = []
  dead_peers peers ((k, _) ∷ entry) =
      let rest = dead_peers peers entry in if is_listed peers k then rest else k ∷ rest

  abbrev pub drop_peer : X.Pubkey → Watch X S → Watch X S
  drop_peer k w = record w { peers = remove ⦃o = X.pubkey_order⦄ k w.peers }

  -- Lines 89 to 99: the entry is gone before its event is sent.
  unfoldable pub remove_loop : X.Pubkey → List X.Pubkey → Call (Watch X S) (Unit {0})
  remove_loop network [] w = (ok tt, w)
  remove_loop network (k ∷ dead) w =
      (disconnected_event S network k >>= λ _. remove_loop network dead) (drop_peer k w)

  abbrev pub sweep : NetworkStats X → Call (Watch X S) (Unit {0})
  sweep stats w = remove_loop stats.public_key (dead_peers stats.peers w.peers) w

  -- Lines 71 to 101, on the cache entry of the network.
  unfoldable pub watchdog_entry : Build → NetworkStats X → Call (Watch X S) (Unit {0})
  watchdog_entry b stats = do peer_loop b stats stats.peers; sweep stats

  pub record Daemon : Type 0 where
    pub world : S.World
    pub traffic : TrafficInfo X.Pubkey
    pub cache : PeerCache X

  -- `cache.entry(port).or_insert_with(…)`, which the rest works on in place.
  unfoldable pub on_entry : ℕ → Call (Watch X S) (Unit {0}) → Call Daemon (Unit {0})
  on_entry port m d =
      let (r, w) =
        m (record { world = d.world; traffic = d.traffic; peers = get_or port [] d.cache }) in
      (r, record { world = w.world; traffic = w.traffic; cache = insert port w.peers d.cache })

  unfoldable pub fetch_stats : Text → Call Daemon (NetworkStats X)
  fetch_stats netns d =
      let (r, world) = S.wireguard_stats netns (wgif_of_netns netns) d.world in
      (r, record d { world = world })

  unfoldable pub watchdog_netns : Build → Text → Call Daemon (Unit {0})
  watchdog_netns b netns = do
    stats ← context (text "Fetching wireguard stats") (fetch_stats netns)
    on_entry stats.listen_port (watchdog_entry b stats)

  -- Lines 41 to 48.
  unfoldable pub netns_loop : Build → List NetnsItem → Call Daemon (Unit {0})
  netns_loop b [] = pure tt
  netns_loop b (netns ∷ items) = do
    if starts_with netns.name netns_prefix then swallow (watchdog_netns b netns.name) else pure tt
    netns_loop b items

  pub record Task : Type 0 where
    pub world : S.World
    pub cache : PeerCache X

  -- Lines 49 and 50, once the loop is done.
  abbrev pub send_slice : Result (Unit {0}) → Daemon → Result (Unit {0}) × Task
  send_slice (ok u) d =
      let (r, world) = S.send_traffic d.traffic d.world in
      (r, record { world = world; cache = d.cache })
  send_slice (err e) d = (err e, record { world = d.world; cache = d.cache })
  send_slice panic d = (panic, record { world = d.world; cache = d.cache })

  -- What follows the listing of the namespaces.
  abbrev pub run_items :
      Build → PeerCache X → Result (List NetnsItem) → S.World → Result (Unit {0}) × Task
  run_items b cache (ok items) world =
      let (r, d) =
        netns_loop b items (record { world = world; traffic = new_info 0; cache = cache }) in
      send_slice r d
  run_items b cache (err e) world =
      (err (text "Listing network namespaces" ∷ e), record { world = world; cache = cache })
  run_items b cache panic world = (panic, record { world = world; cache = cache })

  unfoldable pub watchdog_run : Build → Call Task (Unit {0})
  watchdog_run b t = let (r, world) = S.netns_list t.world in run_items b t.cache r world

  -- The task of `Global::watchdog` between two ticks: an error ends `watchdog`, which is started
  -- again with an empty cache; a panic ends the task.
  pub data Supervised : Type 0 where
    running : Task → Supervised
    ended : S.World → Supervised

  abbrev after_run : Result (Unit {0}) → Task → Supervised
  after_run (ok u) t = running t
  after_run (err e) t = running (record { world = t.world; cache = [] })
  after_run panic t = ended t.world

  unfoldable pub tick : Build → Supervised → Supervised
  tick b (running t) = let (r, t') = watchdog_run b t in after_run r t'
  tick b (ended w) = ended w
