-- ===== src/Watchdog/Runs.antt =====
-- The runs of the watchdog of src/watchdog.rs over all networks, one after the other.
pub mod Live
use fractalnetworks_gateway.Base.{
  ℕ, ◌≡◌, refl, sym, ap, ◌∙◌, Bool, true, false, Option, none, some, List, [], ◌∷◌, if◌then◌else◌,
  arith, inl, inr, Bool-cases,
}
use fractalnetworks_gateway.Base.Text.{Text, text, starts_with}
use fractalnetworks_gateway.Base.Result.{
  Result, ok, err, panic, Call, context, context_of, continue, pure, ◌>>=◌,
}
use fractalnetworks_gateway.Base.Map.{Map, get, get_or, insert, same}
use fractalnetworks_gateway.Base.Map.Laws.{get-nil, get-insert, same→eq, same_refl}
use fractalnetworks_gateway.Base.Orders.{nat_order}
use fractalnetworks_gateway.Base.Word.{Build}
use fractalnetworks_gateway.Crates.{Crates}
use fractalnetworks_gateway.Client.Traffic.{new_info}
use fractalnetworks_gateway.Types.Names.{netns_prefix, wgif_of_netns}
use fractalnetworks_gateway.Types.Stats.{PeerStats, NetworkStats, NetnsItem}
use fractalnetworks_gateway.System.{System}
use fractalnetworks_gateway.Watchdog.Peer.{Watch}
use fractalnetworks_gateway.Watchdog.Peer.Events.{Journal, is_key, connected, connected-nil}
use fractalnetworks_gateway.Watchdog.Peer.Announce.{live}
use fractalnetworks_gateway.Watchdog.Peer.Tracking.{Tracks}
use fractalnetworks_gateway.Watchdog.Network.{
  PeerCache, Daemon, Task, swallow, swallowed, watchdog_entry, on_entry, fetch_stats,
  watchdog_netns, netns_loop, run_items, send_slice, watchdog_run,
}
use fractalnetworks_gateway.Watchdog.Network.Apart.{
  Delivers, watchdog_entry_elsewhere, watchdog_entry_keeps,
}

-- Each port keeps the public key of its network, and no two ports share one.
pub record Keyed {X : Crates} (S : System X) : Type 0 where
  pub key_of : ℕ → X.Pubkey
  pub apart : (m n : ℕ) → is_key X (key_of m) (key_of n) ≡ true → m ≡ n
  pub reported :
      (netns wgif : Text) (w : S.World) (stats : NetworkStats X)
      → (S.wireguard_stats netns wgif w).0 ≡ ok stats
      → stats.public_key ≡ key_of stats.listen_port

module _ {X : Crates} (S : System X) (b : Build) where
  -- Runs that returned, one after the other.
  pub data Runs : Task S → Task S → Type 0 where
    rest : (t : Task S) → Runs t t
    run : (t u : Task S) → Runs t u → (watchdog_run S b u).0 ≡ ok tt → Runs t (watchdog_run S b u).1

module _ {X : Crates} {S : System X} (J : Journal S) (K : Keyed S) where
  abbrev pub cached : PeerCache X → ℕ → X.Pubkey → Option (PeerStats X)
  cached cache port p = get ⦃o = X.pubkey_order⦄ p (get_or port [] cache)

  -- In every network, the listeners take for connected exactly the peers whose cached entry has a
  -- handshake.
  pub record Known (world : S.World) (cache : PeerCache X) : Type 0 where
    pub known :
        (port : ℕ) (p : X.Pubkey)
        → connected X (K.key_of port) p (J.sent world) ≡ live (cached cache port p)

  cached-nil : (port : ℕ) (p : X.Pubkey) → cached [] port p ≡ none
  unfolding get
  cached-nil port p = refl

  -- At the start, with nothing cached and nothing sent.
  pub start-Known : (w : S.World) (cache : PeerCache X) → cache ≡ [] → J.sent w ≡ [] → Known w cache
  start-Known w cache empty quiet = record {
    known = λ port p.
        rw (quiet, empty, connected-nil X (K.key_of port) p) (ap live (sym (cached-nil port p)));
  }

  pub Known-sent :
      (w w' : S.World) (cache : PeerCache X) → J.sent w' ≡ J.sent w → Known w cache → Known w' cache
  Known-sent w w' cache e k = record { known = λ port p. rw e (k.known port p) }

  get_or-insert :
      (q port : ℕ) (v : Map X.Pubkey (PeerStats X)) (m : PeerCache X)
      → get_or q [] (insert port v m) ≡ (if same q port then v else get_or q [] m)
  get_or-insert q port v m =
      ap (λ (o : Option (Map X.Pubkey (PeerStats X))). elim o [ none ↦ [] | some w ↦ w ])
        (get-insert q port v m)
      ∙ chosen (same q port) v (get q m)
    where
      chosen :
          (c : Bool) (v : Map X.Pubkey (PeerStats X)) (o : Option (Map X.Pubkey (PeerStats X)))
          → elim (if c then some v else o) [ none ↦ [] | some w ↦ w ]
            ≡ (if c then v else elim o [ none ↦ [] | some w ↦ w ])
      chosen true v o = refl
      chosen false v o = refl

  entry_ap :
      {m n : Map X.Pubkey (PeerStats X)} (p : X.Pubkey)
      → m ≡ n
      → live (get ⦃o = X.pubkey_order⦄ p m) ≡ live (get ⦃o = X.pubkey_order⦄ p n)
  entry_ap p h = ap (λ m. live (get ⦃o = X.pubkey_order⦄ p m)) h

  module _ (delivers : Delivers S) (b : Build) where
    module _ (stats : NetworkStats X) (e : stats.public_key ≡ K.key_of stats.listen_port) where
      abbrev port : ℕ
      port = stats.listen_port

      other_port : (q : ℕ) → same q port ≡ false → is_key X (K.key_of q) stats.public_key ≡ false
      other_port q d = elim (Bool-cases (is_key X (K.key_of q) stats.public_key)) [
        | inl h ↦
            let same_port : q ≡ port = K.apart q port (rw (← e) h) in
            absurd (ground (arith, same_refl port))
        | inr h ↦ h
      ]

      on_entry-Known :
          (d : Daemon S)
          → Known d.world d.cache
          → Known
              (on_entry S port (watchdog_entry S b stats) d).1.world
              (on_entry S port (watchdog_entry S b stats) d).1.cache
      unfolding on_entry
      on_entry-Known d k =
          let w : Watch X S = record {
            world = d.world;
            traffic = d.traffic;
            peers = get_or port [] d.cache;
          } in
          let before : Tracks J stats w = record { agrees = λ p. rw e (k.known port p) } in
          let w' = (watchdog_entry S b stats w).1 in
          let after = watchdog_entry_keeps J b stats delivers w before in
          record {
            known = λ q p. elim (Bool-cases (same q port)) [
              | inl h ↦
                  ap (λ n. connected X n p (J.sent w'.world))
                    (ap K.key_of (same→eq q port h) ∙ sym e)
                  ∙ after.agrees p
                  ∙ sym (entry_ap p (get_or-insert q port w'.peers d.cache ∙ rw h refl))
              | inr h ↦
                  watchdog_entry_elsewhere J b stats (K.key_of q) p (other_port q h) w before
                  ∙ k.known q p
                  ∙ sym (entry_ap p (get_or-insert q port w'.peers d.cache ∙ rw h refl))
            ];
          }

    abbrev pub KnownDaemon : Daemon S → Type 0
    KnownDaemon d = Known d.world d.cache

    pub watchdog_netns-Known :
        (netns : Text) (d : Daemon S) → KnownDaemon d → KnownDaemon (watchdog_netns S b netns d).1
    unfolding watchdog_netns fetch_stats context ◌>>=◌
    watchdog_netns-Known netns d k =
        let fetched = S.wireguard_stats netns (wgif_of_netns netns) d.world in
        fetched-Known fetched.0 fetched.1
          (λ stats h. K.reported netns (wgif_of_netns netns) d.world stats h)
          (Known-sent d.world fetched.1 d.cache
            (J.sent-wireguard_stats netns (wgif_of_netns netns) d.world) k)
      where
        fetched-Known :
            (r : Result (NetworkStats X)) (world : S.World)
            → ((stats : NetworkStats X)
                → r ≡ ok stats
                → stats.public_key ≡ K.key_of stats.listen_port)
            → Known world d.cache
            → KnownDaemon
                (continue
                  (context_of (text "Fetching wireguard stats") r)
                  (λ (stats : NetworkStats X).
                    on_entry S stats.listen_port (watchdog_entry S b stats))
                  (record d { world = world })).1
        fetched-Known (ok stats) world e k' =
            on_entry-Known stats (e stats refl) (record d { world = world }) k'
        fetched-Known (err x) world e k' = k'
        fetched-Known panic world e k' = k'

    then-Known :
        (r : Result (Unit {0})) (m : Call (Daemon S) (Unit {0})) (d : Daemon S)
        → KnownDaemon d
        → (KnownDaemon d → KnownDaemon (m d).1)
        → KnownDaemon (continue r (λ _. m) d).1
    then-Known (ok u) m d k step = step k
    then-Known (err x) m d k step = k
    then-Known panic m d k step = k

    netns_loop-Known :
        (items : List NetnsItem) (d : Daemon S)
        → KnownDaemon d
        → KnownDaemon (netns_loop S b items d).1
    unfolding netns_loop pure ◌>>=◌ swallow
    netns_loop-Known [] d k = k
    netns_loop-Known (netns ∷ items) d k = elim (Bool-cases (starts_with netns.name netns_prefix)) [
      | inl h ↦
          let (r, d') = watchdog_netns S b netns.name d in
          rw h (
            then-Known (swallowed r) (netns_loop S b items) d' (watchdog_netns-Known netns.name d k)
              (netns_loop-Known items d'))
      | inr h ↦ rw h (netns_loop-Known items d k)
    ]

    -- A run leaves the listeners in agreement with the cache, whatever its outcome.
    watchdog_run-Known :
        (t : Task S)
        → Known t.world t.cache
        → Known (watchdog_run S b t).1.world (watchdog_run S b t).1.cache
    unfolding watchdog_run
    watchdog_run-Known t k =
        let (r, world) = S.netns_list t.world in
        listed-Known r world (Known-sent t.world world t.cache (J.sent-netns_list t.world) k)
      where
        sliced-Known :
            (r : Result (Unit {0})) (d : Daemon S)
            → KnownDaemon d
            → Known (send_slice S r d).1.world (send_slice S r d).1.cache
        sliced-Known (ok u) d k' =
            Known-sent d.world _ d.cache (J.sent-traffic d.traffic d.world) k'
        sliced-Known (err x) d k' = k'
        sliced-Known panic d k' = k'

        listed-Known :
            (r : Result (List NetnsItem)) (world : S.World)
            → Known world t.cache
            → Known (run_items S b t.cache r world).1.world (run_items S b t.cache r world).1.cache
        listed-Known (ok items) world k' =
            let d : Daemon S = record { world = world; traffic = new_info 0; cache = t.cache } in
            let (r, d') = netns_loop S b items d in sliced-Known r d' (netns_loop-Known items d k')
        listed-Known (err x) world k' = k'
        listed-Known panic world k' = k'

    -- If every event goes out, a failed send reaches nobody, and each port keeps a public key of its
    -- own, then after any number of runs that returned, from a start with nothing cached and nothing
    -- sent, the listeners take a peer of a network for connected exactly when its cached entry has a
    -- handshake, whatever networks and peers came, went and failed in between.
    pub Runs-Known :
        (start t : Task S)
        → start.cache ≡ []
        → J.sent start.world ≡ []
        → Runs S b start t
        → (port : ℕ) (p : X.Pubkey)
        → connected X (K.key_of port) p (J.sent t.world) ≡ live (cached t.cache port p)
    Runs-Known start t empty quiet runs =
        (reached start t runs (start-Known start.world start.cache empty quiet)).known
      where
        reached : (s u : Task S) → Runs S b s u → Known s.world s.cache → Known u.world u.cache
        reached s u (rest _) k = k
        reached s u (run _ v before returned) k = watchdog_run-Known v (reached s v before k)
