-- ===== src/Watchdog/Runs/Live.antt =====
-- A run of the watchdog of src/watchdog.rs brings the listeners to what the statistics of all networks say.
use fractalnetworks_gateway.Base.{
  ◌≡◌, refl, ap, ◌∙◌, Bool, true, false, ◌&&◌, List, [], ◌∷◌, All, if◌then◌else◌, inl, inr,
  Bool-cases,
}
use fractalnetworks_gateway.Base.Text.{Text, starts_with}
use fractalnetworks_gateway.Base.Result.{Result, ok, err, panic, context, continue, pure, ◌>>=◌}
use fractalnetworks_gateway.Base.Map.{get_or}
use fractalnetworks_gateway.Base.Map.Laws.{same→eq}
use fractalnetworks_gateway.Base.Orders.{nat_order}
use fractalnetworks_gateway.Base.Time.{SystemTime}
use fractalnetworks_gateway.Base.Word.{release}
use fractalnetworks_gateway.Crates.{Crates}
use fractalnetworks_gateway.Client.Traffic.{TrafficInfo, new_info}
use fractalnetworks_gateway.Types.Names.{netns_prefix, wgif_of_netns}
use fractalnetworks_gateway.Types.Stats.{NetworkStats, NetnsItem}
use fractalnetworks_gateway.System.{System}
use fractalnetworks_gateway.Watchdog.Peer.{Watch}
use fractalnetworks_gateway.Watchdog.Peer.Events.{Journal, is_key, connected}
use fractalnetworks_gateway.Watchdog.Peer.Tracking.{Tracks}
use fractalnetworks_gateway.Watchdog.Peer.Returning.{Calm}
use fractalnetworks_gateway.Watchdog.Peer.Storing.{HasEndpoint}
use fractalnetworks_gateway.Watchdog.Network.{
  Daemon, Task, swallow, swallowed, watchdog_entry, on_entry, fetch_stats, watchdog_netns,
  netns_loop, send_slice, watchdog_run,
}
use fractalnetworks_gateway.Watchdog.Network.Apart.{watchdog_entry_elsewhere}
use fractalnetworks_gateway.Watchdog.Network.Online.{online_from, watchdog_entry-online_from}
use fractalnetworks_gateway.Watchdog.Runs.{Keyed, Known, Known-sent, watchdog_netns-Known}

-- What the visited namespaces report stays the same during the run, every peer in it has an endpoint, and
-- the slice of traffic goes out.
pub record Reporting {X : Crates} (S : System X) (answers : Text → NetworkStats X)
    (items : List NetnsItem) : Type 0 where
  pub answered :
      All
        (λ (i : NetnsItem).
          starts_with i.name netns_prefix ≡ true
          → (wgif : Text) (w : S.World) → (S.wireguard_stats i.name wgif w).0 ≡ ok (answers i.name))
        items
  pub endpoints :
      All
        (λ (i : NetnsItem).
          starts_with i.name netns_prefix ≡ true → All HasEndpoint (answers i.name).peers)
        items
  pub sliced : (t : TrafficInfo X.Pubkey) (w : S.World) → (S.send_traffic t w).0 ≡ ok tt

-- Whether a peer of a network is to be taken for connected after the namespaces were visited in turn: as it
-- was before, or as the last of them that reports the network says.
pub told_after :
    {X : Crates}
    → SystemTime
    → (Text → NetworkStats X)
    → List NetnsItem
    → X.Pubkey
    → X.Pubkey
    → Bool
    → Bool
told_after now answers [] k p before = before
told_after {X} now answers (i ∷ items) k p before = told_after now answers items k p (
    if starts_with i.name netns_prefix && is_key X k (answers i.name).public_key
    then online_from now p (answers i.name).peers false
    else before)

module _ {X : Crates} {S : System X} {now : SystemTime} (J : Journal S) (K : Keyed S)
    (C : Calm S now) (answers : Text → NetworkStats X) where
  abbrev told_in : S.World → X.Pubkey → X.Pubkey → Bool
  told_in w k p = connected X k p (J.sent w)

  abbrev visit : Text → X.Pubkey → X.Pubkey → Bool → Bool
  visit n k p before =
      if is_key X k (answers n).public_key
      then online_from now p (answers n).peers false
      else before

  -- A run over one namespace returned, its peers are as they are reported, and the rest is untouched.
  record Visited (n : Text) (w : S.World) (r : Result (Unit {0}) × Daemon S) : Type 0 where
    returned : r.0 ≡ ok tt
    told : (k p : X.Pubkey) → told_in r.1.world k p ≡ visit n k p (told_in w k p)

  on_entry-Visited :
      (n : Text) (d : Daemon S)
      → All HasEndpoint (answers n).peers
      → (answers n).public_key ≡ K.key_of (answers n).listen_port
      → Known J K d.world d.cache
      → Visited n d.world
          (on_entry S (answers n).listen_port (watchdog_entry S release (answers n)) d)
  unfolding on_entry
  on_entry-Visited n d ends e k =
      let stats = answers n in
      let w : Watch X S = record {
        world = d.world;
        traffic = d.traffic;
        peers = get_or stats.listen_port [] d.cache;
      } in
      let before : Tracks J stats w = record { agrees = λ p. rw e (k.known stats.listen_port p) } in
      let (returned, here) = watchdog_entry-online_from J C stats w before ends in
      record {
        returned = returned;
        told = λ m p. elim (Bool-cases (is_key X m stats.public_key)) [
          | inl h ↦
              let same = same→eq ⦃o = X.pubkey_order⦄ m stats.public_key h in rw (h, same) (here p)
          | inr h ↦ rw h (watchdog_entry_elsewhere J release stats m p h w before)
        ];
      }

  watchdog_netns-Visited :
      (n : Text) (d : Daemon S)
      → ((wgif : Text) (w : S.World) → (S.wireguard_stats n wgif w).0 ≡ ok (answers n))
      → All HasEndpoint (answers n).peers
      → Known J K d.world d.cache
      → Visited n d.world (watchdog_netns S release n d)
  unfolding watchdog_netns fetch_stats context ◌>>=◌
  watchdog_netns-Visited n d answer ends k =
      let wgif = wgif_of_netns n in
      let world = (S.wireguard_stats n wgif d.world).1 in
      let answered = answer wgif d.world in
      let same = J.sent-wireguard_stats n wgif d.world in
      let visited =
        on_entry-Visited n (record d { world = world }) ends
          (K.reported n wgif d.world (answers n) answered)
          (Known-sent J K d.world world d.cache same k) in
      rw answered (record {
        returned = visited.returned;
        told = λ m p. visited.told m p ∙ ap (λ l. visit n m p (connected X m p l)) same;
      })

  -- What the loop over the namespaces has done.
  record Swept (items : List NetnsItem) (w : S.World) (r : Result (Unit {0}) × Daemon S)
      : Type 0 where
    returned : r.0 ≡ ok tt
    told :
        (k p : X.Pubkey) → told_in r.1.world k p ≡ told_after now answers items k p (told_in w k p)

  Swept-Visited :
      (i : NetnsItem) (items : List NetnsItem) (w : S.World) (r : Result (Unit {0})) (d : Daemon S)
      → starts_with i.name netns_prefix ≡ true
      → Visited i.name w (r, d)
      → Swept items d.world (netns_loop S release items d)
      → Swept (i ∷ items) w (continue (swallowed r) (λ _. netns_loop S release items) d)
  unfolding told_after
  Swept-Visited i items w r d h v s = rw v.returned (record {
    returned = s.returned;
    told = λ k p. s.told k p ∙ ap (told_after now answers items k p) (rw h (v.told k p));
  })

  netns_loop-Swept :
      (items : List NetnsItem) (d : Daemon S)
      → Reporting S answers items
      → Known J K d.world d.cache
      → Swept items d.world (netns_loop S release items d)
  unfolding netns_loop pure ◌>>=◌ swallow told_after
  netns_loop-Swept [] d R k = record { returned = refl; told = λ n p. refl }
  netns_loop-Swept (i ∷ items) d R k =
      let (answer, answered) = R.answered in
      let (ends, endpoints) = R.endpoints in
      let later : Reporting S answers items = record {
        answered = answered;
        endpoints = endpoints;
        sliced = R.sliced;
      } in
      elim (Bool-cases (starts_with i.name netns_prefix)) [
        | inl h ↦
            let (r, d') = watchdog_netns S release i.name d in
            rw h (
              Swept-Visited i items d.world r d' h
                (watchdog_netns-Visited i.name d (answer h) (ends h) k)
                (netns_loop-Swept items d' later
                  (watchdog_netns-Known J K C.delivers release i.name d k)))
        | inr h ↦
            let s = netns_loop-Swept items d later k in
            rw h (record { returned = s.returned; told = λ m p. rw h (s.told m p) })
      ]

  pub watchdog_run-online_from :
      (t : Task S) (items : List NetnsItem)
      → Reporting S answers items
      → Known J K t.world t.cache
      → (S.netns_list t.world).0 ≡ ok items
      → ((watchdog_run S release t).0 ≡ ok tt)
        × ((k p : X.Pubkey)
            → connected X k p (J.sent (watchdog_run S release t).1.world)
              ≡ told_after now answers items k p (connected X k p (J.sent t.world)))
  unfolding watchdog_run
  watchdog_run-online_from t items R k h =
      let world = (S.netns_list t.world).1 in
      let same = J.sent-netns_list t.world in
      let d : Daemon S = record { world = world; traffic = new_info 0; cache = t.cache } in
      let (r, d') = netns_loop S release items d in
      rw h
        (sent_slice r d' (netns_loop-Swept items d R (Known-sent J K t.world world t.cache same k)))
    where
      sent_slice :
          (r : Result (Unit {0})) (d : Daemon S)
          → Swept items (S.netns_list t.world).1 (r, d)
          → ((send_slice S r d).0 ≡ ok tt)
            × ((n p : X.Pubkey)
                → told_in (send_slice S r d).1.world n p
                  ≡ told_after now answers items n p (told_in t.world n p))
      sent_slice (ok u) d s = (
        R.sliced d.traffic d.world,
        λ n p.
            ap (connected X n p) (J.sent-traffic d.traffic d.world)
            ∙ s.told n p
            ∙ ap (λ l. told_after now answers items n p (connected X n p l))
                (J.sent-netns_list t.world),
      )
      sent_slice (err x) d s = absurd (let e = s.returned in cc)
      sent_slice panic d s = absurd (let e = s.returned in cc)
