-- ===== src/Watchdog/Network/Failing.antt =====
-- How a run of the watchdog of src/watchdog.rs ends, and what the task of `Global::watchdog` (src/lib.rs)
-- does then.
use fractalnetworks_gateway.Base.{◌≡◌, ◌≢◌, refl, ◌⊎◌, inl, inr, List, [], ◌∷◌, Bool-cases}
use fractalnetworks_gateway.Base.Text.{text, starts_with}
use fractalnetworks_gateway.Base.Result.{Error, Result, ok, err, panic, Call, pure, ◌>>=◌, continue}
use fractalnetworks_gateway.Base.Word.{Build}
use fractalnetworks_gateway.Crates.{Crates}
use fractalnetworks_gateway.Client.Traffic.{new_info}
use fractalnetworks_gateway.Types.Names.{netns_prefix}
use fractalnetworks_gateway.Types.Stats.{NetnsItem}
use fractalnetworks_gateway.System.{System}
use fractalnetworks_gateway.Watchdog.Network.{
  Daemon, Task, running, ended, swallow, swallowed, watchdog_netns, netns_loop, run_items,
  send_slice, watchdog_run, tick,
}

module _ {X : Crates} (S : System X) (b : Build) where
  continue_no_error :
      {W : Type 0} (r : Result (Unit {0})) (k : Unit {0} → Call W (Unit {0})) (w : W) (e : Error)
      → ((x : Error) → r ≢ err x)
      → ((k tt w).0 ≢ err e)
      → (continue r k w).0 ≢ err e
  continue_no_error (ok u) k w e h l = l
  continue_no_error (err x) k w e h l = λ p. h x refl
  continue_no_error panic k w e h l = λ p. cc

  swallowed_no_error : (r : Result (Unit {0})) (x : Error) → swallowed r ≢ err x
  swallowed_no_error (ok u) x h = cc
  swallowed_no_error (err e) x h = cc
  swallowed_no_error panic x h = cc

  -- Whatever goes wrong with a network is not the result of the loop.
  netns_loop_no_error :
      (items : List NetnsItem) (d : Daemon S) (e : Error) → (netns_loop S b items d).0 ≢ err e
  unfolding netns_loop swallow pure ◌>>=◌
  netns_loop_no_error [] d e = λ h. cc
  netns_loop_no_error (netns ∷ items) d e =
      elim (Bool-cases (starts_with netns.name netns_prefix)) [
        | inl p ↦
            let (r, d') = watchdog_netns S b netns.name d in
            rw p (
              continue_no_error (swallowed r) (λ _. netns_loop S b items) d' e
                (swallowed_no_error r) (netns_loop_no_error items d' e))
        | inr p ↦ rw p (netns_loop_no_error items d e)
      ]

  -- The loop of a run, from the start of the run on.
  abbrev pub looped : List NetnsItem → Task S → S.World → Result (Unit {0}) × Daemon S
  looped items t world =
      netns_loop S b items (record { world = world; traffic = new_info 0; cache = t.cache })

  -- The listing failed.
  abbrev pub ListingFails : Task S → Error → Type 0
  ListingFails t e =
      (cause : Error) × ((S.netns_list t.world).0 ≡ err cause)
      × (e ≡ text "Listing network namespaces" ∷ cause)

  -- The slice of the run could not be sent.
  abbrev pub SendingFails : Task S → Error → Type 0
  SendingFails t e =
      (items : List NetnsItem) × ((S.netns_list t.world).0 ≡ ok items)
      × ((S.send_traffic (looped items t (S.netns_list t.world).1).1.traffic
            (looped items t (S.netns_list t.world).1).1.world).0
          ≡ err e)

  -- The listing, the loop or the sending panicked.
  abbrev pub Panics : Task S → Type 0
  Panics t =
      ((S.netns_list t.world).0 ≡ panic)
      ⊎ ((items : List NetnsItem) × ((S.netns_list t.world).0 ≡ ok items)
          × (((looped items t (S.netns_list t.world).1).0 ≡ panic)
              ⊎ ((S.send_traffic (looped items t (S.netns_list t.world).1).1.traffic
                    (looped items t (S.netns_list t.world).1).1.world).0
                  ≡ panic)))

  -- What an outcome of a run comes from, and what the watchdog does next.
  abbrev pub Ends : Task S → Result (Unit {0}) → Type 0
  Ends t (ok u) = tick S b (running t) ≡ running (watchdog_run S b t).1
  Ends t (err e) =
      (ListingFails t e ⊎ SendingFails t e)
      × (tick S b (running t)
          ≡ running (record { world = (watchdog_run S b t).1.world; cache = [] }))
  Ends t panic = Panics t × (tick S b (running t) ≡ ended (watchdog_run S b t).1.world)

  sending_fails :
      (r : Result (Unit {0})) (d : Daemon S) (e : Error)
      → ((x : Error) → r ≢ err x)
      → (send_slice S r d).0 ≡ err e
      → (S.send_traffic d.traffic d.world).0 ≡ err e
  sending_fails (ok u) d e h k = k
  sending_fails (err x) d e h k = absurd (h x refl)
  sending_fails panic d e h k = cc

  sending_panics :
      (r : Result (Unit {0})) (d : Daemon S)
      → (send_slice S r d).0 ≡ panic
      → (r ≡ panic) ⊎ ((S.send_traffic d.traffic d.world).0 ≡ panic)
  sending_panics (ok u) d k = inr k
  sending_panics (err x) d k = cc
  sending_panics panic d k = inl refl

  run_items_fails :
      (l : Result (List NetnsItem)) (t : Task S) (world : S.World) (e : Error)
      → (run_items S b t.cache l world).0 ≡ err e
      → ((cause : Error) × (l ≡ err cause) × (e ≡ text "Listing network namespaces" ∷ cause))
        ⊎ ((items : List NetnsItem) × (l ≡ ok items)
            × ((S.send_traffic (looped items t world).1.traffic (looped items t world).1.world).0
                ≡ err e))
  run_items_fails (ok items) t world e h =
      let (r, d) = looped items t world in
      inr (
        items,
        refl,
        sending_fails r d e
            (netns_loop_no_error items
              (record { world = world; traffic = new_info 0; cache = t.cache }))
            h,
      )
  run_items_fails (err cause) t world e h = inl (cause, refl, cc)
  run_items_fails panic t world e h = cc

  run_items_panics :
      (l : Result (List NetnsItem)) (t : Task S) (world : S.World)
      → (run_items S b t.cache l world).0 ≡ panic
      → (l ≡ panic)
        ⊎ ((items : List NetnsItem) × (l ≡ ok items)
            × (((looped items t world).0 ≡ panic)
                ⊎ ((S.send_traffic
                      (looped items t world).1.traffic
                      (looped items t world).1.world).0
                    ≡ panic)))
  run_items_panics (ok items) t world h =
      let (r, d) = looped items t world in inr (items, refl, sending_panics r d h)
  run_items_panics (err cause) t world h = cc
  run_items_panics panic t world h = inl refl

  outcome-Ends : (t : Task S) (r : Result (Unit {0})) → (watchdog_run S b t).0 ≡ r → Ends t r
  unfolding watchdog_run tick
  outcome-Ends t (ok u) h = rw h refl
  outcome-Ends t (err e) h =
      let (l, world) = S.netns_list t.world in (run_items_fails l t world e h, rw h refl)
  outcome-Ends t panic h =
      let (l, world) = S.netns_list t.world in (run_items_panics l t world h, rw h refl)

  -- Every run of the watchdog, in any build. One that succeeds is followed by the next on what it left.
  -- One that fails does so because the namespaces could not be listed or the slice could not be sent at
  -- its end, not because of an error in a network or a peer, and the watchdog starts again with an empty
  -- cache, so it forgets every peer that it knew. One that panics did so in the listing, in the loop
  -- over the networks or in the sending, and ends the watchdog.
  pub watchdog_run_fails : (t : Task S) → Ends t (watchdog_run S b t).0
  watchdog_run_fails t = outcome-Ends t (watchdog_run S b t).0 refl
