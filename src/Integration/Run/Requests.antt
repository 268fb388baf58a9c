-- ===== src/Integration/Run/Requests.antt =====
-- The requests that a test run of integration/src/main.rs sends.
use mathlib.Core.List.{append_assoc, map-append}
use fractalnetworks_gateway.Base.{
  ◌≡◌, refl, sym, ap, ◌∙◌, Bool, true, false, List, [], ◌∷◌, ◌++◌, map,
}
use fractalnetworks_gateway.Base.Result.{ok, Call, ◌>>=◌, ◌>>◌}
use fractalnetworks_gateway.Base.Frames.{bind_ok}
use fractalnetworks_gateway.Base.Word.{Build}
use fractalnetworks_gateway.Crates.{Crates, IpAddr}
use fractalnetworks_gateway.Client.Event.{GatewayRequest}
use fractalnetworks_gateway.System.{System}
use fractalnetworks_gateway.Integration.{Tools}
use fractalnetworks_gateway.Integration.Exchange.{Server, apply_config}
use fractalnetworks_gateway.Integration.Run.{
  Test, apply_all, apply_rounds, replace_rounds, add_rounds, remove_rounds, run_tests,
}
use fractalnetworks_gateway.Integration.Run.Sending.{
  RequestLog, is_partial, times, log, log-request, Sends, Sends-apply_rounds, Sends-replace_rounds,
  Sends-add_rounds, Sends-remove_rounds,
}

module _ {X : Crates} {S : System X} (T : Tools S) (V : Server X) (L : RequestLog V) (b : Build)
    (gateway : IpAddr) where
  abbrev logged : Test T V b gateway → List (GatewayRequest X)
  logged = log T V L b gateway

  -- Where the call returns, it sent requests of these kinds, and then one for the empty configuration.
  abbrev Empties : Call (Test T V b gateway) (Unit {0}) → List Bool → Type 0
  Empties m kinds =
      (t : Test T V b gateway) (a : Unit {0})
      → (m t).0 ≡ ok a
      → (rs : List (GatewayRequest X)) × (logged (m t).1
          ≡ logged t ++ (rs ++ (GatewayRequest.apply [] ∷ [])))
        × (map is_partial rs ≡ kinds)

  Empties-bind :
      {A : Type 0} (m : Call (Test T V b gateway) A) (k : A → Call (Test T V b gateway) (Unit {0}))
      (kinds later : List Bool)
      → Sends T V L b gateway m kinds
      → ((a : A) → Empties (k a) later)
      → Empties (m >>= k) (kinds ++ later)
  Empties-bind m k kinds later hm hk t c h =
      let (a, p, q, r) = bind_ok m k t c h in
      let (rs, e, f) = hm t a p in
      let (rs', e', f') = hk a (m t).1 c q in
      let last = GatewayRequest.apply [] ∷ [] in
      (
        rs ++ rs',
        ap logged r
            ∙ e'
            ∙ ap (λ l. l ++ (rs' ++ last)) e
            ∙ append_assoc (logged t) rs (rs' ++ last)
            ∙ ap (λ l. logged t ++ l) (sym (append_assoc rs rs' last)),
        map-append is_partial rs rs' ∙ rw (f, f') refl,
      )

  Empties-apply_all : Empties (apply_all T V b gateway []) []
  unfolding apply_all apply_config
  Empties-apply_all t a h = ([], log-request T V L b gateway (GatewayRequest.apply []) t a h, refl)

  -- What follows the first request.
  abbrev tested : Call (Test T V b gateway) (Unit {0})
  tested = do
    first ← apply_rounds T V b gateway 3 []
    second ← replace_rounds T V b gateway 3 first
    third ← add_rounds T V b gateway 3 second
    remove_rounds T V b gateway 3 third
    apply_all T V b gateway []

  Empties-tested : Empties tested (times 6 false ++ times 6 true)
  Empties-tested =
      Empties-bind (apply_rounds T V b gateway 3 []) _ (times 3 false)
        (times 3 false ++ times 6 true) (Sends-apply_rounds T V L b gateway 3 [])
        (λ first.
          Empties-bind (replace_rounds T V b gateway 3 first) _ (times 3 false) (times 6 true)
            (Sends-replace_rounds T V L b gateway 3 first)
            (λ second.
              Empties-bind (add_rounds T V b gateway 3 second) _ (times 3 true) (times 3 true)
                (Sends-add_rounds T V L b gateway 3 second)
                (λ third.
                  Empties-bind (remove_rounds T V b gateway 3 third) _ (times 3 true) []
                    (Sends-remove_rounds T V L b gateway 3 third) (λ _. Empties-apply_all))))

  -- If a request that is sent is logged, a test run that returns has asked for the empty
  -- configuration, then six times for a whole and six times for a partial one, and at last for the
  -- empty configuration again.
  pub run_tests-log :
      (t : Test T V b gateway)
      → (run_tests T V b gateway t).0 ≡ ok tt
      → (rs : List (GatewayRequest X)) × (logged (run_tests T V b gateway t).1
          ≡ logged t ++ (GatewayRequest.apply [] ∷ (rs ++ (GatewayRequest.apply [] ∷ []))))
        × (map is_partial rs ≡ times 6 false ++ times 6 true)
  unfolding run_tests apply_all apply_config
  run_tests-log t h =
      let (_, p, q, e) = bind_ok (apply_all T V b gateway []) (λ _. tested) t tt h in
      let sent = log-request T V L b gateway (GatewayRequest.apply []) t tt p in
      let (rs, e', f) = Empties-tested (apply_all T V b gateway [] t).1 tt q in
      (
        rs,
        ap logged e
            ∙ e'
            ∙ ap (λ l. l ++ (rs ++ (GatewayRequest.apply [] ∷ []))) sent
            ∙ append_assoc (logged t) (GatewayRequest.apply [] ∷ [])
                (rs ++ (GatewayRequest.apply [] ∷ [])),
        f,
      )
