-- ===== src/Integration/Run/Sending.antt =====
-- How many requests of which kind each part of a test run of integration/src/main.rs sends.
use mathlib.Core.List.{append-nil, append_assoc, map-append}
use fractalnetworks_gateway.Base.{
  ℕ, zero, suc, ◌≡◌, refl, sym, ap, ◌∙◌, Bool, true, false, List, [], ◌∷◌, ◌++◌, map,
}
use fractalnetworks_gateway.Base.Result.{ok, Call, pure, lift, ◌>>=◌, ◌>>◌}
use fractalnetworks_gateway.Base.Frames.{bind_ok}
use fractalnetworks_gateway.Base.Map.{keys}
use fractalnetworks_gateway.Base.Word.{Build}
use fractalnetworks_gateway.Crates.{Crates, IpAddr}
use fractalnetworks_gateway.Client.Config.{GatewayConfig, GatewayConfigPartial, apply_partial}
use fractalnetworks_gateway.Client.Event.{GatewayRequest}
use fractalnetworks_gateway.System.{System}
use fractalnetworks_gateway.Integration.{Tools}
use fractalnetworks_gateway.Integration.Generate.{
  Generator, generate_config, generate_partial_config,
}
use fractalnetworks_gateway.Integration.Exchange.{
  Server, Link, request, await_status, apply_config, apply_partial_config,
}
use fractalnetworks_gateway.Integration.Run.{
  Test, assert_ok, on_link, generated, check, check_old, apply_all, apply_some, apply_rounds,
  replace_rounds, partial_round, add_rounds, remove_rounds,
}

-- An account of the requests that went out on the socket.
pub record RequestLog {X : Crates} (V : Server X) : Type 0 where
  pub sent : V.Socket → List (GatewayRequest X)
  pub sent-ok :
      (r : GatewayRequest X) (k : V.Socket)
      → (V.send r k).0 ≡ ok tt
      → sent (V.send r k).1 ≡ sent k ++ (r ∷ [])

-- Whether a request asks for a partial configuration.
abbrev pub is_partial : {X : Crates} → GatewayRequest X → Bool
is_partial (GatewayRequest.apply config) = false
is_partial (GatewayRequest.apply_partial config) = true
is_partial GatewayRequest.shutdown = false

-- A list of `n` times the same.
abbrev pub times : ℕ → Bool → List Bool
times zero kind = []
times (suc n) kind = kind ∷ times n kind

module _ {X : Crates} {S : System X} (T : Tools S) (V : Server X) (L : RequestLog V) (b : Build)
    (gateway : IpAddr) where
  abbrev pub log : Test T V b gateway → List (GatewayRequest X)
  log t = L.sent t.link.socket

  -- Where the call returns, it sent requests of these kinds.
  abbrev pub Sends : {A : Type 0} → Call (Test T V b gateway) A → List Bool → Type 0
  Sends {A} m kinds =
      (t : Test T V b gateway) (a : A)
      → (m t).0 ≡ ok a
      → (rs : List (GatewayRequest X)) × (log (m t).1 ≡ log t ++ rs) × (map is_partial rs ≡ kinds)

  pub Sends-bind :
      {A B : Type 0} (m : Call (Test T V b gateway) A) (k : A → Call (Test T V b gateway) B)
      (kinds later : List Bool)
      → Sends m kinds
      → ((a : A) → Sends (k a) later)
      → Sends (m >>= k) (kinds ++ later)
  Sends-bind m k kinds later hm hk t c h =
      let (a, p, q, r) = bind_ok m k t c h in
      let (rs, e, f) = hm t a p in
      let (rs', e', f') = hk a (m t).1 c q in
      (
        rs ++ rs',
        ap log r ∙ e' ∙ ap (λ l. l ++ rs') e ∙ append_assoc (log t) rs rs',
        map-append is_partial rs rs' ∙ rw (f, f') refl,
      )

  -- A call that leaves the connection alone.
  Sends-nothing :
      {A : Type 0} (m : Call (Test T V b gateway) A)
      → ((t : Test T V b gateway) → (m t).1.link ≡ t.link)
      → Sends m []
  Sends-nothing m h t a p =
      ([], ap (λ (k : Link V). L.sent k.socket) (h t) ∙ sym (append-nil (log t)), refl)

  -- One request that is answered.
  pub log-request :
      (r : GatewayRequest X) (t : Test T V b gateway) (a : Unit {0})
      → ((on_link T V b gateway (request V r >> await_status V) >>= λ response.
            lift (assert_ok response))
          t).0
        ≡ ok a
      → log
          ((on_link T V b gateway (request V r >> await_status V) >>= λ response.
              lift (assert_ok response))
            t).1
        ≡ log t ++ (r ∷ [])
  unfolding lift
  log-request r t a h =
      let (status, p, q, e) =
        bind_ok (on_link T V b gateway (request V r >> await_status V))
          (λ response. lift (assert_ok response)) t a h in
      let (_, p', q', e') = bind_ok (request V r) (λ _. await_status V) t.link status p in
      ap log e ∙ ap (λ (k : Link V). L.sent k.socket) e' ∙ L.sent-ok r t.link.socket p'

  Sends-apply_all : (config : GatewayConfig X) → Sends (apply_all T V b gateway config) (false ∷ [])
  unfolding apply_all apply_config
  Sends-apply_all config t a h =
      (GatewayRequest.apply config ∷ [], log-request (GatewayRequest.apply config) t a h, refl)

  Sends-apply_some :
      (partial : GatewayConfigPartial X) → Sends (apply_some T V b gateway partial) (true ∷ [])
  unfolding apply_some apply_partial_config
  Sends-apply_some partial t a h = (
    GatewayRequest.apply_partial partial ∷ [],
    log-request (GatewayRequest.apply_partial partial) t a h,
    refl,
  )

  Sends-generated : {A : Type 0} (m : Call (Generator T) A) → Sends (generated T V b gateway m) []
  Sends-generated m = Sends-nothing (generated T V b gateway m) (λ t. refl)

  Sends-check : (config : GatewayConfig X) → Sends (check T V b gateway config) []
  Sends-check config = Sends-nothing (check T V b gateway config) (λ t. refl)

  Sends-check_old : (config : GatewayConfig X) → Sends (check_old T V b gateway config) []
  Sends-check_old config = Sends-nothing (check_old T V b gateway config) (λ t. refl)

  Sends-pure : {A : Type 0} (a : A) → Sends (pure a) []
  unfolding pure
  Sends-pure a = Sends-nothing (pure a) (λ t. refl)

  -- A configuration is generated, sent and verified.
  Sends-whole :
      (k : GatewayConfig X → Call (Test T V b gateway) (GatewayConfig X)) (kinds : List Bool)
      → ((config : GatewayConfig X) → Sends (k config) kinds)
      → Sends
          (generated T V b gateway (generate_config T b 10 0 3) >>= λ config.
            (apply_all T V b gateway config >>= λ _. k config))
          (false ∷ kinds)
  Sends-whole k kinds h =
      Sends-bind (generated T V b gateway (generate_config T b 10 0 3))
        (λ config. apply_all T V b gateway config >>= λ _. k config) [] (false ∷ kinds)
        (Sends-generated (generate_config T b 10 0 3))
        (λ config.
          Sends-bind (apply_all T V b gateway config) (λ _. k config) (false ∷ []) kinds
            (Sends-apply_all config) (λ _. h config))

  pub Sends-apply_rounds :
      (n : ℕ) (config : GatewayConfig X)
      → Sends (apply_rounds T V b gateway n config) (times n false)
  unfolding apply_rounds
  Sends-apply_rounds zero config = Sends-pure config
  Sends-apply_rounds (suc n) config =
      Sends-whole
        (λ config'. check T V b gateway config' >>= λ _. apply_rounds T V b gateway n config')
        (times n false)
        (λ config'.
          Sends-bind (check T V b gateway config') (λ _. apply_rounds T V b gateway n config') []
            (times n false) (Sends-check config') (λ _. Sends-apply_rounds n config'))

  pub Sends-replace_rounds :
      (n : ℕ) (config : GatewayConfig X)
      → Sends (replace_rounds T V b gateway n config) (times n false)
  unfolding replace_rounds
  Sends-replace_rounds zero config = Sends-pure config
  Sends-replace_rounds (suc n) config =
      Sends-whole
        (λ config'. check_old T V b gateway config >>= λ _. replace_rounds T V b gateway n config')
        (times n false)
        (λ config'.
          Sends-bind (check_old T V b gateway config) (λ _. replace_rounds T V b gateway n config')
            [] (times n false) (Sends-check_old config) (λ _. Sends-replace_rounds n config'))

  Sends-partial_round :
      (config : GatewayConfig X) (partial : GatewayConfigPartial X)
      → Sends (partial_round T V b gateway config partial) (true ∷ [])
  unfolding partial_round
  Sends-partial_round config partial =
      let whole = apply_partial config partial in
      Sends-bind (apply_some T V b gateway partial)
        (λ _. check T V b gateway whole >>= λ _. pure whole) (true ∷ []) []
        (Sends-apply_some partial)
        (λ _.
          Sends-bind (check T V b gateway whole) (λ _. pure whole) [] [] (Sends-check whole)
            (λ _. Sends-pure whole))

  pub Sends-add_rounds :
      (n : ℕ) (config : GatewayConfig X) → Sends (add_rounds T V b gateway n config) (times n true)
  unfolding add_rounds
  Sends-add_rounds zero config = Sends-pure config
  Sends-add_rounds (suc n) config =
      Sends-bind (generated T V b gateway (generate_partial_config T b 10 0 0 3 []))
        (λ partial. partial_round T V b gateway config partial >>= add_rounds T V b gateway n) []
        (true ∷ times n true) (Sends-generated (generate_partial_config T b 10 0 0 3 []))
        (λ partial.
          Sends-bind (partial_round T V b gateway config partial) (add_rounds T V b gateway n)
            (true ∷ []) (times n true) (Sends-partial_round config partial) (Sends-add_rounds n))

  pub Sends-remove_rounds :
      (n : ℕ) (config : GatewayConfig X)
      → Sends (remove_rounds T V b gateway n config) (times n true)
  unfolding remove_rounds
  Sends-remove_rounds zero config = Sends-pure config
  Sends-remove_rounds (suc n) config =
      Sends-bind (generated T V b gateway (generate_partial_config T b 0 10 0 3 (keys config)))
        (λ partial. partial_round T V b gateway config partial >>= remove_rounds T V b gateway n) []
        (true ∷ times n true) (Sends-generated (generate_partial_config T b 0 10 0 3 (keys config)))
        (λ partial.
          Sends-bind (partial_round T V b gateway config partial) (remove_rounds T V b gateway n)
            (true ∷ []) (times n true) (Sends-partial_round config partial) (Sends-remove_rounds n))
