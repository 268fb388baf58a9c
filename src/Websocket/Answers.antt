-- ===== src/Websocket/Answers.antt =====
-- What the manager is sent.
use fractalnetworks_gateway.Base.{
  ◌≡◌, refl, ap, sym, ◌∙◌, Bool, true, false, not, any, List, [], ◌∷◌, ◌++◌, map, if◌then◌else◌,
  inl, inr, Bool-cases,
}
use mathlib.Core.List.{append-nil, append_assoc, map-append}
use fractalnetworks_gateway.Base.Text.{Text}
use fractalnetworks_gateway.Base.Result.{Result, ok, err, panic, Call, pure, lift, ◌>>=◌}
use fractalnetworks_gateway.Base.Frames.{bind_ok}
use fractalnetworks_gateway.Base.Word.{Build}
use fractalnetworks_gateway.Crates.{Crates}
use fractalnetworks_gateway.Client.Config.{GatewayConfig}
use fractalnetworks_gateway.Client.Event.{GatewayRequest, GatewayResponse, Status, applied, failed}
use fractalnetworks_gateway.System.{System}
use fractalnetworks_gateway.Gateway.Nginx.{CustomForwarding}
use fractalnetworks_gateway.Gateway.Apply.{Gateway, apply}
use fractalnetworks_gateway.Websocket.{
  Connection, text_message, other_message, failure, end_of_stream, Selected, message, slice,
  happened, Outcome, waiting, finished, status_of, Session, on_socket, on_gateway, answer, serve,
  relay, round, serve_loop,
}

-- An account of the responses that went out on the socket.
pub record SendLog {X : Crates} (N : Connection X) : Type 0 where
  pub sent : N.Socket → List (GatewayResponse X)
  pub sent-ok :
      (r : GatewayResponse X) (k : N.Socket)
      → (N.send r k).0 ≡ ok tt
      → sent (N.send r k).1 ≡ sent k ++ (r ∷ [])

module _ {X : Crates} where
  -- A response, but for the result that an answer tells.
  abbrev pub kind_of : GatewayResponse X → GatewayResponse X
  kind_of (GatewayResponse.traffic t) = GatewayResponse.traffic t
  kind_of (GatewayResponse.event e) = GatewayResponse.event e
  kind_of (GatewayResponse.apply status) = GatewayResponse.apply applied

  -- What a request calls for.
  abbrev pub called_for : Result (GatewayRequest X) → List (GatewayResponse X)
  called_for (ok (GatewayRequest.apply config)) = GatewayResponse.apply applied ∷ []
  called_for (ok (GatewayRequest.apply_partial config)) = GatewayResponse.apply applied ∷ []
  called_for (ok GatewayRequest.shutdown) = []
  called_for (err e) = []
  called_for panic = []

  abbrev pub ends : Result (GatewayRequest X) → Bool
  ends (ok GatewayRequest.shutdown) = true
  ends (ok (GatewayRequest.apply config)) = false
  ends (ok (GatewayRequest.apply_partial config)) = false
  ends (err e) = false
  ends panic = false

  module _ (N : Connection X) where
    abbrev pub is_shutdown : Selected X → Bool
    is_shutdown (message (text_message t)) = ends (N.from_str t)
    is_shutdown (message other_message) = false
    is_shutdown (message (failure e)) = false
    is_shutdown (message end_of_stream) = false
    is_shutdown (slice r) = false
    is_shutdown (happened r) = false

    -- What the manager is to be sent for one branch.
    abbrev pub due : Selected X → List (GatewayResponse X)
    due (message (text_message t)) = called_for (N.from_str t)
    due (message other_message) = []
    due (message (failure e)) = []
    due (message end_of_stream) = []
    due (slice (ok traffic)) = GatewayResponse.traffic traffic ∷ []
    due (slice (err e)) = []
    due (slice panic) = []
    due (happened (ok event)) = GatewayResponse.event event ∷ []
    due (happened (err e)) = []
    due (happened panic) = []

    -- What the manager is to be sent for a sequence of branches: nothing after a shutdown.
    unfoldable pub all_due : List (Selected X) → List (GatewayResponse X)
    all_due [] = []
    all_due (selected ∷ later) =
        let rest = all_due later in if is_shutdown selected then [] else due selected ++ rest

-- The status that tells an outcome: a success is told as such, and a failure by the outermost message
-- of its error. A panic is not told.
abbrev pub Tells : Result (Unit {0}) → Status → Type 0
Tells (ok u) applied = Unit
Tells (err []) (failed m) = m ≡ []
Tells (err (c ∷ causes)) (failed m) = m ≡ c
Tells _ _ = ⊥

status_of-Tells :
    (r : Result (Unit {0})) (status : Status) → status_of r ≡ ok status → Tells r status
status_of-Tells (ok u) applied e = tt
status_of-Tells (ok u) (failed m) e = cc
status_of-Tells (err []) applied e = cc
status_of-Tells (err []) (failed m) e = cc
status_of-Tells (err (c ∷ causes)) applied e = cc
status_of-Tells (err (c ∷ causes)) (failed m) e = cc
status_of-Tells panic applied e = cc
status_of-Tells panic (failed m) e = cc

module _ {X : Crates} (S : System X) (N : Connection X) (L : SendLog N) (b : Build)
    (custom : CustomForwarding X) where
  abbrev pub log : Session S N b custom → List (GatewayResponse X)
  log s = L.sent s.socket

  pub relay-log :
      (r : GatewayResponse X) (s : Session S N b custom) (go : Bool)
      → (relay S N b custom r s).0 ≡ ok go
      → (go ≡ true)
        × (log (relay S N b custom r s).1 ≡ log s ++ (r ∷ []))
        × ((relay S N b custom r s).1.gateway ≡ s.gateway)
  unfolding on_socket pure
  relay-log r s go h =
      let (u, p, q, e) = bind_ok (on_socket S N b custom (N.send r)) (λ _. pure true) s go h in
      (cc, ap log e ∙ L.sent-ok r s.socket p, ap (λ (s' : Session S N b custom). s'.gateway) e)

  pub answer-log :
      (m : Call (Gateway S) (Unit {0})) (s : Session S N b custom) (go : Bool)
      → (answer S N b custom m s).0 ≡ ok go
      → (status : Status) × (go ≡ true)
        × (status_of (m s.gateway).0 ≡ ok status)
        × (log (answer S N b custom m s).1 ≡ log s ++ (GatewayResponse.apply status ∷ []))
        × ((answer S N b custom m s).1.gateway ≡ (m s.gateway).1)
  unfolding answer on_gateway on_socket lift
  answer-log m s go h =
      let after = (on_gateway S N b custom m s).1 in
      let (status, p, q, e) =
        bind_ok (lift (status_of (m s.gateway).0))
          (λ status. relay S N b custom (GatewayResponse.apply status)) after go h in
      let (stays, told, kept) = relay-log (GatewayResponse.apply status) after go q in
      (status, stays, p, ap log e ∙ told, ap (λ (s' : Session S N b custom). s'.gateway) e ∙ kept)

  -- A list that grew by one response, seen without the results of answers.
  grown :
      (before after : List (GatewayResponse X)) (r : GatewayResponse X)
      → after ≡ before ++ (r ∷ [])
      → map kind_of after ≡ map kind_of before ++ (kind_of r ∷ [])
  grown before after r e = ap (map kind_of) e ∙ map-append kind_of before (r ∷ [])

  answer-kind :
      (m : Call (Gateway S) (Unit {0})) (s : Session S N b custom) (go : Bool)
      → (answer S N b custom m s).0 ≡ ok go
      → (go ≡ true)
        × (map kind_of (log (answer S N b custom m s).1)
            ≡ map kind_of (log s) ++ (GatewayResponse.apply applied ∷ []))
  answer-kind m s go h =
      let (status, stays, _, told, _) = answer-log m s go h in
      (stays, grown (log s) _ (GatewayResponse.apply status) told)

  served-log :
      (r : Result (GatewayRequest X)) (s : Session S N b custom) (go : Bool)
      → ((lift r >>= serve S N b custom) s).0 ≡ ok go
      → (go ≡ not (ends r))
        × (map kind_of (log ((lift r >>= serve S N b custom) s).1)
            ≡ map kind_of (log s) ++ called_for r)
  unfolding serve ◌>>=◌ pure lift
  served-log (ok (GatewayRequest.apply config)) s go h = answer-kind _ s go h
  served-log (ok (GatewayRequest.apply_partial config)) s go h = answer-kind _ s go h
  served-log (ok GatewayRequest.shutdown) s go h = (cc, sym (append-nil _))
  served-log (err e) s go h = cc
  served-log panic s go h = cc

  relay-kind :
      (r : GatewayResponse X) (s : Session S N b custom) (go : Bool)
      → (relay S N b custom r s).0 ≡ ok go
      → (go ≡ true)
        × (map kind_of (log (relay S N b custom r s).1) ≡ map kind_of (log s) ++ (kind_of r ∷ []))
  relay-kind r s go h = let (stays, told, _) = relay-log r s go h in (stays, grown (log s) _ r told)

  -- A round that goes well sends what is due, and leaves the loop exactly at a shutdown.
  pub round-log :
      (selected : Selected X) (s : Session S N b custom) (go : Bool)
      → (round S N b custom selected s).0 ≡ ok go
      → (go ≡ not (is_shutdown N selected))
        × (map kind_of (log (round S N b custom selected s).1)
            ≡ map kind_of (log s) ++ due N selected)
  unfolding round ◌>>=◌ pure lift
  round-log (message (text_message t)) s go h = served-log (N.from_str t) s go h
  round-log (message other_message) s go h = (cc, sym (append-nil _))
  round-log (message (failure e)) s go h = cc
  round-log (message end_of_stream) s go h = cc
  round-log (slice (ok traffic)) s go h = relay-kind (GatewayResponse.traffic traffic) s go h
  round-log (slice (err e)) s go h = cc
  round-log (slice panic) s go h = cc
  round-log (happened (ok event)) s go h = relay-kind (GatewayResponse.event event) s go h
  round-log (happened (err e)) s go h = cc
  round-log (happened panic) s go h = cc

  due-shutdown : (x : Selected X) → is_shutdown N x ≡ true → due N x ≡ []
  due-shutdown (message (text_message t)) d = none_due (N.from_str t) d
    where
      none_due : (r : Result (GatewayRequest X)) → ends r ≡ true → called_for r ≡ []
      none_due (ok GatewayRequest.shutdown) d = refl
      none_due (ok (GatewayRequest.apply config)) d = cc
      none_due (ok (GatewayRequest.apply_partial config)) d = cc
      none_due (err e) d = refl
      none_due panic d = refl
  due-shutdown (message other_message) d = refl
  due-shutdown (message (failure e)) d = refl
  due-shutdown (message end_of_stream) d = refl
  due-shutdown (slice r) d = cc
  due-shutdown (happened r) d = cc

  module _ (later : List (Selected X)) (s : Session S N b custom) (o : Outcome) where
    abbrev pub next : Bool → Result Outcome × Session S N b custom
    next go = (if go then serve_loop S N b custom later else pure finished) s

    pub left : (go : Bool) → go ≡ false → (next go).0 ≡ ok o → ((next go).1 ≡ s) × (o ≡ finished)
    unfolding pure
    left true g h = cc
    left false g h = (refl, cc)

    pub stayed :
        (go : Bool)
        → go ≡ true
        → (next go).0 ≡ ok o
        → ((serve_loop S N b custom later s).0 ≡ ok o)
          × ((next go).1 ≡ (serve_loop S N b custom later s).1)
    stayed true g h = (h, refl)
    stayed false g h = cc

  -- Whatever `select!` yields, and in whatever order: when the loop did not fail, the manager was
  -- sent one answer for each request to apply and each slice and event, in the order in which they
  -- came, and nothing for what came after a shutdown (up to the results that the answers tell);
  -- and the loop has finished exactly if there was a shutdown.
  pub serve_loop-log :
      (selected : List (Selected X)) (s : Session S N b custom) (o : Outcome)
      → (serve_loop S N b custom selected s).0 ≡ ok o
      → (map kind_of (L.sent (serve_loop S N b custom selected s).1.socket)
          ≡ map kind_of (L.sent s.socket) ++ all_due N selected)
        × (o ≡ (if any (is_shutdown N) selected then finished else waiting))
  unfolding serve_loop all_due pure
  serve_loop-log [] s o h = (sym (append-nil _), cc)
  serve_loop-log (x ∷ later) s o h =
      let (go, p, q, e) =
        bind_ok (round S N b custom x)
          (λ go. if go then serve_loop S N b custom later else pure finished) s o h in
      let (stays, told) = round-log x s go p in
      elim (Bool-cases (is_shutdown N x)) [
        | inl d ↦
            let (same, outcome) = left later (round S N b custom x s).1 o go (stays ∙ ap not d) q in
            (
              ap (λ s'. map kind_of (log s')) (e ∙ same)
                  ∙ told
                  ∙ ap (λ l. map kind_of (log s) ++ l) (due-shutdown x d)
                  ∙ rw d,
              outcome ∙ rw d,
            )
        | inr d ↦
            let (q', same) = stayed later (round S N b custom x s).1 o go (stays ∙ ap not d) q in
            let (told', outcome) = serve_loop-log later (round S N b custom x s).1 o q' in
            (
              ap (λ s'. map kind_of (log s')) (e ∙ same)
                  ∙ told'
                  ∙ ap (λ l. l ++ all_due N later) told
                  ∙ append_assoc (map kind_of (log s)) (due N x) (all_due N later)
                  ∙ rw d,
              outcome ∙ rw d,
            )
      ]

  -- When a message asks to apply a configuration and the round succeeds, exactly one response was
  -- sent, its answer: `applied` if `apply` returned `ok`, and otherwise the outermost message of
  -- its error; the loop goes on, and the gateway is as `apply` left it.
  pub round-apply :
      (t : Text) (config : GatewayConfig X) (s : Session S N b custom) (go : Bool)
      → N.from_str t ≡ ok (GatewayRequest.apply config)
      → (round S N b custom (message (text_message t)) s).0 ≡ ok go
      → (status : Status) × (go ≡ true)
        × Tells (apply S b custom config s.gateway).0 status
        × (L.sent (round S N b custom (message (text_message t)) s).1.socket
            ≡ L.sent s.socket ++ (GatewayResponse.apply status ∷ []))
        × ((round S N b custom (message (text_message t)) s).1.gateway
            ≡ (apply S b custom config s.gateway).1)
  unfolding round serve ◌>>=◌ pure lift
  round-apply t config s go f h =
      let (status, stays, told, sent, left) =
        answer-log (apply S b custom config) s go (rw f at h) in
      rw f (
        status,
        stays,
        status_of-Tells (apply S b custom config s.gateway).0 status told,
        sent,
        left,
      )
