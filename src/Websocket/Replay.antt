-- ===== src/Websocket/Replay.antt =====
-- The configuration that the gateway keeps while it serves the manager through src/websocket.rs.
use mathlib.Core.Path.{subst}
use fractalnetworks_gateway.Base.{
  ◌≡◌, refl, sym, ap, ◌∙◌, Bool, true, false, not, ◌||◌, any, List, [], ◌∷◌, ◌++◌, if◌then◌else◌,
  arith, inl, inr, Bool-cases,
}
use mathlib.Core.List.{append-nil, append_assoc}
use fractalnetworks_gateway.Base.Result.{Result, ok, err, panic, Call, pure, lift, ◌>>=◌}
use fractalnetworks_gateway.Base.Frames.{bind_ok}
use fractalnetworks_gateway.Base.Word.{Build}
use fractalnetworks_gateway.Crates.{Crates}
use fractalnetworks_gateway.Client.Config.{GatewayConfig}
use fractalnetworks_gateway.Client.Config
use fractalnetworks_gateway.Client.Event.{GatewayRequest, GatewayResponse, Status, applied, failed}
use fractalnetworks_gateway.System.{System}
use fractalnetworks_gateway.Gateway.Nginx.{CustomForwarding}
use fractalnetworks_gateway.Gateway.Apply.{Gateway, apply, apply_partial}
use fractalnetworks_gateway.Gateway.Apply.Configured.{config-apply, config-apply_partial}
use fractalnetworks_gateway.Websocket.{
  Connection, text_message, other_message, failure, end_of_stream, Selected, message, slice,
  happened, Outcome, finished, status_of, message_of, Session, serve, answer, relay, round,
  serve_loop,
}
use fractalnetworks_gateway.Websocket.Answers.{
  SendLog, ends, is_shutdown, answer-log, relay-log, round-log, left, stayed,
}

module _ {X : Crates} where
  abbrev pub is_failed : GatewayResponse X → Bool
  is_failed (GatewayResponse.traffic t) = false
  is_failed (GatewayResponse.event e) = false
  is_failed (GatewayResponse.apply applied) = false
  is_failed (GatewayResponse.apply (failed m)) = true

  -- What a request makes of the configuration.
  abbrev pub requested : Result (GatewayRequest X) → GatewayConfig X → GatewayConfig X
  requested (ok (GatewayRequest.apply config)) old = config
  requested (ok (GatewayRequest.apply_partial partial)) old = Config.apply_partial old partial
  requested (ok GatewayRequest.shutdown) old = old
  requested (err e) old = old
  requested panic old = old

  module _ (N : Connection X) where
    abbrev pub one_replayed : Selected X → GatewayConfig X → GatewayConfig X
    one_replayed (message (text_message t)) old = requested (N.from_str t) old
    one_replayed (message other_message) old = old
    one_replayed (message (failure e)) old = old
    one_replayed (message end_of_stream) old = old
    one_replayed (slice r) old = old
    one_replayed (happened r) old = old

    -- The requests, one after the other, until a shutdown.
    unfoldable pub replay : List (Selected X) → GatewayConfig X → GatewayConfig X
    replay [] old = old
    replay (x ∷ later) old =
        let rest = replay later (one_replayed x old) in if is_shutdown N x then old else rest

  any-append :
      (l r : List (GatewayResponse X))
      → any is_failed (l ++ r) ≡ (any is_failed l || any is_failed r)
  any-append [] r = refl
  any-append (x ∷ l) r = ap (λ c. is_failed x || c) (any-append l r) ∙ ground arith

  append_same : (l m n : List (GatewayResponse X)) → l ++ m ≡ l ++ n → m ≡ n
  append_same [] m n h = h
  append_same (x ∷ l) m n h = append_same l m n cc

module _ {X : Crates} (S : System X) (N : Connection X) (L : SendLog N) (b : Build)
    (custom : CustomForwarding X) where
  -- What was sent from one session to a later one, and the configuration if none of it tells of a failure.
  record Replayed (s s' : Session S N b custom) (config : GatewayConfig X) : Type 0 where
    news : List (GatewayResponse X)
    sent : L.sent s'.socket ≡ L.sent s.socket ++ news
    stored : any is_failed news ≡ false → s'.gateway.config ≡ config

  status_applied :
      (status : Status) (r : Result (Unit {0}))
      → status_of r ≡ ok status
      → (is_failed {X = X} (GatewayResponse.apply status) || false) ≡ false
      → r ≡ ok tt
  status_applied status (ok u) e h = refl
  status_applied applied (err e') e h =
      let wrong : failed (message_of e') ≡ applied = cc in absurd cc
  status_applied (failed m) (err e') e h = cc
  status_applied status panic e h = cc

  answer-Replayed :
      (m : Call (Gateway S) (Unit {0})) (config : GatewayConfig X) (s : Session S N b custom)
      (go : Bool)
      → ((m s.gateway).0 ≡ ok tt → (m s.gateway).1.config ≡ config)
      → (answer S N b custom m s).0 ≡ ok go
      → Replayed s (answer S N b custom m s).1 config
  answer-Replayed m config s go right h =
      let (status, _, e, told, kept) = answer-log S N L b custom m s go h in
      record {
        news = GatewayResponse.apply status ∷ [];
        sent = told;
        stored = λ good.
            ap (λ (g : Gateway S). g.config) kept
            ∙ right (status_applied status (m s.gateway).0 e good);
      }

  served-Replayed :
      (r : Result (GatewayRequest X)) (s : Session S N b custom) (go : Bool)
      → ((lift r >>= serve S N b custom) s).0 ≡ ok go
      → Replayed s ((lift r >>= serve S N b custom) s).1 (requested r s.gateway.config)
  unfolding serve ◌>>=◌ pure lift
  served-Replayed (ok (GatewayRequest.apply config)) s go h =
      answer-Replayed (apply S b custom config) config s go
        (λ _. config-apply S b custom [] config s.gateway) h
  served-Replayed (ok (GatewayRequest.apply_partial partial)) s go h =
      answer-Replayed (apply_partial S b custom partial) _ s go
        (config-apply_partial S b custom partial s.gateway) h
  served-Replayed (ok GatewayRequest.shutdown) s go h = record {
    news = [];
    sent = sym (append-nil _);
    stored = λ g. refl;
  }
  served-Replayed (err e) s go h = cc
  served-Replayed panic s go h = cc

  relay-Replayed :
      (r : GatewayResponse X) (s : Session S N b custom) (go : Bool)
      → (relay S N b custom r s).0 ≡ ok go
      → Replayed s (relay S N b custom r s).1 s.gateway.config
  relay-Replayed r s go h =
      let (_, told, kept) = relay-log S N L b custom r s go h in
      record { news = r ∷ []; sent = told; stored = λ good. ap (λ (g : Gateway S). g.config) kept }

  round-Replayed :
      (x : Selected X) (s : Session S N b custom) (go : Bool)
      → (round S N b custom x s).0 ≡ ok go
      → Replayed s (round S N b custom x s).1 (one_replayed N x s.gateway.config)
  unfolding round ◌>>=◌ pure lift
  round-Replayed (message (text_message t)) s go h = served-Replayed (N.from_str t) s go h
  round-Replayed (message other_message) s go h = record {
    news = [];
    sent = sym (append-nil _);
    stored = λ g. refl;
  }
  round-Replayed (message (failure e)) s go h = cc
  round-Replayed (message end_of_stream) s go h = cc
  round-Replayed (slice (ok traffic)) s go h =
      relay-Replayed (GatewayResponse.traffic traffic) s go h
  round-Replayed (slice (err e)) s go h = cc
  round-Replayed (slice panic) s go h = cc
  round-Replayed (happened (ok event)) s go h = relay-Replayed (GatewayResponse.event event) s go h
  round-Replayed (happened (err e)) s go h = cc
  round-Replayed (happened panic) s go h = cc

  -- A shutdown changes nothing.
  one_replayed-shutdown :
      (x : Selected X) (c : GatewayConfig X) → is_shutdown N x ≡ true → one_replayed N x c ≡ c
  one_replayed-shutdown (message (text_message t)) c d = unchanged (N.from_str t) d
    where
      unchanged : (r : Result (GatewayRequest X)) → ends r ≡ true → requested r c ≡ c
      unchanged (ok GatewayRequest.shutdown) d = refl
      unchanged (ok (GatewayRequest.apply config)) d = cc
      unchanged (ok (GatewayRequest.apply_partial config)) d = cc
      unchanged (err e) d = refl
      unchanged panic d = refl
  one_replayed-shutdown (message other_message) c d = refl
  one_replayed-shutdown (message (failure e)) c d = refl
  one_replayed-shutdown (message end_of_stream) c d = refl
  one_replayed-shutdown (slice r) c d = refl
  one_replayed-shutdown (happened r) c d = refl

  Replayed-both :
      (s s₁ s' : Session S N b custom) (c : GatewayConfig X) (f : GatewayConfig X → GatewayConfig X)
      → Replayed s s₁ c
      → Replayed s₁ s' (f s₁.gateway.config)
      → Replayed s s' (f c)
  Replayed-both s s₁ s' c f h k = record {
    news = h.news ++ k.news;
    sent = k.sent ∙ ap (λ l. l ++ k.news) h.sent ∙ append_assoc (L.sent s.socket) h.news k.news;
    stored = λ good.
        let both = sym (any-append h.news k.news) ∙ good in
        k.stored (ground (arith, both)) ∙ ap f (h.stored (ground (arith, both)));
  }

  serve_loop-Replayed :
      (selected : List (Selected X)) (s : Session S N b custom) (o : Outcome)
      → (serve_loop S N b custom selected s).0 ≡ ok o
      → Replayed s (serve_loop S N b custom selected s).1 (replay N selected s.gateway.config)
  unfolding serve_loop replay pure
  serve_loop-Replayed [] s o h = record { news = []; sent = sym (append-nil _); stored = λ g. refl }
  serve_loop-Replayed (x ∷ later) s o h =
      let (go, p, q, e) =
        bind_ok (round S N b custom x)
          (λ go. if go then serve_loop S N b custom later else pure finished) s o h in
      let s₁ = (round S N b custom x s).1 in
      let (stays, _) = round-log S N L b custom x s go p in
      let first = round-Replayed x s go p in
      elim (Bool-cases (is_shutdown N x)) [
        | inl d ↦
            let (same, _) = left S N L b custom later s₁ o go (stays ∙ ap not d) q in
            rw d (
              subst (λ s'. Replayed s s' s.gateway.config) (sym (e ∙ same))
                (subst (Replayed s s₁) (one_replayed-shutdown x s.gateway.config d) first))
        | inr d ↦
            let (q', same) = stayed S N L b custom later s₁ o go (stays ∙ ap not d) q in
            rw d (
              subst (λ s'. Replayed s s' (replay N later (one_replayed N x s.gateway.config)))
                (sym (e ∙ same))
                (Replayed-both s s₁ _ (one_replayed N x s.gateway.config) (replay N later) first
                  (serve_loop-Replayed later s₁ o q')))
      ]

  -- Whatever `select!` yields, and in whatever order: when the loop did not fail and none of what the
  -- manager was sent tells of a failure, the stored configuration is the one before with the requests
  -- replayed on it, one after the other until a shutdown, as the client crate applies them: so the
  -- manager can keep account of it from the answers.
  pub serve_loop-replay :
      (selected : List (Selected X)) (s : Session S N b custom) (o : Outcome)
      (news : List (GatewayResponse X))
      → (serve_loop S N b custom selected s).0 ≡ ok o
      → L.sent (serve_loop S N b custom selected s).1.socket ≡ L.sent s.socket ++ news
      → any is_failed news ≡ false
      → (serve_loop S N b custom selected s).1.gateway.config ≡ replay N selected s.gateway.config
  serve_loop-replay selected s o news h told good =
      let r = serve_loop-Replayed selected s o h in
      let same = append_same (L.sent s.socket) news r.news (sym told ∙ r.sent) in
      r.stored (rw (← same) good)
