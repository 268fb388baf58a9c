-- ===== src/Integration/Exchange/Answered.antt =====
-- Which message the test runner of integration/src/main.rs takes for the answer.
use fractalnetworks_gateway.Base.{◌≡◌, refl, ap, ◌∙◌, List, [], ◌∷◌, ◌++◌, All}
use fractalnetworks_gateway.Base.Text.{Text}
use fractalnetworks_gateway.Base.Result.{Result, ok, err, panic, ◌>>=◌, continue}
use fractalnetworks_gateway.Crates.{Crates}
use fractalnetworks_gateway.Client.Config.{GatewayConfig, GatewayConfigPartial}
use fractalnetworks_gateway.Client.Event.{GatewayRequest, GatewayResponse, Status}
use fractalnetworks_gateway.Websocket.{
  Incoming, text_message, other_message, failure, end_of_stream,
}
use fractalnetworks_gateway.Integration.Exchange.{
  Server, Link, missing, on_response, receive, request, await_status, apply_config,
  apply_partial_config,
}

module _ {X : Crates} (V : Server X) where
  abbrev pub IsReport : Result (GatewayResponse X) → Type 0
  IsReport (ok (GatewayResponse.traffic _)) = Unit
  IsReport (ok (GatewayResponse.event _)) = Unit
  IsReport _ = ⊥

  -- A message that carries traffic or an event, or no text.
  abbrev pub IsSkipped : Incoming → Type 0
  IsSkipped (text_message t) = IsReport (V.from_str t)
  IsSkipped other_message = Unit
  IsSkipped _ = ⊥

  on_report :
      (r : Result (GatewayResponse X)) (later : List Incoming)
      (rest : Result Status × List Incoming)
      → IsReport r
      → on_response V r later rest ≡ rest
  on_report (ok (GatewayResponse.traffic _)) later rest h = refl
  on_report (ok (GatewayResponse.event _)) later rest h = refl
  on_report (ok (GatewayResponse.apply _)) later rest h = absurd h
  on_report (err e) later rest h = absurd h
  on_report panic later rest h = absurd h

  receive_skips :
      (skipped later : List Incoming)
      → All IsSkipped skipped
      → receive V (skipped ++ later) ≡ receive V later
  unfolding receive
  receive_skips [] later h = refl
  receive_skips (text_message t ∷ skipped) later (h, hs) =
      on_report (V.from_str t) (skipped ++ later) (receive V (skipped ++ later)) h
      ∙ receive_skips skipped later hs
  receive_skips (other_message ∷ skipped) later (h, hs) = receive_skips skipped later hs
  receive_skips (failure e ∷ skipped) later (h, hs) = absurd h
  receive_skips (end_of_stream ∷ skipped) later (h, hs) = absurd h

  receive_answered :
      (skipped later : List Incoming) (t : Text) (status : Status)
      → All IsSkipped skipped
      → V.from_str t ≡ ok (GatewayResponse.apply status)
      → receive V (skipped ++ (text_message t ∷ later)) ≡ (ok status, later)
  unfolding receive
  receive_answered skipped later t status h e =
      receive_skips skipped (text_message t ∷ later) h
      ∙ ap (λ r. on_response V r later (receive V later)) e

  receive-missing :
      (skipped : List Incoming) → All IsSkipped skipped → receive V skipped ≡ (err missing, [])
  unfolding receive
  receive-missing [] h = refl
  receive-missing (text_message t ∷ skipped) (h, hs) =
      on_report (V.from_str t) skipped (receive V skipped) h ∙ receive-missing skipped hs
  receive-missing (other_message ∷ skipped) (h, hs) = receive-missing skipped hs
  receive-missing (failure e ∷ skipped) (h, hs) = absurd h
  receive-missing (end_of_stream ∷ skipped) (h, hs) = absurd h

  -- What is returned and left of the link when a request was or was not sent: the error of the send
  -- with the stream untouched, and otherwise what came of the stream.
  abbrev pub after_send :
      Result (Unit {0}) × V.Socket
      → List Incoming
      → Result Status × List Incoming
      → Result Status × Link V
  after_send (ok u, socket) incoming (r, later) = (r, record { socket = socket; incoming = later })
  after_send (err e, socket) incoming found =
      (err e, record { socket = socket; incoming = incoming })
  after_send (panic, socket) incoming found =
      (panic, record { socket = socket; incoming = incoming })

  request-await :
      (r : GatewayRequest X) (s : V.Socket) (incoming : List Incoming)
      → (request V r >>= λ _. await_status V) (record { socket = s; incoming = incoming })
        ≡ after_send (V.send r s) incoming (receive V incoming)
  unfolding ◌>>=◌
  request-await r s incoming = sends (V.send r s)
    where
      sends :
          (sent : Result (Unit {0}) × V.Socket)
          → continue sent.0 (λ _. await_status V) (record { socket = sent.1; incoming = incoming })
            ≡ after_send sent incoming (receive V incoming)
      sends (ok u, socket) = refl
      sends (err e, socket) = refl
      sends (panic, socket) = refl

  -- When a configuration, whole or partial, is to be applied: if the request cannot be sent, its error
  -- is returned and nothing is read; otherwise the first answer to an apply is returned, whatever
  -- traffic, events and messages without text come before it, and what comes behind it is left on the
  -- stream; and where the stream ends without one, that is an error.
  pub apply_config-answer :
      (config : GatewayConfig X) (partial : GatewayConfigPartial X) (s : V.Socket)
      (skipped later : List Incoming) (t : Text) (status : Status)
      → All IsSkipped skipped
      → V.from_str t ≡ ok (GatewayResponse.apply status)
      → (apply_config V config
            (record { socket = s; incoming = skipped ++ (text_message t ∷ later) })
          ≡ after_send
              (V.send (GatewayRequest.apply config) s)
              (skipped ++ (text_message t ∷ later))
              (ok status, later))
        × (apply_partial_config V partial
              (record { socket = s; incoming = skipped ++ (text_message t ∷ later) })
            ≡ after_send
                (V.send (GatewayRequest.apply_partial partial) s)
                (skipped ++ (text_message t ∷ later))
                (ok status, later))
        × (apply_config V config (record { socket = s; incoming = skipped })
            ≡ after_send (V.send (GatewayRequest.apply config) s) skipped (err missing, []))
        × (apply_partial_config V partial (record { socket = s; incoming = skipped })
            ≡ after_send
                (V.send (GatewayRequest.apply_partial partial) s)
                skipped
                (err missing, []))
  unfolding apply_config apply_partial_config
  apply_config-answer config partial s skipped later t status hs e =
      let stream = skipped ++ (text_message t ∷ later) in
      let found = receive_answered skipped later t status hs e in
      let none_left = receive-missing skipped hs in
      let whole = GatewayRequest.apply config in
      let part = GatewayRequest.apply_partial partial in
      (
        request-await whole s stream ∙ ap (after_send (V.send whole s) stream) found,
        request-await part s stream ∙ ap (after_send (V.send part s) stream) found,
        request-await whole s skipped ∙ ap (after_send (V.send whole s) skipped) none_left,
        request-await part s skipped ∙ ap (after_send (V.send part s) skipped) none_left,
      )
