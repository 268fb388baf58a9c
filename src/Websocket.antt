-- ===== src/Websocket.antt =====
-- `connect` and `connect_run` of src/websocket.rs: the loop that serves the manager. What `select!`
-- yields, one branch at a time, is a list, so that every order of messages, slices and events
-- is covered.
pub mod Answers
pub mod Shutdown
pub mod Applied
pub mod Replay
use fractalnetworks_gateway.Base.{Bool, true, false, List, [], ◌∷◌, if◌then◌else◌}
use fractalnetworks_gateway.Base.Text.{Text, text}
use fractalnetworks_gateway.Base.Result.{
  Result, ok, err, panic, Error, Call, pure, lift, ◌>>=◌, ◌>>◌,
}
use fractalnetworks_gateway.Base.Word.{Build}
use fractalnetworks_gateway.Crates.{Crates}
use fractalnetworks_gateway.Client.Traffic.{TrafficInfo}
use fractalnetworks_gateway.Client.Event.{
  GatewayEvent, GatewayRequest, GatewayResponse, Status, applied, failed,
}
use fractalnetworks_gateway.Client.Event
use fractalnetworks_gateway.System.{System}
use fractalnetworks_gateway.Gateway.Nginx.{CustomForwarding}
use fractalnetworks_gateway.Gateway.Apply.{Gateway}
use fractalnetworks_gateway.Gateway.Apply

-- The connection (async-tungstenite) with the JSON codec (serde_json), as parameters.
pub record Connection (X : Crates) : Type 1 where
  pub Socket : Type 0
  -- the request with its headers, and `connect_async_with_tls_connector`
  pub open_socket : Call Socket (Unit {0})
  -- `to_string` and `socket.send`
  pub send : GatewayResponse X → Call Socket (Unit {0})
  pub from_str : Text → Result (GatewayRequest X)

-- What `socket.next()` yields.
pub data Incoming : Type 0 where
  text_message : Text → Incoming
  other_message : Incoming
  failure : Error → Incoming
  end_of_stream : Incoming

-- The branch that `select!` takes, with what it yields.
pub data Selected (X : Crates) : Type 0 where
  message : Incoming → Selected X
  slice : Result (TrafficInfo X.Pubkey) → Selected X
  happened : Result (GatewayEvent X) → Selected X

-- Whether the loop was left by a shutdown, or waits for the next branch.
pub data Outcome : Type 0 where
  waiting finished : Outcome

-- `e.to_string()`: the outermost context, or the message itself.
abbrev pub message_of : Error → Text
message_of [] = []
message_of (c ∷ e) = c

abbrev pub status_of : Result (Unit {0}) → Result Status
status_of (ok u) = ok applied
status_of (err e) = ok (failed (message_of e))
status_of panic = panic

module _ {X : Crates} (S : System X) (N : Connection X) (b : Build)
    (custom : CustomForwarding X) where
  pub record Session : Type 0 where
    pub gateway : Gateway S
    pub socket : N.Socket

  unfoldable pub on_socket : {A : Type 0} → Call N.Socket A → Call Session A
  on_socket m s = let (r, socket) = m s.socket in (r, record s { socket = socket })

  unfoldable pub on_gateway : {A : Type 0} → Call (Gateway S) A → Session → Result A × Session
  on_gateway m s = let (r, gateway) = m s.gateway in (r, record s { gateway = gateway })

  -- Lines 47 to 51, and 54 to 58.
  unfoldable pub answer : Call (Gateway S) (Unit {0}) → Call Session Bool
  answer m s =
      let (r, s') = on_gateway m s in
      (do status ← lift (status_of r); on_socket (N.send (GatewayResponse.apply status)); pure true)
        s'

  -- `match message`; `false` leaves the loop.
  unfoldable pub serve : GatewayRequest X → Call Session Bool
  unfolding answer
  serve (GatewayRequest.apply config) = answer (Apply.apply S b custom config)
  serve (GatewayRequest.apply_partial config) = answer (Apply.apply_partial S b custom config)
  serve GatewayRequest.shutdown = pure false

  abbrev pub relay : GatewayResponse X → Call Session Bool
  relay response = do on_socket (N.send response); pure true

  -- One round of the loop.
  unfoldable pub round : Selected X → Call Session Bool
  unfolding serve
  round (message (text_message t)) = do request ← lift (N.from_str t); serve request
  round (message other_message) = pure true
  round (message (failure e)) = lift (err e)
  round (message end_of_stream) = lift (err (text "Server closed WebSocket stream" ∷ []))
  round (slice received) = do traffic ← lift received; relay (GatewayResponse.traffic traffic)
  round (happened received) = do event ← lift received; relay (GatewayResponse.event event)

  unfoldable pub serve_loop : List (Selected X) → Call Session Outcome
  serve_loop [] = pure waiting
  serve_loop (selected ∷ later) = do
    go_on ← round selected
    if go_on then serve_loop later else pure finished

  unfoldable pub connect_run : List (Selected X) → Call Session Outcome
  unfolding serve_loop
  connect_run selected = do on_socket N.open_socket; serve_loop selected

  abbrev pub reconnect :
      Result Outcome → Session → (Session → Result Outcome × Session) → Result Outcome × Session
  reconnect (ok o) s again = (ok o, s)
  reconnect (err e) s again = again s
  reconnect panic s again = (panic, s)

  -- Each attempt with what is selected in it; an error leads to the next one.
  unfoldable pub connect : List (List (Selected X)) → Call Session Outcome
  connect [] s = (ok waiting, s)
  connect (selected ∷ attempts) s =
      let (r, s') = connect_run selected s in reconnect r s' (connect attempts)
