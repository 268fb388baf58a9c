-- ===== src/Options.antt =====
-- `Options`, the start of the daemon and `Global` in src/lib.rs, and `main` of src/main.rs.
pub mod Forwarding
pub mod Running
use fractalnetworks_gateway.Base.{ℕ, Bool, true, List, [], ◌∷◌}
use fractalnetworks_gateway.Base.Text.{Text, text}
use fractalnetworks_gateway.Base.Split.{split}
use fractalnetworks_gateway.Base.Result.{
  Result, ok, err, bind_result, context_of, Call, pure, lift, context, ◌>>=◌, ◌>>◌,
}
use fractalnetworks_gateway.Base.Word.{Build}
use fractalnetworks_gateway.Crates.{Crates, SocketAddr}
use fractalnetworks_gateway.Client.Config.{GatewayConfig}
use fractalnetworks_gateway.System.{System}
use fractalnetworks_gateway.Gateway.Apply.{Gateway}
use fractalnetworks_gateway.Gateway.Nginx.{CustomForwarding, startup}
use fractalnetworks_gateway.Websocket.{Connection, Selected, Outcome, Session, connect}

-- The interval of the watchdog is in nanoseconds.
pub record Options (X : Crates) : Type 0 where
  pub token : Text
  pub watchdog : ℕ
  pub custom_forwarding : CustomForwarding X
  pub manager : X.Url
  pub identity : Text

-- Without the lock on the rules, which guards nothing, and the broadcast channels.
pub record Global (X : Crates) : Type 0 where
  pub lock : GatewayConfig X
  pub options : Options X
  pub watchdog : ℕ
  pub token : Text
  pub manager : X.Url

module _ (X : Crates) where
  abbrev pub socket_part : X.Url → List Text → Result (X.Url × SocketAddr)
  socket_part url [] = err (text "Missing socket part" ∷ [])
  socket_part url (s ∷ parts) = bind_result (X.parse_socket s) λ socket. ok (url, socket)

  abbrev pub url_part : List Text → Result (X.Url × SocketAddr)
  url_part [] = err (text "Missing URL part" ∷ [])
  url_part (u ∷ parts) =
      bind_result (context_of (text "While parsing forwarding URL") (X.parse_url u))
        λ url. socket_part url parts

  -- The parts after the second one are not read.
  unfoldable pub parse_custom_forwarding : Text → Result (X.Url × SocketAddr)
  parse_custom_forwarding s = url_part (split b'=' s)

-- `Options::global`
unfoldable pub global : {X : Crates} → Options X → Result (Global X)
global self = ok (record {
  lock = [];
  options = self;
  watchdog = self.watchdog;
  token = self.token;
  manager = self.manager;
})

module _ {X : Crates} (S : System X) (N : Connection X) (b : Build) (self : Options X) where
  -- The daemon's memory and the world with the connection, and whether the task of the watchdog runs.
  pub record Process : Type 0 where
    pub session : Session S N b self.custom_forwarding
    pub watching : Bool

  -- The configuration behind the lock of a new `Global`.
  abbrev pub store_global : Global X → Call Process (Unit {0})
  store_global g p = (
    ok tt,
    record p {
      session = record p.session { gateway = record p.session.gateway { config = g.lock } };
    },
  )

  -- `Global::watchdog`: the task goes on by itself.
  abbrev pub spawn_watchdog : Call Process (Unit {0})
  spawn_watchdog p = (ok tt, record p { watching = true })

  unfoldable pub in_world : Call S.World (Unit {0}) → Call Process (Unit {0})
  in_world m p =
      let (r, world) = m p.session.gateway.world in
      (
        r,
        record p {
          session = record p.session { gateway = record p.session.gateway { world = world } };
        },
      )

  unfoldable pub in_session :
      Call (Session S N b self.custom_forwarding) Outcome → Call Process Outcome
  in_session m p = let (r, session) = m p.session in (r, record p { session = session })

  -- `Options::run`, with what the attempts to connect select.
  unfoldable pub run : List (List (Selected X)) → Call Process Outcome
  unfolding global
  run attempts = do
    g ← context (text "Creating global options") (lift (global self))
    store_global g
    spawn_watchdog
    context (text "Starting up gateway") (in_world (startup S b self.custom_forwarding))
    in_session (connect S N b self.custom_forwarding attempts)
