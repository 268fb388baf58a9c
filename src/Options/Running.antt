-- ===== src/Options/Running.antt =====
-- When `Options::run` of src/lib.rs returns an error.
use fractalnetworks_gateway.Base.{◌≡◌, ◌≢◌, refl, ap, true, List, [], ◌∷◌}
use fractalnetworks_gateway.Base.Text.{text}
use fractalnetworks_gateway.Base.Result.{
  Error, Result, ok, err, panic, context_of, continue, lift, context, ◌>>=◌,
}
use fractalnetworks_gateway.Base.Word.{Build}
use fractalnetworks_gateway.Crates.{Crates}
use fractalnetworks_gateway.System.{System}
use fractalnetworks_gateway.Gateway.Nginx.{CustomForwarding, startup}
use fractalnetworks_gateway.Websocket.{
  Connection, Selected, Outcome, Session, connect_run, connect, reconnect,
}
use fractalnetworks_gateway.Options.{Options, Process, in_world, in_session, run}

module _ {X : Crates} (S : System X) (N : Connection X) (b : Build)
    (custom : CustomForwarding X) where
  retried :
      (r : Result Outcome) (s : Session S N b custom)
      (again : Session S N b custom → Result Outcome × Session S N b custom) (e : Error)
      → (again s).0 ≢ err e
      → (reconnect S N b custom r s again).0 ≢ err e
  retried (ok o) s again e h k = cc
  retried (err x) s again e h k = h k
  retried panic s again e h k = cc

  -- Whatever goes wrong on a connection leads to the next attempt.
  connect_no_error :
      (attempts : List (List (Selected X))) (s : Session S N b custom) (e : Error)
      → (connect S N b custom attempts s).0 ≢ err e
  unfolding connect
  connect_no_error [] s e = λ h. cc
  connect_no_error (selected ∷ attempts) s e =
      let (r, s') = connect_run S N b custom selected s in
      retried r s' (connect S N b custom attempts) e (connect_no_error attempts s' e)

module _ {X : Crates} (S : System X) (N : Connection X) (b : Build) (self : Options X) where
  -- Where the start of NGINX leads to.
  started :
      (r : Result (Unit {0})) (p : Process S N b self) (attempts : List (List (Selected X)))
      (e : Error)
      → (continue
          (context_of (text "Starting up gateway") r)
          (λ _. in_session S N b self (connect S N b self.custom_forwarding attempts))
          p).0
        ≡ err e
      → (cause : Error) × (r ≡ err cause)
        × (e ≡ text "Starting up gateway" ∷ cause)
        × ((continue
              (context_of (text "Starting up gateway") r)
              (λ _. in_session S N b self (connect S N b self.custom_forwarding attempts))
              p).1
            ≡ p)
  unfolding in_session
  started (ok u) p attempts e h =
      absurd (connect_no_error S N b self.custom_forwarding attempts p.session e h)
  started (err cause) p attempts e h = (cause, refl, cc, refl)
  started panic p attempts e h = cc

  -- The daemon returns an error only where the start of NGINX did, with that error behind its context;
  -- nothing was sent to the manager then. A failure of a connection, or of what is asked for on it,
  -- never ends the daemon with an error.
  pub run_fails :
      (attempts : List (List (Selected X))) (p : Process S N b self) (e : Error)
      → (run S N b self attempts p).0 ≡ err e
      → (cause : Error) × ((startup S b self.custom_forwarding p.session.gateway.world).0
          ≡ err cause)
        × (e ≡ text "Starting up gateway" ∷ cause)
        × ((run S N b self attempts p).1.session.socket ≡ p.session.socket)
  unfolding run in_world ◌>>=◌ lift context
  run_fails attempts p e h =
      let (r, world) = startup S b self.custom_forwarding p.session.gateway.world in
      let (cause, c, d, same) =
        started r
          (record p {
            session = record p.session { gateway = record { config = []; world = world } };
            watching = true;
          })
          attempts e h in
      (cause, c, d, ap (λ (q : Process S N b self). q.session.socket) same)
