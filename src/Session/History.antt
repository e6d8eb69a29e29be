-- ===== src/Session/History.antt =====
-- A session between two layouts: any sequence of what its methods are called with.
use kvmshare.Prelude.{All, List, [], ap, refl, some, subst, sym, ℕ, ◌++◌, ◌∙◌, ◌∷◌, ◌≡◌}
use kvmshare.Actions.{BindSection}
use kvmshare.Layout.{Layout, find}
use kvmshare.Prelude.Int.{ℤ}
use kvmshare.Prelude.Run.{Ensures, Ensures->>=, done, expect, panic, ◌>>=◌}
use kvmshare.Protocol.Geometry.{Screen}
use kvmshare.Protocol.Message.{Message}
use kvmshare.Session.Beacon.{on_remote_beacon}
use kvmshare.Session.Clients.{on_client_connected, on_client_disconnected}
use kvmshare.Session.Events.{on_local_event}
use kvmshare.Session.Invariant.{IsSoundFrom, on_local_event-IsSound, on_remote_beacon-IsSound}
use kvmshare.Session.Placed.{IsPlaced, core}
use kvmshare.Session.Sound.{IsWellFormed, follow, found-IsPlaced}
use kvmshare.Session.State.{
  Action, Floats, InputPrefs, Mode, Session, Step, new_session, set_bindings, set_gain, set_prefs,
}
use kvmshare.Session.Told.{IsTold, connected-IsTold, disconnected-IsTold}

pub data Input (fl : Floats) : Type 0 where
  local_event : ℕ → Message → Input fl
  remote_beacon : ℕ → ℕ → ℤ → ℤ → Input fl
  client_connected : ℕ → Input fl
  client_disconnected : ℕ → Input fl
  new_gain : fl.F → Input fl
  new_prefs : InputPrefs fl.F → Input fl
  new_bindings : BindSection → Input fl

-- Serve one input.
unfoldable pub serve : (fl : Floats) → Session fl.F → Input fl → Step fl.F
serve fl s (Input.local_event now m) = on_local_event fl now s m
serve fl s (Input.remote_beacon now id x y) = on_remote_beacon now s id x y
serve fl s (Input.client_connected id) = done (on_client_connected s id, [])
serve fl s (Input.client_disconnected id) = on_client_disconnected s id
serve fl s (Input.new_gain g) = done (set_gain fl s g, [])
serve fl s (Input.new_prefs p) = done (set_prefs fl s p, [])
serve fl s (Input.new_bindings b) = done (set_bindings s b, [])

-- Serve inputs one after another; the actions of all of them, in order.
unfoldable pub serve_all : (fl : Floats) → Session fl.F → List (Input fl) → Step fl.F
serve_all fl s [] = done (s, [])
serve_all fl s (i ∷ is) = do r ← serve fl s i; q ← serve_all fl r.0 is; done (q.0, r.1 ++ q.1)

follow-append : (m : Mode) (xs ys : List Action) → follow m (xs ++ ys) ≡ follow (follow m xs) ys
follow-append m [] ys = refl
follow-append m (Action.send msg ∷ xs) ys = follow-append m xs ys
follow-append m (Action.switch_to id x y ∷ xs) ys = follow-append (Mode.remote id) xs ys
follow-append m (Action.switch_to_local x y ∷ xs) ys = follow-append Mode.local xs ys
follow-append m (Action.nothing ∷ xs) ys = follow-append m xs ys

IsTold-by :
    {F : Type 0} (s : Session F) (m : Step F)
    → Ensures (IsSoundFrom s) m
    → Ensures (λ (r : Session F × List Action). IsTold s.cursor.mode (core r.0) r.1) m
IsTold-by s (done r) p = record { sound = p.sound; told = p.told }
IsTold-by s panic p = p

-- Every input keeps the session well-formed and the caller informed.
serve-IsTold :
    (fl : Floats) (s : Session fl.F) (i : Input fl)
    → IsWellFormed (core s)
    → Ensures (λ r. IsTold s.cursor.mode (core r.0) r.1) (serve fl s i)
unfolding serve set_gain set_prefs set_bindings
serve-IsTold fl s (Input.local_event now m) w = IsTold-by s _ (on_local_event-IsSound fl now s m w)
serve-IsTold fl s (Input.remote_beacon now id x y) w =
    IsTold-by s _ (on_remote_beacon-IsSound now s id x y w)
serve-IsTold fl s (Input.client_connected id) w = connected-IsTold s id w
serve-IsTold fl s (Input.client_disconnected id) w = disconnected-IsTold s id w
serve-IsTold fl s (Input.new_gain g) w = record { sound = w; told = refl }
serve-IsTold fl s (Input.new_prefs p) w = record { sound = w; told = refl }
serve-IsTold fl s (Input.new_bindings b) w = record { sound = w; told = refl }

-- A well-formed session can serve any sequence of inputs without a panic, stays well-formed, and its
-- actions, followed in order, tell the caller the mode that it ends in.
pub serve_all-IsTold :
    (fl : Floats) (s : Session fl.F) (is : List (Input fl))
    → IsWellFormed (core s)
    → Ensures (λ r. IsTold s.cursor.mode (core r.0) r.1) (serve_all fl s is)
unfolding serve_all
serve_all-IsTold fl s [] w = record { sound = w; told = refl }
serve_all-IsTold fl s (i ∷ is) w =
    Ensures->>= (λ r. IsTold s.cursor.mode (core r.0) r.1) _ (serve fl s i) _
      (serve-IsTold fl s i w)
      (λ r h.
        Ensures->>= (λ q. IsTold r.0.cursor.mode (core q.0) q.1) _ (serve_all fl r.0 is) _
          (serve_all-IsTold fl r.0 is h.sound)
          (λ q k. record {
            sound = k.sound;
            told =
                k.told ∙ ap (λ m. follow m q.1) h.told ∙ sym (follow-append s.cursor.mode r.1 q.1);
          }))

new_session-IsWellFormed :
    (fl : Floats) (l : Layout) (home : Screen)
    → find l 0 ≡ some home
    → All (λ sc. IsPlaced sc.rect) l.screens
    → Ensures (λ s. IsWellFormed (core s) × (s.cursor.mode ≡ Mode.local)) (new_session fl l 0)
unfolding new_session
new_session-IsWellFormed fl l home e h =
    Ensures->>= (λ sc. IsPlaced sc.rect) _ (expect (find l 0)) _
      (subst (λ o. Ensures (λ (sc : Screen). IsPlaced sc.rect) (expect o)) (sym e)
        (found-IsPlaced l 0 home h e))
      (λ sc p. (
        record { home = home; home_found = e; screens_placed = h; local_placed = p; here = tt },
        refl,
      ))

-- A session that starts from a layout whose screens have pixels and i32 edges, and which has the
-- server's own screen, serves any sequence of events, position reports, connects, disconnects and
-- settings without a panic. The cursor is always at home or on the screen of a connected client, and
-- the actions, followed in order from home, give the mode.
pub new_session-IsTold :
    (fl : Floats) (l : Layout) (home : Screen) (is : List (Input fl))
    → find l 0 ≡ some home
    → All (λ sc. IsPlaced sc.rect) l.screens
    → Ensures
        (λ r. IsTold Mode.local (core r.0) r.1)
        (new_session fl l 0 >>= λ s. serve_all fl s is)
new_session-IsTold fl l home is e h =
    Ensures->>= (λ s. IsWellFormed (core s) × (s.cursor.mode ≡ Mode.local)) _ (new_session fl l 0) _
      (new_session-IsWellFormed fl l home e h)
      (λ s w.
        subst (λ m. Ensures (λ r. IsTold m (core r.0) r.1) (serve_all fl s is)) w.1
          (serve_all-IsTold fl s is w.0))
