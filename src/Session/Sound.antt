-- ===== src/Session/Sound.antt =====
-- A well-formed session: the screens have pixels, the server's own screen is in the layout, and the
-- cursor is at home or on the screen of a connected client.
use kvmshare.Prelude.{
  All, All-In, Bool-cases, List, Option, [], any, ap, arith, false, find_by-In, if◌then◌else◌, inl,
  inr, none, refl, some, subst, sym, true, ℕ, ◌==◌, ◌||◌, ◌∷◌, ◌≡◌,
}
use kvmshare.Layout.{Layout, find}
use kvmshare.Layout.Edges.{Direction}
use kvmshare.Layout.Lands.{MayLand, neighbor-MayLand}
use kvmshare.Layout.Ray.{Entry, neighbor}
use kvmshare.Prelude.Int.{ℤ}
use kvmshare.Prelude.Run.{Ensures, Ensures->>=, Ensures-if, Ensures-test, done, expect, ◌>>=◌}
use kvmshare.Protocol.Geometry.{Rect, Screen}
use kvmshare.Session.Crossing.{
  arrive, cross, cross_from_remote, enter_screen, go_to, inset_entry, inset_in, switch_action,
  switch_out,
}
use kvmshare.Session.Loops.{After}
use kvmshare.Session.Placed.{Core, IsPlaced, core}
use kvmshare.Session.State.{
  Action, Mode, Session, clear_boundary_state, is_connected, mode_of, reachable,
}

-- Where the mode says the cursor is, there is a reachable screen.
abbrev pub IsHere : Layout → List ℕ → Mode → Type 0
IsHere l connected Mode.local = Unit {0}
IsHere l connected (Mode.remote id) =
    ((id == 0) ≡ false)
    × (any (λ c. c == id) connected ≡ true)
    × ((sc : Screen) × (find l id ≡ some sc))

pub record IsWellFormed (c : Core) : Type 0 where
  pub home : Screen
  pub home_found : find c.layout 0 ≡ some home
  pub screens_placed : All (λ sc. IsPlaced sc.rect) c.layout.screens
  pub local_placed : IsPlaced c.local
  pub here : IsHere c.layout c.connected c.mode

-- The mode after a caller has followed the actions.
abbrev pub follow : Mode → List Action → Mode
follow m [] = m
follow m (Action.send msg ∷ acts) = follow m acts
follow m (Action.switch_to id x y ∷ acts) = follow (Mode.remote id) acts
follow m (Action.switch_to_local x y ∷ acts) = follow Mode.local acts
follow m (Action.nothing ∷ acts) = follow m acts

-- What an event leaves alone.
abbrev pub desk : Core → Layout × Rect × List ℕ
desk c = (c.layout, c.local, c.connected)

-- A step from `before`: the session stays well-formed, the layout, the local screen and the clients
-- stay, and the mode is the one that the actions tell the caller.
pub record IsSound (before : Core) (c : Core) (acts : List Action) : Type 0 where
  pub sound : IsWellFormed c
  pub same : desk c ≡ desk before
  pub told : c.mode ≡ follow before.mode acts

pub start-IsSound : (c : Core) → IsWellFormed c → IsSound c c []
start-IsSound c w = record { sound = w; same = refl; told = refl }

pub found-IsPlaced :
    (l : Layout) (id : ℕ) (sc : Screen)
    → All (λ sc. IsPlaced sc.rect) l.screens
    → find l id ≡ some sc
    → IsPlaced sc.rect
unfolding find
found-IsPlaced l id sc h e = All-In (λ s. IsPlaced s.rect) l.screens h (find_by-In _ l.screens e).1

mode_of-IsHere :
    {F : Type 0} (s : Session F) (id : ℕ) (sc : Screen)
    → reachable s id ≡ true
    → find s.layout id ≡ some sc
    → IsHere s.layout s.connected (mode_of id)
unfolding reachable is_connected
mode_of-IsHere s id sc r e = elim (Bool-cases (id == 0)) [
  | inl zeroth ↦
      subst (IsHere s.layout s.connected)
        (sym (ap (λ b. if b then Mode.local else Mode.remote id) zeroth)) tt
  | inr far ↦
      subst (IsHere s.layout s.connected)
        (sym (ap (λ b. if b then Mode.local else Mode.remote id) far))
        (far, subst (λ b. (b || any (λ c. c == id) s.connected) ≡ true) far r, (sc, e))
]

pub switch_action-follow :
    (m : Mode) (id : ℕ) (x y : ℤ) → follow m (switch_action id x y ∷ []) ≡ mode_of id
switch_action-follow m id x y = elim (Bool-cases (id == 0)) [
  | inl zeroth ↦ ground arith
  | inr far ↦ ground arith
]

pub switch_to-follow :
    (m : Mode) (id : ℕ) (x y : ℤ)
    → (id == 0) ≡ false
    → follow m (Action.switch_to id x y ∷ []) ≡ mode_of id
switch_to-follow m id x y h = sym (ap (λ b. if b then Mode.local else Mode.remote id) h)

module _ {F : Type 0} (before : Core) where
  -- Arriving on a reachable screen, with an action that says so.
  pub arrive-IsSound :
      (s : Session F) (id : ℕ) (x y : ℤ) (sc : Screen) (acts : List Action)
      → IsSound before (core s) []
      → reachable s id ≡ true
      → find s.layout id ≡ some sc
      → follow before.mode acts ≡ mode_of id
      → IsSound before (core (arrive s id x y sc)) acts
  unfolding clear_boundary_state
  arrive-IsSound s id x y sc acts p r e f = record {
    sound = record {
      home = p.sound.home;
      home_found = p.sound.home_found;
      screens_placed = p.sound.screens_placed;
      local_placed = p.sound.local_placed;
      here = mode_of-IsHere s id sc r e;
    };
    same = p.same;
    told = sym f;
  }

  pub enter_screen-IsSound :
      (s : Session F) (id : ℕ) (x y : ℤ) (sc : Screen) (acts : List Action)
      → IsSound before (core s) []
      → reachable s id ≡ true
      → find s.layout id ≡ some sc
      → follow before.mode acts ≡ mode_of id
      → Ensures (λ t. IsSound before (core t) acts) (enter_screen s id x y)
  unfolding enter_screen
  enter_screen-IsSound s id x y sc acts p r e f =
      subst
        (λ o.
          Ensures (λ t. IsSound before (core t) acts) (expect o >>= λ t. done (arrive s id x y t)))
        (sym e) (arrive-IsSound s id x y sc acts p r e f)

  go_to-IsSound :
      (s : Session F) (dir : Direction) (announce : ℕ → ℤ → ℤ → Action) (e : Entry) (sc : Screen)
      → IsSound before (core s) []
      → reachable s e.id ≡ true
      → find s.layout e.id ≡ some sc
      → ((x y : ℤ) → follow before.mode (announce e.id x y ∷ []) ≡ mode_of e.id)
      → Ensures (After (IsSound before)) (go_to s dir announce e)
  unfolding go_to inset_entry
  go_to-IsSound s dir announce e sc p r f told =
      Ensures->>= (λ q. Unit {0}) (After (IsSound before))
        (expect (find s.layout e.id) >>= λ t. done (inset_in dir t.rect e.x e.y)) _
        (subst (λ o. Ensures (λ q. Unit {0}) (expect o >>= λ t. done (inset_in dir t.rect e.x e.y)))
          (sym f) tt)
        (λ q u.
          Ensures->>= (λ t. IsSound before (core t) (announce e.id q.0 q.1 ∷ []))
            (After (IsSound before)) (enter_screen s e.id q.0 q.1) _
            (enter_screen-IsSound s e.id q.0 q.1 sc _ p r f (told q.0 q.1)) (λ t h. h))

  cross-IsSound :
      (s : Session F) (id : ℕ) (dir : Direction) (announce : ℕ → ℤ → ℤ → Action) (o : Option Entry)
      → IsSound before (core s) []
      → MayLand s.layout id o
      → ((n : ℕ) (x y : ℤ)
          → (n == id) ≡ false
          → follow before.mode (announce n x y ∷ []) ≡ mode_of n)
      → Ensures (After (IsSound before)) (cross s dir announce o)
  unfolding cross
  cross-IsSound s id dir announce none p h told = p
  cross-IsSound s id dir announce (some e) p h told =
      Ensures-test (After (IsSound before)) (reachable s e.id) _ _
        (λ r.
          go_to-IsSound s dir announce e h.screen p r h.found (λ x y. told e.id x y h.elsewhere))
        p

  pub switch_out-IsSound :
      (s : Session F) (dir : Direction)
      → IsSound before (core s) []
      → Ensures (After (IsSound before)) (switch_out s dir)
  unfolding switch_out
  switch_out-IsSound s dir p = Ensures-if (After (IsSound before)) s.walls_locked _ _ p (
      Ensures->>= (MayLand s.layout 0) (After (IsSound before))
        (neighbor s.layout 0 dir s.cursor.x s.cursor.y) _
        (neighbor-MayLand s.layout 0 dir s.cursor.x s.cursor.y)
        (λ o h.
          cross-IsSound s 0 dir Action.switch_to o p h
            (λ n x y. switch_to-follow before.mode n x y)))

  pub cross_from_remote-IsSound :
      (s : Session F) (id : ℕ) (dir : Direction)
      → IsSound before (core s) []
      → Ensures (After (IsSound before)) (cross_from_remote s id dir)
  unfolding cross_from_remote
  cross_from_remote-IsSound s id dir p = Ensures-if (After (IsSound before)) s.walls_locked _ _ p (
      Ensures->>= (MayLand s.layout id) (After (IsSound before))
        (neighbor s.layout id dir s.cursor.x s.cursor.y) _
        (neighbor-MayLand s.layout id dir s.cursor.x s.cursor.y)
        (λ o h.
          cross-IsSound s id dir switch_action o p h
            (λ n x y q. switch_action-follow before.mode n x y)))
