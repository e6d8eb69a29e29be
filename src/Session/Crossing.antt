-- ===== src/Session/Crossing.antt =====
-- crates/core/src/session/motion.rs: leaving one screen for another.
use kvmshare.Prelude.{Option, [], if◌then◌else◌, none, some, ℕ, ◌==◌, ◌∷◌}
use kvmshare.Layout.{find}
use kvmshare.Layout.Edges.{Direction}
use kvmshare.Layout.Ray.{Entry, neighbor}
use kvmshare.Prelude.I32.{saturating_add, saturating_sub}
use kvmshare.Prelude.Int.{pos, ℤ}
use kvmshare.Prelude.Run.{Run, done, expect, ◌>>=◌}
use kvmshare.Protocol.Geometry.{Rect, Screen, bottom, center, left, right, top}
use kvmshare.Session.Boundary.{entry_inset}
use kvmshare.Session.State.{Action, Session, Step, clear_boundary_state, mode_of, reachable}
use kvmshare.Prelude.I32

abbrev pub inset_in : Direction → Rect → ℤ → ℤ → ℤ × ℤ
inset_in Direction.left r x y = (I32.max (I32.saturating_sub x entry_inset) (pos 0), y)
inset_in Direction.right r x y =
    (I32.min (I32.saturating_add x entry_inset) (I32.sub r.w (pos 1)), y)
inset_in Direction.top r x y = (x, I32.max (I32.saturating_sub y entry_inset) (pos 0))
inset_in Direction.bottom r x y =
    (x, I32.min (I32.saturating_add y entry_inset) (I32.sub r.h (pos 1)))

-- The action that announces an arrival.
abbrev pub switch_action : ℕ → ℤ → ℤ → Action
switch_action id x y = if id == 0 then Action.switch_to_local x y else Action.switch_to id x y

module _ {F : Type 0} where
  abbrev pub arrive : Session F → ℕ → ℤ → ℤ → Screen → Session F
  arrive s id x y sc = clear_boundary_state (record s {
    cursor = record { x = I32.add sc.rect.x x; y = I32.add sc.rect.y y; mode = mode_of id };
  })

  unfoldable pub enter_screen : Session F → ℕ → ℤ → ℤ → Run (Session F)
  enter_screen s id x y = do sc ← expect (find s.layout id); done (arrive s id x y sc)

  -- `force_local`, with the action in the list that every caller makes of it.
  unfoldable pub force_local : Session F → Step F
  force_local s =
      let (x, y) = center s.local in
      do s' ← enter_screen s 0 x y; done (s', Action.switch_to_local x y ∷ [])

  unfoldable pub inset_entry : Session F → ℕ → Direction → ℤ → ℤ → Run (ℤ × ℤ)
  inset_entry s id dir x y = do sc ← expect (find s.layout id); done (inset_in dir sc.rect x y)

  -- The arm of `switch_out` and `cross_from_remote` with a reachable destination.
  unfoldable pub go_to : Session F → Direction → (ℕ → ℤ → ℤ → Action) → Entry → Step F
  go_to s dir announce e = do
    p ← inset_entry s e.id dir e.x e.y
    s' ← enter_screen s e.id p.0 p.1
    done (s', announce e.id p.0 p.1 ∷ [])

  unfoldable pub cross : Session F → Direction → (ℕ → ℤ → ℤ → Action) → Option Entry → Step F
  cross s dir announce none = done (s, [])
  cross s dir announce (some e) = if reachable s e.id then go_to s dir announce e else done (s, [])

  unfoldable pub switch_out : Session F → Direction → Step F
  switch_out s dir =
      if s.walls_locked
      then done (s, [])
      else (do e ← neighbor s.layout 0 dir s.cursor.x s.cursor.y; cross s dir Action.switch_to e)

  unfoldable pub cross_from_remote : Session F → ℕ → Direction → Step F
  cross_from_remote s id dir =
      if s.walls_locked
      then done (s, [])
      else (do e ← neighbor s.layout id dir s.cursor.x s.cursor.y; cross s dir switch_action e)

  -- `clamp_to`: it panics on a rectangle without pixels.
  unfoldable pub clamp_to_rect : Session F → Rect → Run (Session F)
  clamp_to_rect s r = do
    x ← I32.clamp s.cursor.x (left r) (I32.sub (right r) (pos 1))
    y ← I32.clamp s.cursor.y (top r) (I32.sub (bottom r) (pos 1))
    done (record s { cursor = record { x = x; y = y; mode = s.cursor.mode } })

  -- `jump_to`.
  abbrev pub jump_into : Session F → ℕ → Option Screen → Step F
  jump_into s id none = done (s, [])
  jump_into s id (some sc) =
      let (cx, cy) = center sc.rect in
      do s' ← enter_screen s id cx cy; done (s', switch_action id cx cy ∷ [])

  unfoldable pub jump_to : Session F → ℕ → Step F
  jump_to s id = jump_into s id (find s.layout id)
