-- ===== src/Session/Held.antt =====
-- crates/core/src/session/motion.rs: the wall lock.
use kvmshare.Prelude.{All, List, [], ap, refl, some, subst, sym, true, ℕ, ◌∙◌, ◌≡◌}
use kvmshare.Layout.{find}
use kvmshare.Layout.Edges.{Direction}
use kvmshare.Prelude.Int.{ℤ}
use kvmshare.Prelude.Run.{Ensures, Ensures-left}
use kvmshare.Protocol.Geometry.{Screen}
use kvmshare.Session.Beacon.{on_remote_beacon}
use kvmshare.Session.Crossing.{cross_from_remote}
use kvmshare.Session.Loops.{After}
use kvmshare.Session.Placed.{Core, IsPlaced, core}
use kvmshare.Session.RemoteHandlers.{on_remote_beacon-After}
use kvmshare.Session.Sound.{found-IsPlaced}
use kvmshare.Session.State.{Action, Session}

abbrev pub IsSend : Action → Type 0
IsSend (Action.send m) = Unit {0}
IsSend (Action.switch_to id x y) = ⊥
IsSend (Action.switch_to_local x y) = ⊥
IsSend Action.nothing = ⊥

-- Screens that the cursor can be clamped to.
abbrev pub IsPlacedDesk : Core → Type 0
IsPlacedDesk c = IsPlaced c.local × All (λ sc. IsPlaced sc.rect) c.layout.screens

-- The cursor stays on its screen: at most, messages are sent to it.
abbrev pub IsHeld : Core → Core → List Action → Type 0
IsHeld before c acts = (c ≡ before) × All IsSend acts

module _ (before : Core) (locked : before.locked ≡ true) (desk : IsPlacedDesk before) where
  cross_from_remote-IsHeld :
      {F : Type 0} (s : Session F) (id : ℕ) (d : Direction)
      → IsHeld before (core s) []
      → Ensures (After (IsHeld before)) (cross_from_remote s id d)
  unfolding cross_from_remote
  cross_from_remote-IsHeld s id d p =
      Ensures-left (After (IsHeld before)) s.walls_locked _ _ (ap (λ c. c.locked) p.0 ∙ locked) p

  remote_rect :
      (id : ℕ) (c : Core) (sc : Screen)
      → IsHeld before c []
      → find c.layout id ≡ some sc
      → IsPlaced sc.rect
  remote_rect id c sc p e =
      found-IsPlaced c.layout id sc
        (subst (λ k. All (λ t. IsPlaced t.rect) k.layout.screens) (sym p.0) desk.1) e

  remote_beacon-IsHeld :
      {F : Type 0} (now : ℕ) (s : Session F) (id : ℕ) (x y : ℤ)
      → IsHeld before (core s) []
      → Ensures (After (IsHeld before)) (on_remote_beacon now s id x y)
  remote_beacon-IsHeld now s id x y p =
      on_remote_beacon-After (IsHeld before) id (λ t d. cross_from_remote-IsHeld t id d)
        (λ c m q. (q.0, (tt, tt))) (remote_rect id) now s x y p

-- While the walls are locked, a position report of a client moves the cursor to no other screen, and
-- nothing panics, if the screens are placed.
pub on_remote_beacon-IsHeld :
    {F : Type 0} (now : ℕ) (s : Session F) (id : ℕ) (x y : ℤ)
    → s.walls_locked ≡ true
    → IsPlacedDesk (core s)
    → Ensures (λ r. IsHeld (core s) (core r.0) r.1) (on_remote_beacon now s id x y)
on_remote_beacon-IsHeld now s id x y k h = remote_beacon-IsHeld (core s) k h now s id x y (refl, tt)
