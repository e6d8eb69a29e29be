-- ===== src/Session/LocalHandlers.antt =====
-- crates/core/src/session/motion.rs: the handlers of the local screen, for any fact that `switch_out`
-- keeps.
use kvmshare.Prelude.{List, Option, [], none, some, subst, sym, ℕ, ◌&&◌, ◌≡◌}
use kvmshare.Layout.Edges.{Direction}
use kvmshare.Prelude.Int.{ℤ}
use kvmshare.Prelude.Run.{Ensures, Ensures->>=, Ensures-if}
use kvmshare.Session.Beacon.{local_park, on_local_beacon}
use kvmshare.Session.Boundary.{
  Walls, at_bit, dirs, is_clear, is_fresh_push, is_sustained, pulls_inward, pushes_outward,
  wall_bits,
}
use kvmshare.Session.Crossing.{clamp_to_rect, switch_out}
use kvmshare.Session.Loops.{
  After, Fact, InLoop, if_any-InLoop, local_fired-InLoop, or_nothing-After, rounds-InLoop,
}
use kvmshare.Session.Motion.{
  handle_local_motion, local_fallback, local_outside, local_pushed, local_round, rounds,
}
use kvmshare.Session.Placed.{Core, IsPlaced, clamp_to_rect-core, core}
use kvmshare.Session.State.{Action, Session}

module _ {F : Type 0} (P : Fact)
    (out : (s : Session F) (d : Direction) → P (core s) [] → Ensures (After P) (switch_out s d))
    (placed : (c : Core) → P c [] → IsPlaced c.local) where
  local_round-InLoop :
      (now : ℕ) (dx dy : ℤ) (d : Direction) (s : Session F)
      → P (core s) []
      → Ensures (InLoop P) (local_round now dx dy d s)
  unfolding local_round
  local_round-InLoop now dx dy d s p =
      Ensures-if (InLoop P) (pushes_outward d dx dy) _ _
        (Ensures-if (InLoop P) (at_bit d s.at_wall) _ _
          (Ensures->>= (After P) (InLoop P) (switch_out _ d) _ (out _ d p)
            (λ r q. local_fired-InLoop P d r q))
          p)
        (Ensures-if (InLoop P) (pulls_inward d dx dy) _ _ p p)

  local_pushed-After :
      (now : ℕ) (d : Direction) (s : Session F)
      → P (core s) []
      → Ensures (After P) (local_pushed now d s)
  unfolding local_pushed
  local_pushed-After now d s p =
      Ensures-if (After P) (is_sustained now d s.pushing) _ _ (out _ d p) p

  local_outside-After :
      (now : ℕ) (s : Session F) (o : Option Direction)
      → P (core s) []
      → Ensures (After P) (local_outside now s o)
  local_outside-After now s none p = p
  local_outside-After now s (some d) p =
      Ensures->>= (λ t. core t ≡ core s) (After P) (clamp_to_rect s s.local) _
        (clamp_to_rect-core s s.local (placed (core s) p))
        (λ t q. local_pushed-After now d t (subst (λ c. P c []) (sym q) p))

  local_fallback-After :
      (now : ℕ) (r : Session F × Option (List Action))
      → InLoop P r
      → Ensures (After P) (local_fallback now r)
  local_fallback-After now (s, none) p = local_outside-After now s _ p
  local_fallback-After now (s, some acts) p = p

  pub handle_local_motion-After :
      (now : ℕ) (s : Session F) (dx dy : ℤ)
      → P (core s) []
      → Ensures (After P) (handle_local_motion now s dx dy)
  unfolding handle_local_motion
  handle_local_motion-After now s dx dy p =
      Ensures->>= (InLoop P) (After P) (rounds (local_round now dx dy) dirs s) _
        (rounds-InLoop P _ (local_round-InLoop now dx dy) dirs s p) (local_fallback-After now)

  local_park-InLoop :
      (now : ℕ) (fresh : Walls) (d : Direction) (s : Session F)
      → P (core s) []
      → Ensures (InLoop P) (local_park now fresh d s)
  unfolding local_park
  local_park-InLoop now fresh d s p =
      Ensures-if (InLoop P) (at_bit d fresh && is_fresh_push now d s.last_out) _ _
        (Ensures->>= (After P) (InLoop P) (switch_out s d) _ (out s d p)
          (λ r q. if_any-InLoop P r q))
        p

  pub on_local_beacon-After :
      (now : ℕ) (s : Session F) (x y : ℤ)
      → P (core s) []
      → Ensures (After P) (on_local_beacon now s x y)
  unfolding on_local_beacon
  on_local_beacon-After now s x y p =
      Ensures-if (After P) (is_clear (wall_bits s.local x y)) _ _ p (
        Ensures->>= (InLoop P) (After P) (rounds (local_park now _) dirs _) _
          (rounds-InLoop P _ (local_park-InLoop now _) dirs _ p) (or_nothing-After P))
