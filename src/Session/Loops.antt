-- ===== src/Session/Loops.antt =====
-- Facts that the loops of the motion and beacon handlers carry along.
use kvmshare.Prelude.{List, Option, [], none, some, ◌∷◌}
use kvmshare.Layout.Edges.{Direction}
use kvmshare.Prelude.Run.{Ensures, Ensures->>=}
use kvmshare.Session.Beacon.{if_any, or_nothing}
use kvmshare.Session.Motion.{Loop, local_fired, or_else, proceed, rounds}
use kvmshare.Session.Placed.{Core, core}
use kvmshare.Session.State.{Action, Session}

-- Facts about what a handler leaves, as the crossings see it, and about the actions it returns.
abbrev pub Fact : Type 1
Fact = Core → List Action → Type 0

module _ {F : Type 0} (P : Fact) where
  abbrev pub After : Session F × List Action → Type 0
  After r = P (core r.0) r.1

  -- A round of a loop keeps `P` with no actions, or ends with actions that have it.
  abbrev pub InLoop : Session F × Option (List Action) → Type 0
  InLoop (s, none) = P (core s) []
  InLoop (s, some acts) = P (core s) acts

  proceed-InLoop :
      (next : Session F → Loop F)
      → ((s : Session F) → P (core s) [] → Ensures InLoop (next s))
      → (r : Session F × Option (List Action)) → InLoop r
      → Ensures InLoop (proceed next r)
  proceed-InLoop next keep (s, none) q = keep s q
  proceed-InLoop next keep (s, some acts) q = q

  pub rounds-InLoop :
      (round : Direction → Session F → Loop F)
      → ((d : Direction) (s : Session F) → P (core s) [] → Ensures InLoop (round d s))
      → (ds : List Direction) (s : Session F) → P (core s) []
      → Ensures InLoop (rounds round ds s)
  unfolding rounds
  rounds-InLoop round keep [] s p = p
  rounds-InLoop round keep (d ∷ ds) s p =
      Ensures->>= InLoop InLoop (round d s) _ (keep d s p)
        (proceed-InLoop (rounds round ds) (λ s' q. rounds-InLoop round keep ds s' q))

  pub if_any-InLoop : (r : Session F × List Action) → After r → InLoop (if_any r)
  if_any-InLoop (s, []) q = q
  if_any-InLoop (s, a ∷ more) q = q

  pub or_nothing-After :
      (r : Session F × Option (List Action)) → InLoop r → Ensures After (or_nothing r)
  or_nothing-After (s, none) q = q
  or_nothing-After (s, some acts) q = q

  pub local_fired-InLoop :
      (dir : Direction) (r : Session F × List Action) → After r → InLoop (local_fired dir r)
  local_fired-InLoop dir (s, []) q = q
  local_fired-InLoop dir (s, a ∷ more) q = q

  pub or_else-After :
      (motion : List Action) (r : Session F × List Action)
      → After r
      → (P (core r.0) [] → P (core r.0) motion)
      → After (or_else motion r)
  or_else-After motion (s, []) q k = k q
  or_else-After motion (s, a ∷ more) q k = q
