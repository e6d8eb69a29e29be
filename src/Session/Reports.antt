-- ===== src/Session/Reports.antt =====
-- crates/core/src/session/motion.rs: what a position report is answered with.
use kvmshare.Prelude.{false, some, true, ℕ, ◌+◌, ◌<◌, ◌≡◌, ◌⊎◌}
use kvmshare.Prelude.Int.{ℤ}
use kvmshare.Prelude.Run.{Ensures}
use kvmshare.Protocol.Geometry.{Rect}
use kvmshare.Session.Beacon.{anchored}
use kvmshare.Session.Boundary.{Push, at_bit, newly, wall_bits}
use kvmshare.Session.Crossing.{cross_from_remote, switch_out}
use kvmshare.Session.Park.{IsIdle, IsQuiet}
use kvmshare.Session.State.{Session, Step}
use kvmshare.Prelude.I32

module _ {F : Type 0} where
  -- The cursor at a reported position of the local screen, on the walls there.
  abbrev pub reported : Session F → ℤ → ℤ → Session F
  reported s x y = record (anchored s (I32.add s.local.x x) (I32.add s.local.y y)) {
    at_wall = wall_bits s.local x y;
  }

  -- The answer to a report of the local cursor: nothing, if the last push is 40 ms old, or its wall is
  -- not one that the cursor has newly come to; else the crossing at that wall.
  abbrev pub IsLocalAnswer : ℕ → Session F → ℤ → ℤ → Step F → Type 0
  IsLocalAnswer now s x y r =
      (IsIdle now s.last_out × Ensures (IsQuiet s) r)
      ⊎ ((p : Push) × (s.last_out ≡ some p)
          × (now < p.at + 40000000)
          × (((at_bit p.dir (newly (wall_bits s.local x y) s.at_wall) ≡ true)
                × (r ≡ switch_out (reported s x y) p.dir))
              ⊎ ((at_bit p.dir (newly (wall_bits s.local x y) s.at_wall) ≡ false)
                  × Ensures (IsQuiet s) r)))

  -- The cursor at a reported position of a client's screen, on the walls there.
  abbrev pub reported_on : ℕ → Session F → Rect → ℤ → ℤ → Session F
  reported_on now s r x y = record (anchored s (I32.add r.x x) (I32.add r.y y)) {
    remote_beacon_at = some now;
    remote_at_wall = wall_bits r x y;
  }

  -- The answer to a report of the client that has the cursor, at a position of its screen.
  abbrev pub IsRemoteAnswer : ℕ → Session F → ℕ → Rect → ℤ → ℤ → Step F → Type 0
  IsRemoteAnswer now s id r x y res =
      (IsIdle now s.remote_last_out × Ensures (IsQuiet s) res)
      ⊎ ((p : Push) × (s.remote_last_out ≡ some p)
          × (now < p.at + 40000000)
          × (((at_bit p.dir (newly (wall_bits r x y) s.remote_at_wall) ≡ true)
                × (res ≡ cross_from_remote (reported_on now s r x y) id p.dir))
              ⊎ ((at_bit p.dir (newly (wall_bits r x y) s.remote_at_wall) ≡ false)
                  × Ensures (IsQuiet s) res)))
