-- ===== src/Session/Park.antt =====
-- crates/core/src/session/motion.rs: position reports without a push of the user.
use kvmshare.Prelude.{
  Bool, List, Option, [], ap, arith, false, if◌then◌else◌, ltb, none, refl, some, subst, sym, true,
  ℕ, ◌&&◌, ◌+◌, ◌∙◌, ◌∷◌, ◌≡◌, ◌≤◌,
}
use kvmshare.Layout.Edges.{Direction}
use kvmshare.Layout.Ray.{last_pixel}
use kvmshare.Prelude.Clock.{elapsed}
use kvmshare.Prelude.I32.Bounds.{max_ge_right}
use kvmshare.Prelude.Int.{pos, ℤ}
use kvmshare.Prelude.Run.{Ensures, Ensures->>=, Ensures-if, done, ◌>>=◌}
use kvmshare.Protocol.Geometry.{Rect, Screen}
use kvmshare.Session.Beacon.{
  if_any, is_at, local_park, on_local_beacon, on_remote_beacon, or_nothing, remote_anchor,
  remote_beacon_on, remote_park,
}
use kvmshare.Session.Boundary.{
  Push, Walls, at_bit, dirs, edge_push_fresh, is_clear, is_fresh_push, wall_bits,
}
use kvmshare.Session.Crossing.{cross_from_remote, switch_out}
use kvmshare.Session.Motion.{Loop, proceed, rounds}
use kvmshare.Session.Placed.{clamp_total, core}
use kvmshare.Session.State.{Action, Session}
use kvmshare.Prelude.I32

-- No outward push, or the last one lies 40 ms back or more: times are in nanoseconds.
abbrev pub IsIdle : ℕ → Option Push → Type 0
IsIdle now none = Unit {0}
IsIdle now (some p) = p.at + 40000000 ≤ now

idle_not_fresh :
    (now : ℕ) (d : Direction) (o : Option Push) → IsIdle now o → is_fresh_push now d o ≡ false
unfolding is_fresh_push
idle_not_fresh now d none h = refl
idle_not_fresh now d (some p) h =
    let late : ltb (elapsed now p.at) edge_push_fresh ≡ false = ground arith in ground (arith, late)

-- The handler leaves the cursor on its screen and asks for nothing.
abbrev pub IsQuiet : {F : Type 0} → Session F → Session F × List Action → Type 0
IsQuiet s r = (core r.0 ≡ core s) × (r.1 ≡ [])

pub never : {A : Type 0} (c : Bool) (x y : A) → (if c && false then x else y) ≡ y
never true x y = refl
never false x y = refl

module _ {F : Type 0} where
  pub rounds_idle :
      (round : Direction → Session F → Loop F) (s : Session F)
      → ((d : Direction) → round d s ≡ done (s, none))
      → (ds : List Direction) → rounds round ds s ≡ done (s, none)
  unfolding rounds
  rounds_idle round s h [] = refl
  rounds_idle round s h (d ∷ ds) =
      ap (λ m. m >>= proceed (rounds round ds)) (h d) ∙ rounds_idle round s h ds

  local_park_idle :
      (now : ℕ) (w : Walls) (s : Session F)
      → IsIdle now s.last_out
      → (d : Direction) → local_park now w d s ≡ done (s, none)
  unfolding local_park
  local_park_idle now w s h d =
      ap
        (λ b. if at_bit d w && b then (switch_out s d >>= λ r. done (if_any r)) else done (s, none))
        (idle_not_fresh now d s.last_out h)
      ∙ never (at_bit d w) _ _

  remote_park_idle :
      (now id : ℕ) (w : Walls) (s : Session F)
      → IsIdle now s.remote_last_out
      → (d : Direction) → remote_park now id w d s ≡ done (s, none)
  unfolding remote_park
  remote_park_idle now id w s h d =
      ap
        (λ b.
          if at_bit d w && b
          then (cross_from_remote s id d >>= λ r. done (if_any r))
          else done (s, none))
        (idle_not_fresh now d s.remote_last_out h)
      ∙ never (at_bit d w) _ _

  pub on_local_beacon_idle :
      (now : ℕ) (s : Session F) (x y : ℤ)
      → IsIdle now s.last_out
      → Ensures (IsQuiet s) (on_local_beacon now s x y)
  unfolding on_local_beacon
  on_local_beacon_idle now s x y h =
      Ensures-if (IsQuiet s) (is_clear (wall_bits s.local x y)) _ _ (refl, refl)
        (subst (λ m. Ensures (IsQuiet s) (m >>= or_nothing))
          (sym (rounds_idle (local_park now _) _ (local_park_idle now _ _ h) dirs)) (refl, refl))

  remote_anchor_idle :
      (now id : ℕ) (s : Session F) (r : Rect) (x y : ℤ)
      → IsIdle now s.remote_last_out
      → Ensures (IsQuiet s) (remote_anchor now id s r x y)
  unfolding remote_anchor
  remote_anchor_idle now id s r x y h =
      Ensures-if (IsQuiet s) (is_clear (wall_bits r x y)) _ _ (refl, refl)
        (subst (λ m. Ensures (IsQuiet s) (m >>= or_nothing))
          (sym (rounds_idle (remote_park now id _) _ (remote_park_idle now id _ _ h) dirs))
          (refl, refl))

  remote_beacon_on_idle :
      (now id : ℕ) (s : Session F) (x y : ℤ) (o : Option Screen)
      → IsIdle now s.remote_last_out
      → Ensures (IsQuiet s) (remote_beacon_on now id s x y o)
  remote_beacon_on_idle now id s x y none h = (refl, refl)
  remote_beacon_on_idle now id s x y (some sc) h =
      Ensures->>= (λ v. Unit {0}) (IsQuiet s) (I32.clamp x (pos 0) (last_pixel sc.rect.w)) _
        (clamp_total x (pos 0) _ (max_ge_right _ (pos 0)))
        (λ v u.
          Ensures->>= (λ z. Unit {0}) (IsQuiet s) (I32.clamp y (pos 0) (last_pixel sc.rect.h)) _
            (clamp_total y (pos 0) _ (max_ge_right _ (pos 0)))
            (λ z w. remote_anchor_idle now id s sc.rect v z h))

  pub on_remote_beacon_idle :
      (now : ℕ) (s : Session F) (id : ℕ) (x y : ℤ)
      → IsIdle now s.remote_last_out
      → Ensures (IsQuiet s) (on_remote_beacon now s id x y)
  unfolding on_remote_beacon
  on_remote_beacon_idle now s id x y h =
      Ensures-if (IsQuiet s) (is_at id s.cursor.mode) _ _ (remote_beacon_on_idle now id s x y _ h)
        (refl, refl)
