-- ===== src/Pointer/Inside.antt =====
-- crates/core/src/motion/follower.rs: the command stays where the cursor can be.
use kvmshare.Prelude.{
  Bool-cases, List, Option, [], if_keeps, inl, inr, none, not, refl, some, subst, sym, true, ℕ,
  ◌&&◌, ◌-◌, ◌∷◌, ◌≡◌,
}
use kvmshare.Pointer.Follower.{
  Follower, advance, carry_out, clamp_command, clamp_into, correct, feed_forward, flush,
  follow_from, is_zero, is_zero_step, last_place, new_follower, reanchor, set_bounds,
  stop_following,
}
use kvmshare.Prelude.Int.{pos, ℤ}
use kvmshare.Session.State.{Floats}

-- What is relied on of f64: sums with an i32 stay finite, and a finite number clamped between 0 and a
-- count of pixels lies between them.
pub record IsClamping (fl : Floats) (IsFinite : fl.F → Type 0) : Type 0 where
  pub zero_finite : IsFinite fl.zero_point
  pub of_i32_finite : (z : ℤ) → IsFinite (fl.of_i32 z)
  pub plus_finite : (a : fl.F) (z : ℤ) → IsFinite a → IsFinite (fl.plus a (fl.of_i32 z))
  pub clamped :
      (a : fl.F) (n : ℕ)
      → IsFinite a
      → IsFinite (fl.clamp_to a fl.zero_point (fl.of_int (pos n)))
        × (fl.at_most fl.zero_point (fl.clamp_to a fl.zero_point (fl.of_int (pos n))) ≡ true)
        × (fl.at_most (fl.clamp_to a fl.zero_point (fl.of_int (pos n))) (fl.of_int (pos n)) ≡ true)

-- The calls of a follower.
pub data Steering : Type 0 where
  resized : ℕ → ℕ → Steering
  entered : ℤ → ℤ → Steering
  left : Steering
  frame : ℤ → ℤ → Steering
  advanced : ℤ → ℤ → Steering
  anchored : ℤ → ℤ → Steering
  corrected : ℤ × ℤ → Steering
  flushed : ℤ × ℤ → Steering

module _ (fl : Floats) where
  unfoldable pub steered : Follower fl.F → Steering → Follower fl.F
  steered f (Steering.resized w h) = set_bounds fl f w h
  steered f (Steering.entered x y) = follow_from fl f x y
  steered f Steering.left = stop_following fl f
  steered f (Steering.frame dx dy) = (feed_forward fl f dx dy).0
  steered f (Steering.advanced dx dy) = advance fl f dx dy
  steered f (Steering.anchored x y) = reanchor fl f x y
  steered f (Steering.corrected real) = (correct fl f real).0
  steered f (Steering.flushed real) = (flush fl f real).0

  unfoldable pub steered_by : Follower fl.F → List Steering → Follower fl.F
  steered_by f [] = f
  steered_by f (s ∷ ss) = steered_by (steered f s) ss

  -- Inside the screen, where it is known.
  abbrev pub IsOnScreen : Follower fl.F → Option (ℕ × ℕ) → Type 0
  IsOnScreen f none = Unit
  IsOnScreen f (some (w, h)) =
      (fl.at_most fl.zero_point f.tx ≡ true)
      × (fl.at_most f.tx (last_place fl w) ≡ true)
      × (fl.at_most fl.zero_point f.ty ≡ true)
      × (fl.at_most f.ty (last_place fl h) ≡ true)

  module _ (IsFinite : fl.F → Type 0) (law : IsClamping fl IsFinite) where
    IsKept : Follower fl.F → Type 0
    IsKept f = IsOnScreen f f.bounds × IsFinite f.tx × IsFinite f.ty

    clamp-IsKept : (f : Follower fl.F) → IsFinite f.tx → IsFinite f.ty → IsKept (clamp_command fl f)
    unfolding clamp_command IsKept
    clamp-IsKept f a b = clamp f f.bounds refl a b
      where
        clamp :
            (g : Follower fl.F) (o : Option (ℕ × ℕ))
            → g.bounds ≡ o
            → IsFinite g.tx
            → IsFinite g.ty
            → IsOnScreen (clamp_into fl g o) (clamp_into fl g o).bounds
              × IsFinite (clamp_into fl g o).tx
              × IsFinite (clamp_into fl g o).ty
        clamp g none e a b = (subst (IsOnScreen g) (sym e) tt, a, b)
        clamp g (some (w, h)) e a b =
            let x = law.clamped g.tx (w - 1) a in
            let y = law.clamped g.ty (h - 1) b in
            (
              subst (IsOnScreen (clamp_into fl g (some (w, h)))) (sym e) (x.1, x.2, y.1, y.2),
              x.0,
              y.0,
            )

    carry-IsKept : (f : Follower fl.F) → IsKept f → IsKept (carry_out fl f).0
    unfolding IsKept
    carry-IsKept f h = elim (Bool-cases (is_zero_step fl (fl.trunc f.fx, fl.trunc f.fy))) [
      | inl hit ↦ rw hit h
      | inr miss ↦ rw miss h
    ]

    advance-IsKept : (f : Follower fl.F) (dx dy : ℤ) → IsKept f → IsKept (advance fl f dx dy)
    unfolding advance IsKept
    advance-IsKept f dx dy h =
        clamp-IsKept _ (law.plus_finite f.tx dx h.1) (law.plus_finite f.ty dy h.2)

    correct-IsKept : (f : Follower fl.F) (real : ℤ × ℤ) → IsKept f → IsKept (correct fl f real).0
    unfolding correct IsKept
    correct-IsKept f real h =
        let Q : Follower fl.F × Option (ℤ × ℤ) → Type 0 = λ p. IsKept p.0 in
        if_keeps Q (not f.on) _ _ h
          (if_keeps Q (is_zero fl _ && is_zero fl _) _ _ h (carry-IsKept _ h))

    flush-IsKept : (f : Follower fl.F) (real : ℤ × ℤ) → IsKept f → IsKept (flush fl f real).0
    unfolding flush IsKept
    flush-IsKept f real h = elim (Bool-cases f.on) [ inl hit ↦ rw hit h | inr miss ↦ rw miss h ]

    steered-IsKept : (f : Follower fl.F) (s : Steering) → IsKept f → IsKept (steered f s)
    unfolding steered set_bounds follow_from stop_following feed_forward reanchor IsKept
    steered-IsKept f (Steering.resized w h) k = clamp-IsKept _ k.1 k.2
    steered-IsKept f (Steering.entered x y) k =
        clamp-IsKept _ (law.of_i32_finite x) (law.of_i32_finite y)
    steered-IsKept f Steering.left k = k
    steered-IsKept f (Steering.frame dx dy) k = carry-IsKept _ (advance-IsKept f dx dy k)
    steered-IsKept f (Steering.advanced dx dy) k = advance-IsKept f dx dy k
    steered-IsKept f (Steering.anchored x y) k =
        clamp-IsKept _ (law.of_i32_finite x) (law.of_i32_finite y)
    steered-IsKept f (Steering.corrected real) k = correct-IsKept f real k
    steered-IsKept f (Steering.flushed real) k = flush-IsKept f real k

    steered_by-IsKept :
        (f : Follower fl.F) (ss : List Steering) → IsKept f → IsKept (steered_by f ss)
    unfolding steered_by
    steered_by-IsKept f [] k = k
    steered_by-IsKept f (s ∷ ss) k = steered_by-IsKept (steered f s) ss (steered-IsKept f s k)

  -- After any calls of a new follower its command lies inside the screen, where the screen's size
  -- is known. It relies on f64 sums with an i32 staying finite and on clamping a finite number
  -- between 0 and a count of pixels.
  pub steered_by-IsOnScreen :
      (IsFinite : fl.F → Type 0) (ss : List Steering)
      → IsClamping fl IsFinite
      → IsOnScreen (steered_by (new_follower fl) ss) (steered_by (new_follower fl) ss).bounds
  unfolding new_follower IsKept
  steered_by-IsOnScreen IsFinite ss law =
      (steered_by-IsKept IsFinite law (new_follower fl) ss (tt, law.zero_finite, law.zero_finite)).0
