-- ===== src/Session/Pushed.antt =====
-- crates/core/src/session/motion.rs: the loops over the walls that a report stands on.
use kvmshare.Prelude.{
  Bool, Bool-cases, List, Option, [], ap, arith, false, if_keeps, if◌then◌else◌, inl, inr, ltb,
  ltb→lt, none, refl, some, subst, sym, true, ℕ, ◌&&◌, ◌+◌, ◌<◌, ◌∙◌, ◌∷◌, ◌≡◌, ◌⊎◌,
}
use kvmshare.Layout.Edges.{Direction}
use kvmshare.Layout.Ray.{Entry, neighbor}
use kvmshare.Prelude.Clock.{elapsed}
use kvmshare.Prelude.Int.{ℤ}
use kvmshare.Prelude.Run.{Run, done, panic, ◌>>=◌}
use kvmshare.Server.Rest.{rest}
use kvmshare.Session.Beacon.{if_any, or_nothing}
use kvmshare.Session.Boundary.{
  Push, Walls, at_bit, dirs, edge_push_fresh, is_clear, is_fresh_push, newly, same_dir,
}
use kvmshare.Session.Crossing.{
  cross, cross_from_remote, enter_screen, go_to, inset_entry, switch_action, switch_out,
}
use kvmshare.Session.Motion.{Loop, proceed, rounds}
use kvmshare.Session.Park.{IsIdle, never, rounds_idle}
use kvmshare.Session.State.{Action, Session, Step, reachable}

-- A crossing without an action leaves the session as it is.
abbrev pub IsStill : {F : Type 0} → Session F → Session F × List Action → Type 0
IsStill s (t, []) = t ≡ s
IsStill s (t, a ∷ more) = Unit {0}

abbrev pub Partly : {A : Type 0} → (A → Type 0) → Run A → Type 0
Partly P (done a) = P a
Partly P panic = Unit {0}

Partly->>= :
    {A B : Type 0} (P : B → Type 0) (m : Run A) (f : A → Run B)
    → ((a : A) → Partly P (f a))
    → Partly P (m >>= f)
Partly->>= P (done a) f h = h a
Partly->>= P panic f h = tt

-- The directions behind one of `dirs`.
abbrev behind_top : List Direction
behind_top = Direction.bottom ∷ []

abbrev behind_right : List Direction
behind_right = Direction.top ∷ behind_top

abbrev behind_left : List Direction
behind_left = Direction.right ∷ behind_right

same_dir_refl : (d : Direction) → same_dir d d ≡ true
same_dir_refl Direction.left = refl
same_dir_refl Direction.right = refl
same_dir_refl Direction.top = refl
same_dir_refl Direction.bottom = refl

fresh_lem :
    (now : ℕ) (p : Push) (d : Direction)
    → now < p.at + 40000000
    → is_fresh_push now d (some p) ≡ same_dir p.dir d
unfolding is_fresh_push
fresh_lem now p d h =
    let soon : ltb (elapsed now p.at) edge_push_fresh ≡ true = ground arith in ground (arith, soon)

pub not_clear : (w v : Walls) (d : Direction) → at_bit d (newly w v) ≡ true → is_clear w ≡ false
unfolding at_bit newly is_clear
not_clear w v Direction.left h = ground arith
not_clear w v Direction.right h = ground arith
not_clear w v Direction.top h = ground arith
not_clear w v Direction.bottom h = ground arith

same_dir→eq : (c d : Direction) → same_dir c d ≡ true → c ≡ d
same_dir→eq Direction.left Direction.left h = refl
same_dir→eq Direction.left Direction.right h = cc
same_dir→eq Direction.left Direction.top h = cc
same_dir→eq Direction.left Direction.bottom h = cc
same_dir→eq Direction.right Direction.left h = cc
same_dir→eq Direction.right Direction.right h = refl
same_dir→eq Direction.right Direction.top h = cc
same_dir→eq Direction.right Direction.bottom h = cc
same_dir→eq Direction.top Direction.left h = cc
same_dir→eq Direction.top Direction.right h = cc
same_dir→eq Direction.top Direction.top h = refl
same_dir→eq Direction.top Direction.bottom h = cc
same_dir→eq Direction.bottom Direction.left h = cc
same_dir→eq Direction.bottom Direction.right h = cc
same_dir→eq Direction.bottom Direction.top h = cc
same_dir→eq Direction.bottom Direction.bottom h = refl

-- A push is 40 ms old, or younger.
pub push_age :
    (now : ℕ) (o : Option Push)
    → IsIdle now o ⊎ ((p : Push) × (o ≡ some p) × (now < p.at + 40000000))
push_age now none = inl tt
push_age now (some p) = elim (Bool-cases (ltb now (p.at + 40000000))) [
  | inl soon ↦ inr (p, refl, ltb→lt _ _ soon)
  | inr late ↦ inl (ground arith)
]

-- A push toward a wall that the cursor does not newly stand on opens no wall.
no_wall :
    (now : ℕ) (w : Walls) (p : Push) (c : Direction)
    → now < p.at + 40000000
    → at_bit p.dir w ≡ false
    → (at_bit c w && is_fresh_push now c (some p)) ≡ false
no_wall now w p c h b = elim (Bool-cases (same_dir p.dir c)) [
  | inl same ↦
      let bit : at_bit c w ≡ false = subst (λ d. at_bit d w ≡ false) (same_dir→eq p.dir c same) b in
      ground arith
  | inr other ↦
      let old : is_fresh_push now c (some p) ≡ false = fresh_lem now p c h ∙ other in ground arith
]

module _ {F : Type 0} where
  go_to-Still :
      (s : Session F) (d : Direction) (announce : ℕ → ℤ → ℤ → Action) (e : Entry)
      → Partly (IsStill s) (go_to s d announce e)
  unfolding go_to
  go_to-Still s d announce e =
      Partly->>= (IsStill s) (inset_entry s e.id d e.x e.y) _
        (λ p. Partly->>= (IsStill s) (enter_screen s e.id p.0 p.1) _ (λ t. tt))

  cross-Still :
      (s : Session F) (d : Direction) (announce : ℕ → ℤ → ℤ → Action) (o : Option Entry)
      → Partly (IsStill s) (cross s d announce o)
  unfolding cross
  cross-Still s d announce none = refl
  cross-Still s d announce (some e) =
      if_keeps (Partly (IsStill s)) (reachable s e.id) _ _ (go_to-Still s d announce e) refl

  pub cross_from_remote-Still :
      (s : Session F) (id : ℕ) (d : Direction) → Partly (IsStill s) (cross_from_remote s id d)
  unfolding cross_from_remote
  cross_from_remote-Still s id d = if_keeps (Partly (IsStill s)) s.walls_locked _ _ refl (
      Partly->>= (IsStill s) (neighbor s.layout id d s.cursor.x s.cursor.y) _
        (λ o. cross-Still s d switch_action o))

  pub switch_out-Still : (s : Session F) (d : Direction) → Partly (IsStill s) (switch_out s d)
  unfolding switch_out
  switch_out-Still s d = if_keeps (Partly (IsStill s)) s.walls_locked _ _ refl (
      Partly->>= (IsStill s) (neighbor s.layout 0 d s.cursor.x s.cursor.y) _
        (λ o. cross-Still s d Action.switch_to o))

  module _ (round : Direction → Session F → Loop F) (s : Session F) where
    skip :
        (d : Direction) (ds : List Direction)
        → round d s ≡ done (s, none)
        → rounds round (d ∷ ds) s ≡ rounds round ds s
    unfolding rounds
    skip d ds h = ap (λ m. m >>= proceed (rounds round ds)) h

    hit_of :
        (ds : List Direction) (m : Step F)
        → Partly (IsStill s) m
        → rounds round ds s ≡ done (s, none)
        → (((m >>= λ r. done (if_any r)) >>= proceed (rounds round ds)) >>= or_nothing) ≡ m
    hit_of ds panic h rest = refl
    hit_of ds (done (t, [])) h rest =
        ap (λ u. rounds round ds u >>= or_nothing) h
        ∙ ap (λ m. m >>= or_nothing) rest
        ∙ ap (λ u. done (u, [])) (sym h)
    hit_of ds (done (t, a ∷ more)) h rest = refl

    hit :
        (d : Direction) (ds : List Direction) (m : Step F)
        → Partly (IsStill s) m
        → round d s ≡ (m >>= λ r. done (if_any r))
        → rounds round ds s ≡ done (s, none)
        → (rounds round (d ∷ ds) s >>= or_nothing) ≡ m
    unfolding rounds
    hit d ds m h here rest =
        ap (λ n. (n >>= proceed (rounds round ds)) >>= or_nothing) here ∙ hit_of ds m h rest

    -- One direction of the four crosses, the others are passed over.
    one_hit :
        (d : Direction) (m : Step F)
        → Partly (IsStill s) m
        → round d s ≡ (m >>= λ r. done (if_any r))
        → ((c : Direction) → same_dir d c ≡ false → round c s ≡ done (s, none))
        → (rounds round dirs s >>= or_nothing) ≡ m
    unfolding rounds
    one_hit Direction.left m h here rest = hit Direction.left behind_left m h here (
        skip Direction.right behind_right (rest Direction.right refl)
        ∙ skip Direction.top behind_top (rest Direction.top refl)
        ∙ skip Direction.bottom [] (rest Direction.bottom refl))
    one_hit Direction.right m h here rest =
        ap (λ n. n >>= or_nothing) (skip Direction.left behind_left (rest Direction.left refl))
        ∙ hit Direction.right behind_right m h here (
            skip Direction.top behind_top (rest Direction.top refl)
            ∙ skip Direction.bottom [] (rest Direction.bottom refl))
    one_hit Direction.top m h here rest =
        ap (λ n. n >>= or_nothing)
          (skip Direction.left behind_left (rest Direction.left refl)
            ∙ skip Direction.right behind_right (rest Direction.right refl))
        ∙ hit Direction.top behind_top m h here
            (skip Direction.bottom [] (rest Direction.bottom refl))
    one_hit Direction.bottom m h here rest =
        ap (λ n. n >>= or_nothing)
          (skip Direction.left behind_left (rest Direction.left refl)
            ∙ skip Direction.right behind_right (rest Direction.right refl)
            ∙ skip Direction.top behind_top (rest Direction.top refl))
        ∙ hit Direction.bottom [] m h here refl

  -- The loop over the directions, each of which crosses by `go` behind a push toward its wall.
  abbrev pub park :
      (Direction → Session F → Step F) → ℕ → Walls → Option Push → Direction → Session F → Loop F
  park go now w o d s =
      if at_bit d w && is_fresh_push now d o
      then (go d s >>= λ r. done (if_any r))
      else done (s, none)

  module _ (round : Direction → Session F → Loop F) (go : Direction → Session F → Step F) (now : ℕ)
      (w : Walls) (s : Session F) (p : Push) (soon : now < p.at + 40000000)
      (parks : (d : Direction) → round d s ≡ park go now w (some p) d s) where
    pub parked_hit :
        Partly (IsStill s) (go p.dir s)
        → at_bit p.dir w ≡ true
        → (rounds round dirs s >>= or_nothing) ≡ go p.dir s
    parked_hit still b =
        one_hit round s p.dir (go p.dir s) still (parks p.dir ∙ here) (λ c n. parks c ∙ others c n)
      where
        here : park go now w (some p) p.dir s ≡ (go p.dir s >>= λ r. done (if_any r))
        here = rw (b, fresh_lem now p p.dir soon ∙ same_dir_refl p.dir) refl

        others :
            (c : Direction) → same_dir p.dir c ≡ false → park go now w (some p) c s ≡ done (s, none)
        others c n =
            ap (λ k. if at_bit c w && k then (go c s >>= λ r. done (if_any r)) else done (s, none))
              (fresh_lem now p c soon ∙ n)
            ∙ never (at_bit c w) _ _

    pub parked_miss : at_bit p.dir w ≡ false → rounds round dirs s ≡ done (s, none)
    parked_miss b =
        rounds_idle round s
          (λ d.
            parks d
            ∙ ap (λ (k : Bool). if k then (go d s >>= λ r. done (if_any r)) else done (s, none))
                (no_wall now w p d soon b))
          dirs
