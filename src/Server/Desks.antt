-- ===== src/Server/Desks.antt =====
-- Which ids a layout has, when the server changes it.
use kvmshare.Prelude.{
  ==_iff, Bool-cases, List, [], any, ap, arith, bytes_eq, false, inl, inr, map, not, refl, retain,
  some, sym, true, ℕ, ◌++◌, ◌==◌, ◌∙◌, ◌∷◌, ◌≡◌,
}
use kvmshare.Layout.{Layout, find, find_id}
use kvmshare.Layout.Normalize.{normalized}
use kvmshare.Layout.Shape.{normalized-shapes, shape}
use kvmshare.Protocol.Geometry.{Screen, ScreenInfo}
use kvmshare.Server.Coherent.{IsLinked}
use kvmshare.Session.Admit.{IsUsed}
use kvmshare.Session.Beacon.{is_at}
use kvmshare.Session.Clients.{keep_dynamic, resize}
use kvmshare.Session.Placed.{Core}
use kvmshare.Session.Sound.{IsHere}
use kvmshare.Session.State.{Mode}

pub found-IsUsed :
    (ss : List Screen) (id : ℕ) (sc : Screen) → find_id id ss ≡ some sc → IsUsed ss id
found-IsUsed [] id sc e = cc
found-IsUsed (s ∷ ss) id sc e = elim (Bool-cases (s.id == id)) [
  | inl hit ↦ ground arith
  | inr miss ↦ ground (arith, found-IsUsed ss id sc (rw miss at e))
]

pub used_found :
    (ss : List Screen) (id : ℕ) → IsUsed ss id → (sc : Screen) × (find_id id ss ≡ some sc)
used_found [] id u = cc
used_found (s ∷ ss) id u = elim (Bool-cases (s.id == id)) [
  | inl hit ↦ (s, rw hit refl)
  | inr miss ↦ let (sc, e) = used_found ss id (rw miss at u) in (sc, rw miss e)
]

used_shapes :
    (ss : List Screen) (id : ℕ) → any (λ s. s.id == id) ss ≡ any (λ p. p.0 == id) (map shape ss)
used_shapes [] id = refl
used_shapes (s ∷ ss) id = ground (arith, used_shapes ss id)

pub normalized-IsUsed :
    (l : Layout) (id : ℕ) → IsUsed l.screens id → IsUsed (normalized l).screens id
normalized-IsUsed l id u =
    used_shapes (normalized l).screens id
    ∙ ap (λ ps. any (λ p. p.0 == id) ps) (normalized-shapes l)
    ∙ sym (used_shapes l.screens id)
    ∙ u

pub append-IsUsed : (xs ys : List Screen) (id : ℕ) → IsUsed xs id → IsUsed (xs ++ ys) id
append-IsUsed [] ys id u = cc
append-IsUsed (x ∷ xs) ys id u = elim (Bool-cases (x.id == id)) [
  | inl hit ↦ ground arith
  | inr miss ↦ ground (arith, append-IsUsed xs ys id (rw miss at u))
]

pub resize-IsUsed :
    (to : ℕ) (info : ScreenInfo) (ss : List Screen) (id : ℕ)
    → IsUsed ss id
    → IsUsed (resize to info ss) id
unfolding resize
resize-IsUsed to info [] id u = u
resize-IsUsed to info (s ∷ ss) id u = elim (Bool-cases (s.id == to)) [
  | inl hit ↦ ground arith
  | inr miss ↦ elim (Bool-cases (s.id == id)) [
    | inl here ↦ ground arith
    | inr there ↦ ground (arith, resize-IsUsed to info ss id (rw there at u))
  ]
]

pub retain-IsUsed :
    (gone : ℕ) (ss : List Screen) (id : ℕ)
    → (id == gone) ≡ false
    → IsUsed ss id
    → IsUsed (retain (λ sc. not (sc.id == gone)) ss) id
retain-IsUsed gone [] id n u = u
retain-IsUsed gone (s ∷ ss) id n u = elim (Bool-cases (s.id == id)) [
  | inl hit ↦ ground arith
  | inr miss ↦ ground (arith, retain-IsUsed gone ss id n (rw miss at u))
]

-- The dynamic screens that ride along come after those of the new layout.
pub keep_dynamic-IsUsed :
    (screens ds : List Screen) (id : ℕ) → IsUsed screens id → IsUsed (keep_dynamic screens ds).0 id
unfolding keep_dynamic
keep_dynamic-IsUsed screens [] id u = u
keep_dynamic-IsUsed screens (d ∷ ds) id u =
    elim (Bool-cases (any (λ s. bytes_eq s.name d.name) screens)) [
      | inl hit ↦ rw hit (keep_dynamic-IsUsed screens ds id u)
      | inr miss ↦
          rw miss
            (keep_dynamic-IsUsed (screens ++ d ∷ []) ds id (append-IsUsed screens (d ∷ []) id u))
    ]

-- A cursor that stays on a screen which stays.
pub IsHere-on :
    (l l' : Layout) (cs : List ℕ) (m : Mode)
    → ((id : ℕ) → is_at id m ≡ true → IsUsed l.screens id → IsUsed l'.screens id)
    → IsHere l cs m
    → IsHere l' cs m
unfolding find
IsHere-on l l' cs Mode.local k h = tt
IsHere-on l l' cs (Mode.remote id) k h = (
  h.0,
  h.1,
  used_found l'.screens id (k id ((==_iff id id).1 refl) (found-IsUsed l.screens id h.2.0 h.2.1)),
)

-- The server's screen and the cursor's stay.
pub IsLinked-on :
    (c : Core) (l' : Layout)
    → IsLinked c
    → IsUsed l'.screens 0
    → ((id : ℕ) → is_at id c.mode ≡ true → IsUsed c.layout.screens id → IsUsed l'.screens id)
    → IsLinked (record c { layout = l' })
unfolding find
IsLinked-on c l' h u k =
    let (sc, e) = used_found l'.screens 0 u in
    record { home = sc; home_found = e; here = IsHere-on c.layout l' c.connected c.mode k h.here }

-- Every screen stays.
pub IsLinked-wider :
    (c : Core) (l' : Layout)
    → IsLinked c
    → ((id : ℕ) → IsUsed c.layout.screens id → IsUsed l'.screens id)
    → IsLinked (record c { layout = l' })
unfolding find
IsLinked-wider c l' h k =
    IsLinked-on c l' h (k 0 (found-IsUsed c.layout.screens 0 h.home h.home_found)) (λ id at. k id)
