-- ===== src/Session/Admit.antt =====
-- crates/core/src/session/mod.rs: what a client that asks for a screen is answered.
use kvmshare.Prelude.{
  ==_iff, Bool, Bool-cases, In, List, Option, Option-cases, [], any, arith, bytes_eq, bytes_eq_refl,
  bytes_eq→eq, false, find_by, find_by-In, find_by-none, if◌then◌else◌, inl, inr, map, none, not,
  refl, some, subst, suc, sym, true, zero, ℕ, ◌&&◌, ◌++◌, ◌+◌, ◌<◌, ◌==◌, ◌∷◌, ◌≡◌, ◌≤◌, ◌⊎◌,
}
use kvmshare.Layout.Shape.{normalized-shapes, shape}
use kvmshare.Protocol.Geometry.{Screen, ScreenInfo}
use kvmshare.Session.Clients.{
  admit_at, admit_client, admit_new, assign_screen_id, free_id, new_screen,
}
use kvmshare.Session.Motion.{rounds}
use kvmshare.Session.State.{Session}

abbrev pub IsUsed : List Screen → ℕ → Type 0
IsUsed ss id = any (λ s. s.id == id) ss ≡ true

free_id_found :
    (ss : List Screen) (c rounds id : ℕ)
    → free_id ss c rounds ≡ some id
    → (c ≤ id) × (id < c + rounds) × (any (λ s. s.id == id) ss ≡ false)
unfolding free_id
free_id_found ss c zero id e = cc
free_id_found ss c (suc rounds) id e = elim (Bool-cases (any (λ s. s.id == c) ss)) [
  | inl hit ↦
      let (lo, hi, free) = free_id_found ss (c + 1) rounds id (rw hit at e) in
      (omega arith, omega arith, free)
  | inr miss ↦
      let e' : some c ≡ some id = rw miss at e in
      let same : c ≡ id = cc in
      (omega arith, omega arith, subst (λ n. any (λ s. s.id == n) ss ≡ false) same miss)
]

free_id_exhausted :
    (ss : List Screen) (c rounds : ℕ)
    → free_id ss c rounds ≡ none
    → (id : ℕ) → c ≤ id
    → id < c + rounds
    → IsUsed ss id
unfolding free_id
free_id_exhausted ss c zero e id lo hi = absurd (omega arith)
free_id_exhausted ss c (suc rounds) e id lo hi = elim (Bool-cases (any (λ s. s.id == c) ss)) [
  | inl hit ↦ elim (Bool-cases (c == id)) [
    | inl at_c ↦ subst (λ n. IsUsed ss n) ((==_iff c id).0 at_c) hit
    | inr past_c ↦ free_id_exhausted ss (c + 1) rounds (rw hit at e) id (ground arith) (omega arith)
  ]
  | inr miss ↦ absurd (let e' : some c ≡ none = rw miss at e in cc)
]

-- The layout with one more screen, up to positions.
abbrev pub Grows : {F : Type 0} → Session F → Session F → Screen → Type 0
Grows s t sc = map shape t.layout.screens ≡ map shape (s.layout.screens ++ sc ∷ [])

-- No screen of a client has the name.
abbrev pub IsStranger : {F : Type 0} → Session F → List ℕ → Type 0
IsStranger s name = (sc : Screen) → In sc s.layout.screens → 0 < sc.id → ¬ sc.name ≡ name

-- What admission answers: a client whose name is on a screen keeps that screen, and with it the
-- session stays as it is; a stranger gets an unused id from 1 to 255 and a screen after the others,
-- and is refused only for the local screen's name or when all those ids are in use.
abbrev pub Answers :
    {F : Type 0} → Session F → List ℕ → ScreenInfo → Session F × Option (ℕ × Bool) → Type 0
Answers s name info (t, some (id, false)) =
    (t ≡ s)
    × (assign_screen_id s name ≡ some id)
    × (sc : Screen) × In sc s.layout.screens
    × (0 < sc.id)
    × (sc.id ≡ id)
    × (sc.name ≡ name)
Answers s name info (t, some (id, true)) =
    IsStranger s name
    × (1 ≤ id)
    × (id ≤ 255)
    × (any (λ sc. sc.id == id) s.layout.screens ≡ false)
    × Grows s t (new_screen s name info id)
Answers s name info (t, none) =
    (t ≡ s)
    × IsStranger s name
    × ((any (λ sc. (sc.id == 0) && bytes_eq sc.name name) s.layout.screens ≡ true)
        ⊎ ((id : ℕ) → 1 ≤ id → id ≤ 255 → IsUsed s.layout.screens id))

module _ {F : Type 0} (s : Session F) (name : List ℕ) (info : ScreenInfo) where
  unassigned-IsStranger : assign_screen_id s name ≡ none → IsStranger s name
  unfolding assign_screen_id
  unassigned-IsStranger e sc i positive same =
      elim (Option-cases (find_by named s.layout.screens)) [
        | inl miss ↦
            let no : named sc ≡ false = find_by-none named s.layout.screens sc miss i in
            let yes : bytes_eq sc.name name ≡ true =
              subst (λ n. bytes_eq sc.name n ≡ true) same (bytes_eq_refl sc.name) in
            ground arith
        | inr (hit, f) ↦ (let e' : some hit.id ≡ none = rw f at e in cc)
      ]
    where
      named : Screen → Bool
      named sc = not (sc.id == 0) && bytes_eq sc.name name

  assigned :
      (id : ℕ)
      → assign_screen_id s name ≡ some id
      → (sc : Screen) × In sc s.layout.screens × (0 < sc.id) × (sc.id ≡ id) × (sc.name ≡ name)
  unfolding assign_screen_id
  assigned id e = elim (Option-cases (find_by named s.layout.screens)) [
    | inl miss ↦ absurd (let e' : none ≡ some id = rw miss at e in cc)
    | inr (hit, f) ↦
        let e' : some hit.id ≡ some id = rw f at e in
        let (n, i) = find_by-In named s.layout.screens f in
        (hit, i, ground arith, cc, bytes_eq→eq hit.name name (ground arith))
  ]
    where
      named : Screen → Bool
      named sc = not (sc.id == 0) && bytes_eq sc.name name

  admit_at-Answers :
      IsStranger s name
      → (o : Option ℕ) → free_id s.layout.screens 1 255 ≡ o
      → Answers s name info (admit_at s name info o)
  admit_at-Answers new none e =
      (refl, new, inr (λ id lo hi. free_id_exhausted s.layout.screens 1 255 e id lo (omega arith)))
  admit_at-Answers new (some id) e =
      let (lo, hi, free) = free_id_found s.layout.screens 1 255 id e in
      (new, lo, omega arith, free, normalized-shapes _)

  admit_new-Answers :
      (o : Option ℕ) → assign_screen_id s name ≡ o → Answers s name info (admit_new s name info o)
  admit_new-Answers (some id) e =
      let (sc, i, n, same, name_same) = assigned id e in (refl, e, sc, i, n, same, name_same)
  admit_new-Answers none e =
      let homes = any (λ sc. (sc.id == 0) && bytes_eq sc.name name) s.layout.screens in
      elim (Bool-cases homes) [
        | inl hit ↦
            subst
              (λ b.
                Answers s name info
                  (if b then (s, none) else admit_at s name info (free_id s.layout.screens 1 255)))
              (sym hit) (refl, unassigned-IsStranger e, inl hit)
        | inr miss ↦
            subst
              (λ b.
                Answers s name info
                  (if b then (s, none) else admit_at s name info (free_id s.layout.screens 1 255)))
              (sym miss) (admit_at-Answers (unassigned-IsStranger e) _ refl)
      ]

  -- The answer to a client that asks for a screen: a client whose name is on a client's screen
  -- keeps that screen, and the session stays as it is; only one whose name is on none gets an
  -- unused id from 1 to 255 and a screen after the others; and only such a one is refused, for the
  -- local screen's name or when all those ids are in use.
  pub admit_client-Answers : Answers s name info (admit_client s name info)
  unfolding admit_client
  admit_client-Answers = admit_new-Answers _ refl
