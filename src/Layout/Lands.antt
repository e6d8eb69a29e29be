-- ===== src/Layout/Lands.antt =====
-- Where a ray lands, for a screen id that the layout may not have.
use kvmshare.Prelude.{
  ==_iff, In, Option, Option-cases, ap, arith, false, find_by-In, find_by-none, inl, inr, none,
  some, subst, sym, true, ℕ, ◌==◌, ◌≡◌, ◌⊎◌,
}
use kvmshare.Layout.{Layout, find, find_id}
use kvmshare.Layout.Crossing.{Chooses, neighbor-Chooses}
use kvmshare.Layout.Edges.{Direction}
use kvmshare.Layout.Ray.{Entry, is_candidate, neighbor, neighbor_of}
use kvmshare.Prelude.Int.{ℤ}
use kvmshare.Prelude.Run.{Ensures, done}
use kvmshare.Protocol.Geometry.{Screen}

pub find-In :
    (l : Layout) (s : Screen) (id : ℕ)
    → In s l.screens
    → id ≡ s.id
    → (t : Screen) × (find l id ≡ some t)
unfolding find
find-In l s id i e = elim (Option-cases (find_id id l.screens)) [
  | inl miss ↦
      absurd (let h : (s.id == id) ≡ false = find_by-none _ l.screens s miss i in ground arith)
  | inr (t, hit) ↦ (t, hit)
]

-- A ray that reaches a screen reaches another one than it left, and one that the layout has.
pub record Lands (l : Layout) (id : ℕ) (e : Entry) : Type 0 where
  pub elsewhere : (e.id == id) ≡ false
  pub screen : Screen
  pub found : find l e.id ≡ some screen

candidate_elsewhere :
    (dir : Direction) (from s : Screen) → is_candidate dir from s ≡ true → (s.id == from.id) ≡ false
unfolding is_candidate
candidate_elsewhere dir from s h = ground arith

lands :
    (l : Layout) (id : ℕ) (dir : Direction) (p : ℤ) (from : Screen) (e : Entry)
    → from.id ≡ id
    → Chooses dir p from l.screens e
    → Lands l id e
lands l id dir p from e q h =
    let (t, f) = find-In l h.screen e.id h.listed h.same_id in
    let other = candidate_elsewhere dir from h.screen h.beyond in
    record {
      elsewhere =
          subst (λ n. (n == id) ≡ false) (sym h.same_id)
            (subst (λ n. (h.screen.id == n) ≡ false) q other);
      screen = t;
      found = f;
    }

neighbor_missing :
    (l : Layout) (id : ℕ) (dir : Direction) (x y : ℤ)
    → find_id id l.screens ≡ none
    → neighbor l id dir x y ≡ done none
unfolding neighbor
neighbor_missing l id dir x y e = ap (λ o. neighbor_of dir x y l.screens o) e

-- Looking for a neighbour never panics.
pub neighbor-Lands :
    (l : Layout) (id : ℕ) (dir : Direction) (x y : ℤ)
    → (neighbor l id dir x y ≡ done none)
      ⊎ ((e : Entry) × (neighbor l id dir x y ≡ done (some e)) × Lands l id e)
neighbor-Lands l id dir x y = elim (Option-cases (find_id id l.screens)) [
  | inl miss ↦ inl (neighbor_missing l id dir x y miss)
  | inr (from, hit) ↦
      let same : from.id ≡ id = (==_iff from.id id).0 (find_by-In _ l.screens hit).0 in
      let hit' : find_id from.id l.screens ≡ some from =
        subst (λ n. find_id n l.screens ≡ some from) (sym same) hit in
      elim (neighbor-Chooses l from dir x y hit') [
        | inl (e, dead) ↦ inl (subst (λ n. neighbor l n dir x y ≡ done none) same e)
        | inr (e, q, h) ↦ inr (
          e,
          subst (λ n. neighbor l n dir x y ≡ done (some e)) same q,
          lands l id dir _ from e same h,
        )
      ]
]

-- The end of a ray.
abbrev pub MayLand : Layout → ℕ → Option Entry → Type 0
MayLand l id none = Unit {0}
MayLand l id (some e) = Lands l id e

pub neighbor-MayLand :
    (l : Layout) (id : ℕ) (d : Direction) (x y : ℤ) → Ensures (MayLand l id) (neighbor l id d x y)
neighbor-MayLand l id d x y = elim (neighbor-Lands l id d x y) [
  | inl e ↦ subst (Ensures (MayLand l id)) (sym e) tt
  | inr (b, e, h) ↦ subst (Ensures (MayLand l id)) (sym e) h
]
