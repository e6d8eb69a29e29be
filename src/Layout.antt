-- ===== src/Layout.antt =====
-- crates/core/src/layout.rs: the virtual desktop.
use kvmshare.Prelude.{
  Bool, List, Option, [], find_by, if◌then◌else◌, none, some, ℕ, ◌&&◌, ◌++◌, ◌==◌, ◌||◌, ◌∷◌,
}
use kvmshare.Layout.Edges.{Direction}
use kvmshare.Prelude.Int.{leb_ℤ, ltb_ℤ, pos, ℤ}
use kvmshare.Protocol.Geometry.{Rect, Screen, bottom, contains, from_id, left, right, top}
use kvmshare.Prelude.I32
pub mod Edges
pub mod Normalize
pub mod Ray
pub mod Candidate
pub mod Crossing
pub mod Lands
pub mod Shape
pub mod Disjoint
pub mod Distance

pub record Layout : Type 0 where
  pub screens : List Screen

-- `EDGE_TOLERANCE`.
abbrev pub edge_tolerance : ℤ
edge_tolerance = pos 16

unfoldable pub near : ℤ → ℤ → ℤ → Bool
near edge_a edge_b tol = leb_ℤ (I32.abs (I32.sub edge_a edge_b)) tol

unfoldable pub spans_overlap : ℤ → ℤ → ℤ → ℤ → ℤ → Bool
spans_overlap a_lo a_hi b_lo b_hi tol =
    ltb_ℤ (I32.sub a_lo tol) b_hi && ltb_ℤ (I32.sub b_lo tol) a_hi

abbrev pub find_id : ℕ → List Screen → Option Screen
find_id id = find_by λ s. s.id == id

unfoldable pub find : Layout → ℕ → Option Screen
find l id = find_id id l.screens

unfoldable pub screen_at : Layout → ℤ → ℤ → Option Screen
unfolding contains
screen_at l x y = find_by (λ s. contains s.rect x y) l.screens

abbrev pub exit_side : Rect → ℤ → ℤ → Option Direction
exit_side r x y =
    if ltb_ℤ x (left r)
    then some Direction.left
    else if leb_ℤ (right r) x
    then some Direction.right
    else if ltb_ℤ y (top r)
    then some Direction.top
    else if leb_ℤ (bottom r) y
    then some Direction.bottom
    else none

abbrev pub exit_of : Option Screen → ℤ → ℤ → Option Direction
exit_of none x y = none
exit_of (some s) x y = exit_side s.rect x y

unfoldable pub exit_direction : Layout → ℕ → ℤ → ℤ → Option Direction
unfolding find
exit_direction l from_id x y = exit_of (find l from_id) x y

-- The warnings of `issues`, before they are put into words: the names of the screens.
pub data Issue : Type 0 where
  no_size : List ℕ → Issue
  overlap : List ℕ → List ℕ → Issue

abbrev pub overlaps : Rect → Rect → Bool
overlaps a b =
    (ltb_ℤ (left a) (right b) && ltb_ℤ (left b) (right a))
    && (ltb_ℤ (top a) (bottom b) && ltb_ℤ (top b) (bottom a))

-- The inner loop of `issues`: the screens behind `a`.
unfoldable pub overlap_issues : Screen → List Screen → List Issue
overlap_issues a [] = []
overlap_issues a (b ∷ bs) =
    if overlaps a.rect b.rect
    then Issue.overlap a.name b.name ∷ overlap_issues a bs
    else overlap_issues a bs

abbrev pub has_no_size : Rect → Bool
has_no_size r = leb_ℤ r.w (pos 0) || leb_ℤ r.h (pos 0)

unfoldable pub issues_of : List Screen → List Issue
unfolding overlap_issues
issues_of [] = []
issues_of (a ∷ ss) =
    (if has_no_size a.rect then Issue.no_size a.name ∷ [] else overlap_issues a ss) ++ issues_of ss

unfoldable pub issues : Layout → List Issue
unfolding issues_of
issues l = issues_of l.screens
