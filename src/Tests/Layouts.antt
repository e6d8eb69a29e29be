-- ===== src/Tests/Layouts.antt =====
-- A layout of two screens.
use kvmshare.Prelude.{[], arith, map, none, refl, some, true, ◌↔◌, ◌∷◌, ◌≡◌, ◌⊎◌}
use kvmshare.Layout.{Layout, exit_direction, find, issues, issues_of, overlap_issues}
use kvmshare.Layout.Crossing.{Enters, IsDeadEdge, exit_direction_iff, neighbor-Enters}
use kvmshare.Layout.Disjoint.{IsUnambiguous, issues-IsUnambiguous}
use kvmshare.Layout.Distance.{IsDesk}
use kvmshare.Layout.Edges.{Direction}
use kvmshare.Layout.Normalize.{normalized}
use kvmshare.Layout.Ray.{Entry, neighbor}
use kvmshare.Layout.Shape.{normalized-shapes, shape}
use kvmshare.Prelude.I32.{of_bits, to_bits}
use kvmshare.Prelude.Int.{pos, ◌+ℤ◌}
use kvmshare.Prelude.Run.{done}
use kvmshare.Protocol.Geometry.{Screen, contains}
use kvmshare.Prelude.I32

abbrev home : Screen
home = record {
  id = 0;
  name = b'h' ∷ [];
  rect = record { x = pos 0; y = pos 0; w = pos 1920; h = pos 1080 };
}

abbrev beside : Screen
beside = record {
  id = 1;
  name = b'b' ∷ [];
  rect = record { x = pos 1920; y = pos 100; w = pos 1280; h = pos 800 };
}

abbrev desk : Layout
desk = record { screens = home ∷ beside ∷ [] }

home-IsDesk : IsDesk home.rect
unfolding ◌+ℤ◌
home-IsDesk = record {
  wide = omega arith;
  tall = omega arith;
  left_near = (omega arith, omega arith);
  right_near = (omega arith, omega arith);
  top_near = (omega arith, omega arith);
  bottom_near = (omega arith, omega arith);
}

beside-IsDesk : IsDesk beside.rect
unfolding ◌+ℤ◌
beside-IsDesk = record {
  wide = omega arith;
  tall = omega arith;
  left_near = (omega arith, omega arith);
  right_near = (omega arith, omega arith);
  top_near = (omega arith, omega arith);
  bottom_near = (omega arith, omega arith);
}

neighbor-Enters_example :
    ((neighbor desk 0 Direction.right (pos 1919) (pos 50) ≡ done none)
      × IsDeadEdge Direction.right home desk.screens)
    ⊎ ((e : Entry) × (neighbor desk 0 Direction.right (pos 1919) (pos 50) ≡ done (some e))
        × Enters Direction.right (pos 50) home desk.screens e)
neighbor-Enters_example =
    neighbor-Enters desk home Direction.right (pos 1919) (pos 50) refl
      (home-IsDesk, (beside-IsDesk, tt)) (omega arith, omega arith)

found : find desk 0 ≡ some home
unfolding find
found = refl

exit_direction_iff_example :
    (exit_direction desk 0 (pos 1920) (pos 50) ≡ none)
    ↔ (contains home.rect (pos 1920) (pos 50) ≡ true)
exit_direction_iff_example = exit_direction_iff desk 0 home (pos 1920) (pos 50) found

normalized-shapes_example : map shape (normalized desk).screens ≡ map shape desk.screens
normalized-shapes_example = normalized-shapes desk

no_issue : issues desk ≡ []
unfolding issues issues_of overlap_issues I32.add I32.wrap to_bits of_bits ◌+ℤ◌
no_issue = refl

issues-IsUnambiguous_example : IsUnambiguous desk.screens
issues-IsUnambiguous_example = issues-IsUnambiguous desk no_issue
