-- ===== src/Session/Boundary.antt =====
-- crates/core/src/session/boundary.rs: walls, pushes and their windows.
use kvmshare.Prelude.{
  Bool, List, Option, [], false, if◌then◌else◌, leb, ltb, none, not, some, true, ℕ, ◌&&◌, ◌||◌, ◌∷◌,
}
use kvmshare.Layout.Edges.{Direction}
use kvmshare.Prelude.Clock.{elapsed, millis}
use kvmshare.Prelude.Int.{leb_ℤ, ltb_ℤ, pos, ℤ}
use kvmshare.Protocol.Geometry.{Rect}
use kvmshare.Prelude.I32

abbrev pub edge_band : ℤ
edge_band = pos 2

abbrev pub edge_push_fresh : ℕ
edge_push_fresh = millis 40

abbrev pub edge_push_fallback : ℕ
edge_push_fallback = millis 150

abbrev pub entry_inset : ℤ
entry_inset = pos 24

abbrev pub remote_beacon_fresh : ℕ
remote_beacon_fresh = millis 120

-- The wall mask, with a field for each of its four bits.
pub record Walls : Type 0 where
  pub on_left : Bool
  pub on_right : Bool
  pub on_top : Bool
  pub on_bottom : Bool

abbrev pub no_walls : Walls
no_walls = record { on_left = false; on_right = false; on_top = false; on_bottom = false }

-- `mask & bit(dir) != 0`.
unfoldable pub at_bit : Direction → Walls → Bool
at_bit Direction.left w = w.on_left
at_bit Direction.right w = w.on_right
at_bit Direction.top w = w.on_top
at_bit Direction.bottom w = w.on_bottom

-- `mask &= !bit(dir)`.
unfoldable pub clear_bit : Direction → Walls → Walls
clear_bit Direction.left w = record w { on_left = false }
clear_bit Direction.right w = record w { on_right = false }
clear_bit Direction.top w = record w { on_top = false }
clear_bit Direction.bottom w = record w { on_bottom = false }

-- `bits & !mask`, and `bits == 0`.
unfoldable pub newly : Walls → Walls → Walls
newly bits mask = record {
  on_left = bits.on_left && not mask.on_left;
  on_right = bits.on_right && not mask.on_right;
  on_top = bits.on_top && not mask.on_top;
  on_bottom = bits.on_bottom && not mask.on_bottom;
}

unfoldable pub is_clear : Walls → Bool
is_clear w = not (w.on_left || w.on_right || w.on_top || w.on_bottom)

-- `DIRS`.
abbrev pub dirs : List Direction
dirs = Direction.left ∷ Direction.right ∷ Direction.top ∷ Direction.bottom ∷ []

abbrev pub same_dir : Direction → Direction → Bool
same_dir Direction.left Direction.left = true
same_dir Direction.right Direction.right = true
same_dir Direction.top Direction.top = true
same_dir Direction.bottom Direction.bottom = true
same_dir _ _ = false

unfoldable pub pushes_outward : Direction → ℤ → ℤ → Bool
pushes_outward Direction.left dx dy = ltb_ℤ dx (pos 0)
pushes_outward Direction.right dx dy = ltb_ℤ (pos 0) dx
pushes_outward Direction.top dx dy = ltb_ℤ dy (pos 0)
pushes_outward Direction.bottom dx dy = ltb_ℤ (pos 0) dy

unfoldable pub pulls_inward : Direction → ℤ → ℤ → Bool
pulls_inward Direction.left dx dy = ltb_ℤ (pos 0) dx
pulls_inward Direction.right dx dy = ltb_ℤ dx (pos 0)
pulls_inward Direction.top dx dy = ltb_ℤ (pos 0) dy
pulls_inward Direction.bottom dx dy = ltb_ℤ dy (pos 0)

-- Screens no wider than two bands arm nothing.
unfoldable pub wall_bits : Rect → ℤ → ℤ → Walls
wall_bits r x y =
    let wide = ltb_ℤ (pos 4) r.w in
    let tall = ltb_ℤ (pos 4) r.h in
    record {
      on_left = wide && ltb_ℤ x edge_band;
      on_right = wide && leb_ℤ (I32.sub r.w edge_band) x;
      on_top = tall && ltb_ℤ y edge_band;
      on_bottom = tall && leb_ℤ (I32.sub r.h edge_band) y;
    }

pub record Push : Type 0 where
  pub dir : Direction
  pub at : ℕ

pub record Pushing : Type 0 where
  pub dir : Direction
  pub since : ℕ

-- `last_out.is_some_and(|p| p.dir == dir && p.at.elapsed() < EDGE_PUSH_FRESH)`.
unfoldable pub is_fresh_push : ℕ → Direction → Option Push → Bool
is_fresh_push now dir none = false
is_fresh_push now dir (some p) = same_dir p.dir dir && ltb (elapsed now p.at) edge_push_fresh

-- `pushing.is_some_and(|p| p.dir == dir && p.since.elapsed() >= EDGE_PUSH_FALLBACK)`.
unfoldable pub is_sustained : ℕ → Direction → Option Pushing → Bool
is_sustained now dir none = false
is_sustained now dir (some p) = same_dir p.dir dir && leb edge_push_fallback (elapsed now p.since)

-- A push that goes on in its direction keeps its start.
unfoldable pub keep_pushing : ℕ → Direction → Option Pushing → Option Pushing
keep_pushing now dir none = some (record { dir = dir; since = now })
keep_pushing now dir (some p) =
    if same_dir p.dir dir then some p else some (record { dir = dir; since = now })

-- `remote_beacon_at.is_some_and(|t| now.duration_since(t) < REMOTE_BEACON_FRESH)`.
unfoldable pub is_fresh_beacon : ℕ → Option ℕ → Bool
is_fresh_beacon now none = false
is_fresh_beacon now (some t) = ltb (elapsed now t) remote_beacon_fresh
