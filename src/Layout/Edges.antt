-- ===== src/Layout/Edges.antt =====
-- The screen edges of layout.rs.

-- "Top" means moving up, to a smaller `y`.
pub data Direction : Type 0 where
  left right top bottom : Direction
