-- ===== src/Pointer/Pending.antt =====
-- crates/core/src/motion/pending.rs: raw deltas merged between sends.
use kvmshare.Prelude.{Option, if◌then◌else◌, none, some, ◌&&◌}
use kvmshare.Prelude.Int.{eqb_ℤ, pos, ℤ}
use kvmshare.Session.State.{Floats}

pub record PendingMotion (F : Type 0) : Type 0 where
  pub fx : F
  pub fy : F

module _ (fl : Floats) where
  unfoldable pub push : PendingMotion fl.F → fl.F → fl.F → PendingMotion fl.F
  push p dx dy = record p { fx = fl.plus p.fx dx; fy = fl.plus p.fy dy }

  unfoldable pub take_whole : PendingMotion fl.F → PendingMotion fl.F × Option (ℤ × ℤ)
  take_whole p =
      let ix = fl.trunc p.fx in
      let iy = fl.trunc p.fy in
      if eqb_ℤ ix (pos 0) && eqb_ℤ iy (pos 0) then (p, none) else (
        record p { fx = fl.minus p.fx (fl.of_i32 ix); fy = fl.minus p.fy (fl.of_i32 iy) },
        some (ix, iy),
      )
