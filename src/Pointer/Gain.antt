-- ===== src/Pointer/Gain.antt =====
-- crates/core/src/motion/gain.rs: pixels per device count, measured from the capture stream. A sum
-- of i64 counts is an integer.
use kvmshare.Prelude.{Option, if◌then◌else◌, leb, none, some, suc, ℕ, ◌&&◌, ◌+◌}
use kvmshare.Prelude.Int.{negsuc, pos, ℤ, ◌+ℤ◌}
use kvmshare.Session.State.{Floats}
use kvmshare.Prelude.I32

pub record GainTracker (F : Type 0) : Type 0 where
  pub last : Option (ℤ × ℤ)
  pub rel : ℤ × ℤ
  pub gain : F
  pub samples : ℕ

abbrev pub gain_warmup : ℕ
gain_warmup = 6

unfoldable pub new_tracker : (fl : Floats) → GainTracker fl.F
new_tracker fl = record { last = none; rel = (pos 0, pos 0); gain = fl.one_point; samples = 0 }

unfoldable pub on_delta : {F : Type 0} → GainTracker F → ℤ → ℤ → GainTracker F
on_delta g dx dy = record g { rel = (g.rel.0 +ℤ dx, g.rel.1 +ℤ dy) }

-- `i64::abs`.
abbrev pub abs_ℤ : ℤ → ℤ
abs_ℤ (pos n) = pos n
abs_ℤ (negsuc n) = pos (suc n)

-- `1.0 / samples` in the warm-up, and 0.25 after it.
unfoldable pub gain_alpha : (fl : Floats) → ℕ → fl.F
gain_alpha fl samples =
    if leb samples gain_warmup then fl.over fl.one_point (fl.of_int (pos samples)) else fl.quarter

-- A window with the counts `rel` and the travel `real` moves the estimate, unless it is idle or a
-- jump.
unfoldable pub close_window : (fl : Floats) → GainTracker fl.F → fl.F → fl.F → GainTracker fl.F
close_window fl g rel real =
    if fl.at_most (fl.of_i32 (pos 12)) rel
      && fl.at_most (fl.of_i32 (pos 4)) real
      && fl.at_most real (fl.times (fl.of_i32 (pos 4)) rel)
    then (let window = fl.clamp_to (fl.over real rel) fl.quarter fl.three in
        record g {
          samples = g.samples + 1;
          gain = fl.plus g.gain (fl.times (gain_alpha fl (g.samples + 1)) (fl.minus window g.gain));
        })
    else g

abbrev pub since_last : (fl : Floats) → GainTracker fl.F → ℤ → ℤ → Option (ℤ × ℤ) → GainTracker fl.F
since_last fl g x y none = g
since_last fl g x y (some (px, py)) =
    close_window fl g (fl.of_int (abs_ℤ g.rel.0 +ℤ abs_ℤ g.rel.1))
      (fl.of_i32 (I32.add (I32.abs (I32.sub x px)) (I32.abs (I32.sub y py))))

unfoldable pub on_beacon : (fl : Floats) → GainTracker fl.F → ℤ → ℤ → GainTracker fl.F
on_beacon fl g x y = record (since_last fl g x y g.last) {
  last = some (x, y);
  rel = (pos 0, pos 0);
}
