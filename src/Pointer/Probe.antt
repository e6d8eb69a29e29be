-- ===== src/Pointer/Probe.antt =====
-- crates/core/src/motion/probe.rs: requested and actual motion over fixed windows. The i64 sums of
-- i32 counts are integers.
use kvmshare.Prelude.{Bool, Option, false, if◌then◌else◌, leb, none, not, some, true, ℕ, ◌&&◌}
use kvmshare.Prelude.Clock.{elapsed, millis}
use kvmshare.Prelude.Int.{eqb_ℤ, pos, ℤ, ◌+ℤ◌}
use kvmshare.Prelude.I32

-- `MotionProbe`, with the window of its default.
pub record Probe : Type 0 where
  pub window_start : ℕ
  pub opened : Bool
  pub anchor : ℤ × ℤ
  pub expected : ℤ × ℤ
  pub req_win : ℤ × ℤ
  pub real_win : ℤ × ℤ

abbrev pub probe_interval : ℕ
probe_interval = millis 100

abbrev origin : ℤ × ℤ
origin = (pos 0, pos 0)

unfoldable pub new_probe : ℕ → Probe
new_probe now = record {
  window_start = now;
  opened = false;
  anchor = origin;
  expected = origin;
  req_win = origin;
  real_win = origin;
}

unfoldable pub open_probe : ℕ → Probe → ℤ × ℤ → Probe
open_probe now p real = record {
  window_start = now;
  opened = true;
  anchor = real;
  expected = origin;
  req_win = origin;
  real_win = real;
}

unfoldable pub close_probe : Probe → Probe
close_probe p = record p { opened = false }

unfoldable pub requested : Probe → ℤ → ℤ → Probe
requested p dx dy = record p {
  expected = (p.expected.0 +ℤ dx, p.expected.1 +ℤ dy);
  req_win = (p.req_win.0 +ℤ dx, p.req_win.1 +ℤ dy);
}

unfoldable pub is_due : ℕ → Probe → Bool
is_due now p = leb probe_interval (elapsed now p.window_start)

-- What a window shows: the counts requested, the travel, the expected and the real position.
pub record Sample : Type 0 where
  pub req : ℤ × ℤ
  pub act : ℤ × ℤ
  pub exp : ℤ × ℤ
  pub at : ℤ × ℤ

unfoldable pub sample : ℕ → Probe → ℤ × ℤ → Probe × Option Sample
sample now p real =
    let act : ℤ × ℤ = (I32.sub real.0 p.real_win.0, I32.sub real.1 p.real_win.1) in
    let still =
      eqb_ℤ p.req_win.0 (pos 0)
      && eqb_ℤ p.req_win.1 (pos 0)
      && eqb_ℤ act.0 (pos 0)
      && eqb_ℤ act.1 (pos 0) in
    if not p.opened
    then (
      record p {
        opened = true;
        anchor = real;
        real_win = real;
        req_win = origin;
        window_start = now;
      },
      none,
    )
    else if not (is_due now p)
    then (p, none)
    else (
      record p { window_start = now; real_win = real; req_win = origin },
      if still
          then none
          else some (record { req = p.req_win; act = act; exp = p.expected; at = real }),
    )
