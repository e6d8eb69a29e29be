-- ===== src/Prelude/Clock.antt =====
-- `Instant` and `Duration`: nanoseconds on a clock that does not go back.
use Prim.Native.Nat.{ℕ, ◌*◌, ◌-◌, ◌/◌}

-- `Duration::from_millis`.
abbrev pub millis : ℕ → ℕ
millis n = n * 1000000

-- `at.elapsed()` at the time `now`, and `now.duration_since(at)`; both saturate at 0.
abbrev pub elapsed : ℕ → ℕ → ℕ
elapsed now at = now - at

-- `time::now_ms` at the time `now`, on a clock that began with the process.
abbrev pub now_ms : ℕ → ℕ
now_ms now = now / 1000000
