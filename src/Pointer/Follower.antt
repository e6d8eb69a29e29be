-- ===== src/Pointer/Follower.antt =====
-- crates/core/src/motion/follower.rs: the command that the client's cursor follows.
use kvmshare.Prelude.{Bool, Option, false, if◌then◌else◌, none, not, some, true, ℕ, ◌&&◌, ◌-◌}
use kvmshare.Prelude.Int.{eqb_ℤ, pos, ℤ, ◌-ℤ◌}
use kvmshare.Session.Clients.{side}
use kvmshare.Session.State.{Floats}

-- `PositionFollower`.
pub record Follower (F : Type 0) : Type 0 where
  pub tx : F
  pub ty : F
  pub on : Bool
  pub fx : F
  pub fy : F
  pub bounds : Option (ℕ × ℕ)

-- `FOLLOW_MAX_STEP`, `FOLLOW_FLUSH_CAP`.
abbrev pub follow_max_step : ℕ
follow_max_step = 32

abbrev pub follow_flush_cap : ℕ
follow_flush_cap = 64

module _ (fl : Floats) where
  unfoldable pub new_follower : Follower fl.F
  new_follower = record {
    tx = fl.zero_point;
    ty = fl.zero_point;
    on = false;
    fx = fl.zero_point;
    fy = fl.zero_point;
    bounds = none;
  }

  -- `(side as i64 - 1).max(0) as f64`.
  abbrev pub last_place : ℕ → fl.F
  last_place side = fl.of_int (pos (side - 1))

  abbrev pub clamp_into : Follower fl.F → Option (ℕ × ℕ) → Follower fl.F
  clamp_into f none = f
  clamp_into f (some (w, h)) = record f {
    tx = fl.clamp_to f.tx fl.zero_point (last_place w);
    ty = fl.clamp_to f.ty fl.zero_point (last_place h);
  }

  unfoldable pub clamp_command : Follower fl.F → Follower fl.F
  clamp_command f = clamp_into f f.bounds

  unfoldable pub set_bounds : Follower fl.F → ℕ → ℕ → Follower fl.F
  set_bounds f w h = clamp_command (record f { bounds = some (w, h) })

  unfoldable pub follow_from : Follower fl.F → ℤ → ℤ → Follower fl.F
  follow_from f x y = clamp_command (record f {
    tx = fl.of_i32 x;
    ty = fl.of_i32 y;
    on = true;
    fx = fl.zero_point;
    fy = fl.zero_point;
  })

  unfoldable pub stop_following : Follower fl.F → Follower fl.F
  stop_following f = record f { on = false; fx = fl.zero_point; fy = fl.zero_point }

  unfoldable pub advance : Follower fl.F → ℤ → ℤ → Follower fl.F
  advance f dx dy =
      clamp_command
        (record f { tx = fl.plus f.tx (fl.of_i32 dx); ty = fl.plus f.ty (fl.of_i32 dy) })

  unfoldable pub reanchor : Follower fl.F → ℤ → ℤ → Follower fl.F
  reanchor f x y =
      clamp_command
        (record f { tx = fl.of_i32 x; ty = fl.of_i32 y; fx = fl.zero_point; fy = fl.zero_point })

  -- The whole pixels of the carry are injected, and the rest is kept.
  abbrev pub is_zero_step : ℤ × ℤ → Bool
  is_zero_step p = eqb_ℤ p.0 (pos 0) && eqb_ℤ p.1 (pos 0)

  abbrev pub carry_out : Follower fl.F → Follower fl.F × Option (ℤ × ℤ)
  carry_out f =
      let step : ℤ × ℤ = (fl.trunc f.fx, fl.trunc f.fy) in
      if is_zero_step step then (f, none) else (
        record f { fx = fl.minus f.fx (fl.of_i32 step.0); fy = fl.minus f.fy (fl.of_i32 step.1) },
        some step,
      )

  -- One received frame: the step to inject is (0, 0) where the carry has no whole pixel.
  unfoldable pub feed_forward : Follower fl.F → ℤ → ℤ → Follower fl.F × Option (ℤ × ℤ)
  feed_forward f dx dy =
      let g = advance f dx dy in
      carry_out (record g {
        fx = fl.plus g.fx (fl.times (fl.of_i32 dx) fl.half);
        fy = fl.plus g.fy (fl.times (fl.of_i32 dy) fl.half);
      })

  unfoldable pub command : Follower fl.F → ℤ × ℤ
  command f = (fl.round f.tx, fl.round f.ty)

  abbrev pub is_zero : fl.F → Bool
  is_zero a = fl.at_most a fl.zero_point && fl.at_most fl.zero_point a

  abbrev pub capped : fl.F → ℕ → fl.F
  capped a cap = fl.clamp_to a (fl.of_int (pos 0 -ℤ pos cap)) (fl.of_int (pos cap))

  unfoldable pub correct : Follower fl.F → ℤ × ℤ → Follower fl.F × Option (ℤ × ℤ)
  correct f real =
      let ex = capped (fl.times (fl.minus f.tx (fl.of_i32 real.0)) fl.two_fifths) follow_max_step in
      let ey = capped (fl.times (fl.minus f.ty (fl.of_i32 real.1)) fl.two_fifths) follow_max_step in
      if not f.on
      then (f, none)
      else if is_zero ex && is_zero ey
      then (f, none)
      else carry_out (record f { fx = fl.plus f.fx ex; fy = fl.plus f.fy ey })

  unfoldable pub flush : Follower fl.F → ℤ × ℤ → Follower fl.F × Option (ℤ × ℤ)
  flush f real =
      let ex = capped (fl.minus f.tx (fl.of_i32 real.0)) follow_flush_cap in
      let ey = capped (fl.minus f.ty (fl.of_i32 real.1)) follow_flush_cap in
      if not f.on then (f, none) else (
        record f { fx = fl.zero_point; fy = fl.zero_point },
        if is_zero ex && is_zero ey then none else some (fl.round ex, fl.round ey),
      )

  -- `as i32` truncates.
  unfoldable pub residual : Follower fl.F → ℤ × ℤ → ℤ × ℤ
  residual f real =
      (fl.trunc (fl.minus f.tx (fl.of_i32 real.0)), fl.trunc (fl.minus f.ty (fl.of_i32 real.1)))
