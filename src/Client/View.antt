-- ===== src/Client/View.antt =====
-- crates/core/src/client: what shows who has control, and the work that leaves it alone.
-- The last of the injector's `enter` and `leave`.
use kvmshare.Prelude.{
  Bool, List, Option, [], ap, false, if_keeps, length, ltb, map, none, not, refl, some, sym, true,
  ℕ, ◌&&◌, ◌++◌, ◌∙◌, ◌∷◌, ◌≡◌,
}
use kvmshare.Actions.Safety.{step}
use kvmshare.Client.Dispatch.{apply_motion_frame, count_frame, or_still, steer}
use kvmshare.Client.Shared.{
  InjectEvent, InjectorCall, MotionState, Station, call, enqueue_event, event_queue_cap,
}
use kvmshare.Pointer.Follower.{
  Follower, advance, carry_out, clamp_command, clamp_into, correct, feed_forward, is_zero,
  is_zero_step,
}
use kvmshare.Prelude.Int.{ℤ}
use kvmshare.Session.State.{Floats}

abbrev pub entered : Bool → List InjectorCall → Bool
entered b [] = b
entered b (InjectorCall.enter ∷ cs) = entered true cs
entered b (InjectorCall.leave ∷ cs) = entered false cs
entered b (InjectorCall.move_cursor x y ∷ cs) = entered b cs
entered b (InjectorCall.move_rel x y ∷ cs) = entered b cs
entered b (InjectorCall.inject e ∷ cs) = entered b cs
entered b (InjectorCall.emergency_release ∷ cs) = entered b cs

pub entered-append :
    (b : Bool) (cs ds : List InjectorCall) → entered b (cs ++ ds) ≡ entered (entered b cs) ds
entered-append b [] ds = refl
entered-append b (InjectorCall.enter ∷ cs) ds = entered-append true cs ds
entered-append b (InjectorCall.leave ∷ cs) ds = entered-append false cs ds
entered-append b (InjectorCall.move_cursor x y ∷ cs) ds = entered-append b cs ds
entered-append b (InjectorCall.move_rel x y ∷ cs) ds = entered-append b cs ds
entered-append b (InjectorCall.inject e ∷ cs) ds = entered-append b cs ds
entered-append b (InjectorCall.emergency_release ∷ cs) ds = entered-append b cs ds

pub entered-inject :
    (b : Bool) (es : List InjectEvent) → entered b (map (λ e. InjectorCall.inject e) es) ≡ b
entered-inject b [] = refl
entered-inject b (e ∷ es) = entered-inject b es

-- What the observer was told last.
abbrev pub latest : Bool → List Bool → Bool
latest b [] = b
latest b (c ∷ cs) = latest c cs

pub latest-append : (b : Bool) (cs : List Bool) (c : Bool) → latest b (cs ++ c ∷ []) ≡ c
latest-append b [] c = refl
latest-append b (d ∷ cs) c = latest-append d cs c

-- The flag, the follower, the injector and the observer agree on who has control.
pub record IsInStep {F : Type 0} (w : Station F) : Type 0 where
  pub follows : w.motion.follower.on ≡ w.active
  pub isolates : entered false w.calls ≡ w.active
  pub observed : latest false w.controls ≡ w.active

-- What most of the work leaves alone.
abbrev pub view : {F : Type 0} → Station F → Bool × Bool × Bool × List Bool
view w = (w.active, w.motion.follower.on, entered false w.calls, w.controls)

pub same_view : {F : Type 0} (w v : Station F) → view v ≡ view w → IsInStep w → IsInStep v
same_view w v e h = record {
  follows = ap (λ k. k.1) e ∙ h.follows ∙ ap (λ k. k.0) (sym e);
  isolates = ap (λ k. k.2) e ∙ h.isolates ∙ ap (λ k. k.0) (sym e);
  observed = ap (λ k. latest false k.3) e ∙ h.observed ∙ ap (λ k. k.0) (sym e);
}

module _ (fl : Floats) where
  pub clamped-on : (f : Follower fl.F) → (clamp_command fl f).on ≡ f.on
  unfolding clamp_command
  clamped-on f = clamped f.bounds
    where
      clamped : (o : Option (ℕ × ℕ)) → (clamp_into fl f o).on ≡ f.on
      clamped none = refl
      clamped (some b) = refl

  pub carried-on : (f : Follower fl.F) → (carry_out fl f).0.on ≡ f.on
  carried-on f =
      if_keeps (λ (p : Follower fl.F × Option (ℤ × ℤ)). p.0.on ≡ f.on)
        (is_zero_step fl (fl.trunc f.fx, fl.trunc f.fy)) _ _ refl refl

  pub feed_forward-on : (f : Follower fl.F) (dx dy : ℤ) → (feed_forward fl f dx dy).0.on ≡ f.on
  unfolding feed_forward advance
  feed_forward-on f dx dy = carried-on _ ∙ clamped-on _

  pub correct-on : (f : Follower fl.F) (real : ℤ × ℤ) → (correct fl f real).0.on ≡ f.on
  unfolding correct
  correct-on f real =
      let Q : Follower fl.F × Option (ℤ × ℤ) → Type 0 = λ p. p.0.on ≡ f.on in
      if_keeps Q (not f.on) _ _ refl
        (if_keeps Q (is_zero fl _ && is_zero fl _) _ _ refl (carried-on _))

  -- Calls that neither enter nor leave.
  pub called-view :
      (w : Station fl.F) (cs : List InjectorCall)
      → ((b : Bool) → entered b cs ≡ b)
      → view (call w cs) ≡ view w
  called-view w cs k =
      ap (λ b. (w.active, w.motion.follower.on, b, w.controls))
        (entered-append false w.calls cs ∙ k _)

  pub on-view :
      (w : Station fl.F) (m : MotionState fl.F)
      → m.follower.on ≡ w.motion.follower.on
      → view (record w { motion = m }) ≡ view w
  on-view w m e = ap (λ b. (w.active, b, entered false w.calls, w.controls)) e

  pub followed-view :
      (w : Station fl.F) (f : Follower fl.F)
      → f.on ≡ w.motion.follower.on
      → view (record w { motion = record (w.motion) { follower = f } }) ≡ view w
  followed-view w f e = on-view w (record (w.motion) { follower = f }) e

  pub stepped-view :
      (w : Station fl.F) (f : Follower fl.F) (cs : List InjectorCall)
      → f.on ≡ w.motion.follower.on
      → ((b : Bool) → entered b cs ≡ b)
      → view (call (record w { motion = record (w.motion) { follower = f } }) cs) ≡ view w
  stepped-view w f cs e k =
      called-view (record w { motion = record (w.motion) { follower = f } }) cs k
      ∙ followed-view w f e

  pub steer-view :
      (w : Station fl.F) (dx dy : ℤ) (absolute : Bool) → view (steer fl w dx dy absolute) ≡ view w
  unfolding advance
  steer-view w dx dy true = followed-view w (advance fl w.motion.follower dx dy) (clamped-on _)
  steer-view w dx dy false =
      let (f, step) = feed_forward fl w.motion.follower dx dy in
      stepped-view w f (InjectorCall.move_rel (or_still fl step).0 (or_still fl step).1 ∷ [])
        (feed_forward-on w.motion.follower dx dy) (λ b. refl)

  pub apply_motion_frame-view :
      (absolute : Bool) (w : Station fl.F) (dx dy : ℤ)
      → view (apply_motion_frame fl absolute w dx dy) ≡ view w
  unfolding apply_motion_frame
  apply_motion_frame-view absolute w dx dy =
      steer-view (record w { motion = count_frame fl w.motion dx dy }) dx dy absolute

  pub enqueue_event-view : (w : Station fl.F) (e : InjectEvent) → view (enqueue_event w e) ≡ view w
  unfolding enqueue_event
  enqueue_event-view w e =
      if_keeps (λ (v : Station fl.F). view v ≡ view w) (ltb (length w.events) event_queue_cap) _ _
        refl refl
