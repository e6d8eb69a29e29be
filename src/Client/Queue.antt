-- ===== src/Client/Queue.antt =====
-- crates/core/src/client: which buttons, wheel turns and keys wait for the motion thread.
use kvmshare.Prelude.{
  Bool, Bool-cases, List, [], ap, append-nil, append_assoc, arith, false, if◌then◌else◌, inl, inr,
  length, length-append, ltb, ltb→lt, refl, subst, suc, sym, take, true, zero, ℕ, ◌++◌, ◌∙◌, ◌∷◌,
  ◌≡◌, ◌≤◌,
}
use kvmshare.Client.Dispatch.{
  apply_motion_frame, dispatch, give_control, send_beacon, steer, take_control,
}
use kvmshare.Client.Shared.{InjectEvent, Station, enqueue_event, event_queue_cap}
use kvmshare.Prelude.Int.{ℤ}
use kvmshare.Protocol.Message.{Message}
use kvmshare.Session.State.{Floats}

-- A message with the time of its dispatch and the injector's answers.
pub record Arrival : Type 0 where
  pub at : ℕ
  pub absolute : Bool
  pub real : ℤ × ℤ
  pub then_real : ℤ × ℤ
  pub msg : Message

unfoldable pub dispatch_all : (fl : Floats) → ℕ → Station fl.F → List Arrival → Station fl.F
dispatch_all fl own_id w [] = w
dispatch_all fl own_id w (a ∷ later) =
    dispatch_all fl own_id (dispatch fl a.at a.absolute a.real a.then_real own_id w a.msg) later

-- The injections that messages ask for, in their order.
abbrev pub asked : Message → List InjectEvent
asked (Message.mouse_button b pressed) = InjectEvent.button b pressed ∷ []
asked (Message.mouse_wheel dx dy) = InjectEvent.wheel dx dy ∷ []
asked (Message.key kind k) = InjectEvent.key kind k ∷ []
asked _ = []

abbrev pub asked_by : List Arrival → List InjectEvent
asked_by [] = []
asked_by (a ∷ later) = asked a.msg ++ asked_by later

module _ {A : Type 0} where
  take_all : (n : ℕ) (xs : List A) → length xs ≤ n → take n xs ≡ xs
  take_all zero [] h = refl
  take_all zero (x ∷ xs) h = absurd (omega arith)
  take_all (suc n) [] h = refl
  take_all (suc n) (x ∷ xs) h = ap (λ t. x ∷ t) (take_all n xs (omega arith))

  take_full : (n : ℕ) (xs ys : List A) → length xs ≡ n → take n (xs ++ ys) ≡ xs
  take_full zero [] ys h = refl
  take_full zero (x ∷ xs) ys h = absurd (omega arith)
  take_full (suc n) [] ys h = absurd (omega arith)
  take_full (suc n) (x ∷ xs) ys h = ap (λ t. x ∷ t) (take_full n xs ys (omega arith))

  take_twice : (n : ℕ) (xs ys : List A) → take n (take n xs ++ ys) ≡ take n (xs ++ ys)
  take_twice zero xs ys = refl
  take_twice (suc n) [] ys = refl
  take_twice (suc n) (x ∷ xs) ys = ap (λ t. x ∷ t) (take_twice n xs ys)

  length-take_most : (n : ℕ) (xs : List A) → length (take n xs) ≤ n
  length-take_most zero xs = omega arith
  length-take_most (suc n) [] = omega arith
  length-take_most (suc n) (x ∷ xs) = omega (arith, length-take_most n xs)

  -- A bounded queue takes what fits.
  queue_takes :
      (n : ℕ) (q : List A) (e : A)
      → length q ≤ n
      → (if ltb (length q) n then q ++ e ∷ [] else q) ≡ take n (q ++ e ∷ [])
  queue_takes n q e h = elim (Bool-cases (ltb (length q) n)) [
    | inl hit ↦ rw hit (
        sym (
          take_all n (q ++ e ∷ [])
            (omega (arith, length-append q (e ∷ []), ltb→lt (length q) n hit))))
    | inr miss ↦ rw miss (sym (take_full n q (e ∷ []) (ground arith)))
  ]

module _ (fl : Floats) (own_id : ℕ) where
  queued :
      (w : Station fl.F) (e : InjectEvent)
      → length w.events ≤ event_queue_cap
      → (enqueue_event w e).events ≡ take event_queue_cap (w.events ++ e ∷ [])
  unfolding enqueue_event
  queued w e h = elim (Bool-cases (ltb (length w.events) event_queue_cap)) [
    | inl hit ↦ rw hit (let q = queue_takes event_queue_cap w.events e h in rw hit at q)
    | inr miss ↦ rw miss (let q = queue_takes event_queue_cap w.events e h in rw miss at q)
  ]

  unqueued :
      (w : Station fl.F)
      → length w.events ≤ event_queue_cap
      → w.events ≡ take event_queue_cap (w.events ++ [])
  unqueued w h =
      sym (ap (take event_queue_cap) (append-nil w.events) ∙ take_all event_queue_cap w.events h)

  steered-events :
      (w : Station fl.F) (dx dy : ℤ) (absolute : Bool)
      → (steer fl w dx dy absolute).events ≡ w.events
  steered-events w dx dy true = refl
  steered-events w dx dy false = refl

  dispatch-events :
      (now : ℕ) (absolute : Bool) (real then_real : ℤ × ℤ) (w : Station fl.F) (m : Message)
      → length w.events ≤ event_queue_cap
      → (dispatch fl now absolute real then_real own_id w m).events
        ≡ take event_queue_cap (w.events ++ asked m)
  unfolding dispatch apply_motion_frame take_control give_control send_beacon
  dispatch-events now absolute real then_real w (Message.hello v i n s) h = unqueued w h
  dispatch-events now absolute real then_real w (Message.welcome v n l i) h = unqueued w h
  dispatch-events now absolute real then_real w (Message.screen_info s) h = unqueued w h
  dispatch-events now absolute real then_real w (Message.layout l) h = unqueued w h
  dispatch-events now absolute real then_real w (Message.control c) h = unqueued w h
  dispatch-events now absolute real then_real w (Message.enter i x y) h = unqueued w h
  dispatch-events now absolute real then_real w (Message.leave i) h = unqueued w h
  dispatch-events now absolute real then_real w (Message.mouse_move_abs x y) h = unqueued w h
  dispatch-events now absolute real then_real w (Message.mouse_move_rel x y) h =
      steered-events _ x y absolute ∙ unqueued w h
  dispatch-events now absolute real then_real w (Message.cursor_pos x y) h = unqueued w h
  dispatch-events now absolute real then_real w (Message.mouse_button b p) h =
      queued w (InjectEvent.button b p) h
  dispatch-events now absolute real then_real w (Message.mouse_wheel x y) h =
      queued w (InjectEvent.wheel x y) h
  dispatch-events now absolute real then_real w (Message.key k u) h =
      queued w (InjectEvent.key k u) h
  dispatch-events now absolute real then_real w (Message.clipboard m b) h = unqueued w h
  dispatch-events now absolute real then_real w Message.keepalive h = unqueued w h
  dispatch-events now absolute real then_real w (Message.error c t) h = unqueued w h
  dispatch-events now absolute real then_real w Message.escape h = unqueued w h

  -- Without a drain in between, the injection queue holds, after any messages, what it held and
  -- then the buttons, wheel turns and keys of the messages in their order, up to the cap of 512:
  -- the newest are dropped. The queue has to be within the cap before.
  pub dispatch_all-events :
      (w : Station fl.F) (later : List Arrival)
      → length w.events ≤ event_queue_cap
      → (dispatch_all fl own_id w later).events ≡ take event_queue_cap (w.events ++ asked_by later)
  unfolding dispatch_all
  dispatch_all-events w [] h = unqueued w h
  dispatch_all-events w (a ∷ later) h =
      let v = dispatch fl a.at a.absolute a.real a.then_real own_id w a.msg in
      let e = dispatch-events a.at a.absolute a.real a.then_real w a.msg h in
      dispatch_all-events v later
        (subst (λ q. length q ≤ event_queue_cap) (sym e) (length-take_most event_queue_cap _))
      ∙ ap (λ q. take event_queue_cap (q ++ asked_by later)) e
      ∙ take_twice event_queue_cap (w.events ++ asked a.msg) (asked_by later)
      ∙ ap (take event_queue_cap) (append_assoc w.events (asked a.msg) (asked_by later))
