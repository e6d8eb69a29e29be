-- ===== src/Server/Rest.antt =====
-- The part of the server's state that decides who has the cursor, apart from queues and bookkeeping.
use kvmshare.Prelude.{
  Bool-cases, List, Option, [], ap, false, if◌then◌else◌, inl, inr, length, ltb, none, refl, some,
  true, ℕ, ◌++◌, ◌∙◌, ◌∷◌, ◌≡◌,
}
use kvmshare.Prelude.Clock.{now_ms}
use kvmshare.Prelude.Int.{ℤ}
use kvmshare.Prelude.Maps.{insert, lookup}
use kvmshare.Protocol.Message.{Message}
use kvmshare.Server.Apply.{
  apply_action, apply_all, leave_old, send_to_active, switch_home, switch_to_client,
}
use kvmshare.Server.Policy.{Ip}
use kvmshare.Server.Registry.{apply_home}
use kvmshare.Server.World.{
  Client, EngineCall, Outbound, ServerEvent, World, broadcast, call_engine, emit, enqueue,
  enqueue_to, out_queue_cap, push_to, route, send_each, try_send,
}
use kvmshare.Session.State.{Action, Session}

pub record Rest (F : Type 0) : Type 0 where
  pub session : Session F
  pub clients : List (ℕ × Client)
  pub active : Option ℕ
  pub tcp_ips : List (ℕ × Ip)
  pub engine : List EngineCall

-- What an action does to it.
abbrev pub act_on : {F : Type 0} → Rest F → Action → Rest F
act_on r Action.nothing = r
act_on r (Action.send m) = r
act_on r (Action.switch_to to x y) = record r {
  active = some to;
  engine =
      r.engine
      ++ (EngineCall.grab true ∷ EngineCall.isolate true ∷ EngineCall.show_cursor false ∷ []);
}
act_on r (Action.switch_to_local x y) = record r {
  active = none;
  engine =
      r.engine
      ++ (EngineCall.isolate false
          ∷ EngineCall.grab false
          ∷ EngineCall.warp x y
          ∷ EngineCall.show_cursor true
          ∷ []);
}

abbrev pub act_on_all : {F : Type 0} → Rest F → List Action → Rest F
act_on_all r [] = r
act_on_all r (a ∷ acts) = act_on_all (act_on r a) acts

module _ {F : Type 0} where
  abbrev pub rest : World F → Rest F
  rest w = record {
    session = w.session;
    clients = w.clients;
    active = w.active;
    tcp_ips = w.tcp_ips;
    engine = w.engine;
  }

  push_to-rest :
      (w : World F) (conn : ℕ) (item : Outbound) (o : Option (List Outbound))
      → rest (push_to w conn item o) ≡ rest w
  push_to-rest w conn item none = refl
  push_to-rest w conn item (some q) = elim (Bool-cases (ltb (length q) out_queue_cap)) [
    | inl hit ↦ rw hit refl
    | inr miss ↦ rw miss refl
  ]

  pub try_send-rest :
      (w : World F) (conn : ℕ) (item : Outbound) → rest (try_send w conn item) ≡ rest w
  unfolding try_send
  try_send-rest w conn item = push_to-rest w conn item (lookup conn w.queues)

  enqueue_to-rest :
      (w : World F) (msg : Message) (o : Option Client) → rest (enqueue_to w msg o) ≡ rest w
  enqueue_to-rest w msg none = refl
  enqueue_to-rest w msg (some c) = try_send-rest w c.conn (route msg)

  pub enqueue-rest : (w : World F) (id : ℕ) (msg : Message) → rest (enqueue w id msg) ≡ rest w
  unfolding enqueue
  enqueue-rest w id msg = enqueue_to-rest w msg (lookup id w.clients)

  send_each-rest :
      (w : World F) (msg : Message) (ps : List (ℕ × Client)) → rest (send_each w msg ps) ≡ rest w
  unfolding send_each
  send_each-rest w msg [] = refl
  send_each-rest w msg (p ∷ ps) =
      send_each-rest (try_send w p.1.conn (route msg)) msg ps ∙ try_send-rest w p.1.conn (route msg)

  pub broadcast-rest : (w : World F) (msg : Message) → rest (broadcast w msg) ≡ rest w
  unfolding broadcast
  broadcast-rest w msg = send_each-rest w msg w.clients

  pub emit-rest : (w : World F) (e : ServerEvent) → rest (emit w e) ≡ rest w
  unfolding emit
  emit-rest w e = elim (Bool-cases w.has_events) [
    | inl hit ↦ ap (λ b. rest (if b then record w { events = w.events ++ e ∷ [] } else w)) hit
    | inr miss ↦ ap (λ b. rest (if b then record w { events = w.events ++ e ∷ [] } else w)) miss
  ]

  leave_old-rest :
      (w : World F) (o : Option ℕ)
      → w.active ≡ o
      → rest (leave_old w o) ≡ record (rest w) { active = none }
  leave_old-rest w none e = ap (λ a. record (rest w) { active = a }) e
  leave_old-rest w (some old) e = enqueue-rest (record w { active = none }) old (Message.leave old)

  send_to_active-rest :
      (w : World F) (m : Message) (o : Option ℕ) → rest (send_to_active w m o) ≡ rest w
  send_to_active-rest w m none = refl
  send_to_active-rest w m (some id) = enqueue-rest w id m

  apply_action-rest :
      (now : ℕ) (w : World F) (a : Action) → rest (apply_action now w a) ≡ act_on (rest w) a
  unfolding apply_action switch_to_client switch_home call_engine
  apply_action-rest now w Action.nothing = refl
  apply_action-rest now w (Action.send m) = send_to_active-rest w m w.active
  apply_action-rest now w (Action.switch_to to x y) =
      let calls : List EngineCall =
        EngineCall.grab true ∷ EngineCall.isolate true ∷ EngineCall.show_cursor false ∷ [] in
      let w1 = leave_old w w.active in
      let w2 = record w1 { active = some to; last_heard = insert to (now_ms now) w1.last_heard } in
      let w3 = enqueue w2 to (Message.enter to x y) in
      emit-rest (record w3 { engine = w3.engine ++ calls }) (ServerEvent.control_changed true)
      ∙ ap (λ (r : Rest F). record r { engine = r.engine ++ calls })
          (enqueue-rest w2 to (Message.enter to x y))
      ∙ ap (λ (r : Rest F). record r { active = some to; engine = r.engine ++ calls })
          (leave_old-rest w w.active refl)
  apply_action-rest now w (Action.switch_to_local x y) =
      let calls : List EngineCall =
        EngineCall.isolate false
        ∷ EngineCall.grab false
        ∷ EngineCall.warp x y
        ∷ EngineCall.show_cursor true
        ∷ [] in
      let w1 = leave_old w w.active in
      emit-rest (record w1 { engine = w1.engine ++ calls }) (ServerEvent.control_changed false)
      ∙ ap (λ (r : Rest F). record r { engine = r.engine ++ calls })
          (leave_old-rest w w.active refl)

  pub apply_all-rest :
      (now : ℕ) (w : World F) (acts : List Action)
      → rest (apply_all now w acts) ≡ act_on_all (rest w) acts
  unfolding apply_all
  apply_all-rest now w [] = refl
  apply_all-rest now w (a ∷ acts) =
      apply_all-rest now (apply_action now w a) acts
      ∙ ap (λ r. act_on_all r acts) (apply_action-rest now w a)

  pub apply_home-rest :
      (now : ℕ) (w : World F) (x y : ℤ)
      → rest (apply_home now w (Action.switch_to_local x y ∷ []))
        ≡ act_on (rest w) (Action.switch_to_local x y)
  apply_home-rest now w x y = apply_action-rest now w (Action.switch_to_local x y)
