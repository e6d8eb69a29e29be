-- ===== src/Server/Reach.antt =====
-- The server's threads as steps on the shared state: each critical section is one step, and the
-- threads take their steps in any order.
use kvmshare.Prelude.{
  Bool, Bool-cases, List, Option, [], ap, false, inl, inr, none, refl, some, subst, sym, ℕ, ◌==◌,
  ◌∙◌, ◌∷◌, ◌≡◌,
}
use kvmshare.Prelude.Maps.{lookup, lookup-insert_same}
use kvmshare.Prelude.Run.{Ensures, Ensures-map, Run, done, panic}
use kvmshare.Protocol.Geometry.{ScreenInfo}
use kvmshare.Protocol.Message.{Message}
use kvmshare.Server.Apply.{handle_local_input}
use kvmshare.Server.Arrivals.{exchange_hello-IsCoherent, register-IsCoherent}
use kvmshare.Server.Coherent.{IsCoherent}
use kvmshare.Server.Controls.{Control, apply_control}
use kvmshare.Server.Datagrams.{check_staleness, receive}
use kvmshare.Server.Departures.{check_staleness-IsCoherent, end_teardown-IsCoherent, farewell-rest}
use kvmshare.Server.Handshake.{exchange_hello}
use kvmshare.Server.Inbound.{front_of, handle_client_message, next_item}
use kvmshare.Server.Orders.{apply_control-IsCoherent}
use kvmshare.Server.Policy.{Addr, Ip}
use kvmshare.Server.Registry.{
  begin_teardown, end_teardown, is_registered, reconnect_command, register,
}
use kvmshare.Server.Rest.{Rest, rest}
use kvmshare.Server.Spoof.{is_report}
use kvmshare.Server.Superseded.{register-rest}
use kvmshare.Server.Turns.{
  handle_client_message-IsCoherent, handle_local_input-IsCoherent, receive-IsCoherent,
}
use kvmshare.Server.World.{Client, Outbound, World}
use kvmshare.Session.Held.{IsPlacedDesk}
use kvmshare.Session.Placed.{core}
use kvmshare.Session.State.{Floats}
use kvmshare.Transport.{RecvResult}

-- What a thread does next: the capture thread's input; a datagram, or an idle wake, of the cursor
-- receiver; a connection's first message, its registration, a later message, and the two parts of its
-- end; a writer's next item; a control message.
pub data Turn (fl : Floats) : Type 0 where
  local_input : ℕ → Message → Turn fl
  datagram : ℕ → Addr → List ℕ → Turn fl
  idle : ℕ → Turn fl
  hello : Ip → RecvResult → Turn fl
  registration : ℕ → ℕ → List ℕ → List ℕ → ScreenInfo → Bool → Addr → Turn fl
  message : ℕ → Client → Message → Turn fl
  leaving : Client → Turn fl
  left : ℕ → Client → Turn fl
  writing : ℕ → Turn fl
  order : ℕ → Control fl → Turn fl

unfoldable pub take_turn : (fl : Floats) → World fl.F → Turn fl → Run (World fl.F)
take_turn fl w (Turn.local_input now m) = handle_local_input fl now w m
take_turn fl w (Turn.datagram now source bytes) = receive now w source bytes
take_turn fl w (Turn.idle now) = check_staleness now w
take_turn fl w (Turn.hello peer first) = done (exchange_hello w peer first).0
take_turn fl w (Turn.registration now id machine_id name info admitted peer) =
    done (register now w id machine_id name info admitted peer)
take_turn fl w (Turn.message now c m) = handle_client_message now w c m
take_turn fl w (Turn.leaving c) = done (begin_teardown w c).0
take_turn fl w (Turn.left now c) = end_teardown now w c
take_turn fl w (Turn.writing conn) = done (next_item w conn).0
take_turn fl w (Turn.order now c) = apply_control fl now w c

-- Input and reports need screens that the cursor can be clamped to; a handshake gives out no id 0;
-- no cursor report comes on the control channel, where its crossing would be lost.
abbrev pub IsOrderly : (fl : Floats) → World fl.F → Turn fl → Type 0
IsOrderly fl w (Turn.local_input now m) = IsPlacedDesk (core w.session)
IsOrderly fl w (Turn.datagram now source bytes) = IsPlacedDesk (core w.session)
IsOrderly fl w (Turn.registration now id machine_id name info admitted peer) = (id == 0) ≡ false
IsOrderly fl w (Turn.message now c m) = is_report m ≡ false
IsOrderly fl w _ = Unit

pub data Reach (fl : Floats) (start : World fl.F) : World fl.F → Type 0 where
  begin : Reach fl start start
  next :
      {w v : World fl.F}
      → Reach fl start w
      → (t : Turn fl) → IsOrderly fl w t
      → take_turn fl w t ≡ done v
      → Reach fl start v

-- A registration leaves the address of its handshake on record.
abbrev pub IsRecorded : (fl : Floats) → Turn fl → World fl.F → Type 0
IsRecorded fl (Turn.registration now id machine_id name info admitted peer) u =
    lookup id u.tcp_ips ≡ some peer.ip
IsRecorded fl _ u = Unit {0}

begin_teardown-rest : {F : Type 0} (w : World F) (c : Client) → rest (begin_teardown w c).0 ≡ rest w
unfolding begin_teardown
begin_teardown-rest w c = elim (Bool-cases (is_registered w c)) [
  | inl hit ↦ rw hit (farewell-rest w c reconnect_command)
  | inr miss ↦ rw miss refl
]

front_of-rest :
    {F : Type 0} (w : World F) (conn : ℕ) (o : Option (List Outbound))
    → rest (front_of w conn o).0 ≡ rest w
front_of-rest w conn none = refl
front_of-rest w conn (some []) = refl
front_of-rest w conn (some (item ∷ items)) = refl

with_unit :
    {A : Type 0} (P : A → Type 0) (m : Run A) → Ensures P m → Ensures (λ a. P a × Unit {0}) m
with_unit P (done a) p = (p, tt)
with_unit P panic p = p

-- Any orderly turn in a coherent world is served, and leaves a coherent one.
take_turn-IsCoherent :
    (fl : Floats) (w : World fl.F) (t : Turn fl)
    → IsCoherent (rest w)
    → IsOrderly fl w t
    → Ensures (λ u. IsCoherent (rest u) × IsRecorded fl t u) (take_turn fl w t)
unfolding take_turn next_item
take_turn-IsCoherent fl w (Turn.local_input now m) h p =
    with_unit _ _ (handle_local_input-IsCoherent fl now w m (h, p))
take_turn-IsCoherent fl w (Turn.datagram now source bytes) h p =
    with_unit _ _ (receive-IsCoherent now w source bytes (h, p))
take_turn-IsCoherent fl w (Turn.idle now) h p = with_unit _ _ (check_staleness-IsCoherent now w h)
take_turn-IsCoherent fl w (Turn.hello peer first) h p =
    (exchange_hello-IsCoherent w peer first h, tt)
take_turn-IsCoherent fl w (Turn.registration now id machine_id name info admitted peer) h p = (
  register-IsCoherent now w id machine_id name info admitted peer p h,
  ap (λ (r : Rest fl.F). lookup id r.tcp_ips)
        (register-rest now w id machine_id name info admitted peer)
      ∙ lookup-insert_same id peer.ip w.tcp_ips,
)
take_turn-IsCoherent fl w (Turn.message now c m) h p =
    with_unit _ _ (handle_client_message-IsCoherent now w c m p h)
take_turn-IsCoherent fl w (Turn.leaving c) h p =
    (subst IsCoherent (sym (begin_teardown-rest w c)) h, tt)
take_turn-IsCoherent fl w (Turn.left now c) h p = with_unit _ _ (end_teardown-IsCoherent now w c h)
take_turn-IsCoherent fl w (Turn.writing conn) h p =
    (subst IsCoherent (sym (front_of-rest w conn (lookup conn w.queues))) h, tt)
take_turn-IsCoherent fl w (Turn.order now c) h p =
    with_unit _ _ (apply_control-IsCoherent fl now w c h)

Reach-IsCoherent :
    (fl : Floats) (start w : World fl.F)
    → IsCoherent (rest start)
    → Reach fl start w
    → IsCoherent (rest w)
Reach-IsCoherent fl start w h Reach.begin = h
Reach-IsCoherent fl start w h (Reach.next {w = v} r t p e) =
    let k : IsCoherent (rest w) × IsRecorded fl t w =
      subst (Ensures (λ u. IsCoherent (rest u) × IsRecorded fl t u)) e
        (take_turn-IsCoherent fl v t (Reach-IsCoherent fl start v h r) p) in
    k.0

Ensures-done :
    {A : Type 0} (P : A → Type 0) (m : Run A) → Ensures P m → Ensures (λ a. (m ≡ done a) × P a) m
Ensures-done P (done a) p = (refl, p)
Ensures-done P panic p = p

pub Reach-IsServed :
    (fl : Floats) (start w : World fl.F) (t : Turn fl)
    → IsCoherent (rest start)
    → Reach fl start w
    → IsOrderly fl w t
    → IsCoherent (rest w)
      × Ensures (λ u. Reach fl start u × IsCoherent (rest u) × IsRecorded fl t u) (take_turn fl w t)
Reach-IsServed fl start w t h r p =
    let k = Reach-IsCoherent fl start w h r in
    (
      k,
      Ensures-map
          (λ (u : World fl.F).
            (take_turn fl w t ≡ done u) × (IsCoherent (rest u) × IsRecorded fl t u))
          _ (take_turn fl w t)
          (Ensures-done (λ (u : World fl.F). IsCoherent (rest u) × IsRecorded fl t u)
            (take_turn fl w t) (take_turn-IsCoherent fl w t k p))
          (λ u q. (Reach.next r t p q.0, q.1.0, q.1.1)),
    )
