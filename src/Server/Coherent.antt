-- ===== src/Server/Coherent.antt =====
-- When the session, the latch of the active client, the registrations and the local machine agree.
use kvmshare.Prelude.{
  All, Bool, List, Option, [], ap, false, none, refl, some, subst, sym, true, ℕ, ◌++◌, ◌==◌, ◌∙◌,
  ◌∷◌, ◌≡◌,
}
use kvmshare.Layout.{find}
use kvmshare.Prelude.Maps.{lookup}
use kvmshare.Protocol.Geometry.{Screen}
use kvmshare.Server.Policy.{Ip}
use kvmshare.Server.Rest.{Rest, act_on, act_on_all}
use kvmshare.Server.World.{Client, EngineCall}
use kvmshare.Session.Held.{IsPlacedDesk}
use kvmshare.Session.Placed.{Core, core}
use kvmshare.Session.Sound.{IsHere, IsWellFormed, follow}
use kvmshare.Session.State.{Action, Mode, Session}

-- The local machine, as the engine's calls leave it.
pub record Machine : Type 0 where
  pub grabbed : Bool
  pub isolated : Bool
  pub shown : Bool

abbrev pub free_machine : Machine
free_machine = record { grabbed = false; isolated = false; shown = true }

abbrev pub operate : Machine → List EngineCall → Machine
operate m [] = m
operate m (EngineCall.warp x y ∷ calls) = operate m calls
operate m (EngineCall.grab b ∷ calls) = operate (record m { grabbed = b }) calls
operate m (EngineCall.isolate b ∷ calls) = operate (record m { isolated = b }) calls
operate m (EngineCall.show_cursor b ∷ calls) = operate (record m { shown = b }) calls
operate m (EngineCall.bound chords ∷ calls) = operate m calls

pub operate-append :
    (m : Machine) (xs ys : List EngineCall) → operate m (xs ++ ys) ≡ operate (operate m xs) ys
operate-append m [] ys = refl
operate-append m (EngineCall.warp x y ∷ xs) ys = operate-append m xs ys
operate-append m (EngineCall.grab b ∷ xs) ys = operate-append (record m { grabbed = b }) xs ys
operate-append m (EngineCall.isolate b ∷ xs) ys = operate-append (record m { isolated = b }) xs ys
operate-append m (EngineCall.show_cursor b ∷ xs) ys = operate-append (record m { shown = b }) xs ys
operate-append m (EngineCall.bound chords ∷ xs) ys = operate-append m xs ys

-- The machine's input is taken, and its cursor hidden, exactly while a client has the cursor.
abbrev pub machine_for : Option ℕ → Machine
machine_for none = free_machine
machine_for (some id) = record { grabbed = true; isolated = true; shown = false }

abbrev pub latch_of : Mode → Option ℕ
latch_of Mode.local = none
latch_of (Mode.remote id) = some id

-- A client is registered under the id, and an address is on record for its datagrams.
abbrev pub IsKnown : List (ℕ × Client) → List (ℕ × Ip) → ℕ → Type 0
IsKnown clients ips id =
    ((c : Client) × (lookup id clients ≡ some c) × (c.id ≡ id))
    × ((ip : Ip) × (lookup id ips ≡ some ip))

-- The server's screen is in the layout, and the cursor at home or on the screen of a connected client.
pub record IsLinked (c : Core) : Type 0 where
  pub home : Screen
  pub home_found : find c.layout 0 ≡ some home
  pub here : IsHere c.layout c.connected c.mode

pub linked-IsWellFormed : (c : Core) → IsLinked c → IsPlacedDesk c → IsWellFormed c
linked-IsWellFormed c l p = record {
  home = l.home;
  home_found = l.home_found;
  screens_placed = p.1;
  local_placed = p.0;
  here = l.here;
}

pub formed-IsLinked : (c : Core) → IsWellFormed c → IsLinked c
formed-IsLinked c w = record { home = w.home; home_found = w.home_found; here = w.here }

-- A registration is under the client's id, which is not the server's.
abbrev pub IsEntry : ℕ × Client → Type 0
IsEntry p = ((p.0 == 0) ≡ false) × (p.1.id ≡ p.0)

-- The latch follows the mode, the local machine follows the latch, and the clients that the session
-- lets the cursor reach are registered.
pub record IsCoherent {F : Type 0} (r : Rest F) : Type 0 where
  pub linked : IsLinked (core r.session)
  pub latched : r.active ≡ latch_of r.session.cursor.mode
  pub held : operate free_machine r.engine ≡ machine_for r.active
  pub known : All (IsKnown r.clients r.tcp_ips) r.session.connected
  pub registered : All IsEntry r.clients

module _ {F : Type 0} where
  act_on-held :
      (r : Rest F) (a : Action)
      → operate free_machine r.engine ≡ machine_for r.active
      → operate free_machine (act_on r a).engine ≡ machine_for (act_on r a).active
  act_on-held r Action.nothing h = h
  act_on-held r (Action.send m) h = h
  act_on-held r (Action.switch_to to x y) h = operate-append free_machine r.engine _
  act_on-held r (Action.switch_to_local x y) h = operate-append free_machine r.engine _

  -- Following the actions of the session keeps latch and mode together.
  act_on_all-follow :
      (r : Rest F) (m : Mode) (acts : List Action)
      → r.active ≡ latch_of m
      → (act_on_all r acts).active ≡ latch_of (follow m acts)
  act_on_all-follow r m [] e = e
  act_on_all-follow r m (Action.nothing ∷ acts) e = act_on_all-follow r m acts e
  act_on_all-follow r m (Action.send g ∷ acts) e = act_on_all-follow r m acts e
  act_on_all-follow r m (Action.switch_to to x y ∷ acts) e =
      act_on_all-follow (act_on r (Action.switch_to to x y)) (Mode.remote to) acts refl
  act_on_all-follow r m (Action.switch_to_local x y ∷ acts) e =
      act_on_all-follow (act_on r (Action.switch_to_local x y)) Mode.local acts refl

  act_on_all-held :
      (r : Rest F) (acts : List Action)
      → operate free_machine r.engine ≡ machine_for r.active
      → operate free_machine (act_on_all r acts).engine ≡ machine_for (act_on_all r acts).active
  act_on_all-held r [] h = h
  act_on_all-held r (a ∷ acts) h = act_on_all-held (act_on r a) acts (act_on-held r a h)

  -- What actions leave alone.
  abbrev pub members : Rest F → Session F × List (ℕ × Client) × List (ℕ × Ip)
  members r = (r.session, r.clients, r.tcp_ips)

  act_on-members : (r : Rest F) (a : Action) → members (act_on r a) ≡ members r
  act_on-members r Action.nothing = refl
  act_on-members r (Action.send m) = refl
  act_on-members r (Action.switch_to to x y) = refl
  act_on-members r (Action.switch_to_local x y) = refl

  pub act_on_all-members :
      (r : Rest F) (acts : List Action) → members (act_on_all r acts) ≡ members r
  act_on_all-members r [] = refl
  act_on_all-members r (a ∷ acts) = act_on_all-members (act_on r a) acts ∙ act_on-members r a

  -- A session that goes on to `t`, with actions that tell its mode.
  pub told-IsCoherent :
      (r : Rest F) (t : Session F) (acts : List Action)
      → IsCoherent r
      → IsLinked (core t)
      → t.connected ≡ r.session.connected
      → t.cursor.mode ≡ follow r.session.cursor.mode acts
      → IsCoherent (act_on_all (record r { session = t }) acts)
  told-IsCoherent r t acts h l same told =
      let start : Rest F = record r { session = t } in
      let m = act_on_all-members start acts in
      record {
        linked = subst (λ k. IsLinked (core k.0)) (sym m) l;
        latched =
            act_on_all-follow start r.session.cursor.mode acts h.latched
            ∙ ap latch_of (sym told)
            ∙ ap (λ k. latch_of k.0.cursor.mode) (sym m);
        held = act_on_all-held start acts h.held;
        known =
            subst (λ k. All (IsKnown k.1 k.2) k.0.connected) (sym m)
              (subst (All (IsKnown r.clients r.tcp_ips)) (sym same) h.known);
        registered = subst (λ k. All IsEntry k.1) (sym m) h.registered;
      }
