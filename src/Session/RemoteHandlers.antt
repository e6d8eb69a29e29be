-- ===== src/Session/RemoteHandlers.antt =====
-- crates/core/src/session/motion.rs: the handlers of a client's screen, for any fact that
-- `cross_from_remote` keeps.
use kvmshare.Prelude.{
  Bool, List, Option, [], inl, inr, none, not, refl, some, subst, sym, ℕ, ◌&&◌, ◌∷◌, ◌≡◌,
}
use kvmshare.Layout.{Layout, find}
use kvmshare.Layout.Edges.{Direction}
use kvmshare.Layout.Lands.{neighbor-Lands}
use kvmshare.Layout.Ray.{Entry, last_pixel, neighbor}
use kvmshare.Prelude.I32.Bounds.{max_ge_right}
use kvmshare.Prelude.Int.{pos, ℤ}
use kvmshare.Prelude.Run.{Ensures, Ensures->>=, Ensures-if}
use kvmshare.Protocol.Geometry.{Rect, Screen}
use kvmshare.Protocol.Message.{Message}
use kvmshare.Session.Beacon.{is_at, on_remote_beacon, remote_anchor, remote_beacon_on, remote_park}
use kvmshare.Session.Boundary.{
  Walls, at_bit, dirs, is_clear, is_fresh_push, is_sustained, pulls_inward, pushes_outward,
  wall_bits,
}
use kvmshare.Session.Crossing.{clamp_to_rect, cross_from_remote}
use kvmshare.Session.Loops.{
  After, Fact, InLoop, if_any-InLoop, or_else-After, or_nothing-After, rounds-InLoop,
}
use kvmshare.Session.Motion.{
  handle_remote_motion, remote_fallback, remote_fired, remote_motion_on, remote_outside,
  remote_pushed, remote_round, rounds,
}
use kvmshare.Session.Placed.{Core, IsPlaced, clamp_to_rect-core, clamp_total, core}
use kvmshare.Session.State.{Action, Session}
use kvmshare.Prelude.I32

module _ {F : Type 0} (P : Fact) (id : ℕ)
    (across : (s : Session F) (d : Direction)
      → P (core s) []
      → Ensures (After P) (cross_from_remote s id d))
    (send : (c : Core) (m : Message) → P c [] → P c (Action.send m ∷ []))
    (placed : (c : Core) (sc : Screen)
      → P c []
      → find c.layout id ≡ some sc
      → IsPlaced sc.rect) where
  remote_fired-InLoop :
      (d : Direction) (s : Session F) (o : Option Entry)
      → P (core s) []
      → Ensures (InLoop P) (remote_fired id d s o)
  remote_fired-InLoop d s none p = p
  remote_fired-InLoop d s (some e) p =
      Ensures->>= (After P) (InLoop P) (cross_from_remote s id d) _ (across s d p) (λ r q. q)

  neighbor_total :
      (l : Layout) (d : Direction) (x y : ℤ)
      → Ensures (λ (o : Option Entry). Unit {0}) (neighbor l id d x y)
  neighbor_total l d x y = elim (neighbor-Lands l id d x y) [
    | inl e ↦ subst (Ensures (λ (o : Option Entry). Unit {0})) (sym e) tt
    | inr (b, e, h) ↦ subst (Ensures (λ (o : Option Entry). Unit {0})) (sym e) tt
  ]

  remote_round-InLoop :
      (now : ℕ) (dx dy : ℤ) (fresh : Bool) (d : Direction) (s : Session F)
      → P (core s) []
      → Ensures (InLoop P) (remote_round now id dx dy fresh d s)
  unfolding remote_round
  remote_round-InLoop now dx dy fresh d s p =
      Ensures-if (InLoop P) (pushes_outward d dx dy) _ _
        (Ensures-if (InLoop P) (fresh && at_bit d s.remote_at_wall) _ _
          (Ensures->>= (λ o. Unit {0}) (InLoop P) (neighbor s.layout id d s.cursor.x s.cursor.y) _
            (neighbor_total s.layout d s.cursor.x s.cursor.y) (λ o q. remote_fired-InLoop d _ o p))
          p)
        (Ensures-if (InLoop P) (pulls_inward d dx dy) _ _ p p)

  remote_pushed-After :
      (now : ℕ) (m : Message) (fresh : Bool) (d : Direction) (s : Session F)
      → P (core s) []
      → Ensures (After P) (remote_pushed now id (Action.send m ∷ []) fresh d s)
  unfolding remote_pushed
  remote_pushed-After now m fresh d s p =
      Ensures-if (After P) (not fresh && is_sustained now d s.remote_pushing) _ _
        (Ensures->>= (After P) (After P) (cross_from_remote _ id d) _ (across _ d p)
          (λ r q. or_else-After P _ r q (send (core r.0) m)))
        (send (core s) m p)

  remote_outside-After :
      (now : ℕ) (m : Message) (fresh : Bool) (r : Rect) (s : Session F) (o : Option Direction)
      → IsPlaced r
      → P (core s) []
      → Ensures (After P) (remote_outside now id (Action.send m ∷ []) fresh r s o)
  remote_outside-After now m fresh r s none h p = send (core s) m p
  remote_outside-After now m fresh r s (some d) h p =
      Ensures->>= (λ t. core t ≡ core s) (After P) (clamp_to_rect s r) _ (clamp_to_rect-core s r h)
        (λ t q. remote_pushed-After now m fresh d t (subst (λ c. P c []) (sym q) p))

  remote_fallback-After :
      (now : ℕ) (m : Message) (fresh : Bool) (r : Rect) (t : Session F × Option (List Action))
      → IsPlaced r
      → InLoop P t
      → Ensures (After P) (remote_fallback now id (Action.send m ∷ []) fresh r t)
  remote_fallback-After now m fresh r (s, none) h p = remote_outside-After now m fresh r s _ h p
  remote_fallback-After now m fresh r (s, some acts) h p = p

  remote_motion_on-After :
      (now : ℕ) (dx dy : ℤ) (s : Session F) (o : Option Screen)
      → find s.layout id ≡ o
      → P (core s) []
      → Ensures (After P) (remote_motion_on now id dx dy s o)
  remote_motion_on-After now dx dy s none e p = p
  remote_motion_on-After now dx dy s (some sc) e p =
      Ensures->>= (InLoop P) (After P) (rounds (remote_round now id dx dy _) dirs s) _
        (rounds-InLoop P _ (remote_round-InLoop now dx dy _) dirs s p)
        (λ t q. remote_fallback-After now _ _ sc.rect t (placed (core s) sc p e) q)

  pub handle_remote_motion-After :
      (now : ℕ) (s : Session F) (dx dy : ℤ)
      → P (core s) []
      → Ensures (After P) (handle_remote_motion now id s dx dy)
  unfolding handle_remote_motion
  handle_remote_motion-After now s dx dy p = remote_motion_on-After now dx dy s _ refl p

  remote_park-InLoop :
      (now : ℕ) (fresh : Walls) (d : Direction) (s : Session F)
      → P (core s) []
      → Ensures (InLoop P) (remote_park now id fresh d s)
  unfolding remote_park
  remote_park-InLoop now fresh d s p =
      Ensures-if (InLoop P) (at_bit d fresh && is_fresh_push now d s.remote_last_out) _ _
        (Ensures->>= (After P) (InLoop P) (cross_from_remote s id d) _ (across s d p)
          (λ r q. if_any-InLoop P r q))
        p

  remote_anchor-After :
      (now : ℕ) (s : Session F) (r : Rect) (x y : ℤ)
      → P (core s) []
      → Ensures (After P) (remote_anchor now id s r x y)
  unfolding remote_anchor
  remote_anchor-After now s r x y p = Ensures-if (After P) (is_clear (wall_bits r x y)) _ _ p (
      Ensures->>= (InLoop P) (After P) (rounds (remote_park now id _) dirs _) _
        (rounds-InLoop P _ (remote_park-InLoop now _) dirs _ p) (or_nothing-After P))

  remote_beacon_on-After :
      (now : ℕ) (s : Session F) (x y : ℤ) (o : Option Screen)
      → P (core s) []
      → Ensures (After P) (remote_beacon_on now id s x y o)
  remote_beacon_on-After now s x y none p = p
  remote_beacon_on-After now s x y (some sc) p =
      Ensures->>= (λ v. Unit {0}) (After P) (I32.clamp x (pos 0) (last_pixel sc.rect.w)) _
        (clamp_total x (pos 0) _ (max_ge_right _ (pos 0)))
        (λ v u.
          Ensures->>= (λ z. Unit {0}) (After P) (I32.clamp y (pos 0) (last_pixel sc.rect.h)) _
            (clamp_total y (pos 0) _ (max_ge_right _ (pos 0)))
            (λ z w. remote_anchor-After now s sc.rect v z p))

  pub on_remote_beacon-After :
      (now : ℕ) (s : Session F) (x y : ℤ)
      → P (core s) []
      → Ensures (After P) (on_remote_beacon now s id x y)
  unfolding on_remote_beacon
  on_remote_beacon-After now s x y p =
      Ensures-if (After P) (is_at id s.cursor.mode) _ _ (remote_beacon_on-After now s x y _ p) p
