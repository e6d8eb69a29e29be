-- ===== src/Server/Leaves.antt =====
-- The server stays coherent when clients leave.
use kvmshare.Prelude.{
  All, Bool, Bool-cases, List, [], ap, arith, false, if◌then◌else◌, inl, inr, none, not, refl,
  retain, subst, sym, true, ℕ, ◌==◌, ◌∙◌, ◌∷◌, ◌≡◌,
}
use kvmshare.Prelude.Maps.{lookup, lookup-remove_other, lookup-remove_same, remove}
use kvmshare.Prelude.Run.{Ensures, Ensures->>=}
use kvmshare.Server.Coherent.{
  IsCoherent, IsEntry, IsKnown, IsLinked, act_on_all-members, free_machine, latch_of,
  operate-append,
}
use kvmshare.Server.Drops.{IsDropped, disconnected-IsDropped}
use kvmshare.Server.Policy.{Ip}
use kvmshare.Server.Registry.{apply_home, is_client, release, session_drop}
use kvmshare.Server.Rest.{Rest, act_on, act_on_all, apply_home-rest, rest}
use kvmshare.Server.World.{Client, World}
use kvmshare.Session.Beacon.{is_at}
use kvmshare.Session.Clients.{on_client_disconnected}
use kvmshare.Session.Placed.{core}
use kvmshare.Session.State.{Action, Mode, Session}

pub All-remove :
    {A : Type 0} (P : ℕ × A → Type 0) (k : ℕ) (ps : List (ℕ × A)) → All P ps → All P (remove k ps)
All-remove P k [] h = h
All-remove P k (p ∷ ps) h = elim (Bool-cases (p.0 == k)) [
  | inl hit ↦ rw hit (All-remove P k ps h.1)
  | inr miss ↦ rw miss (h.0, All-remove P k ps h.1)
]

IsKnown-remove :
    (clients : List (ℕ × Client)) (ips : List (ℕ × Ip)) (id c : ℕ)
    → (c == id) ≡ false
    → IsKnown clients ips c
    → IsKnown (remove id clients) (remove id ips) c
IsKnown-remove clients ips id c n ((client, found, own), (ip, met)) = (
  (client, lookup-remove_other c id clients (ground arith) ∙ found, own),
  (ip, lookup-remove_other c id ips (ground arith) ∙ met),
)

others_stay :
    (clients : List (ℕ × Client)) (ips : List (ℕ × Ip)) (id : ℕ) (cs : List ℕ)
    → All (IsKnown clients ips) cs
    → All (IsKnown (remove id clients) (remove id ips)) (retain (λ c. not (c == id)) cs)
others_stay clients ips id [] h = h
others_stay clients ips id (c ∷ cs) h = elim (Bool-cases (c == id)) [
  | inl hit ↦ rw hit (others_stay clients ips id cs h.1)
  | inr miss ↦ rw miss (IsKnown-remove clients ips id c miss h.0, others_stay clients ips id cs h.1)
]

is_client-latch_of : (id : ℕ) (m : Mode) → is_client id (latch_of m) ≡ is_at id m
is_client-latch_of id Mode.local = refl
is_client-latch_of id (Mode.remote k) = refl

module _ {F : Type 0} where
  -- The removals and the latch, on the rest.
  abbrev pub forgotten : Rest F → ℕ → Rest F
  forgotten r id = record r { clients = remove id r.clients; tcp_ips = remove id r.tcp_ips }

  abbrev pub released : Rest F → ℕ → Rest F
  released r id = record r { active = if is_client id r.active then none else r.active }

  pub release-rest : (w : World F) (id : ℕ) → rest (release w id) ≡ released (rest w) id
  unfolding release
  release-rest w id = elim (Bool-cases (is_client id w.active)) [
    | inl hit ↦ rw hit refl
    | inr miss ↦ rw miss refl
  ]

  pub dropped-IsCoherent :
      (r : Rest F) (id : ℕ) (q : Session F × List Action)
      → IsCoherent r
      → IsDropped r.session id q
      → IsCoherent (act_on_all (record (released (forgotten r id) id) { session = q.0 }) q.1)
  dropped-IsCoherent r id (t, acts) h d = elim d.ends [
    | inl (hit, (x, y, told), home) ↦
        let at_id : is_client id r.active ≡ true =
          ap (is_client id) h.latched ∙ is_client-latch_of id r.session.cursor.mode ∙ hit in
        subst
          (λ l. IsCoherent (act_on_all (record (released (forgotten r id) id) { session = t }) l))
          (sym told)
          (subst
            (λ (b : Bool). IsCoherent (
              act_on
                (record (forgotten r id) { active = if b then none else r.active; session = t })
                (Action.switch_to_local x y)))
            (sym at_id)
            (record {
              linked = d.linked;
              latched = ap latch_of (sym home);
              held = operate-append free_machine r.engine _;
              known = gone;
              registered = All-remove IsEntry id r.clients h.registered;
            }))
    | inr (miss, told, same) ↦
        let not_at_id : is_client id r.active ≡ false =
          ap (is_client id) h.latched ∙ is_client-latch_of id r.session.cursor.mode ∙ miss in
        subst
          (λ l. IsCoherent (act_on_all (record (released (forgotten r id) id) { session = t }) l))
          (sym told)
          (subst
            (λ (b : Bool).
              IsCoherent
                (record (forgotten r id) { active = if b then none else r.active; session = t }))
            (sym not_at_id)
            (record {
              linked = d.linked;
              latched = h.latched ∙ ap latch_of (sym same);
              held = h.held;
              known = gone;
              registered = All-remove IsEntry id r.clients h.registered;
            }))
  ]
    where
      gone : All (IsKnown (remove id r.clients) (remove id r.tcp_ips)) t.connected
      gone =
          subst (All (IsKnown (remove id r.clients) (remove id r.tcp_ips))) (sym d.kept)
            (others_stay r.clients r.tcp_ips id r.session.connected h.known)

  -- What a dropped client's actions are, `apply_home` applies.
  pub apply_home-all :
      (now : ℕ) (w : World F) (s : Session F) (id : ℕ) (q : Session F × List Action)
      → IsDropped s id q
      → rest (apply_home now w q.1) ≡ act_on_all (rest w) q.1
  apply_home-all now w s id (t, acts) d = elim d.ends [
    | inl (hit, (x, y, told), home) ↦
        subst (λ l. rest (apply_home now w l) ≡ act_on_all (rest w) l) (sym told)
          (apply_home-rest now w x y)
    | inr (miss, told, same) ↦
        subst (λ l. rest (apply_home now w l) ≡ act_on_all (rest w) l) (sym told) refl
  ]

  -- The client is gone: coherence, no registration, and no latch on it, while another stays.
  pub record IsGone (r : Rest F) (id : ℕ) (u : Rest F) : Type 0 where
    pub coherent : IsCoherent u
    pub unlatched : u.active ≡ (if is_client id r.active then none else r.active)
    pub unlisted : lookup id u.clients ≡ none

  dropped-IsGone :
      (r : Rest F) (id : ℕ) (q : Session F × List Action)
      → IsCoherent r
      → IsDropped r.session id q
      → IsGone r id (act_on_all (record (released (forgotten r id) id) { session = q.0 }) q.1)
  dropped-IsGone r id (t, acts) h d =
      let start = record (released (forgotten r id) id) { session = t } in
      record {
        coherent = dropped-IsCoherent r id (t, acts) h d;
        unlatched = elim d.ends [
          | inl (hit, (x, y, told), home) ↦
              let at_id : is_client id r.active ≡ true =
                ap (is_client id) h.latched ∙ is_client-latch_of id r.session.cursor.mode ∙ hit in
              ap (λ l. (act_on_all start l).active) told
              ∙ ap (λ (b : Bool). if b then none else r.active) (sym at_id)
          | inr (miss, told, same) ↦ ap (λ l. (act_on_all start l).active) told
        ];
        unlisted =
            ap (λ k. lookup id k.1) (act_on_all-members start acts)
            ∙ lookup-remove_same id r.clients;
      }

  -- A world that is coherent apart from the removals, when the session has been told.
  pub session_drop-IsGone :
      (now : ℕ) (w v : World F) (id : ℕ)
      → IsCoherent (rest w)
      → rest v ≡ released (forgotten (rest w) id) id
      → Ensures (λ u. IsGone (rest w) id (rest u)) (session_drop now v id)
  unfolding session_drop
  session_drop-IsGone now w v id h e =
      let same : v.session ≡ w.session = ap (λ (r : Rest F). r.session) e in
      Ensures->>= (IsDropped v.session id) _ (on_client_disconnected v.session id) _
        (disconnected-IsDropped v.session id (subst (λ s. IsLinked (core s)) (sym same) h.linked))
        (λ r d.
          subst (IsGone (rest w) id)
            (sym (
              apply_home-all now (record v { session = r.0 }) v.session id r d
              ∙ ap (λ (q : Rest F). act_on_all (record q { session = r.0 }) r.1) e))
            (dropped-IsGone (rest w) id r h (subst (λ s. IsDropped s id r) same d)))
