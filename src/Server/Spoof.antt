-- ===== src/Server/Spoof.antt =====
-- crates/core/src/server/udp.rs: datagrams that must not move the cursor.
use kvmshare.Prelude.{
  Bool, Bool-cases, List, Option, ap, arith, bytes_eq→eq, false, inl, inr, none, refl, some, subst,
  sym, true, ℕ, ◌==◌, ◌∙◌, ◌≡◌, ◌⊎◌,
}
use kvmshare.Prelude.Clock.{now_ms}
use kvmshare.Prelude.Int.{ℤ}
use kvmshare.Prelude.Maps.{insert, lookup, lookup-insert_other, lookup-remove_other}
use kvmshare.Prelude.Run.{Ensures, Ensures-map, Ensures-test}
use kvmshare.Protocol.Message.{Message}
use kvmshare.Server.Datagrams.{
  dispatch_datagram, is_from, learn, learn_from, or_default, receive, receive_from, take_beacon,
}
use kvmshare.Server.Policy.{Addr, Ip, addr_eq, ip_eq}
use kvmshare.Server.World.{World}
use kvmshare.Udp.{Datagram, is_newer, unpack}

-- A cursor report.
abbrev pub is_report : Message → Bool
is_report (Message.cursor_pos x y) = true
is_report _ = false

-- A datagram that does not parse, or names nobody's id, or comes from another machine than the one of
-- the id's handshake, or is no cursor report, or is not newer than the last one from its address.
abbrev pub IsRejected : {F : Type 0} → World F → Addr → Option Datagram → Type 0
IsRejected w source none = Unit
IsRejected w source (some d) =
    ((known : Ip) → lookup d.id w.tcp_ips ≡ some known → ¬ source.ip ≡ known)
    ⊎ ((is_report d.msg ≡ false)
        ⊎ ((known : Addr) × (lookup d.id w.addrs ≡ some known)
            × (addr_eq known source ≡ true)
            × (is_newer d.seq (or_default (lookup d.id w.seqs)) ≡ false)))

-- Nothing but the bookkeeping of the link: when a client was heard, its address, its last number.
abbrev pub IsUntouched : {F : Type 0} → World F → World F → Type 0
IsUntouched w w' = w' ≡ record w { last_heard = w'.last_heard; addrs = w'.addrs; seqs = w'.seqs }

-- Only the bookkeeping of one id.
abbrev pub IsNoted : {F : Type 0} → ℕ → World F → World F → Type 0
IsNoted id w w' =
    IsUntouched w w'
    × ((k : ℕ)
        → (id == k) ≡ false
        → (lookup k w'.last_heard ≡ lookup k w.last_heard)
          × (lookup k w'.addrs ≡ lookup k w.addrs)
          × (lookup k w'.seqs ≡ lookup k w.seqs))

-- What a rejected datagram may change: nothing at all, or, if it comes from the machine of its id's
-- handshake, the bookkeeping of that id.
abbrev pub IsIgnored : {F : Type 0} → World F → Addr → Option Datagram → World F → Type 0
IsIgnored w source none w' = w' ≡ w
IsIgnored w source (some d) w' =
    (w' ≡ w) ⊎ ((lookup d.id w.tcp_ips ≡ some source.ip) × IsNoted d.id w w')

ip_eq→eq : (a b : Ip) → ip_eq a b ≡ true → a ≡ b
ip_eq→eq (Ip.v4 a b c d) (Ip.v4 a' b' c' d') h =
    let p : a ≡ a' = ground arith in
    let q : b ≡ b' = ground arith in
    let r : c ≡ c' = ground arith in let s : d ≡ d' = ground arith in cc
ip_eq→eq (Ip.v4 a b c d) (Ip.v6 o) h = cc
ip_eq→eq (Ip.v6 o) (Ip.v4 a b c d) h = cc
ip_eq→eq (Ip.v6 o) (Ip.v6 o') h = ap Ip.v6 (bytes_eq→eq o o' h)

is_from→eq : (ip : Ip) (o : Option Ip) → is_from ip o ≡ true → o ≡ some ip
is_from→eq ip none h = cc
is_from→eq ip (some known) h = ap some (sym (ip_eq→eq ip known h))

foreign_lem :
    (ip : Ip) (o : Option Ip)
    → ((known : Ip) → o ≡ some known → ¬ ip ≡ known)
    → is_from ip o ≡ false
foreign_lem ip o h = elim (Bool-cases (is_from ip o)) [
  | inl hit ↦ absurd (h ip (is_from→eq ip o hit) refl)
  | inr miss ↦ miss
]

module _ {F : Type 0} where
  learn_from-IsUntouched :
      (w : World F) (id : ℕ) (source : Addr) (o : Option Addr)
      → IsUntouched w (learn_from w id source o)
  learn_from-IsUntouched w id source none = refl
  learn_from-IsUntouched w id source (some known) = elim (Bool-cases (addr_eq known source)) [
    | inl hit ↦ rw hit refl
    | inr miss ↦ rw miss refl
  ]

  learn_from-same :
      (w : World F) (id : ℕ) (source known : Addr)
      → addr_eq known source ≡ true
      → learn_from w id source (some known) ≡ w
  learn_from-same w id source known h = rw h refl

  learn-same :
      (w : World F) (id : ℕ) (source known : Addr)
      → lookup id w.addrs ≡ some known
      → addr_eq known source ≡ true
      → learn w id source ≡ w
  unfolding learn
  learn-same w id source known e h =
      ap (learn_from w id source) e ∙ learn_from-same w id source known h

  pub learn-IsUntouched : (w : World F) (id : ℕ) (source : Addr) → IsUntouched w (learn w id source)
  unfolding learn
  learn-IsUntouched w id source = learn_from-IsUntouched w id source (lookup id w.addrs)

  IsNoted-refl : (id : ℕ) (w : World F) → IsNoted id w w
  IsNoted-refl id w = (refl, λ k n. (refl, refl, refl))

  IsNoted-trans : (id : ℕ) (w v u : World F) → IsNoted id w v → IsNoted id v u → IsNoted id w u
  IsNoted-trans id w v u (e, f) (e', f') = (
    e'
        ∙ ap
            (λ (t : World F). record t {
              last_heard = u.last_heard;
              addrs = u.addrs;
              seqs = u.seqs;
            })
            e,
    λ k n. let (h, a, s) = f k n in let (h', a', s') = f' k n in (h' ∙ h, a' ∙ a, s' ∙ s),
  )

  heard-IsNoted :
      (w : World F) (id now : ℕ)
      → IsNoted id w (record w { last_heard = insert id now w.last_heard })
  heard-IsNoted w id now = (refl, λ k n. (lookup-insert_other k id now w.last_heard n, refl, refl))

  learn_from-IsNoted :
      (w : World F) (id : ℕ) (source : Addr) (o : Option Addr)
      → IsNoted id w (learn_from w id source o)
  learn_from-IsNoted w id source none =
      (refl, λ k n. (refl, lookup-insert_other k id source w.addrs n, refl))
  learn_from-IsNoted w id source (some known) = elim (Bool-cases (addr_eq known source)) [
    | inl hit ↦ rw hit (IsNoted-refl id w)
    | inr miss ↦ rw miss (
      refl,
      λ k n. (refl, lookup-insert_other k id source w.addrs n, lookup-remove_other k id w.seqs n),
    )
  ]

  learn-IsNoted : (w : World F) (id : ℕ) (source : Addr) → IsNoted id w (learn w id source)
  unfolding learn
  learn-IsNoted w id source = learn_from-IsNoted w id source (lookup id w.addrs)

  -- An old number is not taken.
  take_beacon-old :
      (now : ℕ) (w : World F) (id seq : ℕ) (x y : ℤ)
      → is_newer seq (or_default (lookup id w.seqs)) ≡ false
      → Ensures (IsNoted id w) (take_beacon now w id seq x y)
  unfolding take_beacon
  take_beacon-old now w id seq x y h =
      rw h (refl, λ k n. (refl, refl, lookup-insert_other k id _ w.seqs n))

  dispatch-IsNoted :
      (now : ℕ) (w : World F) (d : Datagram) (m : Message)
      → (is_report m ≡ false) ⊎ (is_newer d.seq (or_default (lookup d.id w.seqs)) ≡ false)
      → Ensures (IsNoted d.id w) (dispatch_datagram now w d m)
  dispatch-IsNoted now w d (Message.cursor_pos x y) (inl h) = cc
  dispatch-IsNoted now w d (Message.cursor_pos x y) (inr h) = take_beacon-old now w d.id d.seq x y h
  dispatch-IsNoted now w d (Message.hello v i n s) h = IsNoted-refl d.id w
  dispatch-IsNoted now w d (Message.welcome v n l i) h = IsNoted-refl d.id w
  dispatch-IsNoted now w d (Message.screen_info s) h = IsNoted-refl d.id w
  dispatch-IsNoted now w d (Message.layout l) h = IsNoted-refl d.id w
  dispatch-IsNoted now w d (Message.control c) h = IsNoted-refl d.id w
  dispatch-IsNoted now w d (Message.enter i x y) h = IsNoted-refl d.id w
  dispatch-IsNoted now w d (Message.leave i) h = IsNoted-refl d.id w
  dispatch-IsNoted now w d (Message.mouse_move_abs x y) h = IsNoted-refl d.id w
  dispatch-IsNoted now w d (Message.mouse_move_rel x y) h = IsNoted-refl d.id w
  dispatch-IsNoted now w d (Message.mouse_button b p) h = IsNoted-refl d.id w
  dispatch-IsNoted now w d (Message.mouse_wheel x y) h = IsNoted-refl d.id w
  dispatch-IsNoted now w d (Message.key k u) h = IsNoted-refl d.id w
  dispatch-IsNoted now w d (Message.clipboard m b) h = IsNoted-refl d.id w
  dispatch-IsNoted now w d Message.keepalive h = IsNoted-refl d.id w
  dispatch-IsNoted now w d (Message.error c t) h = IsNoted-refl d.id w
  dispatch-IsNoted now w d Message.escape h = IsNoted-refl d.id w

  after_learn :
      (now : ℕ) (w : World F) (source : Addr) (d : Datagram)
      → (is_report d.msg ≡ false)
        ⊎ (is_newer d.seq (or_default (lookup d.id (learn w d.id source).seqs)) ≡ false)
      → Ensures (IsNoted d.id w) (dispatch_datagram now (learn w d.id source) d d.msg)
  after_learn now w source d h =
      Ensures-map (IsNoted d.id (learn w d.id source)) (IsNoted d.id w) _
        (dispatch-IsNoted now (learn w d.id source) d d.msg h)
        (λ w' e. IsNoted-trans d.id w (learn w d.id source) w' (learn-IsNoted w d.id source) e)

  -- A datagram from the right machine that is no report or not new.
  from_home :
      (now : ℕ) (w : World F) (source : Addr) (d : Datagram)
      → (is_report d.msg ≡ false)
        ⊎ (is_newer d.seq (or_default (lookup d.id (learn w d.id source).seqs)) ≡ false)
      → is_from source.ip (lookup d.id w.tcp_ips) ≡ true
      → Ensures (IsIgnored w source (some d)) (
          dispatch_datagram now
            (learn (record w { last_heard = insert d.id (now_ms now) w.last_heard }) d.id source)
            d
            d.msg)
  unfolding learn
  from_home now w source d h hit =
      let w1 : World F = record w { last_heard = insert d.id (now_ms now) w.last_heard } in
      Ensures-map (IsNoted d.id w1) (IsIgnored w source (some d)) _
        (after_learn now w1 source d (elim h [
          | inl no_report ↦ inl no_report
          | inr old ↦ inr (same_seqs (lookup d.id w.addrs) old)
        ]))
        (λ w' e. inr (
          is_from→eq source.ip (lookup d.id w.tcp_ips) hit,
          IsNoted-trans d.id w w1 w' (heard-IsNoted w d.id (now_ms now)) e,
        ))
    where
      heard : World F → World F
      heard v = record v { last_heard = insert d.id (now_ms now) v.last_heard }

      same_seqs :
          (o : Option Addr)
          → is_newer d.seq (or_default (lookup d.id (learn_from w d.id source o).seqs)) ≡ false
          → is_newer d.seq (or_default (lookup d.id (learn_from (heard w) d.id source o).seqs))
            ≡ false
      same_seqs none q = q
      same_seqs (some known) q = elim (Bool-cases (addr_eq known source)) [
        | inl same ↦ rw same (rw same at q)
        | inr other ↦ rw other (rw other at q)
      ]

  reject :
      (now : ℕ) (w : World F) (source : Addr) (o : Option Datagram)
      → IsRejected w source o
      → Ensures (IsIgnored w source o) (receive_from now w source o)
  reject now w source none h = refl
  reject now w source (some d) (inl h) =
      let n : is_from source.ip (lookup d.id w.tcp_ips) ≡ false =
        foreign_lem source.ip (lookup d.id w.tcp_ips) h in
      rw n (inl refl)
  reject now w source (some d) (inr (inl h)) =
      Ensures-test (IsIgnored w source (some d)) (is_from source.ip (lookup d.id w.tcp_ips)) _ _
        (from_home now w source d (inl h)) (inl refl)
  reject now w source (some d) (inr (inr (known, found, same, old))) =
      Ensures-test (IsIgnored w source (some d)) (is_from source.ip (lookup d.id w.tcp_ips)) _ _
        (from_home now w source d (
          inr (
            subst (λ (v : World F). is_newer d.seq (or_default (lookup d.id v.seqs)) ≡ false)
              (sym (learn-same w d.id source known found same)) old)))
        (inl refl)

  -- A datagram that does not parse, or is for an id without a registered address, or comes from
  -- another machine than that id's handshake, or is no cursor report, or is not newer than the last
  -- number from its address, changes nothing at all, unless it comes from the machine of its id's
  -- handshake: then it changes at most when that client was heard, its address and its last number.
  pub receive_rejected :
      (now : ℕ) (w : World F) (source : Addr) (bytes : List ℕ)
      → IsRejected w source (unpack bytes)
      → Ensures (IsIgnored w source (unpack bytes)) (receive now w source bytes)
  unfolding receive
  receive_rejected now w source bytes h = reject now w source (unpack bytes) h
