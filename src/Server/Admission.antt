-- ===== src/Server/Admission.antt =====
-- crates/core/src/server/client.rs: who passes the handshake.
use kvmshare.Prelude.{
  Bool, List, Option, any, ap, arith, bytes_eq, false, none, not, refl, some, test_keeps, true, ℕ,
  ◌&&◌, ◌==◌, ◌||◌, ◌≡◌,
}
use kvmshare.Protocol.Geometry.{ScreenInfo}
use kvmshare.Protocol.Ids.{compatible}
use kvmshare.Protocol.Message.{Message}
use kvmshare.Server.Handshake.{
  Handshake, admitted_as, exchange_hello, greet, is_allowed, is_some, not_allowed_error,
}
use kvmshare.Server.Policy.{Ip, is_local_ip, is_revoked, is_trusted}
use kvmshare.Server.World.{World}
use kvmshare.Session.Clients.{admit_at, admit_client, admit_new, assign_screen_id, free_id}
use kvmshare.Session.State.{Session}
use kvmshare.Transport.{RecvResult}

-- A `Hello` that the policy of the server lets in.
pub record MayEnter {F : Type 0} (w : World F) (peer : Ip) (machine_id name : List ℕ) (version : ℕ)
    : Type 0 where
  pub spoken : compatible version ≡ true
  pub unrevoked : is_revoked w.policy machine_id ≡ false
  pub near : w.policy.local_only ≡ true → is_local_ip peer ≡ true
  pub listed :
      w.policy.allowlist ≡ true
      → (is_some (assign_screen_id w.session name) || is_trusted w.policy machine_id) ≡ true

-- What a handshake may do: a refusal changes nothing, and an acceptance answers a `Hello` that may
-- enter and changes nothing but the session.
abbrev pub IsGuarded : {F : Type 0} → World F → Ip → RecvResult → World F × Handshake → Type 0
IsGuarded w peer first (w', Handshake.refused code) = w' ≡ w
IsGuarded w peer first (w', Handshake.accepted id machine_id name info fresh) =
    ((version : ℕ) × (first ≡ RecvResult.msg (Message.hello version machine_id name info))
      × MayEnter w peer machine_id name version)
    × (w' ≡ record w { session = w'.session })

implied : (a b : Bool) → (a && not b) ≡ false → a ≡ true → b ≡ true
implied a b h e = ground arith

listed_if : (a b c : Bool) → not (not a || b || c) ≡ false → a ≡ true → (b || c) ≡ true
listed_if a b c h e = ground arith

not-false : (a : Bool) → not a ≡ false → a ≡ true
not-false a h = ground arith

module _ {F : Type 0} where
  -- A conflict leaves the session as it was.
  IsKept : Session F → Session F × Option (ℕ × Bool) → Type 0
  IsKept s (t, none) = t ≡ s
  IsKept s (t, some r) = Unit

  admit_at-IsKept :
      (s : Session F) (name : List ℕ) (info : ScreenInfo) (o : Option ℕ)
      → IsKept s (admit_at s name info o)
  unfolding IsKept
  admit_at-IsKept s name info none = refl
  admit_at-IsKept s name info (some id) = tt

  admit_new-IsKept :
      (s : Session F) (name : List ℕ) (info : ScreenInfo) (o : Option ℕ)
      → IsKept s (admit_new s name info o)
  unfolding IsKept
  admit_new-IsKept s name info (some id) = tt
  admit_new-IsKept s name info none =
      test_keeps (IsKept s) (any (λ sc. (sc.id == 0) && bytes_eq sc.name name) s.layout.screens) _ _
        refl (λ e. admit_at-IsKept s name info (free_id s.layout.screens 1 255))

  admitted_as-IsGuarded :
      (w : World F) (peer : Ip) (version : ℕ) (machine_id name : List ℕ) (info : ScreenInfo)
      (r : Session F × Option (ℕ × Bool))
      → MayEnter w peer machine_id name version
      → IsKept w.session r
      → IsGuarded w peer
          (RecvResult.msg (Message.hello version machine_id name info))
          (admitted_as w machine_id name info r)
  unfolding IsKept
  admitted_as-IsGuarded w peer version machine_id name info (s, none) h e =
      ap (λ t. record w { session = t }) e
  admitted_as-IsGuarded w peer version machine_id name info (s, some (id, fresh)) h e =
      ((version, refl, h), refl)

  listed_when :
      (w : World F) (machine_id name : List ℕ)
      → not (is_allowed w machine_id name) ≡ false
      → w.policy.allowlist ≡ true
      → (is_some (assign_screen_id w.session name) || is_trusted w.policy machine_id) ≡ true
  unfolding is_allowed
  listed_when w machine_id name h e = listed_if w.policy.allowlist _ _ h e

  greet-IsGuarded :
      (w : World F) (peer : Ip) (version : ℕ) (machine_id name : List ℕ) (info : ScreenInfo)
      → IsGuarded w peer
          (RecvResult.msg (Message.hello version machine_id name info))
          (greet w peer version machine_id name info)
  unfolding greet admit_client
  greet-IsGuarded w peer version machine_id name info =
      let Q = IsGuarded w peer (RecvResult.msg (Message.hello version machine_id name info)) in
      test_keeps Q (not (compatible version)) _ _ refl (λ spoken.
        test_keeps Q (is_revoked w.policy machine_id) _ _ refl (λ unrevoked.
          test_keeps Q (w.policy.local_only && not (is_local_ip peer)) _ _ refl (λ near.
            test_keeps Q (not (is_allowed w machine_id name))
              (w, Handshake.refused (some not_allowed_error)) _ refl
              (λ listed.
                admitted_as-IsGuarded w peer version machine_id name info _
                  (record {
                    spoken = not-false (compatible version) spoken;
                    unrevoked = unrevoked;
                    near = implied w.policy.local_only (is_local_ip peer) near;
                    listed = listed_when w machine_id name listed;
                  })
                  (admit_new-IsKept w.session name info (assign_screen_id w.session name))))))

  -- A handshake that is accepted answered a `Hello` of a compatible version from a machine whose id
  -- is not revoked, from the local network if the policy asks for that, and, under the allowlist,
  -- with a name in the layout or a trusted id; it changes nothing but the session. A handshake that
  -- is refused changes nothing.
  pub exchange_hello-IsGuarded :
      (w : World F) (peer : Ip) (first : RecvResult)
      → IsGuarded w peer first (exchange_hello w peer first)
  unfolding exchange_hello
  exchange_hello-IsGuarded w peer (RecvResult.msg (Message.hello version machine_id name info)) =
      greet-IsGuarded w peer version machine_id name info
  exchange_hello-IsGuarded w peer (RecvResult.msg (Message.welcome v n l i)) = refl
  exchange_hello-IsGuarded w peer (RecvResult.msg (Message.screen_info s)) = refl
  exchange_hello-IsGuarded w peer (RecvResult.msg (Message.layout l)) = refl
  exchange_hello-IsGuarded w peer (RecvResult.msg (Message.control c)) = refl
  exchange_hello-IsGuarded w peer (RecvResult.msg (Message.enter i x y)) = refl
  exchange_hello-IsGuarded w peer (RecvResult.msg (Message.leave i)) = refl
  exchange_hello-IsGuarded w peer (RecvResult.msg (Message.mouse_move_abs x y)) = refl
  exchange_hello-IsGuarded w peer (RecvResult.msg (Message.mouse_move_rel x y)) = refl
  exchange_hello-IsGuarded w peer (RecvResult.msg (Message.cursor_pos x y)) = refl
  exchange_hello-IsGuarded w peer (RecvResult.msg (Message.mouse_button b p)) = refl
  exchange_hello-IsGuarded w peer (RecvResult.msg (Message.mouse_wheel x y)) = refl
  exchange_hello-IsGuarded w peer (RecvResult.msg (Message.key k u)) = refl
  exchange_hello-IsGuarded w peer (RecvResult.msg (Message.clipboard m d)) = refl
  exchange_hello-IsGuarded w peer (RecvResult.msg Message.keepalive) = refl
  exchange_hello-IsGuarded w peer (RecvResult.msg (Message.error c t)) = refl
  exchange_hello-IsGuarded w peer (RecvResult.msg Message.escape) = refl
  exchange_hello-IsGuarded w peer RecvResult.eof = refl
  exchange_hello-IsGuarded w peer RecvResult.no_data = refl
  exchange_hello-IsGuarded w peer RecvResult.waiting = refl
  exchange_hello-IsGuarded w peer (RecvResult.failure e) = refl
