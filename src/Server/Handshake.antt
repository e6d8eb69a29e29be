-- ===== src/Server/Handshake.antt =====
-- crates/core/src/server/client.rs: `exchange_hello` and what `Client::spawn` does with it.
use kvmshare.Prelude.{
  Bool, List, Option, false, if◌then◌else◌, none, not, some, true, ℕ, ◌&&◌, ◌||◌,
}
use kvmshare.Protocol.Geometry.{ScreenInfo}
use kvmshare.Protocol.Ids.{compatible}
use kvmshare.Protocol.Message.{Message}
use kvmshare.Server.Policy.{Addr, Ip, is_local_ip, is_revoked, is_trusted}
use kvmshare.Server.Registry.{register}
use kvmshare.Server.World.{World}
use kvmshare.Session.Clients.{admit_client, assign_screen_id}
use kvmshare.Session.State.{Session}
use kvmshare.Transport.{RecvResult}

-- The answer to the first message of a connection. A refusal has the code of the `Error` that is
-- sent, if one is; its text is left out.
pub data Handshake : Type 0 where
  refused : Option ℕ → Handshake
  accepted : ℕ → List ℕ → List ℕ → ScreenInfo → Bool → Handshake

-- `id::errors`.
abbrev pub version_mismatch_error : ℕ
version_mismatch_error = 2

abbrev pub name_conflict_error : ℕ
name_conflict_error = 3

abbrev pub not_allowed_error : ℕ
not_allowed_error = 5

abbrev pub not_local_error : ℕ
not_local_error = 6

abbrev pub revoked_error : ℕ
revoked_error = 7

abbrev pub is_some : {A : Type 0} → Option A → Bool
is_some none = false
is_some (some a) = true

module _ {F : Type 0} where
  abbrev pub admitted_as :
      World F → List ℕ → List ℕ → ScreenInfo → Session F × Option (ℕ × Bool) → World F × Handshake
  admitted_as w machine_id name info (s, none) =
      (record w { session = s }, Handshake.refused (some name_conflict_error))
  admitted_as w machine_id name info (s, some (id, fresh)) =
      (record w { session = s }, Handshake.accepted id machine_id name info fresh)

  -- Named in the layout, or trusted; without the allowlist, anyone.
  unfoldable pub is_allowed : World F → List ℕ → List ℕ → Bool
  is_allowed w machine_id name =
      not w.policy.allowlist
      || is_some (assign_screen_id w.session name)
      || is_trusted w.policy machine_id

  -- The rules, for a `Hello`.
  unfoldable pub greet : World F → Ip → ℕ → List ℕ → List ℕ → ScreenInfo → World F × Handshake
  greet w peer version machine_id name info =
      if not (compatible version)
      then (w, Handshake.refused (some version_mismatch_error))
      else if is_revoked w.policy machine_id
      then (w, Handshake.refused (some revoked_error))
      else if w.policy.local_only && not (is_local_ip peer)
      then (w, Handshake.refused (some not_local_error))
      else if not (is_allowed w machine_id name)
      then (w, Handshake.refused (some not_allowed_error))
      else admitted_as w machine_id name info (admit_client w.session name info)

  unfoldable pub exchange_hello : World F → Ip → RecvResult → World F × Handshake
  exchange_hello w peer (RecvResult.msg (Message.hello version machine_id name info)) =
      greet w peer version machine_id name info
  exchange_hello w peer _ = (w, Handshake.refused none)

  abbrev pub after_hello : ℕ → Addr → World F × Handshake → World F
  after_hello now peer (w, Handshake.refused code) = w
  after_hello now peer (w, Handshake.accepted id machine_id name info fresh) =
      register now w id machine_id name info fresh peer

  -- `Client::spawn`.
  unfoldable pub spawn : ℕ → World F → Addr → RecvResult → World F
  spawn now w peer first = after_hello now peer (exchange_hello w peer.ip first)
