-- ===== src/Server/Policy.antt =====
-- crates/core/src/server/mod.rs: who may connect; crates/app/src/config/ids.rs: the id lists.
use kvmshare.Prelude.{
  Bool, List, [], any, bytes_eq, false, if◌then◌else◌, leb, length, ltb, not, retain, true, ℕ, ◌&&◌,
  ◌++◌, ◌==◌, ◌||◌, ◌∷◌,
}
use Prim.Native.Nat.{bit_and}

pub record Policy : Type 0 where
  pub allowlist : Bool
  pub local_only : Bool
  pub trusted_ids : List (List ℕ)
  pub revoked_ids : List (List ℕ)

abbrev pub default_policy : Policy
default_policy = record { allowlist = true; local_only = true; trusted_ids = []; revoked_ids = [] }

-- `str::starts_with`.
abbrev pub starts_with : List ℕ → List ℕ → Bool
starts_with id [] = true
starts_with [] (y ∷ ys) = false
starts_with (x ∷ xs) (y ∷ ys) = (x == y) && starts_with xs ys

-- The guard for an empty entry is part of the one for a short entry.
unfoldable pub id_matches : List ℕ → List ℕ → Bool
id_matches id entry = not (ltb (length entry) 4) && (bytes_eq id entry || starts_with id entry)

unfoldable pub is_revoked : Policy → List ℕ → Bool
is_revoked p id = any (λ r. id_matches id r) p.revoked_ids

unfoldable pub is_trusted : Policy → List ℕ → Bool
is_trusted p id = any (λ t. id_matches id t) p.trusted_ids

-- `set_id`: an id is added to a list, or every form of it removed.
unfoldable pub set_id : List (List ℕ) → List ℕ → Bool → List (List ℕ)
set_id ids id on =
    let kept = retain (λ t. not (id_matches t id || id_matches id t)) ids in
    if on then kept ++ id ∷ [] else kept

-- `IpAddr`: four octets, or sixteen.
pub data Ip : Type 0 where
  v4 : ℕ → ℕ → ℕ → ℕ → Ip
  v6 : List ℕ → Ip

abbrev pub ip_eq : Ip → Ip → Bool
ip_eq (Ip.v4 a b c d) (Ip.v4 a' b' c' d') = (a == a') && (b == b') && (c == c') && (d == d')
ip_eq (Ip.v4 a b c d) (Ip.v6 o) = false
ip_eq (Ip.v6 o) (Ip.v4 a b c d) = false
ip_eq (Ip.v6 o) (Ip.v6 o') = bytes_eq o o'

-- `SocketAddr`.
pub record Addr : Type 0 where
  pub ip : Ip
  pub port : ℕ

abbrev pub addr_eq : Addr → Addr → Bool
addr_eq a b = ip_eq a.ip b.ip && (a.port == b.port)

-- The standard library's tests on IPv4: private ranges, loopback, link-local.
abbrev pub is_private_v4 : ℕ → ℕ → Bool
is_private_v4 a b = (a == 10) || (a == 172 && leb 16 b && leb b 31) || (a == 192 && b == 168)

-- On IPv6: loopback, unique local (fc00::/7), link-local (fe80::/10).
abbrev pub is_local_v6 : List ℕ → Bool
is_local_v6 (o0 ∷ o1 ∷ os) =
    bytes_eq (o0 ∷ o1 ∷ os) (0 ∷ 0 ∷ 0 ∷ 0 ∷ 0 ∷ 0 ∷ 0 ∷ 0 ∷ 0 ∷ 0 ∷ 0 ∷ 0 ∷ 0 ∷ 0 ∷ 0 ∷ 1 ∷ [])
    || (bit_and o0 254 == 252)
    || (o0 == 254 && bit_and o1 192 == 128)
is_local_v6 _ = false

unfoldable pub is_local_ip : Ip → Bool
is_local_ip (Ip.v4 a b c d) = is_private_v4 a b || a == 127 || (a == 169 && b == 254)
is_local_ip (Ip.v6 o) = is_local_v6 o
