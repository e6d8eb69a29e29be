-- ===== src/Server/IdLists.antt =====
-- crates/app/src/config/ids.rs and the server's use of the lists.
use kvmshare.Prelude.{
  Bool, List, [], any, ap, append-nil, arith, bytes_eq_refl, false, if◌then◌else◌, length, not,
  refl, retain, true, ℕ, ◌++◌, ◌||◌, ◌∙◌, ◌∷◌, ◌≡◌, ◌≤◌,
}
use kvmshare.Server.Policy.{Policy, id_matches, is_revoked, set_id, starts_with}

starts_with_refl : (id : List ℕ) → starts_with id id ≡ true
starts_with_refl [] = refl
starts_with_refl (x ∷ xs) = ground (arith, starts_with_refl xs)

matches_refl : (id : List ℕ) → 4 ≤ length id → id_matches id id ≡ true
unfolding id_matches
matches_refl id h = ground (arith, bytes_eq_refl id)

any_last :
    (p : List ℕ → Bool) (xs : List (List ℕ)) (x : List ℕ) → p x ≡ true → any p (xs ++ x ∷ []) ≡ true
any_last p [] x h = ground arith
any_last p (y ∷ ys) x h = ground (arith, any_last p ys x h)

-- Nothing is left that either test picks.
any-retain :
    (p q : List ℕ → Bool) (xs : List (List ℕ)) → any p (retain (λ t. not (q t || p t)) xs) ≡ false
any-retain p q [] = refl
any-retain p q (x ∷ xs) = ground (arith, any-retain p q xs)

retain_twice : (p : List ℕ → Bool) (xs : List (List ℕ)) → retain p (retain p xs) ≡ retain p xs
retain_twice p [] = refl
retain_twice p (x ∷ xs) = ground (arith, retain_twice p xs)

retain-append :
    (p : List ℕ → Bool) (xs ys : List (List ℕ)) → retain p (xs ++ ys) ≡ retain p xs ++ retain p ys
retain-append p [] ys = refl
retain-append p (x ∷ xs) ys = ground (arith, retain-append p xs ys)

not_kept : (id : List ℕ) → 4 ≤ length id → not (id_matches id id || id_matches id id) ≡ false
not_kept id h = ground (arith, matches_refl id h)

kept_again :
    (ids : List (List ℕ)) (id : List ℕ) (before now : Bool)
    → 4 ≤ length id
    → set_id (set_id ids id before) id now ≡ set_id ids id now
unfolding set_id
kept_again ids id before now h =
    let p : List ℕ → Bool = λ t. not (id_matches t id || id_matches id t) in
    ap (λ kept. if now then kept ++ id ∷ [] else kept) (again p before (not_kept id h))
  where
    again :
        (p : List ℕ → Bool) (b : Bool)
        → p id ≡ false
        → retain p (if b then retain p ids ++ id ∷ [] else retain p ids) ≡ retain p ids
    again p false e = retain_twice p ids
    again p true e =
        retain-append p (retain p ids) (id ∷ [])
        ∙ ap (λ ys. retain p (retain p ids) ++ ys) (rw e refl)
        ∙ append-nil _
        ∙ retain_twice p ids

-- An id of at least four bytes that is put on the list of revoked ids is revoked, one that is taken
-- off is not, whatever forms of it the list held, and of two changes for an id the second one
-- counts.
pub set_id_lem :
    (p : Policy) (ids : List (List ℕ)) (id : List ℕ)
    → 4 ≤ length id
    → (is_revoked (record p { revoked_ids = set_id ids id true }) id ≡ true)
      × (is_revoked (record p { revoked_ids = set_id ids id false }) id ≡ false)
      × ((before now : Bool) → set_id (set_id ids id before) id now ≡ set_id ids id now)
unfolding set_id is_revoked
set_id_lem p ids id h = (
  any_last (λ r. id_matches id r) _ id (matches_refl id h),
  any-retain (λ r. id_matches id r) (λ t. id_matches t id) ids,
  λ before now. kept_again ids id before now h,
)
