-- ===== src/Prelude/Maps.antt =====
-- `HashMap` with numbers for keys, as a list of pairs with at most one pair for a key.
use kvmshare.Prelude.{
  Bool-cases, List, Option, [], arith, false, if◌then◌else◌, inl, inr, none, refl, some, ℕ, ◌==◌,
  ◌∷◌, ◌≡◌,
}

module _ {A : Type 0} where
  abbrev pub lookup : ℕ → List (ℕ × A) → Option A
  lookup k [] = none
  lookup k (p ∷ ps) = if p.0 == k then some p.1 else lookup k ps

  abbrev pub remove : ℕ → List (ℕ × A) → List (ℕ × A)
  remove k [] = []
  remove k (p ∷ ps) = if p.0 == k then remove k ps else p ∷ remove k ps

  abbrev pub insert : ℕ → A → List (ℕ × A) → List (ℕ × A)
  insert k a ps = (k, a) ∷ remove k ps

  pub lookup-remove_same : (k : ℕ) (ps : List (ℕ × A)) → lookup k (remove k ps) ≡ none
  lookup-remove_same k [] = refl
  lookup-remove_same k (p ∷ ps) = elim (Bool-cases (p.0 == k)) [
    | inl hit ↦ rw hit (lookup-remove_same k ps)
    | inr miss ↦ rw miss (ground (arith, lookup-remove_same k ps))
  ]

  pub lookup-remove_other :
      (k j : ℕ) (ps : List (ℕ × A)) → (j == k) ≡ false → lookup k (remove j ps) ≡ lookup k ps
  lookup-remove_other k j [] n = refl
  lookup-remove_other k j (p ∷ ps) n = elim (Bool-cases (p.0 == j)) [
    | inl hit ↦ ground (arith, lookup-remove_other k j ps n)
    | inr miss ↦ ground (arith, lookup-remove_other k j ps n)
  ]

  pub lookup-insert_same : (k : ℕ) (a : A) (ps : List (ℕ × A)) → lookup k (insert k a ps) ≡ some a
  lookup-insert_same k a ps = ground arith

  pub lookup-insert_other :
      (k j : ℕ) (a : A) (ps : List (ℕ × A))
      → (j == k) ≡ false
      → lookup k (insert j a ps) ≡ lookup k ps
  lookup-insert_other k j a ps n = ground (arith, lookup-remove_other k j ps n)
