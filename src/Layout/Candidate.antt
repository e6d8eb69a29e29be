-- ===== src/Layout/Candidate.antt =====
-- What `neighbor` chooses: the candidate with the least score.
use kvmshare.Prelude.{
  Bool, Bool-cases, In, List, Option, [], arith, false, if◌then◌else◌, inl, inr, none, refl, some,
  subst, sym, true, ◌&&◌, ◌∷◌, ◌≡◌, ◌⊎◌,
}
use kvmshare.Layout.Edges.{Direction}
use kvmshare.Layout.Ray.{Best, beats, consider, is_candidate, lex_lt, scan, score}
use kvmshare.Prelude.Int.{ℤ}
use kvmshare.Protocol.Geometry.{Screen}

-- No score is less than itself, and "not less" is transitive.
lex_lt_irrefl : (a b : ℤ) → lex_lt a b a b ≡ false
lex_lt_irrefl a b = ground arith

lex_lt_trans :
    (a b c d e f : ℤ) → lex_lt a b c d ≡ false → lex_lt c d e f ≡ false → lex_lt a b e f ≡ false
lex_lt_trans a b c d e f p q = ground arith

lex_lt_asymm : (a b c d : ℤ) → lex_lt a b c d ≡ true → lex_lt c d a b ≡ false
lex_lt_asymm a b c d p = ground arith

-- `s` does not beat `b`.
abbrev pub NotBeaten : Best → Best → Type 0
NotBeaten b s = lex_lt s.perp_score s.parallel_score b.perp_score b.parallel_score ≡ false

NotBeaten-trans : (a b c : Best) → NotBeaten b c → NotBeaten a b → NotBeaten a c
NotBeaten-trans a b c p q =
    lex_lt_trans c.perp_score c.parallel_score b.perp_score b.parallel_score a.perp_score
      a.parallel_score p q

abbrev pub OldBest : Option Best → Best → Type 0
OldBest none b = Unit {0}
OldBest (some o) b = NotBeaten b o

-- A choice between a new candidate and the best so far.
abbrev choose : Bool → Best → Option Best → Option Best
choose c new best = if c && beats new best then some new else best

choose_keeps :
    (c : Bool) (new : Best) (best : Option Best) (b : Best)
    → OldBest (choose c new best) b
    → OldBest best b × (c ≡ true → NotBeaten b new)
choose_keeps false new best b o = (o, λ e. cc)
choose_keeps true new none b o = (tt, λ e. o)
choose_keeps true new (some old) b o = elim (Bool-cases (beats new (some old))) [
  | inl wins ↦
      let o' : NotBeaten b new = rw wins at o in
      (
        NotBeaten-trans b new old
            (lex_lt_asymm new.perp_score new.parallel_score old.perp_score old.parallel_score wins)
            o',
        λ e. o',
      )
  | inr loses ↦
      let o' : NotBeaten b old = rw loses at o in (o', λ e. NotBeaten-trans b old new loses o')
]

choose_from :
    (c : Bool) (new : Best) (best : Option Best) (b : Best)
    → choose c new best ≡ some b
    → (best ≡ some b) ⊎ ((c ≡ true) × (b ≡ new))
choose_from false new best b e = inl e
choose_from true new best b e = elim (Bool-cases (beats new best)) [
  | inl wins ↦ inr (refl, let e' : some new ≡ some b = rw wins at e in cc)
  | inr loses ↦ inl (rw loses at e)
]

choose-none :
    (c : Bool) (new : Best) (best : Option Best)
    → choose c new best ≡ none
    → (best ≡ none) × (c ≡ false)
choose-none c new none e = ground arith
choose-none c new (some o) e = ground arith

module _ (dir : Direction) (exit_perp : ℤ) (from : Screen) where
  -- The result is the score of a candidate of the list, unless it is the best that came in.
  pub scan_from :
      (ss : List Screen) (best : Option Best) (b : Best)
      → scan dir exit_perp from ss best ≡ some b
      → (best ≡ some b)
        ⊎ ((s : Screen) × In s ss
            × (is_candidate dir from s ≡ true)
            × (b ≡ score dir exit_perp from.rect s))
  unfolding scan consider
  scan_from [] best b e = inl e
  scan_from (s ∷ ss) best b e = elim (scan_from ss (consider dir exit_perp from s best) b e) [
    | inl old ↦
        elim (choose_from (is_candidate dir from s) (score dir exit_perp from.rect s) best b old) [
          | inl first ↦ inl first
          | inr (c, p) ↦ inr (s, inl refl, c, p)
        ]
    | inr (t, i, c, p) ↦ inr (t, inr i, c, p)
  ]

  -- No candidate of the list beats the result.
  pub scan_best :
      (ss : List Screen) (best : Option Best) (b : Best)
      → scan dir exit_perp from ss best ≡ some b
      → OldBest best b
        × ((s : Screen)
            → In s ss
            → is_candidate dir from s ≡ true
            → NotBeaten b (score dir exit_perp from.rect s))
  unfolding scan consider
  scan_best [] best b e = (
    subst (λ o. OldBest o b) (sym e) (lex_lt_irrefl b.perp_score b.parallel_score),
    λ s i. elim i [ ],
  )
  scan_best (s ∷ ss) best b e =
      let (old, rest) = scan_best ss (consider dir exit_perp from s best) b e in
      let new = score dir exit_perp from.rect s in
      let (first, here) = choose_keeps (is_candidate dir from s) new best b old in
      (
        first,
        λ t i. elim i [
          | inl p ↦
              subst
                (λ u.
                  is_candidate dir from u ≡ true → NotBeaten b (score dir exit_perp from.rect u))
                (sym p) here
          | inr j ↦ rest t j
        ],
      )

  pub scan-none :
      (ss : List Screen) (best : Option Best)
      → scan dir exit_perp from ss best ≡ none
      → (best ≡ none) × ((s : Screen) → In s ss → is_candidate dir from s ≡ false)
  unfolding scan consider
  scan-none [] best e = (e, λ s i. elim i [ ])
  scan-none (s ∷ ss) best e =
      let (old, rest) = scan-none ss (consider dir exit_perp from s best) e in
      let (first, here) =
        choose-none (is_candidate dir from s) (score dir exit_perp from.rect s) best old in
      (
        first,
        λ t i. elim i [
          | inl p ↦ subst (λ u. is_candidate dir from u ≡ false) (sym p) here
          | inr j ↦ rest t j
        ],
      )
