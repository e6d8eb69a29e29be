-- ===== src/Protocol/Frame/Decode.antt =====
-- Reading a frame back from a stream, however the stream cuts the bytes.
use kvmshare.Prelude.{
  Bool-cases, List, [], ap, append-nil, append_assoc, arith, drop, inl, inr, leb, leb→le, length,
  length-append, length-drop, refl, suc, sym, take, zero, ℕ, ◌++◌, ◌+◌, ◌-◌, ◌<◌, ◌∙◌, ◌∷◌, ◌≡◌,
  ◌≤◌,
}
use kvmshare.Protocol.Frame.{Chunk, full, read_full, stopped}

-- What a reader still has to deliver.
abbrev pub contents : List Chunk → List ℕ
contents [] = []
contents (Chunk.bytes b ∷ cs) = b ++ contents cs
contents (Chunk.failure ∷ cs) = []

-- A stream that neither fails nor ends before its bytes are delivered.
abbrev pub Delivers : List Chunk → Type 0
Delivers [] = Unit {0}
Delivers (Chunk.bytes [] ∷ cs) = ⊥
Delivers (Chunk.bytes (b ∷ bs) ∷ cs) = Delivers cs
Delivers (Chunk.failure ∷ cs) = ⊥

-- Two ways to cut one list, where the first cut comes first.
pub split_short :
    (xs ys zs ws : List ℕ)
    → length xs ≤ length zs
    → xs ++ ys ≡ zs ++ ws
    → (zs ≡ xs ++ drop (length xs) zs) × (ys ≡ drop (length xs) zs ++ ws)
split_short [] ys zs ws h e = (refl, e)
split_short (x ∷ xs) ys [] ws h e = absurd (omega arith)
split_short (x ∷ xs) ys (z ∷ zs) ws h e = ground (arith, split_short xs ys zs ws)

split_long :
    (xs ys zs ws : List ℕ)
    → length zs ≤ length xs
    → xs ++ ys ≡ zs ++ ws
    → (take (length zs) xs ≡ zs) × (drop (length zs) xs ++ ys ≡ ws)
split_long xs ys [] ws h e = (refl, e)
split_long [] ys (z ∷ zs) ws h e = absurd (omega arith)
split_long (x ∷ xs) ys (z ∷ zs) ws h e = ground (arith, split_long xs ys zs ws)

length_nil : (xs : List ℕ) → length xs ≡ 0 → xs ≡ []
length_nil [] e = refl
length_nil (x ∷ xs) e = absurd (omega arith)

Delivers-drop :
    (n : ℕ) (bs : List ℕ) (cs : List Chunk)
    → n < length bs
    → Delivers cs
    → Delivers (Chunk.bytes (drop n bs) ∷ cs)
Delivers-drop zero [] cs h d = absurd (omega arith)
Delivers-drop zero (b ∷ bs) cs h d = d
Delivers-drop (suc n) [] cs h d = absurd (omega arith)
Delivers-drop (suc n) (b ∷ bs) cs h d = Delivers-drop n bs cs (omega arith) d

read_full_done :
    (filled : List ℕ) (cs : List Chunk) → read_full (length filled + 0) filled cs ≡ full filled cs
unfolding read_full
read_full_done filled [] = ground arith
read_full_done filled (Chunk.failure ∷ cs) = ground arith
read_full_done filled (Chunk.bytes [] ∷ cs) = ground arith
read_full_done filled (Chunk.bytes (b ∷ bs) ∷ cs) = ground arith

read_full_chunk :
    (want b : ℕ) (filled bs : List ℕ) (cs : List Chunk)
    → length filled + length (b ∷ bs) ≤ want
    → read_full want filled (Chunk.bytes (b ∷ bs) ∷ cs) ≡ read_full want (filled ++ (b ∷ bs)) cs
unfolding read_full
read_full_chunk want b filled bs cs h = ground arith

read_full_cut :
    (need b : ℕ) (filled bs : List ℕ) (cs : List Chunk)
    → 0 < need
    → need < length (b ∷ bs)
    → read_full (length filled + need) filled (Chunk.bytes (b ∷ bs) ∷ cs)
      ≡ full (filled ++ take need (b ∷ bs)) (Chunk.bytes (drop need (b ∷ bs)) ∷ cs)
unfolding read_full
read_full_cut need b filled bs cs p h =
    let room : length filled + need - length filled ≡ need = omega arith in rw room (ground arith)

-- The reader fills its buffer with the next bytes and leaves the others.
pub read_full-Delivers :
    (cs : List Chunk) (filled need rest : List ℕ)
    → Delivers cs
    → contents cs ≡ need ++ rest
    → (cs' : List Chunk) × (read_full (length filled + length need) filled cs
        ≡ full (filled ++ need) cs')
      × (contents cs' ≡ rest)
      × Delivers cs'
read_full-Delivers cs filled [] rest d e =
    (cs, rw (append-nil filled) (read_full_done filled cs), e, d)
read_full-Delivers [] filled (n ∷ ns) rest d e = cc
read_full-Delivers (Chunk.failure ∷ cs) filled (n ∷ ns) rest d e = elim d [ ]
read_full-Delivers (Chunk.bytes [] ∷ cs) filled (n ∷ ns) rest d e = elim d [ ]
read_full-Delivers (Chunk.bytes (b ∷ bs) ∷ cs) filled (n ∷ ns) rest d e =
    elim (Bool-cases (leb (length (b ∷ bs)) (length (n ∷ ns)))) [
      | inl fits ↦
          let (p, q) = split_short (b ∷ bs) (contents cs) (n ∷ ns) rest (leb→le _ _ fits) e in
          next_chunk p (leb→le _ _ fits)
            (read_full-Delivers cs (filled ++ (b ∷ bs)) (drop (length (b ∷ bs)) (n ∷ ns)) rest d q)
      | inr over ↦
          let (p, q) = split_long (b ∷ bs) (contents cs) (n ∷ ns) rest (ground arith) e in
          (
            Chunk.bytes (drop (length (n ∷ ns)) (b ∷ bs)) ∷ cs,
            read_full_cut (length (n ∷ ns)) b filled bs cs (omega arith) (ground arith)
                ∙ ap (λ t. full (filled ++ t) (Chunk.bytes (drop (length (n ∷ ns)) (b ∷ bs)) ∷ cs))
                    p,
            q,
            Delivers-drop (length (n ∷ ns)) (b ∷ bs) cs (ground arith) d,
          )
    ]
  where
    next_chunk :
        n ∷ ns ≡ (b ∷ bs) ++ drop (length (b ∷ bs)) (n ∷ ns)
        → length (b ∷ bs) ≤ length (n ∷ ns)
        → (cs' : List Chunk) × (read_full
              (length (filled ++ (b ∷ bs)) + length (drop (length (b ∷ bs)) (n ∷ ns)))
              (filled ++ (b ∷ bs))
              cs
            ≡ full ((filled ++ (b ∷ bs)) ++ drop (length (b ∷ bs)) (n ∷ ns)) cs')
          × (contents cs' ≡ rest)
          × Delivers cs'
        → (cs' : List Chunk) × (read_full
              (length filled + length (n ∷ ns))
              filled
              (Chunk.bytes (b ∷ bs) ∷ cs)
            ≡ full (filled ++ (n ∷ ns)) cs')
          × (contents cs' ≡ rest)
          × Delivers cs'
    next_chunk p h (cs', r, c, d') = (
      cs',
      read_full_chunk (length filled + length (n ∷ ns)) b filled bs cs (omega arith)
          ∙ (ap (λ w. read_full w (filled ++ (b ∷ bs)) cs)
                (omega
                  (arith, length-append filled (b ∷ bs), length-drop (length (b ∷ bs)) (n ∷ ns)))
              ∙ (r
                  ∙ ap (λ t. full t cs')
                      (append_assoc filled (b ∷ bs) (drop (length (b ∷ bs)) (n ∷ ns))
                        ∙ ap (λ t. filled ++ t) (sym p)))),
      c,
      d',
    )

-- The same for an empty buffer.
pub read_full-front :
    (cs : List Chunk) (need rest : List ℕ)
    → Delivers cs
    → contents cs ≡ need ++ rest
    → (cs' : List Chunk) × (read_full (length need) [] cs ≡ full need cs')
      × (contents cs' ≡ rest)
      × Delivers cs'
read_full-front cs need rest d e =
    let (cs', r, c, d') = read_full-Delivers cs [] need rest d e in
    let zero_add : 0 + length need ≡ length need = omega arith in
    (cs', ap (λ n. read_full n [] cs) (sym zero_add) ∙ r, c, d')

-- A stream that ends too early fills a part of the buffer.
pub read_full_short :
    (cs : List Chunk) (want : ℕ) (filled : List ℕ)
    → Delivers cs
    → length filled + length (contents cs) < want
    → read_full want filled cs ≡ stopped (filled ++ contents cs)
unfolding read_full
read_full_short [] want filled d h = ground (arith, append-nil filled)
read_full_short (Chunk.failure ∷ cs) want filled d h = elim d [ ]
read_full_short (Chunk.bytes [] ∷ cs) want filled d h = elim d [ ]
read_full_short (Chunk.bytes (b ∷ bs) ∷ cs) want filled d h =
    read_full_chunk want b filled bs cs (omega (arith, length-append (b ∷ bs) (contents cs)))
    ∙ (read_full_short cs want (filled ++ (b ∷ bs)) d
          (omega (arith, length-append (b ∷ bs) (contents cs), length-append filled (b ∷ bs)))
        ∙ ap stopped (append_assoc filled (b ∷ bs) (contents cs)))
