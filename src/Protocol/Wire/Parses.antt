-- ===== src/Protocol/Wire/Parses.antt =====
-- The readers read back what the writers wrote, wherever it stands in a slice.
use kvmshare.Prelude.{
  List, String, [], ap, append-nil, append_assoc, arith, drop-append, length, length-append, subst,
  sym, take-append, ℕ, ◌++◌, ◌∙◌, ◌≡◌,
}
use kvmshare.Protocol.Wire.{ReadBuf, Reader, and_then, ok, return, take_bytes, ◌>>=◌}

-- A reader that has consumed `front` and has `rest` before it.
abbrev pub between_bytes : List ℕ → List ℕ → ReadBuf
between_bytes front rest = record { bytes = front ++ rest; pos = length front }

-- `m` reads exactly the bytes `bs` and returns `a`, whatever stands around them.
pub record Parses {A : Type 0} (m : Reader A) (bs : List ℕ) (a : A) : Type 0 where
  pub run :
      (front rest : List ℕ)
      → m (between_bytes front (bs ++ rest)) ≡ ok (a, between_bytes (front ++ bs) rest)

pub Parses-return : {A : Type 0} (a : A) → Parses (return a) [] a
Parses-return a = record { run = λ front rest. rw (append-nil front) }

pub Parses->>= :
    {A B : Type 0} (m : Reader A) (f : A → Reader B) {bs cs : List ℕ} {a : A} {b : B}
    → Parses m bs a
    → Parses (f a) cs b
    → Parses (m >>= f) (bs ++ cs) b
Parses->>= m f {bs = bs} {cs = cs} {a = a} {b = b} p q = record {
  run = λ front rest.
      subst
        (λ s. (m >>= f) (between_bytes front s) ≡ ok (b, between_bytes (front ++ (bs ++ cs)) rest))
        (sym (append_assoc bs cs rest))
        (ap (and_then f) (p.run front (cs ++ rest))
          ∙ (q.run (front ++ bs) rest
              ∙ ap (λ s. ok (b, between_bytes s rest)) (append_assoc front bs cs)));
}

take_between :
    (front bs rest : List ℕ) (what : String)
    → take_bytes (length bs) what (between_bytes front (bs ++ rest))
      ≡ ok (bs, between_bytes (front ++ bs) rest)
unfolding take_bytes
take_between front bs rest what = ground (
  arith,
  length-append front (bs ++ rest),
  length-append bs rest,
  length-append front bs,
  drop-append front (bs ++ rest),
  take-append bs rest,
  append_assoc front bs rest,
)

pub Parses-take_bytes : (bs : List ℕ) (what : String) → Parses (take_bytes (length bs) what) bs bs
Parses-take_bytes bs what = record { run = λ front rest. take_between front bs rest what }
