-- ===== src/Keys/Names.antt =====
-- crates/platform/src/keys.rs: the tables agree with each other.
use kvmshare.Prelude.{
  ==_iff, Bool, Bool-cases, List, Option, Option-cases, [], ap, arith, false, inl, inr, none, refl,
  some, subst, true, ℕ, ◌&&◌, ◌==◌, ◌↔◌, ◌∷◌, ◌≡◌, ◌⊎◌,
}
use kvmshare.Keys.{
  evdev_from_hid, hid_from_evdev, hid_from_scancode, hid_of, named, same_flag, scan_of,
  scancode_from_hid,
}
use kvmshare.Keys.Evdev.{hid_to_evdev}
use kvmshare.Keys.Scan.{hid_to_scan}
use kvmshare.Keys.Usages.{evdev_to_hid}
use kvmshare.Layout.Ray.{scan}

abbrev is_some_of : ℕ → Option ℕ → Bool
is_some_of n none = false
is_some_of n (some m) = m == n

is_some_of→eq : (n : ℕ) (o : Option ℕ) → is_some_of n o ≡ true → o ≡ some n
is_some_of→eq n none h = cc
is_some_of→eq n (some m) h = ap some ((==_iff m n).0 h)

-- Every pair of a table passes a test.
abbrev passes : (ℕ → ℕ → Bool) → List (ℕ × ℕ) → Bool
passes p [] = true
passes p ((a, b) ∷ ps) = p a b && passes p ps

passes-named :
    (p : ℕ → ℕ → Bool) (ps : List (ℕ × ℕ)) (a b : ℕ)
    → passes p ps ≡ true
    → named a ps ≡ some b
    → p a b ≡ true
passes-named p [] a b h e = cc
passes-named p ((c, d) ∷ ps) a b h e = elim (Bool-cases (c == a)) [
  | inl hit ↦
      let same : c ≡ a = (==_iff c a).0 hit in
      let e' : some d ≡ some b = rw hit at e in
      let own : d ≡ b = cc in
      subst (λ k. p k b ≡ true) same (subst (λ k. p c k ≡ true) own (ground arith))
  | inr miss ↦ passes-named p ps a b (ground arith) (rw miss at e)
]

all_back : passes (λ hid evdev. is_some_of hid (named evdev evdev_to_hid)) hid_to_evdev ≡ true
all_back = refl

all_forth : passes (λ evdev hid. is_some_of evdev (named hid hid_to_evdev)) evdev_to_hid ≡ true
all_forth = refl

-- The same for scan codes.
abbrev is_code_of : ℕ → Bool → Option (ℕ × Bool) → Bool
is_code_of scan extended none = false
is_code_of scan extended (some (s, e)) = (s == scan) && same_flag e extended

flags_agree : (a b : Bool) → same_flag a b ≡ true → a ≡ b
flags_agree true true h = refl
flags_agree true false h = cc
flags_agree false true h = cc
flags_agree false false h = refl

and_both : (a b : Bool) → (a && b) ≡ true → (a ≡ true) × (b ≡ true)
and_both true b h = (refl, h)
and_both false b h = cc

is_code_of→eq :
    (scan : ℕ) (extended : Bool) (o : Option (ℕ × Bool))
    → is_code_of scan extended o ≡ true
    → o ≡ some (scan, extended)
is_code_of→eq scan extended none h = cc
is_code_of→eq scan extended (some (s, e)) h =
    let (code, flag) = and_both (s == scan) (same_flag e extended) h in
    let same : s ≡ scan = (==_iff s scan).0 code in
    let agree : e ≡ extended = flags_agree e extended flag in cc

abbrev codes_pass : List (ℕ × ℕ × Bool) → Bool
codes_pass [] = true
codes_pass ((h, s, e) ∷ ps) = is_code_of s e (scan_of h hid_to_scan) && codes_pass ps

codes_pass-hid_of :
    (ps : List (ℕ × ℕ × Bool)) (scan : ℕ) (extended : Bool) (hid : ℕ)
    → codes_pass ps ≡ true
    → hid_of scan extended ps ≡ some hid
    → is_code_of scan extended (scan_of hid hid_to_scan) ≡ true
codes_pass-hid_of [] scan extended hid k e = cc
codes_pass-hid_of ((h, s, f) ∷ ps) scan extended hid k e =
    let (first, others) = and_both (is_code_of s f (scan_of h hid_to_scan)) (codes_pass ps) k in
    elim (Bool-cases ((s == scan) && same_flag f extended)) [
      | inl hit ↦
          let (code, flag) = and_both (s == scan) (same_flag f extended) hit in
          let same : s ≡ scan = (==_iff s scan).0 code in
          let agree : f ≡ extended = flags_agree f extended flag in
          let e' : some h ≡ some hid = rw hit at e in
          let own : h ≡ hid = cc in
          subst (λ n. is_code_of scan extended (scan_of n hid_to_scan) ≡ true) own
            (subst (λ n. is_code_of n extended (scan_of h hid_to_scan) ≡ true) same
              (subst (λ b. is_code_of s b (scan_of h hid_to_scan) ≡ true) agree first))
      | inr miss ↦ codes_pass-hid_of ps scan extended hid others (rw miss at e)
    ]

all_codes : codes_pass hid_to_scan ≡ true
all_codes = refl

-- A HID usage has an evdev code exactly when the code has that usage, in both tables, and a scan code
-- that has a usage is the scan code of that usage.
pub evdev_from_hid_lem :
    (hid evdev scan : ℕ) (extended : Bool)
    → ((evdev_from_hid hid ≡ some evdev) ↔ (hid_from_evdev evdev ≡ some hid))
      × ((hid_from_scancode scan extended ≡ none)
          ⊎ ((h : ℕ) × (hid_from_scancode scan extended ≡ some h)
              × (scancode_from_hid h ≡ some (scan, extended))))
unfolding evdev_from_hid hid_from_evdev hid_from_scancode scancode_from_hid
evdev_from_hid_lem hid evdev scan extended = (
  (
    λ e. is_some_of→eq hid _ (
        passes-named (λ h e. is_some_of h (named e evdev_to_hid)) hid_to_evdev hid evdev all_back
          e),
    λ e. is_some_of→eq evdev _ (
        passes-named (λ e h. is_some_of e (named h hid_to_evdev)) evdev_to_hid evdev hid all_forth
          e),
  ),
  elim (Option-cases (hid_of scan extended hid_to_scan)) [
    | inl miss ↦ inl miss
    | inr (h, hit) ↦ inr (
      h,
      hit,
      is_code_of→eq scan extended _ (codes_pass-hid_of hid_to_scan scan extended h all_codes hit),
    )
  ],
)
