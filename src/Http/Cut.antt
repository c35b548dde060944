-- ===== src/Http/Cut.antt =====
-- The string functions that `http_request_parse` of src/http/http_parser.c calls, on texts whose parts
-- are known.
use backend_in_c.Prelude.{
  ℕ, zero, suc, ◌≤◌, ◌≡◌, refl, sym, ap, ◌∙◌, [], ◌∷◌, ◌++◌, Option, none, some, Bool, true, false,
  inl, inr, Bool-cases, CString, Bytes, length, eq_of_==, ◌==◌, if◌then◌else◌, arith,
}
use backend_in_c.Wal.{c_string}
use backend_in_c.Http.Parse.{strip, cut, is_space, skip_space, word, scan_s}

-- The text has no byte `c`.
abbrev pub lacks : ℕ → CString → Bool
lacks c [] = true
lacks c (d ∷ s) = if d == c then false else lacks c s

pub lacks-append :
    (c : ℕ) (a b : CString) → lacks c a ≡ true → lacks c b ≡ true → lacks c (a ++ b) ≡ true
lacks-append c [] b h k = k
lacks-append c (d ∷ a) b h k = ground (arith, lacks-append c a b)

strip_self : (p s : CString) → strip p (p ++ s) ≡ some s
unfolding strip
strip_self [] s = refl
strip_self (c ∷ p) s = let same : c == c ≡ true = ground arith in rw same (strip_self p s)

-- What is found behind more text.
abbrev pub shifted : CString → Option (CString × CString) → Option (CString × CString)
shifted a none = none
shifted a (some t) = some (a ++ t.0, t.1)

shifted-cons :
    (d : ℕ) (a : CString) (o : Option (CString × CString))
    → (elim (shifted a o) [ none ↦ none | some t ↦ some (d ∷ t.0, t.1) ]) ≡ shifted (d ∷ a) o
shifted-cons d a none = refl
shifted-cons d a (some t) = refl

-- Where the pattern is not, it is looked for a byte later.
pub cut-later :
    (p : CString) (c : ℕ) (s : CString)
    → strip p (c ∷ s) ≡ none
    → cut p (c ∷ s) ≡ shifted (c ∷ []) (cut p s)
unfolding cut
cut-later p c s e = rw (cut, e) (by_rest (cut p s))
  where
    by_rest :
        (o : Option (CString × CString))
        → (elim o [ none ↦ none | some t ↦ some (c ∷ t.0, t.1) ]) ≡ shifted (c ∷ []) o
    by_rest none = refl
    by_rest (some t) = refl

-- A pattern is not found in text without its first byte.
pub cut-skip :
    (c : ℕ) (p a s : CString) → lacks c a ≡ true → cut (c ∷ p) (a ++ s) ≡ shifted a (cut (c ∷ p) s)
unfolding cut strip
cut-skip c p [] s h = nothing (cut (c ∷ p) s)
  where
    nothing : (o : Option (CString × CString)) → o ≡ shifted [] o
    nothing none = refl
    nothing (some t) = refl
cut-skip c p (d ∷ a) s h =
    let other : c == d ≡ false = ground arith in
    let rest : lacks c a ≡ true = ground arith in
    rw (cut, strip, other, cut-skip c p a s rest) (shifted-cons d a (cut (c ∷ p) s))

pub cut-none : (c : ℕ) (p s : CString) → lacks c s ≡ true → cut (c ∷ p) s ≡ none
unfolding cut strip
cut-none c p [] h = refl
cut-none c p (d ∷ s) h =
    let other : c == d ≡ false = ground arith in
    let rest : lacks c s ≡ true = ground arith in rw (cut, strip, other, cut-none c p s rest) refl

cut-here : (c : ℕ) (p s : CString) → cut (c ∷ p) ((c ∷ p) ++ s) ≡ some ([], s)
unfolding cut
cut-here c p s = rw (cut, strip_self (c ∷ p) s) refl

pub cut-first :
    (c : ℕ) (p a s : CString) → lacks c a ≡ true → cut (c ∷ p) (a ++ ((c ∷ p) ++ s)) ≡ some (a, s)
cut-first c p a s h =
    cut-skip c p a ((c ∷ p) ++ s) h
    ∙ ap (shifted a) (cut-here c p s)
    ∙ ap (λ t. some (t, s)) (append-nil_lem a)
  where
    append-nil_lem : (a : CString) → a ++ [] ≡ a
    append-nil_lem [] = refl
    append-nil_lem (x ∷ a) = ap (λ t. x ∷ t) (append-nil_lem a)

pub c_string-append :
    (a : CString) (b : Bytes) → lacks 0 a ≡ true → c_string (a ++ b) ≡ a ++ c_string b
unfolding c_string
c_string-append [] b h = refl
c_string-append (d ∷ a) b h =
    let other : d == 0 ≡ false = ground arith in
    let rest : lacks 0 a ≡ true = ground arith in rw (other, c_string-append a b rest) refl

-- The text has no white space.
abbrev pub no_space : CString → Bool
unfolding is_space
no_space [] = true
no_space (c ∷ s) = if is_space c then false else no_space s

no_space-cons :
    (c : ℕ) (s : CString) → no_space (c ∷ s) ≡ true → (is_space c ≡ false) × (no_space s ≡ true)
unfolding no_space
no_space-cons c s h = elim (Bool-cases (is_space c)) [
  | inl space ↦ absurd (false-true (rw space at h))
  | inr letter ↦ (letter, rw letter at h)
]
  where
    false-true : false ≡ true → ⊥
    false-true e = cc

is_space-13 : (c : ℕ) → is_space c ≡ false → c == 13 ≡ false
unfolding is_space
is_space-13 c h = elim (Bool-cases (c == 13)) [
  | inl same ↦ absurd (true-false (sym (ap is_space (eq_of_== c 13 same)) ∙ h))
  | inr other ↦ other
]
  where
    true-false : true ≡ false → ⊥
    true-false e = cc

pub no_space-lacks : (s : CString) → no_space s ≡ true → lacks 13 s ≡ true
no_space-lacks [] h = refl
no_space-lacks (c ∷ s) h =
    let (letter, rest) = no_space-cons c s h in rw (is_space-13 c letter) (no_space-lacks s rest)

word-all :
    (width c : ℕ) (a s : CString)
    → no_space a ≡ true
    → is_space c ≡ true
    → length a ≤ width
    → word width (a ++ c ∷ s) ≡ (a, c ∷ s)
unfolding word
word-all zero c [] s h k fits = refl
word-all zero c (x ∷ a) s h k fits = absurd (omega arith)
word-all (suc width) c [] s h k fits = rw k refl
word-all (suc width) c (x ∷ a) s h k fits =
    let (letter, rest) = no_space-cons x a h in
    rw (letter, word-all width c a s rest k (omega arith)) refl

pub scan_s-word :
    (width c x : ℕ) (a s : CString)
    → no_space (x ∷ a) ≡ true
    → is_space c ≡ true
    → length (x ∷ a) ≤ width
    → scan_s width ((x ∷ a) ++ c ∷ s) ≡ some (x ∷ a, c ∷ s)
unfolding scan_s
scan_s-word width c x a s h k fits =
    let (letter, rest) = no_space-cons x a h in
    let kept : skip_space (x ∷ (a ++ c ∷ s)) ≡ x ∷ (a ++ c ∷ s) = rw (skip_space, letter) refl in
    let all = word-all width c (x ∷ a) s h k fits in
    let some_there : length (x ∷ a) == 0 ≡ false = ground arith in
    rw (scan_s, kept, all, some_there) refl

pub scan_s-space :
    (width c x : ℕ) (a s : CString)
    → no_space (x ∷ a) ≡ true
    → is_space c ≡ true
    → length (x ∷ a) ≤ width
    → scan_s width (b' ' ∷ ((x ∷ a) ++ c ∷ s)) ≡ some (x ∷ a, c ∷ s)
unfolding scan_s skip_space is_space
scan_s-space width c x a s h k fits = scan_s-word width c x a s h k fits
