-- ===== src/Common/Decimal.antt =====
-- The C library's `%lu`, as `snprintf` prints and `sscanf` reads it: the service identifiers and the
-- tokens of src/distributed/distributed.c, and the message identifiers of src/mqueue/mqueue.c.
use native.Mathlib.Nat.{pow-suc}
use backend_in_c.Prelude.{
  ℕ, zero, suc, ◌+◌, ◌-◌, ◌*◌, ◌/◌, ◌%◌, ◌^◌, ◌≤◌, ◌<◌, ◌≡◌, refl, ◌∙◌, ap, [], ◌∷◌, ◌++◌,
  append_assoc, Option, none, some, Bool, true, false, ◌&&◌, ◌||◌, CString, arith, leb, ltb, ◌==◌,
  if◌then◌else◌, inl, inr, Bool-cases, length, length-append,
}
use backend_in_c.Common.Words.{u64}

abbrev pub is_digit : ℕ → Bool
is_digit c = leb b'0' c && leb c b'9'

-- A uint64_t has at most 20 digits.
unfoldable pub print_digits : ℕ → ℕ → CString
print_digits zero n = []
print_digits (suc fuel) n =
    let front = print_digits fuel (n / 10) in
    if n / 10 == 0 then (b'0' + n % 10) ∷ [] else front ++ (b'0' + n % 10) ∷ []

unfoldable pub print_lu : ℕ → CString
print_lu n = print_digits 20 n

-- The digits at the front, after those that gave `acc`, and what follows them.
unfoldable pub scan_digits : ℕ → CString → ℕ × CString
scan_digits acc [] = (acc, [])
scan_digits acc (c ∷ s) =
    let rest = scan_digits (acc * 10 + (c - b'0')) s in if is_digit c then rest else (acc, c ∷ s)

abbrev pub is_space : ℕ → Bool
is_space c = c == 32 || (leb 9 c && leb c 13)

unfoldable pub skip_spaces : CString → CString
skip_spaces [] = []
skip_spaces (c ∷ s) = if is_space c then skip_spaces s else c ∷ s

-- `strtoul` after white space and sign: a digit is needed, and a value out of range is the largest.
scan_unsigned : CString → Option (ℕ × CString)
scan_unsigned [] = none
scan_unsigned (c ∷ s) =
    let (n, rest) = scan_digits 0 (c ∷ s) in
    if is_digit c then some (if ltb n u64 then n else u64 - 1, rest) else none

negated : Option (ℕ × CString) → Option (ℕ × CString)
negated none = none
negated (some (n, rest)) = some ((u64 - n) % u64, rest)

scan_signed : CString → Option (ℕ × CString)
unfolding scan_unsigned negated
scan_signed [] = none
scan_signed (c ∷ s) =
    if c == b'+'
    then scan_unsigned s
    else if c == b'-'
    then negated (scan_unsigned s)
    else scan_unsigned (c ∷ s)

-- `%lu` of `sscanf`: the number and what follows it
unfoldable pub scan_lu : CString → Option (ℕ × CString)
unfolding scan_signed skip_spaces
scan_lu s = scan_signed (skip_spaces s)

-- No digit stands at the front.
abbrev pub IsCut : CString → Type 0
IsCut [] = Unit {0}
IsCut (c ∷ s) = is_digit c ≡ false

scan_digits-cut : (n : ℕ) (rest : CString) → IsCut rest → scan_digits n rest ≡ (n, rest)
unfolding scan_digits
scan_digits-cut n [] h = refl
scan_digits-cut n (c ∷ s) h = rw h refl

scan-digit :
    (m n : ℕ) (rest : CString)
    → scan_digits m ((b'0' + n % 10) ∷ rest) ≡ scan_digits (m * 10 + n % 10) rest
unfolding scan_digits
scan-digit m n rest =
    let e : b'0' + n % 10 - b'0' ≡ n % 10 = omega arith in
    let d : is_digit (b'0' + n % 10) ≡ true = ground arith in rw (d, e) refl

-- Scanning the digits of a number goes on from that number.
scan-print_digits :
    (fuel n : ℕ) (rest : CString)
    → n < 10 ^ fuel
    → scan_digits 0 (print_digits fuel n ++ rest) ≡ scan_digits n rest
unfolding print_digits
scan-print_digits zero n rest h = ap (λ k. scan_digits k rest) (omega arith)
scan-print_digits (suc fuel) n rest h =
    let h' : n < 10 ^ fuel * 10 = rw pow-suc at h in
    let e : n / 10 * 10 + n % 10 ≡ n = omega arith in
    elim (Bool-cases (n / 10 == 0)) [
      | inl small ↦
          let e' : 0 * 10 + n % 10 ≡ n = ground arith in
          rw small (scan-digit 0 n rest ∙ ap (λ k. scan_digits k rest) e')
      | inr big ↦
          rw (big, append_assoc)
            (scan-print_digits fuel (n / 10) ((b'0' + n % 10) ∷ rest) (omega arith)
              ∙ scan-digit (n / 10) n rest
              ∙ ap (λ k. scan_digits k rest) e)
    ]

-- A printed number begins with a digit.
print_digits-front :
    (fuel n : ℕ)
    → (c : ℕ) × (s : CString) × (print_digits (suc fuel) n ≡ c ∷ s) × (is_digit c ≡ true)
unfolding print_digits
print_digits-front zero n = (b'0' + n % 10, [], ground arith, ground arith)
print_digits-front (suc fuel) n = elim (Bool-cases (n / 10 == 0)) [
  | inl small ↦ (b'0' + n % 10, [], rw small, ground arith)
  | inr big ↦
      let (c, s, e, d) = print_digits-front fuel (n / 10) in
      (c, s ++ (b'0' + n % 10) ∷ [], rw big (ap (λ t. t ++ (b'0' + n % 10) ∷ []) e), d)
]

scan_lu-digits :
    (c n : ℕ) (s rest : CString)
    → is_digit c ≡ true
    → scan_digits 0 (c ∷ s) ≡ (n, rest)
    → n < u64
    → scan_lu (c ∷ s) ≡ some (n, rest)
unfolding scan_unsigned scan_signed skip_spaces scan_lu
scan_lu-digits c n s rest d e h =
    let space : is_space c ≡ false = ground arith in
    let plus : c == b'+' ≡ false = ground arith in
    let minus : c == b'-' ≡ false = ground arith in
    let fits : ltb n u64 ≡ true = ground arith in rw (space, plus, minus, d, e, fits) refl

-- A uint64_t that is printed is read back, up to the first character that is no digit.
pub scan_lu-print_lu :
    (n : ℕ) (rest : CString) → n < u64 → IsCut rest → scan_lu (print_lu n ++ rest) ≡ some (n, rest)
unfolding print_lu
scan_lu-print_lu n rest h cut =
    let (c, s, e, d) = print_digits-front 19 n in
    let scanned = scan-print_digits 20 n rest (omega arith) ∙ scan_digits-cut n rest cut in
    rw e (scan_lu-digits c n (s ++ rest) rest d (rw e at scanned) h)

length-print_digits : (fuel n : ℕ) → length (print_digits fuel n) ≤ fuel
unfolding print_digits
length-print_digits zero n = omega arith
length-print_digits (suc fuel) n = elim (Bool-cases (n / 10 == 0)) [
  | inl small ↦ rw small (omega arith)
  | inr big ↦ rw (big, length-append) (omega (arith, length-print_digits fuel (n / 10)))
]

pub length-print_lu : (n : ℕ) → length (print_lu n) ≤ 20
unfolding print_lu
length-print_lu n = length-print_digits 20 n

scan_unsigned-lt :
    (s : CString) {n : ℕ} {rest : CString} → scan_unsigned s ≡ some (n, rest) → n < u64
unfolding scan_unsigned
scan_unsigned-lt [] h = absurd (cc)
scan_unsigned-lt (c ∷ s) h = ground arith

negated-lt :
    (o : Option (ℕ × CString)) {n : ℕ} {rest : CString} → negated o ≡ some (n, rest) → n < u64
unfolding negated
negated-lt none h = absurd (cc)
negated-lt (some (m, r)) {n} h = ground arith

scan_signed-lt : (s : CString) {n : ℕ} {rest : CString} → scan_signed s ≡ some (n, rest) → n < u64
unfolding scan_signed
scan_signed-lt [] h = absurd (cc)
scan_signed-lt (c ∷ s) {n} {rest} h = elim (Bool-cases (c == b'+')) [
  | inl plus ↦ scan_unsigned-lt s {n = n} {rest = rest} (rw plus at h)
  | inr other ↦ elim (Bool-cases (c == b'-')) [
    | inl minus ↦ negated-lt (scan_unsigned s) {n = n} {rest = rest} (rw (other, minus) at h)
    | inr digit ↦ scan_unsigned-lt (c ∷ s) {n = n} {rest = rest} (rw (other, digit) at h)
  ]
]

-- Whatever the text, the number that is read fits uint64_t.
pub scan_lu-lt : (s : CString) {n : ℕ} {rest : CString} → scan_lu s ≡ some (n, rest) → n < u64
unfolding scan_lu
scan_lu-lt s {n} {rest} h = scan_signed-lt (skip_spaces s) {n = n} {rest = rest} h
