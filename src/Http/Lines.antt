-- ===== src/Http/Lines.antt =====
-- The header lines that `http_request_parse` of src/http/http_parser.c finds in a text of such lines.
use backend_in_c.Prelude.{
  ℕ, zero, suc, ◌+◌, ◌-◌, ◌≤◌, ◌<◌, ◌≡◌, refl, ap, ◌∙◌, List, [], ◌∷◌, ◌++◌, append_assoc,
  append-nil, Option, none, some, true, false, CString, length, length-append, ltb, leb, ◌==◌, ◌&&◌,
  if◌then◌else◌, arith,
}
use backend_in_c.Http.{crlf}
use backend_in_c.Http.Request.{Header}
use backend_in_c.Http.Parse.{strip, cut, count_lines, header_of, fill_headers, headers_of}
use backend_in_c.Http.Cut.{lacks, shifted, cut-later, cut-skip, cut-first}

-- A line with its end, or some of them.
abbrev pub ended : List CString → CString
ended [] = []
ended (l ∷ ls) = l ++ (crlf ++ ended ls)

-- The lines without the end of the last.
abbrev pub joined : CString → List CString → CString
joined l [] = l
joined l (l' ∷ ls) = l ++ (crlf ++ joined l' ls)

-- A line has a byte, and none of them ends it.
abbrev pub IsLine : CString → Type 0
IsLine l = (0 < length l) × (lacks 13 l ≡ true)

abbrev pub AreLines : List CString → Type 0
AreLines [] = Unit {0}
AreLines (l ∷ ls) = IsLine l × AreLines ls

pub length-ended :
    (l : CString) (ls : List CString) → length (ended (l ∷ ls)) ≡ length (joined l ls) + 2
length-ended l [] = length-append l (crlf ++ [])
length-ended l (l' ∷ ls) = omega (
  arith,
  length-append l (crlf ++ ended (l' ∷ ls)),
  length-append l (crlf ++ joined l' ls),
  length-ended l' ls,
)

pub length-le-ended : (ls : List CString) → length ls ≤ length (ended ls)
length-le-ended [] = omega arith
length-le-ended (l ∷ ls) = omega (arith, length-append l (crlf ++ ended ls), length-le-ended ls)

no_strip :
    (d : ℕ) (s : CString) → d == 13 ≡ false → strip (crlf ++ crlf) (13 ∷ (10 ∷ (d ∷ s))) ≡ none
unfolding strip
no_strip d s other = let apart : 13 == d ≡ false = ground arith in rw (strip, apart) refl

-- An empty line is not found where a line starts.
pub cut-between :
    (d : ℕ) (s : CString)
    → d == 13 ≡ false
    → cut (crlf ++ crlf) (crlf ++ d ∷ s) ≡ shifted crlf (cut (crlf ++ crlf) (d ∷ s))
cut-between d s other =
    cut-later (crlf ++ crlf) 13 (10 ∷ (d ∷ s)) (no_strip d s other)
    ∙ ap (shifted (13 ∷ [])) (cut-skip 13 (10 ∷ crlf) (10 ∷ []) (d ∷ s) refl)
    ∙ both (cut (crlf ++ crlf) (d ∷ s))
  where
    both :
        (o : Option (CString × CString)) → shifted (13 ∷ []) (shifted (10 ∷ []) o) ≡ shifted crlf o
    both none = refl
    both (some t) = refl

-- The empty line behind some lines.
pub cut-lines :
    (l : CString) (ls : List CString) (body : CString)
    → AreLines (l ∷ ls)
    → cut (crlf ++ crlf) (ended (l ∷ ls) ++ (crlf ++ body)) ≡ some (joined l ls, body)
cut-lines l [] body h =
    ap (cut (crlf ++ crlf)) (append_assoc l crlf (crlf ++ body))
    ∙ cut-first 13 (10 ∷ crlf) l body h.0.1
cut-lines l ((d ∷ l') ∷ ls) body h =
    let rest = ended ((d ∷ l') ∷ ls) ++ (crlf ++ body) in
    ap (cut (crlf ++ crlf)) (append_assoc l (crlf ++ ended ((d ∷ l') ∷ ls)) (crlf ++ body))
    ∙ cut-skip 13 (10 ∷ crlf) l (crlf ++ rest) h.0.1
    ∙ ap (shifted l)
        (cut-between d _ (first d l' h.1.0.1) ∙ ap (shifted crlf) (cut-lines (d ∷ l') ls body h.1))
  where
    first : (d : ℕ) (l : CString) → lacks 13 (d ∷ l) ≡ true → d == 13 ≡ false
    first d l h = ground arith
cut-lines l ([] ∷ ls) body h = absurd (omega (arith, h.1.0.0))

-- Where the headers end, no line is counted and no header filled.
count_lines-end : (fuel : ℕ) (s : CString) → count_lines fuel 0 s ≡ 0
unfolding count_lines
count_lines-end zero s = refl
count_lines-end (suc fuel) s = by_cut (cut crlf s)
  where
    by_cut :
        (o : Option (CString × CString))
        → (elim o as (λ _. ℕ) [
          | none ↦ 0
          | some t ↦
              let rest = count_lines fuel (0 - (length t.0 + 2)) t.1 in
              if ltb 0 0 && leb (length t.0) 0 then rest + 1 else 0
        ])
          ≡ 0
    by_cut none = refl
    by_cut (some t) = refl

fill_headers-end : (fuel idx_left : ℕ) (s : CString) → fill_headers fuel idx_left 0 s ≡ []
unfolding fill_headers
fill_headers-end zero idx_left s = refl
fill_headers-end (suc fuel) idx_left s = by_cut (cut crlf s)
  where
    by_cut :
        (o : Option (CString × CString))
        → (elim o [
          | none ↦ []
          | some t ↦
              let h = header_of t.0 in
              let rest = fill_headers fuel (idx_left - length h) (0 - (length t.0 + 2)) t.1 in
              if ltb 0 0 && (ltb 0 idx_left && leb (length t.0) 0) then h ++ rest else []
        ])
          ≡ []
    by_cut none = refl
    by_cut (some t) = refl

-- The distance to the end of the headers after a line.
left_after : CString → List CString → ℕ
left_after l [] = 0
left_after l (l' ∷ ls) = length (joined l' ls)

positive : (n m : ℕ) → m ≤ n → 0 < m → ltb 0 n ≡ true
positive n m le some_there = ground arith

within : (m n : ℕ) → m ≤ n → leb m n ≡ true
within m n le = ground arith

module _ (l : CString) (ls : List CString) where
  joined-left : length (joined l ls) - (length l + 2) ≡ left_after l ls
  unfolding left_after
  joined-left = by_rest ls
    where
      by_rest : (ls : List CString) → length (joined l ls) - (length l + 2) ≡ left_after l ls
      by_rest [] = omega arith
      by_rest (l' ∷ ls) = omega (arith, length-append l (crlf ++ joined l' ls))

  length-le-joined : length l ≤ length (joined l ls)
  length-le-joined = by_rest ls
    where
      by_rest : (ls : List CString) → length l ≤ length (joined l ls)
      by_rest [] = omega arith
      by_rest (l' ∷ ls) = omega (arith, length-append l (crlf ++ joined l' ls))

-- A turn of the first loop, and of the second.
count_lines-turn :
    (fuel : ℕ) (l : CString) (ls : List CString) (rest : CString)
    → IsLine l
    → count_lines (suc fuel) (length (joined l ls)) (ended (l ∷ ls) ++ rest)
      ≡ count_lines fuel (left_after l ls) (ended ls ++ rest) + 1
unfolding count_lines
count_lines-turn fuel l ls rest h =
    let found =
      ap (cut crlf) (append_assoc l (crlf ++ ended ls) rest)
      ∙ cut-first 13 (10 ∷ []) l (ended ls ++ rest) h.1 in
    let some_left = positive (length (joined l ls)) (length l) (length-le-joined l ls) h.0 in
    let inside = within (length l) (length (joined l ls)) (length-le-joined l ls) in
    rw (count_lines, found, some_left, inside, joined-left l ls) refl

fill_headers-turn :
    (fuel idx_left : ℕ) (l : CString) (ls : List CString) (rest : CString) (new : Header)
    → IsLine l
    → header_of l ≡ new ∷ []
    → 0 < idx_left
    → fill_headers (suc fuel) idx_left (length (joined l ls)) (ended (l ∷ ls) ++ rest)
      ≡ new ∷ fill_headers fuel (idx_left - 1) (left_after l ls) (ended ls ++ rest)
unfolding fill_headers
fill_headers-turn fuel idx_left l ls rest new h e room =
    let found =
      ap (cut crlf) (append_assoc l (crlf ++ ended ls) rest)
      ∙ cut-first 13 (10 ∷ []) l (ended ls ++ rest) h.1 in
    let some_left = positive (length (joined l ls)) (length l) (length-le-joined l ls) h.0 in
    let inside = within (length l) (length (joined l ls)) (length-le-joined l ls) in
    let some_room = positive idx_left idx_left (omega arith) room in
    rw (fill_headers, found, some_left, inside, some_room, e, joined-left l ls) refl

-- The lines are counted to the end of the headers.
pub count_lines-ended :
    (fuel : ℕ) (l : CString) (ls : List CString) (rest : CString)
    → AreLines (l ∷ ls)
    → length (l ∷ ls) ≤ fuel
    → count_lines fuel (length (joined l ls)) (ended (l ∷ ls) ++ rest) ≡ length (l ∷ ls)
unfolding left_after
count_lines-ended zero l ls rest h enough = absurd (omega arith)
count_lines-ended (suc fuel) l [] rest h enough =
    count_lines-turn fuel l [] rest h.0 ∙ ap (λ n. n + 1) (count_lines-end fuel rest)
count_lines-ended (suc fuel) l (l' ∷ ls) rest h enough =
    count_lines-turn fuel l (l' ∷ ls) rest h.0
    ∙ ap (λ n. n + 1) (count_lines-ended fuel l' ls rest h.1 (omega arith))
    ∙ one_more (length (l' ∷ ls))
  where
    one_more : (n : ℕ) → n + 1 ≡ suc n
    one_more n = omega arith

-- The headers that the lines give, one each.
abbrev pub Gives : List CString → List Header → Type 0
Gives [] [] = Unit {0}
Gives [] (h ∷ hs) = ⊥
Gives (l ∷ ls) [] = ⊥
Gives (l ∷ ls) (h ∷ hs) = (header_of l ≡ h ∷ []) × Gives ls hs

pub fill_headers-ended :
    (fuel idx_left : ℕ) (l : CString) (ls : List CString) (hs : List Header) (rest : CString)
    → AreLines (l ∷ ls)
    → Gives (l ∷ ls) hs
    → length (l ∷ ls) ≤ fuel
    → length (l ∷ ls) ≤ idx_left
    → fill_headers fuel idx_left (length (joined l ls)) (ended (l ∷ ls) ++ rest) ≡ hs
unfolding left_after
fill_headers-ended fuel idx_left l ls [] rest h g enough room = absurd g
fill_headers-ended zero idx_left l ls (new ∷ hs) rest h g enough room = absurd (omega arith)
fill_headers-ended (suc fuel) idx_left l [] (new ∷ []) rest h g enough room =
    fill_headers-turn fuel idx_left l [] rest new h.0 g.0 (omega arith)
    ∙ ap (λ t. new ∷ t) (fill_headers-end fuel (idx_left - 1) rest)
fill_headers-ended (suc fuel) idx_left l [] (new ∷ (h' ∷ hs)) rest h g enough room = absurd g.1
fill_headers-ended (suc fuel) idx_left l (l' ∷ ls) (new ∷ hs) rest h g enough room =
    fill_headers-turn fuel idx_left l (l' ∷ ls) rest new h.0 g.0 (omega arith)
    ∙ ap (λ t. new ∷ t)
        (fill_headers-ended fuel (idx_left - 1) l' ls hs rest h.1 g.1 (omega arith) (omega arith))

length-Gives : (ls : List CString) (hs : List Header) → Gives ls hs → length hs ≡ length ls
length-Gives [] [] g = refl
length-Gives [] (h ∷ hs) g = absurd g
length-Gives (l ∷ ls) [] g = absurd g
length-Gives (l ∷ ls) (h ∷ hs) g = ap suc (length-Gives ls hs g.1)

-- The headers from lines that have a colon each: none of them is left blank.
pub headers_of-ended :
    (l : CString) (ls : List CString) (hs old : List Header) (rest : CString)
    → AreLines (l ∷ ls)
    → Gives (l ∷ ls) hs
    → headers_of (joined l ls) (ended (l ∷ ls) ++ rest) old ≡ hs
unfolding headers_of
headers_of-ended l ls hs old rest h g =
    let current = ended (l ∷ ls) ++ rest in
    let enough : length (l ∷ ls) ≤ length current + 1 =
      omega (arith, length-append (ended (l ∷ ls)) rest, length-le-ended (l ∷ ls)) in
    let counted = count_lines-ended (length current + 1) l ls rest h enough in
    let filled =
      fill_headers-ended (length current + 1) (length (l ∷ ls)) l ls hs rest h g enough
        (omega arith) in
    let some_counted = positive (length (l ∷ ls)) (length (l ∷ ls)) (omega arith) (omega arith) in
    rw
      (
        headers_of,
        counted,
        filled,
        length-Gives (l ∷ ls) hs g,
        none_left (length (l ∷ ls)),
        some_counted,
      )
      (append-nil hs)
  where
    none_left : (n : ℕ) → n - n ≡ 0
    none_left n = omega arith
