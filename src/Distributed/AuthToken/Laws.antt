-- ===== src/Distributed/AuthToken/Laws.antt =====
-- The lifetime of a token and its round trip through text (src/distributed/distributed.c).
use backend_in_c.Prelude.{
  ℕ, zero, suc, ◌+◌, ◌*◌, ◌≤◌, ◌<◌, ◌≡◌, ◌≢◌, ◌↔◌, refl, ◌∙◌, ap, [], ◌∷◌, ◌++◌, some, true, false,
  CString, length, ltb, ◌==◌, arith, append-nil, take_all, Bool-cases, Option-cases, some_inj,
  subst, inl, inr, length-append,
}
use backend_in_c.Common.Words.{u64}
use backend_in_c.Common.Decimal.{print_lu, scan_lu, scan_lu-print_lu, length-print_lu, scan_lu-lt}
use backend_in_c.Distributed.AuthToken.{
  AuthToken, validate, printed, serialize, scan_field, scan_colon_lu, scan_token, deserialize,
}

-- A token whose lifetime in milliseconds fits uint64_t is valid, at a time that is not before its
-- creation, exactly while fewer milliseconds than that have passed.
pub validate_exact :
    (now : ℕ) (token : AuthToken)
    → now < u64
    → token.created_at ≤ now
    → token.ttl_seconds * 1000 < u64
    → (validate now (some token) ≡ true) ↔ (now < token.created_at + token.ttl_seconds * 1000)
unfolding validate
validate_exact now token h past fits = ground arith

abbrev pub NoColon : CString → Type 0
NoColon [] = Unit {0}
NoColon (c ∷ s) = (c ≢ b':') × NoColon s

-- The identifier is one that `%127[^:]` reads back, and the numbers are uint64_t.
pub record IsPlain (token : AuthToken) : Type 0 where
  pub named : 0 < length token.user_id
  pub short : length token.user_id ≤ 127
  pub no_colon : NoColon token.user_id
  pub created_at : token.created_at < u64
  pub ttl_seconds : token.ttl_seconds < u64

scan_field-colon :
    (n : ℕ) (u rest : CString)
    → length u ≤ n
    → NoColon u
    → scan_field n (u ++ b':' ∷ rest) ≡ (u, b':' ∷ rest)
unfolding scan_field
scan_field-colon zero [] rest h free = refl
scan_field-colon (suc n) [] rest h free = refl
scan_field-colon zero (c ∷ u) rest h free = absurd (omega arith)
scan_field-colon (suc n) (c ∷ u) rest h free =
    rw (scan_field-colon n u rest (omega arith) free.1) (ground (arith, free.0))

length-printed : (token : AuthToken) → length token.user_id ≤ 127 → length (printed token) ≤ 255
unfolding printed
length-printed token h =
    rw (length-append, length-append)
      (omega (arith, length-print_lu token.created_at, length-print_lu token.ttl_seconds))

scan_token-printed :
    (user : CString) (created_at ttl_seconds : ℕ)
    → 0 < length user
    → created_at < u64
    → ttl_seconds < u64
    → scan_token (user, b':' ∷ (print_lu created_at ++ (b':' ∷ print_lu ttl_seconds)))
      ≡ some (record { user_id = user; created_at = created_at; ttl_seconds = ttl_seconds })
unfolding scan_token
scan_token-printed [] a t named ha ht = absurd (omega arith)
scan_token-printed (c ∷ user) a t named ha ht =
    let last : scan_lu (print_lu t) ≡ some (t, []) =
      rw append-nil at (scan_lu-print_lu t [] ht tt) in
    rw (scan_lu-print_lu a (b':' ∷ print_lu t) ha refl, last, scan_token) refl

scan_field-printed :
    (token : AuthToken)
    → IsPlain token
    → scan_field 127 (printed token)
      ≡ (token.user_id, b':' ∷ (print_lu token.created_at ++ (b':' ∷ print_lu token.ttl_seconds)))
unfolding printed
scan_field-printed token h = scan_field-colon 127 token.user_id _ h.short h.no_colon

-- A token whose user has a name of 1 to 127 characters without a colon, and whose numbers are
-- uint64_t, is read back from its text as it was.
pub deserialize-serialize :
    (token : AuthToken) → IsPlain token → deserialize (serialize (some token)) ≡ some token
unfolding deserialize serialize
deserialize-serialize token h =
    let len = length-printed token h.short in
    let fits : ltb 256 (length (printed token)) ≡ false = ground arith in
    rw (take_all 255 (printed token) len, fits)
      (ap scan_token (scan_field-printed token h)
        ∙ scan_token-printed token.user_id token.created_at token.ttl_seconds h.named h.created_at
            h.ttl_seconds)

scan_field-NoColon :
    (n : ℕ) (s : CString) → NoColon (scan_field n s).0 × (length (scan_field n s).0 ≤ n)
unfolding scan_field
scan_field-NoColon zero s = (tt, omega arith)
scan_field-NoColon (suc n) [] = (tt, omega arith)
scan_field-NoColon (suc n) (c ∷ s) =
    let rest = scan_field-NoColon n s in
    elim (Bool-cases (c == b':')) [
      | inl colon ↦ rw colon (tt, omega arith)
      | inr other ↦ rw other ((ground arith, rest.0), omega (arith, rest.1))
    ]

scan_colon_lu-lt :
    (s : CString) {n : ℕ} {rest : CString} → scan_colon_lu s ≡ some (n, rest) → n < u64
unfolding scan_colon_lu
scan_colon_lu-lt [] h = absurd (cc)
scan_colon_lu-lt (c ∷ s) {n} {rest} h = ground (arith, scan_lu-lt s {n = n} {rest = rest})

scan_token-IsPlain :
    (user rest : CString) {token : AuthToken}
    → NoColon user
    → length user ≤ 127
    → scan_token (user, rest) ≡ some token
    → IsPlain token
unfolding scan_token
scan_token-IsPlain [] rest free short h = absurd (cc)
scan_token-IsPlain (c ∷ user) rest {token} free short h = elim (Option-cases (scan_colon_lu rest)) [
  | inl e ↦ let h' = rw (e, scan_token) at h in absurd (cc h')
  | inr ((a, r), e) ↦
      let h' = rw (e, scan_token) at h in
      elim (Option-cases (scan_colon_lu r)) [
        | inl e' ↦ let h'' = rw (e', scan_token) at h' in absurd (cc h'')
        | inr ((t, r'), e') ↦
            let h'' = rw (e', scan_token) at h' in
            subst IsPlain (some_inj h'') (record {
              named = omega arith;
              short = short;
              no_colon = free;
              created_at = scan_colon_lu-lt rest {n = a} {rest = r} e;
              ttl_seconds = scan_colon_lu-lt r {n = t} {rest = r'} e';
            })
      ]
]

-- Every token that is read from text, whatever the text, has a user with a name of 1 to 127
-- characters without a colon, and numbers that fit uint64_t.
pub deserialize-IsPlain :
    (token_str : CString) {token : AuthToken}
    → deserialize (some token_str) ≡ some token
    → IsPlain token
unfolding deserialize
deserialize-IsPlain token_str {token} h =
    let field = scan_field-NoColon 127 token_str in
    elim (Bool-cases (ltb 256 (length token_str))) [
      | inl long ↦ let h' = rw long at h in absurd (cc h')
      | inr fits ↦
          scan_token-IsPlain (scan_field 127 token_str).0 (scan_field 127 token_str).1
            {token = token} field.0 field.1 (rw fits at h)
    ]
