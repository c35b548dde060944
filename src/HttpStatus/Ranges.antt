-- ===== src/HttpStatus/Ranges.antt =====
-- The tests of src/http_status/http_status.c agree with its category and its phrases.
use backend_in_c.Prelude.{
  ℕ, ◌≤◌, ◌<◌, ◌≡◌, refl, ◌↔◌, ◌⊎◌, List, [], ◌∷◌, none, Bool, true, false, ◌&&◌, ◌||◌, not,
  CString, codes, arith, leb,
}
use backend_in_c.Common.Words.{ℤ, pos, negsuc}
use backend_in_c.HttpStatus.{
  informational, success, redirection, client_error, server_error, get_category, is_informational,
  is_success, is_redirection, is_client_error, is_server_error, is_error, messages, case_of,
  get_message, between,
}

-- The category of an int is informational, success, redirection or server error exactly if the test
-- of that name succeeds, and client error exactly if the test for it succeeds or the code is outside
-- of 100 to 599; the test for an error succeeds exactly if the code is in 100 to 599 and its category
-- is client error or server error.
pub get_category-tests :
    (s : ℤ)
    → ((get_category s ≡ informational) ↔ (is_informational s ≡ true))
      × ((get_category s ≡ success) ↔ (is_success s ≡ true))
      × ((get_category s ≡ redirection) ↔ (is_redirection s ≡ true))
      × ((get_category s ≡ server_error) ↔ (is_server_error s ≡ true))
      × ((get_category s ≡ client_error) ↔ ((is_client_error s || not (between 100 600 s)) ≡ true))
      × ((is_error s ≡ true) ↔ (
          (between 100 600 s ≡ true)
          × ((get_category s ≡ client_error) ⊎ (get_category s ≡ server_error))))
unfolding get_category is_informational is_success is_redirection is_client_error is_server_error
    is_error
get_category-tests (pos n) =
    (ground arith, ground arith, ground arith, ground arith, ground arith, ground arith)
get_category-tests (negsuc n) =
    (ground arith, ground arith, ground arith, ground arith, ground arith, ground arith)

-- The codes of the cases are in the five ranges.
abbrev InRange : List (ℕ × CString) → Type 0
InRange [] = Unit {0}
InRange ((code, message) ∷ rest) = ((100 ≤ code) × (code < 600)) × InRange rest

case_of-outside :
    (n : ℕ) (cases : List (ℕ × CString))
    → InRange cases
    → between 100 600 (pos n) ≡ false
    → case_of n cases ≡ none
unfolding case_of
case_of-outside n [] h outside = refl
case_of-outside n ((code, message) ∷ rest) h outside =
    ground (arith, case_of-outside n rest h.1 outside, h.0)

all_between : List (ℕ × CString) → Bool
all_between [] = true
all_between ((code, message) ∷ rest) = leb 100 code && (leb code 599 && all_between rest)

all_between-InRange : (cases : List (ℕ × CString)) → all_between cases ≡ true → InRange cases
unfolding all_between
all_between-InRange [] h = tt
all_between-InRange ((code, message) ∷ rest) h =
    ((ground arith, ground arith), all_between-InRange rest (ground arith))

messages-InRange : InRange messages
messages-InRange = all_between-InRange messages (unfold all_between in refl)

-- A code outside of 100 to 599 has no phrase of its own.
pub get_message-outside : (s : ℤ) → between 100 600 s ≡ false → get_message s ≡ codes "Unknown"
unfolding get_message
get_message-outside (pos n) outside =
    rw (case_of-outside n messages messages-InRange outside, get_message) refl
get_message-outside (negsuc n) outside = refl
