-- ===== src/Distributed/RateLimiter.antt =====
-- The rate limiter of src/distributed/distributed.c: a window for each client, as a node of a list.
-- Each call holds the limiter's lock throughout. `max_requests` is an int that a caller gives; below
-- 0 it acts like 0.
pub mod Quota
pub mod Destroy
use backend_in_c.Prelude.{
  ℕ, ◌+◌, [], ◌∷◌, Option, none, some, Bool, true, false, CString, ltb, leb, if◌then◌else◌,
}
use backend_in_c.Common.{ErrorCode, success, error_invalid_param, error_not_found}
use backend_in_c.Common.Words.{sub64}
use backend_in_c.Assoc.{Assoc, find, update, remove}

pub record RateLimitEntry : Type 0 where
  pub request_count : ℕ
  pub window_start : ℕ

pub record RateLimiter : Type 0 where
  pub max_requests : ℕ
  pub window_ms : ℕ
  pub entries : Assoc RateLimitEntry

unfoldable pub create : ℕ → ℕ → RateLimiter
create max_requests window_ms = record {
  max_requests = max_requests;
  window_ms = window_ms;
  entries = [];
}

-- The client's entry, or the one that is made for a new client.
unfoldable pub entry_of : ℕ → CString → Assoc RateLimitEntry → RateLimitEntry
entry_of now client es = elim (find client es) [
  | some e ↦ e
  | none ↦ record { request_count = 0; window_start = now }
]

-- The entry written back: in its node, or in a new one at the head.
unfoldable pub store : CString → RateLimitEntry → Assoc RateLimitEntry → Assoc RateLimitEntry
unfolding update
store client e es = elim (update client e es) [ some es' ↦ es' | none ↦ (client, e) ∷ es ]

-- A window that is over starts anew.
unfoldable pub renew : ℕ → ℕ → RateLimitEntry → RateLimitEntry
renew window_ms now e =
    if ltb window_ms (sub64 now e.window_start)
    then record { request_count = 0; window_start = now }
    else e

-- The test of the limit, and the count of a request that passes it.
unfoldable pub admit : ℕ → RateLimitEntry → Bool × RateLimitEntry
admit max_requests e =
    if leb max_requests e.request_count
    then (false, e)
    else (true, record e { request_count = e.request_count + 1 })

-- `rate_limiter_allow` at the time `now`
unfoldable pub allow : ℕ → Option CString → Option RateLimiter → Bool × Option RateLimiter
unfolding entry_of store renew admit
allow now (some client) (some l) =
    let (allowed, e) =
      admit l.max_requests (renew l.window_ms now (entry_of now client l.entries)) in
    (allowed, some (record l { entries = store client e l.entries }))
allow now client l = (false, l)

-- `rate_limiter_reset`
unfoldable pub reset : Option CString → Option RateLimiter → ErrorCode × Option RateLimiter
unfolding remove
reset (some client) (some l) = elim (remove client l.entries) [
  | some es ↦ (success, some (record l { entries = es }))
  | none ↦ (error_not_found, some l)
]
reset client l = (error_invalid_param, l)
