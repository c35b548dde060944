-- ===== src/Distributed/RateLimiter/Quota.antt =====
-- What the rate limiter of src/distributed/distributed.c lets through.
use Prim.Native.Nat.{min}
use backend_in_c.Prelude.{
  ℕ, ◌+◌, ◌-◌, ◌≤◌, ◌<◌, ◌≡◌, refl, ◌∙◌, ap, List, [], ◌∷◌, Option, none, some, inl, inr,
  Option-cases, Bool-cases, Bool, true, false, CString, ltb, leb, str_eq, str_eq_refl, eq_of_str_eq,
  arith, if◌then◌else◌,
}
use backend_in_c.Common.Words.{u64}
use backend_in_c.Assoc.{Assoc, find, update, find-update}
use backend_in_c.Distributed.RateLimiter.{
  RateLimitEntry, RateLimiter, entry_of, store, renew, admit, allow,
}

-- The state of one client.
abbrev pub window_of : RateLimiter → CString → Option RateLimitEntry
window_of l client = find client l.entries

find-store :
    (client q : CString) (e : RateLimitEntry) (es : Assoc RateLimitEntry)
    → find q (store client e es) ≡ (if str_eq client q then some e else find q es)
unfolding store
find-store client q e es = elim (Option-cases (update client e es)) [
  | inr (d, u) ↦ rw (u, store) (find-update client e es {d = d} q u)
  | inl u ↦ rw (u, store) (unfold find in refl)
]

-- The requests of clients, each at its time.
abbrev pub Requests : Type 0
Requests = List (CString × ℕ)

-- One request to a live limiter.
abbrev pub serve : CString × ℕ → RateLimiter → Bool × RateLimiter
serve (client, now) l =
    let e = admit l.max_requests (renew l.window_ms now (entry_of now client l.entries)) in
    (e.0, record l { entries = store client e.1 l.entries })

pub allow-serve :
    (client : CString) (now : ℕ) (l : RateLimiter)
    → allow now (some client) (some l) ≡ ((serve (client, now) l).0, some (serve (client, now) l).1)
unfolding allow
allow-serve client now l = refl

-- How many requests of the client are let through, in a run of requests by anyone.
unfoldable pub admitted : CString → Requests → RateLimiter → ℕ
admitted c [] l = 0
admitted c ((client, now) ∷ rs) l =
    (if str_eq client c then (if (allow now (some client) (some l)).0 then 1 else 0) else 0)
    + (elim (allow now (some client) (some l)).1 [ none ↦ 0 | some l' ↦ admitted c rs l' ])

unfoldable pub requests_of : CString → Requests → ℕ
requests_of c [] = 0
requests_of c ((client, now) ∷ rs) = (if str_eq client c then 1 else 0) + requests_of c rs

-- Every request of the client comes within the window that began at `start`; the others may come at
-- any time.
abbrev pub Within : CString → ℕ → ℕ → Requests → Type 0
Within c start window [] = Unit {0}
Within c start window ((client, now) ∷ rs) =
    (str_eq client c ≡ true → (start ≤ now) × (now ≤ start + window) × (now < u64))
    × Within c start window rs

admitted-step :
    (c client : CString) (now : ℕ) (rs : Requests) (l : RateLimiter)
    → admitted c ((client, now) ∷ rs) l
      ≡ (if str_eq client c then (if (serve (client, now) l).0 then 1 else 0) else 0)
        + admitted c rs (serve (client, now) l).1
unfolding admitted
admitted-step c client now rs l = rw (allow-serve client now l) refl

serve-other :
    (c client : CString) (now : ℕ) (l : RateLimiter)
    → str_eq client c ≡ false
    → window_of (serve (client, now) l).1 c ≡ window_of l c
serve-other c client now l other = find-store client c _ l.entries ∙ rw other refl

-- The entry after a request within its window.
abbrev counted : ℕ → RateLimitEntry → RateLimitEntry
counted max e = record e {
  request_count = if leb max e.request_count then e.request_count else e.request_count + 1;
}

entry_of-some :
    (now : ℕ) (c : CString) (es : Assoc RateLimitEntry) {e : RateLimitEntry}
    → find c es ≡ some e
    → entry_of now c es ≡ e
unfolding entry_of
entry_of-some now c es h = rw (h, entry_of) refl

entry_of-none :
    (now : ℕ) (c : CString) (es : Assoc RateLimitEntry)
    → find c es ≡ none
    → entry_of now c es ≡ record { request_count = 0; window_start = now }
unfolding entry_of
entry_of-none now c es h = rw (h, entry_of) refl

renew-inside :
    (window now : ℕ) (e : RateLimitEntry)
    → e.window_start ≤ now
    → now ≤ e.window_start + window
    → now < u64
    → renew window now e ≡ e
unfolding renew
renew-inside window now e from to fits = ground arith

admit-counted :
    (max : ℕ) (e : RateLimitEntry)
    → (admit max e).0 ≡ ltb e.request_count max × ((admit max e).1 ≡ counted max e)
unfolding admit
admit-counted max e = (ground arith, ground arith)

serve-own :
    (c : CString) (now : ℕ) (l : RateLimiter) (e : RateLimitEntry)
    → entry_of now c l.entries ≡ e
    → e.window_start ≤ now
    → now ≤ e.window_start + l.window_ms
    → now < u64
    → ((serve (c, now) l).0 ≡ ltb e.request_count l.max_requests)
      × (window_of (serve (c, now) l).1 c ≡ some (counted l.max_requests e))
serve-own c now l e here from to fits =
    let a = admit-counted l.max_requests e in
    rw (here, renew-inside l.window_ms now e from to fits)
      (
        a.0,
        find-store c c (admit l.max_requests e).1 l.entries
            ∙ rw (str_eq_refl c) (ap (λ (x : RateLimitEntry). some x) a.1),
      )

-- Of a client whose window is not over, as many requests are let through as it has left.
admitted-left :
    (c : CString) (rs : Requests) (l : RateLimiter) (e : RateLimitEntry)
    → window_of l c ≡ some e
    → e.request_count ≤ l.max_requests
    → Within c e.window_start l.window_ms rs
    → admitted c rs l ≡ min (l.max_requests - e.request_count) (requests_of c rs)
unfolding requests_of
admitted-left c [] l e here few inside = (unfold admitted in omega arith)
admitted-left c ((client, now) ∷ rs) l e here few inside =
    rw admitted-step (elim (Bool-cases (str_eq client c)) [
      | inl own ↦
          let o =
            serve-own c now l e (entry_of-some now c l.entries {e = e} here) (inside.0 own).0
              (inside.0 own).1 (inside.0 own).2 in
          let ih =
            admitted-left c rs (serve (c, now) l).1 (counted l.max_requests e) o.1 (ground arith)
              inside.1 in
          rw (eq_of_str_eq client c own, str_eq_refl c) (ground (arith, o.0, ih))
      | inr other ↦
          let ih =
            admitted-left c rs (serve (client, now) l).1 e (serve-other c client now l other ∙ here)
              few inside.1 in
          rw other (omega (arith, ih))
    ])

-- Of a client that the limiter does not know, whose first request opens a window and whose others
-- all come within that window, exactly the first `max_requests` are let through, whatever other
-- clients send and when.
pub admitted_exact :
    (c : CString) (now : ℕ) (rs : Requests) (l : RateLimiter)
    → window_of l c ≡ none
    → now < u64
    → Within c now l.window_ms rs
    → admitted c ((c, now) ∷ rs) l ≡ min l.max_requests (1 + requests_of c rs)
admitted_exact c now rs l fresh fits inside =
    let e : RateLimitEntry = record { request_count = 0; window_start = now } in
    let o =
      serve-own c now l e (entry_of-none now c l.entries fresh) (omega arith) (omega arith) fits in
    let ih =
      admitted-left c rs (serve (c, now) l).1 (counted l.max_requests e) o.1 (ground arith)
        inside in
    rw (admitted-step, str_eq_refl c) (ground (arith, o.0, ih))

-- A request of one client leaves the window of every other client as it was.
pub allow-other :
    (c client : CString) (now : ℕ) (l : RateLimiter)
    → str_eq client c ≡ false
    → (l' : RateLimiter) × ((allow now (some client) (some l)).1 ≡ some l')
      × (window_of l' c ≡ window_of l c)
allow-other c client now l other = (
  (serve (client, now) l).1,
  rw (allow-serve client now l) refl,
  serve-other c client now l other,
)
