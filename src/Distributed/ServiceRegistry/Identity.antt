-- ===== src/Distributed/ServiceRegistry/Identity.antt =====
-- The identifiers of services in src/distributed/distributed.c.
use backend_in_c.Prelude.{
  ℕ, ◌+◌, ◌%◌, ◌≤◌, ◌<◌, ◌≡◌, refl, subst, [], ◌∷◌, append-nil, some, inl, inr, Option-cases,
  Bool-cases, some_inj, CString, str_eq, eq_of_str_eq, arith,
}
use backend_in_c.Common.Words.{ℤ, u64}
use backend_in_c.Common.Decimal.{print_lu, scan_lu, scan_lu-print_lu}
use backend_in_c.Assoc.{Assoc, find, remove, count, count-update, count-remove-le}
use backend_in_c.Distributed.ServiceRegistry.{
  ServiceInfo, ServiceRegistry, create, service_id, register, deregister, heartbeat, beat_first,
  beat,
}

print_lu-injective : (a b : ℕ) → a < u64 → b < u64 → print_lu a ≡ print_lu b → a ≡ b
print_lu-injective a b ha hb e =
    let sa : scan_lu (print_lu a) ≡ some (a, []) = rw append-nil at (scan_lu-print_lu a [] ha tt) in
    let sb : scan_lu (print_lu b) ≡ some (b, []) = rw append-nil at (scan_lu-print_lu b [] hb tt) in
    cc (sa, sb, e)

-- Different numbers below 2 ^ 64 make different identifiers.
pub service_id-injective : (a b : ℕ) → a < u64 → b < u64 → service_id a ≡ service_id b → a ≡ b
unfolding service_id
service_id-injective a b ha hb e = print_lu-injective a b ha hb (cc)

-- Every identifier is in use once at most, and those from the counter on are not in use.
pub record IsNumbered (r : ServiceRegistry) : Type 0 where
  pub unique : (q : CString) → count q r.services ≤ 1
  pub fresh : (k : ℕ) → r.next_id ≤ k → k < u64 → count (service_id k) r.services ≡ 0
  pub bounded : r.next_id < u64

-- What a client may do to the registry, with less than 2 ^ 64 registrations in all.
pub data Step (r r' : ServiceRegistry) : Type 0 where
  registers :
      (now : ℕ) (name host : CString) (port : ℤ)
      → r.next_id + 1 < u64
      → (register now (some name) (some host) port (some r)).1 ≡ some r'
      → Step r r'
  deregisters : (id : CString) → (deregister (some id) (some r)).1 ≡ some r' → Step r r'
  beats : (now : ℕ) (id : CString) → (heartbeat now (some id) (some r)).1 ≡ some r' → Step r r'

pub data Reach : ServiceRegistry → Type 0 where
  here : Reach create
  next : {r r' : ServiceRegistry} → Reach r → Step r r' → Reach r'

pub create-IsNumbered : IsNumbered create
unfolding count
create-IsNumbered = record {
  unique = λ q. omega arith;
  fresh = λ k h b. refl;
  bounded = omega arith;
}

one-register :
    (r : ServiceRegistry) (info : ServiceInfo) (q : CString)
    → IsNumbered r
    → count q ((service_id r.next_id, info) ∷ r.services) ≤ 1
unfolding count
one-register r info q h = elim (Bool-cases (str_eq (service_id r.next_id) q)) [
  | inl same ↦
      let absent =
        subst (λ t. count t r.services ≡ 0) (eq_of_str_eq (service_id r.next_id) q same)
          (h.fresh r.next_id (omega arith) h.bounded) in
      rw same (omega (arith, absent))
  | inr other ↦ rw other (omega (arith, h.unique q))
]

none-register :
    (r : ServiceRegistry) (info : ServiceInfo) (k : ℕ)
    → r.next_id + 1 < u64
    → r.next_id < k
    → k < u64
    → IsNumbered r
    → count (service_id k) ((service_id r.next_id, info) ∷ r.services) ≡ 0
unfolding count
none-register r info k room above below h =
    elim (Bool-cases (str_eq (service_id r.next_id) (service_id k))) [
      | inl same ↦
          let e =
            service_id-injective r.next_id k h.bounded below
              (eq_of_str_eq (service_id r.next_id) (service_id k) same) in
          absurd (omega (arith, e))
      | inr other ↦ rw other (omega (arith, h.fresh k (omega arith) below))
    ]

pub register-IsNumbered :
    (r : ServiceRegistry) (info : ServiceInfo)
    → r.next_id + 1 < u64
    → IsNumbered r
    → IsNumbered (record {
      services = (service_id r.next_id, info) ∷ r.services;
      next_id = (r.next_id + 1) % u64;
    })
unfolding count
register-IsNumbered r info room h = record {
  unique = λ q. one-register r info q h;
  fresh = λ k from below. none-register r info k room (omega arith) below h;
  bounded = omega arith;
}

-- The second registry has no identifier more often than the first, and the same counter.
abbrev pub IsFewer : ServiceRegistry → ServiceRegistry → Type 0
IsFewer r r' = (r'.next_id ≡ r.next_id) × ((q : CString) → count q r'.services ≤ count q r.services)

pub fewer-IsNumbered : (r r' : ServiceRegistry) → IsFewer r r' → IsNumbered r → IsNumbered r'
fewer-IsNumbered r r' (same, fewer) h = record {
  unique = λ q. omega (arith, fewer q, h.unique q);
  fresh =
      λ k from below. omega (arith, fewer (service_id k), h.fresh k (omega (arith, same)) below);
  bounded = omega (arith, same, h.bounded);
}

same-IsFewer : (r r' : ServiceRegistry) → r ≡ r' → IsFewer r r'
same-IsFewer r r' e = subst (IsFewer r) e (refl, λ q. omega arith)

pub deregister-IsFewer :
    (id : CString) (r : ServiceRegistry) {r' : ServiceRegistry}
    → (deregister (some id) (some r)).1 ≡ some r'
    → IsFewer r r'
unfolding deregister
deregister-IsFewer id r {r'} e = elim (Option-cases (remove id r.services)) [
  | inl absent ↦ same-IsFewer r r' (some_inj (rw (absent, deregister) at e))
  | inr (services, removed) ↦
      subst (IsFewer r) (some_inj (rw (removed, deregister) at e))
        (refl, λ q. count-remove-le id r.services {d = services} q removed)
]

count-beat_first :
    (now : ℕ) (id q : CString) (services : Assoc ServiceInfo) {beaten : Assoc ServiceInfo}
    → beat_first now id services ≡ some beaten
    → count q beaten ≡ count q services
unfolding beat_first
count-beat_first now id q services {beaten} e = elim (Option-cases (find id services)) [
  | inl absent ↦ let e' = rw (absent, beat_first) at e in cc e'
  | inr (info, found) ↦
      count-update id (beat now info) services {d = beaten} q (rw (found, beat_first) at e)
]

pub heartbeat-IsFewer :
    (now : ℕ) (id : CString) (r : ServiceRegistry) {r' : ServiceRegistry}
    → (heartbeat now (some id) (some r)).1 ≡ some r'
    → IsFewer r r'
unfolding heartbeat
heartbeat-IsFewer now id r {r'} e = elim (Option-cases (beat_first now id r.services)) [
  | inl absent ↦ same-IsFewer r r' (some_inj (rw (absent, heartbeat) at e))
  | inr (services, beaten) ↦
      subst (IsFewer r) (some_inj (rw (beaten, heartbeat) at e))
        (refl, λ q. omega (arith, count-beat_first now id q r.services {beaten = services} beaten))
]

Step-IsNumbered : {r r' : ServiceRegistry} → Step r r' → IsNumbered r → IsNumbered r'
unfolding register
Step-IsNumbered {r} (registers now name host port room e) h =
    subst IsNumbered (some_inj e) (register-IsNumbered r _ room h)
Step-IsNumbered {r} {r'} (deregisters id e) h =
    fewer-IsNumbered r r' (deregister-IsFewer id r {r' = r'} e) h
Step-IsNumbered {r} {r'} (beats now id e) h =
    fewer-IsNumbered r r' (heartbeat-IsFewer now id r {r' = r'} e) h

-- In whatever order services are registered, deregistered and kept alive, one call at a time and
-- fewer than 2 ^ 64 registrations in all, no two services ever have the same identifier, and the
-- identifier of the next registration is not in use.
pub Reach-IsNumbered : {r : ServiceRegistry} → Reach r → IsNumbered r
Reach-IsNumbered here = create-IsNumbered
Reach-IsNumbered (next reached step) = Step-IsNumbered step (Reach-IsNumbered reached)
