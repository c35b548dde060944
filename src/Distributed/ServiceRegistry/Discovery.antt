-- ===== src/Distributed/ServiceRegistry/Discovery.antt =====
-- What a discovery of src/distributed/distributed.c finds.
use backend_in_c.Prelude.{
  ℕ, ◌≡◌, refl, subst, [], ◌∷◌, Option, none, some, inl, inr, Option-cases, Bool-cases, some_inj,
  true, is_some, CString, str_eq, eq_of_str_eq, arith, if◌then◌else◌,
}
use backend_in_c.Common.{success, error_not_found}
use backend_in_c.Common.Words.{ℤ}
use backend_in_c.Assoc.{Assoc, find, update, remove, remove-find, remove-found, find-remove}
use backend_in_c.Distributed.ServiceRegistry.{
  ServiceInfo, ServiceRegistry, service_id, register, deregister, heartbeat, beat_first, beat,
  discover, discover_in,
}
use backend_in_c.Distributed.ServiceRegistry.Identity.{
  Step, registers, deregisters, beats, Reach, here, next, Reach-IsNumbered,
}

-- After a registration, a discovery of its name finds it, and of another name what it found before.
pub discover-register :
    (now : ℕ) (name host q : CString) (port : ℤ) (r : ServiceRegistry)
    → discover (some q) (register now (some name) (some host) port (some r)).1 ≡ (
        if str_eq name q
        then some (
          service_id r.next_id,
          record {
            service_name = name;
            host = host;
            port = port;
            last_heartbeat = now;
            healthy = true;
          },
        )
        else discover (some q) (some r))
unfolding discover register
discover-register now name host q port r = ground arith

-- Every node is marked healthy.
abbrev AllHealthy : Assoc ServiceInfo → Type 0
AllHealthy [] = Unit {0}
AllHealthy ((id, info) ∷ rest) = (info.healthy ≡ true) × AllHealthy rest

remove-AllHealthy :
    (id : CString) (es : Assoc ServiceInfo) {ds : Assoc ServiceInfo}
    → remove id es ≡ some ds
    → AllHealthy es
    → AllHealthy ds
unfolding remove
remove-AllHealthy id [] e h = absurd (cc)
remove-AllHealthy id ((j, info) ∷ es) {ds} e h = elim (Bool-cases (str_eq j id)) [
  | inl same ↦ subst AllHealthy (some_inj (rw same at e)) h.1
  | inr other ↦ elim (Option-cases (remove id es)) [
    | inl absent ↦ let e' = rw (other, absent) at e in absurd (cc e')
    | inr (rest, removed) ↦
        subst AllHealthy (some_inj (rw (other, removed) at e))
          (h.0, remove-AllHealthy id es {ds = rest} removed h.1)
  ]
]

update-AllHealthy :
    (id : CString) (info' : ServiceInfo) (es : Assoc ServiceInfo) {ds : Assoc ServiceInfo}
    → info'.healthy ≡ true
    → update id info' es ≡ some ds
    → AllHealthy es
    → AllHealthy ds
unfolding update
update-AllHealthy id info' [] well e h = absurd (cc)
update-AllHealthy id info' ((j, info) ∷ es) {ds} well e h = elim (Bool-cases (str_eq j id)) [
  | inl same ↦ subst AllHealthy (some_inj (rw same at e)) (well, h.1)
  | inr other ↦ elim (Option-cases (update id info' es)) [
    | inl absent ↦ let e' = rw (other, absent) at e in absurd (cc e')
    | inr (rest, updated) ↦
        subst AllHealthy (some_inj (rw (other, updated) at e))
          (h.0, update-AllHealthy id info' es {ds = rest} well updated h.1)
  ]
]

deregister-AllHealthy :
    (id : CString) (r : ServiceRegistry) {r' : ServiceRegistry}
    → (deregister (some id) (some r)).1 ≡ some r'
    → AllHealthy r.services
    → AllHealthy r'.services
unfolding deregister
deregister-AllHealthy id r {r'} e h = elim (Option-cases (remove id r.services)) [
  | inl absent ↦
      subst (λ (x : ServiceRegistry). AllHealthy x.services)
        (some_inj (rw (absent, deregister) at e)) h
  | inr (services, removed) ↦
      subst (λ (x : ServiceRegistry). AllHealthy x.services)
        (some_inj (rw (removed, deregister) at e))
        (remove-AllHealthy id r.services {ds = services} removed h)
]

beat_first-AllHealthy :
    (now : ℕ) (id : CString) (es : Assoc ServiceInfo) {ds : Assoc ServiceInfo}
    → beat_first now id es ≡ some ds
    → AllHealthy es
    → AllHealthy ds
unfolding beat_first
beat_first-AllHealthy now id es {ds} e h = elim (Option-cases (find id es)) [
  | inl absent ↦ let e' = rw (absent, beat_first) at e in absurd (cc e')
  | inr (info, found) ↦
      update-AllHealthy id (beat now info) es {ds = ds} refl (rw (found, beat_first) at e) h
]

heartbeat-AllHealthy :
    (now : ℕ) (id : CString) (r : ServiceRegistry) {r' : ServiceRegistry}
    → (heartbeat now (some id) (some r)).1 ≡ some r'
    → AllHealthy r.services
    → AllHealthy r'.services
unfolding heartbeat
heartbeat-AllHealthy now id r {r'} e h = elim (Option-cases (beat_first now id r.services)) [
  | inl absent ↦
      subst (λ (x : ServiceRegistry). AllHealthy x.services)
        (some_inj (rw (absent, heartbeat) at e)) h
  | inr (services, beaten) ↦
      subst (λ (x : ServiceRegistry). AllHealthy x.services)
        (some_inj (rw (beaten, heartbeat) at e))
        (beat_first-AllHealthy now id r.services {ds = services} beaten h)
]

Step-AllHealthy :
    {r r' : ServiceRegistry} → Step r r' → AllHealthy r.services → AllHealthy r'.services
unfolding register
Step-AllHealthy {r} (registers now name host port room e) h =
    subst (λ (x : ServiceRegistry). AllHealthy x.services) (some_inj e) (refl, h)
Step-AllHealthy {r} {r'} (deregisters id e) h = deregister-AllHealthy id r {r' = r'} e h
Step-AllHealthy {r} {r'} (beats now id e) h = heartbeat-AllHealthy now id r {r' = r'} e h

Reach-AllHealthy : {r : ServiceRegistry} → Reach r → AllHealthy r.services
Reach-AllHealthy here = tt
Reach-AllHealthy (next reached step) = Step-AllHealthy step (Reach-AllHealthy reached)

-- The newest service of a name, whatever its health and its last heartbeat.
unfoldable pub newest : CString → Assoc ServiceInfo → Option (CString × ServiceInfo)
newest name [] = none
newest name ((id, info) ∷ rest) =
    if str_eq info.service_name name then some (id, info) else newest name rest

discover_in-newest :
    (name : CString) (es : Assoc ServiceInfo) → AllHealthy es → discover_in name es ≡ newest name es
unfolding discover_in newest
discover_in-newest name [] h = refl
discover_in-newest name ((id, info) ∷ es) h = ground (arith, discover_in-newest name es)

-- In every registry that registrations, deregistrations and heartbeats can lead to, a discovery
-- finds the newest service of the name, whether or not it is marked healthy and however long ago its
-- last heartbeat was.
pub discover-newest :
    (name : CString) {r : ServiceRegistry}
    → Reach r
    → discover (some name) (some r) ≡ newest name r.services
unfolding discover
discover-newest name {r} reached = discover_in-newest name r.services (Reach-AllHealthy reached)

-- In every registry that calls can lead to, deregistering an identifier succeeds exactly if it is in
-- use, and afterwards it is not in use, while the others are as before.
pub deregister-find :
    (id q : CString) {r : ServiceRegistry}
    → Reach r
    → ((deregister (some id) (some r)).0
        ≡ (if is_some (find id r.services) then success else error_not_found))
      × (r' : ServiceRegistry) × ((deregister (some id) (some r)).1 ≡ some r')
      × (find q r'.services ≡ (if str_eq id q then none else find q r.services))
unfolding deregister
deregister-find id q {r} reached =
    let h = Reach-IsNumbered reached in
    elim (Option-cases (remove id r.services)) [
      | inr (d, e) ↦
          rw (e, deregister, remove-found id r.services {d = d} e)
            (
              refl,
              record r { services = d },
              refl,
              find-remove id r.services {d = d} q e (h.unique q),
            )
      | inl e ↦
          let absent = remove-find id r.services e in
          rw (e, deregister, absent) (refl, r, refl, ground (arith, eq_of_str_eq id q, absent))
    ]
