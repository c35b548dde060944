-- ===== src/Distributed/ServiceRegistry/Race.antt =====
-- Two threads in `service_register` of src/distributed/distributed.c at once, which both read the
-- counter of identifiers before either stores it.
use backend_in_c.Prelude.{ℕ, ◌+◌, ◌%◌, ◌<◌, ◌≡◌, refl, [], ◌∷◌, some, false, CString, str_eq_refl}
use backend_in_c.Common.{success}
use backend_in_c.Common.Words.{ℤ, u64}
use backend_in_c.Assoc.{Assoc, remove}
use backend_in_c.Distributed.ServiceRegistry.{ServiceInfo, ServiceRegistry, register, deregister}
use backend_in_c.Distributed.ServiceRegistry.Threads.{
  idle, node_of, read_counter, store_counter, link_node, reads, stores, links, Reach, here, next,
}

remove-first :
    (id : CString) (info : ServiceInfo) (services : Assoc ServiceInfo)
    → remove id ((id, info) ∷ services) ≡ some services
unfolding remove
remove-first id info services = rw (str_eq_refl id) refl

-- What one call does alone is what `service_register` was said to do.
pub register-alone :
    (now : ℕ) (name host : CString) (port : ℤ) (r : ServiceRegistry)
    → let node = node_of r.next_id now name host port in
      register now (some name) (some host) port (some r) ≡ (
        success,
        some (link_node node [] (store_counter r.next_id [] node (read_counter (idle r)))).registry,
      )
unfolding register
register-alone now name host port r = refl

-- Whatever the registry, two calls that register services, both of which read the counter before
-- either stores it, can end with both services under the identifier that was next. A deregistration
-- with this identifier then succeeds and takes away only the service that was linked last.
pub register_race :
    (r : ServiceRegistry) (now now' : ℕ) (name name' host host' : CString) (port port' : ℤ)
    → r.next_id + 1 < u64
    → let one = node_of r.next_id now name host port in
      let two = node_of r.next_id now' name' host' port' in
      let both : ServiceRegistry = record {
        services = two ∷ one ∷ r.services;
        next_id = (r.next_id + 1) % u64;
      } in
      Reach false (idle r) (idle both)
      × (deregister (some one.0) (some both)
          ≡ (success, some (record both { services = one ∷ r.services })))
unfolding deregister
register_race r now now' name name' host host' port port' room =
    let n = r.next_id in
    let one = node_of n now name host port in
    let two = node_of n now' name' host' port' in
    let t1 = read_counter (idle r) in
    let t2 = read_counter t1 in
    let t3 = store_counter n (n ∷ []) one t2 in
    let t4 = store_counter n [] two t3 in
    let t5 = link_node one (two ∷ []) t4 in
    (
      next {t = t5}
          (next {t = t4}
            (next {t = t3}
              (next {t = t2}
                (next {t = t1} (next {t = idle r} here (reads (λ e. absurd (cc e)) refl))
                  (reads (λ e. absurd (cc e)) refl))
                (stores n [] (n ∷ []) now name host port refl room refl))
              (stores n [] [] now' name' host' port' refl room refl))
            (links one (two ∷ []) [] refl refl))
          (links two [] [] refl refl),
      rw (remove-first one.0 two.1 (one ∷ r.services), deregister) refl,
    )
