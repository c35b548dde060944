-- ===== src/Distributed/ServiceRegistry/Threads.antt =====
-- Any number of threads that register services at once in src/distributed/distributed.c.
-- `service_register` increments `next_id` before it takes the lock, so a call is three steps: it
-- reads the counter; it stores the counter incremented, and builds its node; with the lock it links
-- the node. The other calls hold the lock from their first access to their last.
use backend_in_c.Prelude.{
  ℕ, ◌+◌, ◌%◌, ◌<◌, ◌≡◌, refl, sym, ap, subst, List, [], ◌∷◌, ◌++◌, some, inl, inr, ◌⊎◌, Bool, true,
  CString, arith, ◌∙◌,
}
use backend_in_c.Common.Words.{ℤ, u64}
use backend_in_c.Assoc.{Assoc, count, count-append}
use backend_in_c.Distributed.ServiceRegistry.{
  ServiceInfo, ServiceRegistry, create, service_id, deregister, heartbeat,
}
use backend_in_c.Distributed.ServiceRegistry.Identity.{
  IsNumbered, create-IsNumbered, register-IsNumbered, fewer-IsNumbered, deregister-IsFewer,
  heartbeat-IsFewer, IsFewer,
}

-- The registry, with the counter's values that threads have read and not yet stored incremented,
-- and the nodes that they have built and not yet linked.
pub record Threads : Type 0 where
  pub registry : ServiceRegistry
  pub reading : List ℕ
  pub holding : Assoc ServiceInfo

abbrev pub idle : ServiceRegistry → Threads
idle r = record { registry = r; reading = []; holding = [] }

-- The node that `service_register` builds.
abbrev pub node_of : ℕ → ℕ → CString → CString → ℤ → CString × ServiceInfo
node_of n now name host port = (
  service_id n,
  record { service_name = name; host = host; port = port; last_heartbeat = now; healthy = true },
)

abbrev pub read_counter : Threads → Threads
read_counter t = record t { reading = t.registry.next_id ∷ t.reading }

abbrev pub store_counter : ℕ → List ℕ → CString × ServiceInfo → Threads → Threads
store_counter n rest node t = record {
  registry = record t.registry { next_id = (n + 1) % u64 };
  reading = rest;
  holding = node ∷ t.holding;
}

abbrev pub link_node : CString × ServiceInfo → Assoc ServiceInfo → Threads → Threads
link_node node rest t = record t {
  registry = record t.registry { services = node ∷ t.registry.services };
  holding = rest;
}

-- The next step of one of the threads. Where the increments are `atomic`, a thread reads the counter
-- only when no other is between its read and its store.
pub data Step (atomic : Bool) (t t' : Threads) : Type 0 where
  reads : (atomic ≡ true → t.reading ≡ []) → t' ≡ read_counter t → Step atomic t t'
  stores :
      (n : ℕ) (xs ys : List ℕ) (now : ℕ) (name host : CString) (port : ℤ)
      → t.reading ≡ xs ++ n ∷ ys
      → n + 1 < u64
      → t' ≡ store_counter n (xs ++ ys) (node_of n now name host port) t
      → Step atomic t t'
  links :
      (node : CString × ServiceInfo) (xs ys : Assoc ServiceInfo)
      → t.holding ≡ xs ++ node ∷ ys
      → t' ≡ link_node node (xs ++ ys) t
      → Step atomic t t'
  deregisters :
      (id : CString) {r' : ServiceRegistry}
      → (deregister (some id) (some t.registry)).1 ≡ some r'
      → t' ≡ record t { registry = r' }
      → Step atomic t t'
  beats :
      (now : ℕ) (id : CString) {r' : ServiceRegistry}
      → (heartbeat now (some id) (some t.registry)).1 ≡ some r'
      → t' ≡ record t { registry = r' }
      → Step atomic t t'

pub data Reach (atomic : Bool) (start : Threads) : Threads → Type 0 where
  here : Reach atomic start start
  next : {t t' : Threads} → Reach atomic start t → Step atomic t t' → Reach atomic start t'

-- The registry as if every node that is built were linked.
abbrev linked : Threads → ServiceRegistry
linked t = record t.registry { services = t.holding ++ t.registry.services }

-- The identifiers of the services and of the nodes that are built are all different, and those from
-- the counter on are not in use; at most one thread has read the counter and not stored it.
pub record IsApart (t : Threads) : Type 0 where
  pub numbered : IsNumbered (linked t)
  pub alone : (t.reading ≡ []) ⊎ (t.reading ≡ t.registry.next_id ∷ [])

create-IsApart : IsApart (idle create)
create-IsApart = record { numbered = create-IsNumbered; alone = inl refl }

-- A list of one element has no other.
only-one : {n m : ℕ} (xs ys : List ℕ) → m ∷ [] ≡ xs ++ n ∷ ys → (n ≡ m) × (xs ++ ys ≡ [])
only-one [] [] e = (cc e, refl)
only-one [] (y ∷ ys) e = absurd (cc e)
only-one (x ∷ []) ys e = absurd (cc e)
only-one (x ∷ (z ∷ xs)) ys e = absurd (cc e)

not-none : (n : ℕ) (xs ys : List ℕ) → [] ≡ xs ++ n ∷ ys → ⊥
not-none n [] ys e = cc e
not-none n (x ∷ xs) ys e = cc e

IsFewer-linked :
    (t : Threads) (r' : ServiceRegistry)
    → IsFewer t.registry r'
    → IsFewer (linked t) (linked (record t { registry = r' }))
IsFewer-linked t r' (same, fewer) = (
  same,
  λ q. omega (
    arith,
    fewer q,
    count-append q t.holding t.registry.services,
    count-append q t.holding r'.services,
  ),
)

link-IsFewer :
    (t : Threads) (node : CString × ServiceInfo) (xs ys : Assoc ServiceInfo)
    → t.holding ≡ xs ++ node ∷ ys
    → IsFewer (linked t) (linked (link_node node (xs ++ ys) t))
unfolding count
link-IsFewer t node xs ys e = (
  refl,
  λ q. rw e (
      omega (
        arith,
        count-append q (xs ++ node ∷ ys) t.registry.services,
        count-append q xs (node ∷ ys),
        count-append q (xs ++ ys) (node ∷ t.registry.services),
        count-append q xs ys,
      )),
)

IsApart-fewer :
    (t : Threads) (r' : ServiceRegistry)
    → IsFewer t.registry r'
    → IsApart t
    → IsApart (record t { registry = r' })
IsApart-fewer t r' fewer h = record {
  numbered =
      fewer-IsNumbered (linked t) (linked (record t { registry = r' })) (IsFewer-linked t r' fewer)
        h.numbered;
  alone = subst (λ k. (t.reading ≡ []) ⊎ (t.reading ≡ k ∷ [])) (sym fewer.0) h.alone;
}

-- The number that a thread stores is that of the counter, and no other thread has one.
stored :
    (t : Threads) (n : ℕ) (xs ys : List ℕ)
    → IsApart t
    → t.reading ≡ xs ++ n ∷ ys
    → (n ≡ t.registry.next_id) × (xs ++ ys ≡ [])
stored t n xs ys h e = elim h.alone [
  | inl none_reads ↦ absurd (not-none n xs ys (sym none_reads ∙ e))
  | inr one_reads ↦ only-one xs ys (sym one_reads ∙ e)
]

store-IsApart :
    (t : Threads) (n : ℕ) (xs ys : List ℕ) (now : ℕ) (name host : CString) (port : ℤ)
    → t.reading ≡ xs ++ n ∷ ys
    → n + 1 < u64
    → IsApart t
    → IsApart (store_counter n (xs ++ ys) (node_of n now name host port) t)
store-IsApart t n xs ys now name host port e room h =
    let (same, rest) = stored t n xs ys h e in
    let node = node_of t.registry.next_id now name host port in
    subst (λ k. IsApart (store_counter k (xs ++ ys) (node_of k now name host port) t)) (sym same)
      (record {
        numbered = register-IsNumbered (linked t) node.1 (omega (arith, same)) h.numbered;
        alone = inl rest;
      })

Step-IsApart : {t t' : Threads} → Step true t t' → IsApart t → IsApart t'
Step-IsApart {t} (reads alone e) h = subst IsApart (sym e) (record {
  numbered = h.numbered;
  alone = inr (ap (λ (ns : List ℕ). t.registry.next_id ∷ ns) (alone refl));
})
Step-IsApart {t} (stores n xs ys now name host port e room e') h =
    subst IsApart (sym e') (store-IsApart t n xs ys now name host port e room h)
Step-IsApart {t} (links node xs ys e e') h = subst IsApart (sym e') (record {
  numbered =
      fewer-IsNumbered (linked t) (linked (link_node node (xs ++ ys) t))
        (link-IsFewer t node xs ys e) h.numbered;
  alone = h.alone;
})
Step-IsApart {t} (deregisters id {r'} e e') h =
    let fewer = deregister-IsFewer id t.registry {r' = r'} e in
    subst IsApart (sym e') (IsApart-fewer t r' fewer h)
Step-IsApart {t} (beats now id {r'} e e') h =
    let fewer = heartbeat-IsFewer now id t.registry {r' = r'} e in
    subst IsApart (sym e') (IsApart-fewer t r' fewer h)

-- Threads that register, deregister and keep services alive, in any interleaving of their steps in
-- which no thread reads the counter of identifiers while another is between its read and its store,
-- and with fewer than 2 ^ 64 registrations in all, never give one identifier to two services, in
-- whatever order the nodes are linked; nor is one that is still to be given out in use.
pub Reach-IsApart : {t : Threads} → Reach true (idle create) t → IsApart t
Reach-IsApart here = create-IsApart
Reach-IsApart (next reached step) = Step-IsApart step (Reach-IsApart reached)
