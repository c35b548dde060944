-- ===== src/Distributed/ServiceRegistry/Destroy.antt =====
-- The memory of the service registry of src/distributed/distributed.c: the registry has one block,
-- and each service five: its node, its `service_info_t`, and the identifier, the name and the host
-- that this points to.
use backend_in_c.Prelude.{
  ℕ, ◌+◌, ◌≡◌, refl, ap, List, [], ◌∷◌, Option, none, some, inl, inr, Option-cases, arith, CString,
  ◌∙◌, subst, sym, length,
}
use backend_in_c.Common.Words.{ℤ}
use backend_in_c.Common.Blocks.{Blocks, allocate, release, release-to}
use backend_in_c.Common.Nodes.{
  release_nodes, node_blocks, release_nodes_lem, Beside, NodeStep, keeps, grows, NodeStep-Beside,
  removes-NodeStep,
}
use backend_in_c.Assoc.{Assoc, find, remove, length-update}
use backend_in_c.Distributed.ServiceRegistry.{
  ServiceInfo, ServiceRegistry, create, register, deregister, heartbeat, beat, beat_first, discover,
}

-- `service_info_destroy`
unfoldable pub info_destroy : Option (CString × ServiceInfo) → Blocks → Blocks
info_destroy none blocks = blocks
info_destroy (some info) blocks = release 4 blocks

-- `service_registry_create`
unfoldable pub create_blocks : Blocks → Blocks
create_blocks blocks = allocate 1 blocks

-- What `service_register` allocates
unfoldable pub register_blocks : Blocks → Blocks
register_blocks blocks = allocate 5 blocks

-- What `service_deregister` frees
unfoldable pub deregister_blocks : CString → ServiceRegistry → Blocks → Blocks
unfolding info_destroy
deregister_blocks id r blocks = elim (find id r.services) [
  | some info ↦ release 1 (info_destroy (some (id, info)) blocks)
  | none ↦ blocks
]

-- What `service_discover` allocates: a copy for the caller
unfoldable pub discover_blocks : CString → ServiceRegistry → Blocks → Blocks
discover_blocks name r blocks = elim (discover (some name) (some r)) [
  | some _ ↦ allocate 4 blocks
  | none ↦ blocks
]

-- `service_registry_destroy`: a node is freed with its information
unfoldable pub destroy : Option ServiceRegistry → Blocks → Blocks
destroy none blocks = blocks
destroy (some r) blocks = release 1 (release_nodes 5 r.services blocks)

-- A call, and for a discovery the freeing of the copy that the caller gets.
pub data Call : Type 0 where
  registers : ℕ → CString → CString → ℤ → Call
  deregisters : CString → Call
  beats : ℕ → CString → Call
  discovers : CString → Call

unfoldable pub call : Call → ServiceRegistry → Option ServiceRegistry
call (registers now name host port) r = (register now (some name) (some host) port (some r)).1
call (deregisters id) r = (deregister (some id) (some r)).1
call (beats now id) r = (heartbeat now (some id) (some r)).1
call (discovers name) r = some r

unfoldable pub call_blocks : Call → ServiceRegistry → Blocks → Blocks
call_blocks (registers now name host port) r blocks = register_blocks blocks
call_blocks (deregisters id) r blocks = deregister_blocks id r blocks
call_blocks (beats now id) r blocks = blocks
call_blocks (discovers name) r blocks =
    info_destroy (discover (some name) (some r)) (discover_blocks name r blocks)

-- A registry and the blocks of the process, call by call.
unfoldable pub run : List Call → ServiceRegistry → Blocks → Option ServiceRegistry × Blocks
run [] r blocks = (some r, blocks)
run (c ∷ calls) r blocks = elim (call c r) [
  | some r' ↦ run calls r' (call_blocks c r blocks)
  | none ↦ (none, blocks)
]

-- A call gives a registry, and changes the blocks with the services.
Steps : Call → ServiceRegistry → Blocks → Type 0
Steps c r blocks =
    (r' : ServiceRegistry) × (call c r ≡ some r')
    × NodeStep 5 r.services r'.services blocks (call_blocks c r blocks)

release-4 : (blocks : Blocks) → release 1 (release 4 blocks) ≡ release 5 blocks
unfolding release
release-4 none = refl
release-4 (some live) = ground arith

release-allocate : (blocks : Blocks) → release 4 (allocate 4 blocks) ≡ blocks
unfolding release allocate
release-allocate none = refl
release-allocate (some live) = release-to 4 (live + 4) live refl

info_destroy-discovered :
    (name : CString) (r : ServiceRegistry) (blocks : Blocks)
    → info_destroy (discover (some name) (some r)) (discover_blocks name r blocks) ≡ blocks
unfolding info_destroy discover_blocks allocate
info_destroy-discovered name r blocks = elim (Option-cases (discover (some name) (some r))) [
  | inl e ↦ rw (e, discover_blocks) refl
  | inr (info, e) ↦ rw (e, discover_blocks) (release-allocate blocks)
]

register-Steps :
    (now : ℕ) (name host : CString) (port : ℤ) (r : ServiceRegistry) (blocks : Blocks)
    → Steps (registers now name host port) r blocks
unfolding Steps call call_blocks register register_blocks
register-Steps now name host port r blocks = (_, refl, grows (omega arith) refl)

deregister-some :
    (id : CString) (r : ServiceRegistry)
    → (deregister (some id) (some r)).1
      ≡ some
          (record r { services = elim (remove id r.services) [ some es ↦ es | none ↦ r.services ] })
unfolding deregister
deregister-some id r = elim (Option-cases (remove id r.services)) [
  | inr (es, e) ↦ rw (e, deregister) refl
  | inl e ↦ rw (e, deregister) refl
]

deregister_blocks_lem :
    (id : CString) (r : ServiceRegistry) (blocks : Blocks)
    → deregister_blocks id r blocks
      ≡ (elim (find id r.services) [ some _ ↦ release 5 blocks | none ↦ blocks ])
unfolding deregister_blocks info_destroy
deregister_blocks_lem id r blocks = elim (Option-cases (find id r.services)) [
  | inl e ↦ rw (e, deregister_blocks) refl
  | inr (info, e) ↦ rw (e, deregister_blocks) (release-4 blocks)
]

deregister-Steps :
    (id : CString) (r : ServiceRegistry) (blocks : Blocks) → Steps (deregisters id) r blocks
unfolding Steps call call_blocks
deregister-Steps id r blocks = (
  _,
  deregister-some id r,
  subst
      (NodeStep 5 r.services (elim (remove id r.services) [ some es ↦ es | none ↦ r.services ])
        blocks)
      (sym (deregister_blocks_lem id r blocks)) (removes-NodeStep 5 id r.services blocks),
)

-- A heartbeat changes the number of services as little as their blocks.
beat_first-length :
    (now : ℕ) (id : CString) (es : Assoc ServiceInfo) {ds : Assoc ServiceInfo}
    → beat_first now id es ≡ some ds
    → length ds ≡ length es
unfolding beat_first
beat_first-length now id es {ds} e = elim (Option-cases (find id es)) [
  | inl absent ↦ let e' = rw (absent, beat_first) at e in absurd (cc e')
  | inr (info, found) ↦ length-update id (beat now info) es {d = ds} (rw (found, beat_first) at e)
]

heartbeat-Steps :
    (now : ℕ) (id : CString) (r : ServiceRegistry) (blocks : Blocks) → Steps (beats now id) r blocks
unfolding Steps call call_blocks heartbeat
heartbeat-Steps now id r blocks = elim (Option-cases (beat_first now id r.services)) [
  | inl absent ↦ (r, rw (absent, call, heartbeat) refl, keeps refl refl)
  | inr (es, e) ↦ (
    record r { services = es },
    rw (e, call, heartbeat) refl,
    keeps (beat_first-length now id r.services {ds = es} e) refl,
  )
]

discover-Steps :
    (name : CString) (r : ServiceRegistry) (blocks : Blocks) → Steps (discovers name) r blocks
unfolding Steps call call_blocks
discover-Steps name r blocks = (r, refl, keeps refl (info_destroy-discovered name r blocks))

call-Steps : (c : Call) (r : ServiceRegistry) (blocks : Blocks) → Steps c r blocks
call-Steps (registers now name host port) r blocks = register-Steps now name host port r blocks
call-Steps (deregisters id) r blocks = deregister-Steps id r blocks
call-Steps (beats now id) r blocks = heartbeat-Steps now id r blocks
call-Steps (discovers name) r blocks = discover-Steps name r blocks

run-destroyed :
    (calls : List Call) (r : ServiceRegistry) (blocks : Blocks) (live : ℕ)
    → Beside 5 (live + 1) r.services blocks
    → destroy (run calls r blocks).0 (run calls r blocks).1 ≡ some live
unfolding run destroy Steps
run-destroyed [] r blocks live h =
    ap (λ b. release 1 (release_nodes 5 r.services b)) h
    ∙ ap (release 1) (release_nodes_lem 5 r.services (live + 1))
    ∙ release-to 1 (live + 1) live (omega arith)
run-destroyed (c ∷ calls) r blocks live h =
    let (r', e, step) = call-Steps c r blocks in
    let b' = call_blocks c r blocks in
    subst
      (λ (o : Option ServiceRegistry).
        let x : Option ServiceRegistry × Blocks = elim o [
          | some r'' ↦ run calls r'' b'
          | none ↦ (none, blocks)
        ] in
        destroy x.0 x.1 ≡ some live)
      (sym e)
      (run-destroyed calls r' b' live
        (NodeStep-Beside 5 (live + 1) r.services r'.services blocks b' step h))

-- Whatever registrations, deregistrations, heartbeats and discoveries came after the registry was
-- created, with every copy that a discovery gave freed by `service_info_destroy`, destroying the
-- registry leaves as many blocks allocated as there were before.
pub registry-releases :
    (calls : List Call) (live : ℕ)
    → let r = run calls create (create_blocks (some live)) in destroy r.0 r.1 ≡ some live
unfolding create_blocks allocate
registry-releases calls live =
    run-destroyed calls create (some (live + 1)) live
      (unfold node_blocks in ap (λ (m : ℕ). some m) (omega arith))
