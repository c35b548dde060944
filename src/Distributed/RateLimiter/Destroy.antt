-- ===== src/Distributed/RateLimiter/Destroy.antt =====
-- The memory of the rate limiter of src/distributed/distributed.c: the limiter has one block, and
-- each client's entry one and its name another.
use backend_in_c.Prelude.{
  ℕ, ◌+◌, ◌≡◌, refl, ap, List, [], ◌∷◌, Option, none, some, inl, inr, Option-cases, arith, CString,
  ◌∙◌, subst, sym,
}
use backend_in_c.Common.Blocks.{Blocks, allocate, release, release-to}
use backend_in_c.Common.Nodes.{
  release_nodes, node_blocks, release_nodes_lem, Beside, NodeStep-Beside, stores-NodeStep,
  removes-NodeStep,
}
use backend_in_c.Assoc.{find, remove}
use backend_in_c.Distributed.RateLimiter.{RateLimiter, create, allow, reset, store}

-- What `rate_limiter_create` allocates
unfoldable pub create_blocks : Blocks → Blocks
create_blocks blocks = allocate 1 blocks

-- What `rate_limiter_allow` allocates: the entry of a client that has none, and its name
unfoldable pub allow_blocks : CString → RateLimiter → Blocks → Blocks
allow_blocks client l blocks = elim (find client l.entries) [
  | some _ ↦ blocks
  | none ↦ allocate 2 blocks
]

-- What `rate_limiter_reset` frees
unfoldable pub reset_blocks : CString → RateLimiter → Blocks → Blocks
reset_blocks client l blocks = elim (find client l.entries) [
  | some _ ↦ release 2 blocks
  | none ↦ blocks
]

-- `rate_limiter_destroy`
unfoldable pub destroy : Option RateLimiter → Blocks → Blocks
destroy none blocks = blocks
destroy (some l) blocks = release 1 (release_nodes 2 l.entries blocks)

pub data Call : Type 0 where
  allows : ℕ → CString → Call
  resets : CString → Call

-- A limiter and the blocks of the process, call by call.
unfoldable pub run : List Call → RateLimiter → Blocks → Option RateLimiter × Blocks
run [] l blocks = (some l, blocks)
run (allows now client ∷ calls) l blocks = elim (allow now (some client) (some l)).1 [
  | some l' ↦ run calls l' (allow_blocks client l blocks)
  | none ↦ (none, blocks)
]
run (resets client ∷ calls) l blocks = elim (reset (some client) (some l)).1 [
  | some l' ↦ run calls l' (reset_blocks client l blocks)
  | none ↦ (none, blocks)
]

-- What a reset leaves.
reset-some :
    (client : CString) (l : RateLimiter)
    → (reset (some client) (some l)).1
      ≡ some (record l {
        entries = elim (remove client l.entries) [ some es ↦ es | none ↦ l.entries ];
      })
unfolding reset
reset-some client l = elim (Option-cases (remove client l.entries)) [
  | inr (es, e) ↦ rw (e, reset) refl
  | inl e ↦ rw (e, reset) refl
]

run-destroyed :
    (calls : List Call) (l : RateLimiter) (blocks : Blocks) (live : ℕ)
    → Beside 2 (live + 1) l.entries blocks
    → destroy (run calls l blocks).0 (run calls l blocks).1 ≡ some live
unfolding run destroy allow allow_blocks store reset_blocks
run-destroyed [] l blocks live h =
    ap (λ b. release 1 (release_nodes 2 l.entries b)) h
    ∙ ap (release 1) (release_nodes_lem 2 l.entries (live + 1))
    ∙ release-to 1 (live + 1) live (omega arith)
run-destroyed (allows now client ∷ calls) l blocks live h = run-destroyed calls _ _ live (
    NodeStep-Beside 2 (live + 1) l.entries _ blocks _ (stores-NodeStep 2 client _ l.entries blocks)
      h)
run-destroyed (resets client ∷ calls) l blocks live h =
    subst
      (λ (o : Option RateLimiter).
        let r : Option RateLimiter × Blocks = elim o [
          | some l' ↦ run calls l' (reset_blocks client l blocks)
          | none ↦ (none, blocks)
        ] in
        destroy r.0 r.1 ≡ some live)
      (sym (reset-some client l))
      (run-destroyed calls _ _ live (
        NodeStep-Beside 2 (live + 1) l.entries _ blocks _
          (removes-NodeStep 2 client l.entries blocks) h))

-- Whatever requests and resets of clients came after the limiter was created, destroying it leaves
-- as many blocks allocated as there were before.
pub calls-release :
    (max_requests window_ms : ℕ) (calls : List Call) (live : ℕ)
    → let r = run calls (create max_requests window_ms) (create_blocks (some live)) in
      destroy r.0 r.1 ≡ some live
unfolding create create_blocks allocate
calls-release max_requests window_ms calls live =
    run-destroyed calls (create max_requests window_ms) (some (live + 1)) live
      (unfold node_blocks in ap (λ (m : ℕ). some m) (omega arith))
