-- ===== src/Distributed/Metrics/Destroy.antt =====
-- The memory of the metrics of src/distributed/distributed.c: the collector has one block, and each
-- metric one and its name another; `metrics_export` allocates a buffer for its caller.
use backend_in_c.Prelude.{ℕ, ◌+◌, ◌≡◌, ap, List, [], ◌∷◌, Option, none, some, arith, CString, ◌∙◌}
use backend_in_c.Common.Blocks.{Blocks, allocate, release, release-to}
use backend_in_c.Common.Nodes.{
  release_nodes, node_blocks, release_nodes_lem, Beside, NodeStep-Beside, stores-NodeStep,
}
use backend_in_c.Assoc.{find}
use backend_in_c.Distributed.Metrics.{
  Doubles, Collector, assign, counter_inc, gauge_set, histogram_observe,
}

-- `metrics_collector_create`
unfoldable pub create_blocks : Blocks → Blocks
create_blocks blocks = allocate 1 blocks

module _ (d : Doubles) where
  -- What `find_or_create_metric` allocates: a metric that is new, and its name
  unfoldable pub metric_blocks : CString → Collector d → Blocks → Blocks
  metric_blocks name c blocks = elim (find name c) [ some _ ↦ blocks | none ↦ allocate 2 blocks ]

  -- `metrics_collector_destroy`
  unfoldable pub destroy : Option (Collector d) → Blocks → Blocks
  destroy none blocks = blocks
  destroy (some c) blocks = release 1 (release_nodes 2 c blocks)

  pub data Call : Type 0 where
    counts : CString → Call
    sets : d.Double → CString → Call
    observes : d.Double → CString → Call

  unfoldable pub name_of : Call → CString
  name_of (counts name) = name
  name_of (sets value name) = name
  name_of (observes value name) = name

  unfoldable pub call : Call → Option (Collector d) → Option (Collector d)
  call (counts name) c = (counter_inc d (some name) c).1
  call (sets value name) c = (gauge_set d value (some name) c).1
  call (observes value name) c = (histogram_observe d value (some name) c).1

  -- A collector and the blocks of the process, call by call.
  unfoldable pub run : List Call → Collector d → Blocks → Option (Collector d) × Blocks
  run [] c blocks = (some c, blocks)
  run (x ∷ calls) c blocks = elim (call x (some c)) [
    | some c' ↦ run calls c' (metric_blocks (name_of x) c blocks)
    | none ↦ (none, blocks)
  ]

  run-destroyed :
      (calls : List Call) (c : Collector d) (blocks : Blocks) (live : ℕ)
      → Beside 2 (live + 1) c blocks
      → destroy (run calls c blocks).0 (run calls c blocks).1 ≡ some live
  unfolding run destroy call name_of metric_blocks counter_inc gauge_set histogram_observe assign
  run-destroyed [] c blocks live h =
      ap (λ b. release 1 (release_nodes 2 c b)) h
      ∙ ap (release 1) (release_nodes_lem 2 c (live + 1))
      ∙ release-to 1 (live + 1) live (omega arith)
  run-destroyed (counts name ∷ calls) c blocks live h =
      run-destroyed calls _ _ live
        (NodeStep-Beside 2 (live + 1) c _ blocks _ (stores-NodeStep 2 name _ c blocks) h)
  run-destroyed (sets value name ∷ calls) c blocks live h =
      run-destroyed calls _ _ live
        (NodeStep-Beside 2 (live + 1) c _ blocks _ (stores-NodeStep 2 name _ c blocks) h)
  run-destroyed (observes value name ∷ calls) c blocks live h =
      run-destroyed calls _ _ live
        (NodeStep-Beside 2 (live + 1) c _ blocks _ (stores-NodeStep 2 name _ c blocks) h)

  -- Whatever counters, gauges and histograms came after the collector was created, destroying it
  -- leaves as many blocks allocated as there were before.
  pub metrics-release :
      (calls : List Call) (live : ℕ)
      → let r = run calls [] (create_blocks (some live)) in destroy r.0 r.1 ≡ some live
  unfolding create_blocks allocate
  metrics-release calls live =
      run-destroyed calls [] (some (live + 1)) live
        (unfold node_blocks in ap (λ (m : ℕ). some m) (omega arith))
