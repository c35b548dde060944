-- ===== src/Concurrency/Tests.antt =====
-- Increments of a counter at once.
use backend_in_c.Prelude.{[], ◌∷◌, refl, arith}
use backend_in_c.Concurrency.{create}
use backend_in_c.Concurrency.Races.{
  Threads, load, store, start, Reach, here, next, loads, stores, IsBetween, Reach-IsBetween,
  lost_updates,
}

-- Two threads have loaded the counter, and one of them has stored.
abbrev both : Threads
both = load (load (start 7))

Reach-IsBetween_example : IsBetween 7 (store 7 (7 ∷ []) both)
unfolding create
Reach-IsBetween_example = Reach-IsBetween 7 {t = store 7 (7 ∷ []) both} (
    next {t = both} (next {t = load (start 7)} (next {t = start 7} here (loads refl)) (loads refl))
      (stores 7 [] (7 ∷ []) refl (omega arith) refl))

lost_updates_example : Reach 7 (record { counter = create 8; loaded = []; finished = 3 })
lost_updates_example = lost_updates 7 2 (omega arith)
