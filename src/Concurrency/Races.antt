-- ===== src/Concurrency/Races.antt =====
-- Threads that increment one counter of src/concurrency/concurrency.c at once.
use backend_in_c.Prelude.{
  ℕ, zero, suc, ◌+◌, ◌≤◌, ◌<◌, ◌≡◌, refl, ap, sym, subst, List, [], ◌∷◌, ◌++◌, arith,
}
use backend_in_c.Common.Words.{u64}
use backend_in_c.Concurrency.{AtomicCounter, create, increment}

-- The counter, with the values that threads have loaded and not yet stored incremented, and the
-- number of increments that are done.
pub record Threads : Type 0 where
  pub counter : AtomicCounter
  pub loaded : List ℕ
  pub finished : ℕ

-- The load and the store of an `atomic_counter_increment`.
abbrev pub load : Threads → Threads
load t = record t { loaded = t.counter.value ∷ t.loaded }

abbrev pub store : ℕ → List ℕ → Threads → Threads
store n rest t = record {
  counter = (increment (record { value = n })).1;
  loaded = rest;
  finished = t.finished + 1;
}

pub data Step (t t' : Threads) : Type 0 where
  loads : t' ≡ load t → Step t t'
  stores :
      (n : ℕ) (xs ys : List ℕ)
      → t.loaded ≡ xs ++ n ∷ ys
      → n + 1 < u64
      → t' ≡ store n (xs ++ ys) t
      → Step t t'

abbrev pub start : ℕ → Threads
start v = record { counter = create v; loaded = []; finished = 0 }

pub data Reach (v : ℕ) : Threads → Type 0 where
  here : Reach v (start v)
  next : {t t' : Threads} → Reach v t → Step t t' → Reach v t'

-- All values are from `low` to `high`.
abbrev AllBetween : ℕ → ℕ → List ℕ → Type 0
AllBetween low high [] = Unit {0}
AllBetween low high (n ∷ ns) = ((low ≤ n) × (n ≤ high)) × AllBetween low high ns

-- The counter stands between its first value and what all increments that are done would make.
pub record IsBetween (v : ℕ) (t : Threads) : Type 0 where
  pub below : t.counter.value ≤ v + t.finished
  pub above : v ≤ t.counter.value
  pub counts : 0 < t.finished → v < t.counter.value
  pub pending : AllBetween v (v + t.finished) t.loaded

AllBetween-wider :
    (low high high' : ℕ) (ns : List ℕ)
    → high ≤ high'
    → AllBetween low high ns
    → AllBetween low high' ns
AllBetween-wider low high high' [] le h = tt
AllBetween-wider low high high' (n ∷ ns) le h =
    ((h.0.0, omega (arith, h.0.1)), AllBetween-wider low high high' ns le h.1)

AllBetween-take :
    (low high n : ℕ) (xs ys : List ℕ)
    → AllBetween low high (xs ++ n ∷ ys)
    → ((low ≤ n) × (n ≤ high)) × AllBetween low high (xs ++ ys)
AllBetween-take low high n [] ys h = h
AllBetween-take low high n (x ∷ xs) ys h =
    let rest = AllBetween-take low high n xs ys h.1 in (rest.0, (h.0, rest.1))

store-IsBetween :
    (v n : ℕ) (xs ys : List ℕ) (t : Threads)
    → t.loaded ≡ xs ++ n ∷ ys
    → n + 1 < u64
    → IsBetween v t
    → IsBetween v (store n (xs ++ ys) t)
unfolding increment
store-IsBetween v n xs ys t e room h =
    let taken =
      AllBetween-take v (v + t.finished) n xs ys
        (subst (AllBetween v (v + t.finished)) e h.pending) in
    record {
      below = omega (arith, taken.0.1, room);
      above = omega (arith, taken.0.0, room);
      counts = λ more. omega (arith, taken.0.0, room);
      pending =
          AllBetween-wider v (v + t.finished) (v + (t.finished + 1)) (xs ++ ys) (omega arith)
            taken.1;
    }

Step-IsBetween : (v : ℕ) {t t' : Threads} → Step t t' → IsBetween v t → IsBetween v t'
Step-IsBetween v {t} (loads e) h = subst (IsBetween v) (sym e) (record {
  below = h.below;
  above = h.above;
  counts = h.counts;
  pending = ((h.above, h.below), h.pending);
})
Step-IsBetween v {t} (stores n xs ys e room e') h =
    subst (IsBetween v) (sym e') (store-IsBetween v n xs ys t e room h)

start-IsBetween : (v : ℕ) → IsBetween v (start v)
unfolding create
start-IsBetween v = record {
  below = omega arith;
  above = omega arith;
  counts = λ more. absurd (omega (arith, more));
  pending = tt;
}

-- Whatever the order in which threads load and store the counter, without an overflow, it is never
-- below its first value nor more than the increments that are done above it, and is above its first
-- value once an increment is done.
pub Reach-IsBetween : (v : ℕ) {t : Threads} → Reach v t → IsBetween v t
Reach-IsBetween v here = start-IsBetween v
Reach-IsBetween v (next reached step) = Step-IsBetween v step (Reach-IsBetween v reached)

-- So many copies of a value.
abbrev copies : ℕ → ℕ → List ℕ
copies zero v = []
copies (suc n) v = v ∷ copies n v

all-load : (v n : ℕ) → Reach v (record { counter = create v; loaded = copies n v; finished = 0 })
unfolding create
all-load v zero = here
all-load v (suc n) =
    next {t = record { counter = create v; loaded = copies n v; finished = 0 }} (all-load v n)
      (loads refl)

-- A store of a thread that has loaded the first value.
store-first :
    (v m : ℕ) (c : AtomicCounter) (ns : List ℕ)
    → v + 1 < u64
    → Reach v (record { counter = c; loaded = v ∷ ns; finished = m })
    → Reach v (record { counter = create (v + 1); loaded = ns; finished = m + 1 })
unfolding create increment
store-first v m c ns room r = next {t = record { counter = c; loaded = v ∷ ns; finished = m }} r (
    stores v [] ns refl room (
      ap (λ (k : ℕ). record { counter = record { value = k }; loaded = ns; finished = m + 1 })
        (omega (arith, room))))

all-store :
    (v m n : ℕ)
    → v + 1 < u64
    → Reach v (record { counter = create (v + 1); loaded = copies n v; finished = m })
    → Reach v (record { counter = create (v + 1); loaded = []; finished = m + n })
all-store v m zero room r =
    subst (λ k. Reach v (record { counter = create (v + 1); loaded = []; finished = k }))
      (omega arith) r
all-store v m (suc n) room r =
    subst (λ k. Reach v (record { counter = create (v + 1); loaded = []; finished = k }))
      (omega arith)
      (all-store v (m + 1) n room (store-first v m (create (v + 1)) (copies n v) room r))

-- As many increments as one likes, at least one, can amount to one: the counter, if its first value is
-- not the largest one, can end one above it after all of them.
pub lost_updates :
    (v n : ℕ)
    → v + 1 < u64
    → Reach v (record { counter = create (v + 1); loaded = []; finished = suc n })
lost_updates v n room =
    subst (λ k. Reach v (record { counter = create (v + 1); loaded = []; finished = k }))
      (omega arith)
      (all-store v (0 + 1) n room
        (store-first v 0 (create v) (copies n v) room (all-load v (suc n))))
