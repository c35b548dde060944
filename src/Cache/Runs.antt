-- ===== src/Cache/Runs.antt =====
-- Sequences of calls of src/cache/cache.c, from `cache_create` on.
use backend_in_c.Prelude.{
  ℕ, ◌*◌, ◌≤◌, ◌<◌, ◌≡◌, refl, sym, ap, subst, ◌∙◌, List, [], ◌∷◌, map, Option, none, some, inl,
  inr, Bool-cases, Bool, false, arith, length, ◌==◌, if◌then◌else◌, CString, Bytes, some_inj,
}
use backend_in_c.Common.{ErrorCode, success, error_invalid_param, error_not_found}
use backend_in_c.Common.Words.{u64}
use backend_in_c.Cache.{Ptr, Item, EvictionPolicy, Cache, create}
use backend_in_c.Cache.Calls.{cleared, put_with_ttl, get, delete, clear, destroy}
use backend_in_c.Cache.Invariant.{IsCached}
use backend_in_c.Cache.Clear.{create-IsCached, cleared-IsCached, cleared-live}
use backend_in_c.Cache.Model.{Model, lookup, model_put, model_get, model_delete}
use backend_in_c.Cache.Touch.{view, Represents}
use backend_in_c.Cache.Refinement.{put-view, get-view, delete-view}

-- A call, with the times that it reads.
pub data Call : Type 0 where
  put_call : ℕ → ℕ → CString → Bytes → ℕ → Call
  get_call : ℕ → CString → Call
  delete_call : ℕ → CString → Call
  clear_call : Call

abbrev pub Reply : Type 0
Reply = ErrorCode × Option Bytes

-- A call of the code, with its reply; `cache_clear` has none.
abbrev pub step : Call → Option Cache → Reply × Option Cache
step (put_call now now' k v ttl) c =
    let (code, c') = put_with_ttl now now' (some k) (some v) ttl c in ((code, none), c')
step (get_call now k) c = let (code, v, c') = get now (some k) c in ((code, v), c')
step (delete_call now k) c = let (code, c') = delete now (some k) c in ((code, none), c')
step clear_call c = ((success, none), clear c)

abbrev pub run : List Call → Option Cache → List Reply × Option Cache
run [] c = ([], c)
run (x ∷ xs) c = let (r, c') = step x c in let (rs, c'') = run xs c' in (r ∷ rs, c'')

abbrev pub model_step : Call → Model → Reply × Model
model_step (put_call now now' k v ttl) m =
    if length v == 0
    then ((error_invalid_param, none), m)
    else ((success, none), model_put now now' k v ttl m)
model_step (get_call now k) m = (
  elim (lookup now k m.entries) [
    | some e ↦ (success, some e.value)
    | none ↦ (error_not_found, none)
  ],
  model_get now k m,
)
model_step (delete_call now k) m = (
  elim (lookup now k m.entries) [ some e ↦ (success, none) | none ↦ (error_not_found, none) ],
  model_delete now k m,
)
model_step clear_call m = ((success, none), record m { entries = [] })

abbrev pub model_run : List Call → Model → List Reply × Model
model_run [] m = ([], m)
model_run (x ∷ xs) m =
    let (r, m') = model_step x m in let (rs, m'') = model_run xs m' in (r ∷ rs, m'')

-- What a call does is what the model says.
abbrev Agrees : Call → Cache → Model → Type 0
Agrees x c m =
    (c' : Cache) × (step x (some c) ≡ ((model_step x m).0, some c'))
    × Represents c' (model_step x m).1

step-Agrees-view :
    (x : Call) {c : Cache} {xs : List Ptr} → IsCached c xs → 0 < c.max_size → Agrees x c (view c xs)
unfolding put_with_ttl clear
step-Agrees-view (put_call now now' k v ttl) {c} {xs} h positive =
    elim (Bool-cases (length v == 0)) [
      | inl empty ↦ (c, rw empty refl, rw empty (record { order = xs; cached = h; shown = refl }))
      | inr filled ↦
          let (c', e, r) = put-view h now k now' v ttl positive filled in
          (c', ap (λ t. ((t.0, none), t.1)) e ∙ rw filled refl, rw filled r)
    ]
step-Agrees-view (get_call now k) {c} {xs} h positive =
    let (c', e, r) = get-view h now k in
    (c', ap (λ t. ((t.0, t.1), t.2)) e ∙ by_lookup c' (lookup now k (map c.item xs)), r)
  where
    by_lookup :
        (c' : Cache) (o : Option Item)
        → let t : ErrorCode × Option Bytes × Option Cache = elim o [
          | some e ↦ (success, some e.value, some c')
          | none ↦ (error_not_found, none, some c')
        ] in
          Path
            (Reply × Option Cache)
            ((t.0, t.1), t.2)
            (elim o [ some e ↦ (success, some e.value) | none ↦ (error_not_found, none) ], some c')
    by_lookup c' (some e) = refl
    by_lookup c' none = refl
step-Agrees-view (delete_call now k) {c} {xs} h positive =
    let (c', e, r) = delete-view h now k in
    (c', ap (λ t. ((t.0, none), t.1)) e ∙ by_lookup c' (lookup now k (map c.item xs)), r)
  where
    by_lookup :
        (c' : Cache) (o : Option Item)
        → let t : ErrorCode × Option Cache = elim o [
          | some e ↦ (success, some c')
          | none ↦ (error_not_found, some c')
        ] in
          Path
            (Reply × Option Cache)
            ((t.0, none), t.1)
            (elim o [ some e ↦ (success, none) | none ↦ (error_not_found, none) ], some c')
    by_lookup c' (some e) = refl
    by_lookup c' none = refl
step-Agrees-view clear_call {c} {xs} h positive =
    (cleared c, refl, record { order = []; cached = cleared-IsCached h; shown = refl })

step-Agrees : (x : Call) {c : Cache} {m : Model} → Represents c m → 0 < m.max_size → Agrees x c m
step-Agrees x {c} {m} r positive = subst (Agrees x c) r.shown (
    step-Agrees-view x r.cached
      (subst (λ n. 0 < n) (ap (λ (t : Model). t.max_size) (sym r.shown)) positive))

model_step-max_size : (x : Call) (m : Model) → (model_step x m).1.max_size ≡ m.max_size
model_step-max_size (put_call now now' k v ttl) m = elim (Bool-cases (length v == 0)) [
  | inl empty ↦ rw empty refl
  | inr filled ↦ rw filled refl
]
model_step-max_size (get_call now k) m = refl
model_step-max_size (delete_call now k) m = refl
model_step-max_size clear_call m = refl

model_run-max_size : (xs : List Call) (m : Model) → (model_run xs m).1.max_size ≡ m.max_size
model_run-max_size [] m = refl
model_run-max_size (x ∷ xs) m = model_run-max_size xs (model_step x m).1 ∙ model_step-max_size x m

run-agrees :
    (xs : List Call) {c : Cache} {m : Model}
    → Represents c m
    → 0 < m.max_size
    → (c' : Cache) × (run xs (some c) ≡ ((model_run xs m).0, some c'))
      × Represents c' (model_run xs m).1
run-agrees [] {c} r positive = (c, refl, r)
run-agrees (x ∷ xs) {c} {m} r positive =
    let (c1, e, r1) = step-Agrees x r positive in
    let (c2, f, r2) = run-agrees xs r1 (omega (arith, model_step-max_size x m, positive)) in
    (
      c2,
      ap (λ t. (t.0 ∷ (run xs t.1).0, (run xs t.1).1)) e
          ∙ ap (λ t. ((model_step x m).0 ∷ t.0, t.1)) f,
      r2,
    )

abbrev pub empty_model : ℕ → EvictionPolicy → Model
empty_model max_size policy = record { max_size = max_size; policy = policy; entries = [] }

module _ (max_size : ℕ) (policy : EvictionPolicy) (positive : 0 < max_size)
    (fits : max_size * 2 < u64) (xs : List Call) where
  -- The cache that `cache_create` gives, with a size that is positive and below 2⁶³, answers every
  -- sequence of calls of `cache_put_with_ttl`, `cache_get`, `cache_delete` and `cache_clear` as the model
  -- does, which starts with no entries: the codes and the values are the same, and afterwards the cache
  -- has the model's entries in the model's order, its list and its table well formed.
  pub run-create :
      (c' : Cache) × (run xs (some (create max_size policy))
        ≡ ((model_run xs (empty_model max_size policy)).0, some c'))
      × Represents c' (model_run xs (empty_model max_size policy)).1
  unfolding create
  run-create =
      run-agrees xs
        (record {
          order = [];
          cached = create-IsCached max_size policy positive fits;
          shown = refl;
        })
        positive

  -- After any calls on a cache with a size that is positive and below 2⁶³, the cache holds as many
  -- entries at most.
  pub run-bounded :
      (c' : Cache) (replies : List Reply)
      → run xs (some (create max_size policy)) ≡ (replies, some c')
      → c'.size ≤ max_size
  run-bounded c' replies e =
      let (c1, f, r) = run-create in
      let same : c1 ≡ c' = some_inj (ap (λ t. t.1) (sym f ∙ e)) in
      omega (
        arith,
        ap (λ (t : Cache). t.size) same,
        r.cached.size,
        r.cached.bounded,
        ap (λ (t : Model). t.max_size) r.shown,
        model_run-max_size xs (empty_model max_size policy),
      )

  -- After any calls on a cache with a size that is positive and below 2⁶³, `cache_destroy` leaves no
  -- entry allocated.
  pub run-destroy :
      (live : Ptr → Bool) × (destroy (run xs (some (create max_size policy))).1 ≡ some live)
      × ((p : Ptr) → live p ≡ false)
  unfolding destroy
  run-destroy =
      let (c1, f, r) = run-create in
      ((cleared c1).live, ap (λ t. destroy t.1) f, cleared-live r.cached)
