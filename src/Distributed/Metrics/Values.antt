-- ===== src/Distributed/Metrics/Values.antt =====
-- The values of metrics in src/distributed/distributed.c.
use backend_in_c.Prelude.{
  ◌≡◌, refl, ◌∙◌, ap, List, [], ◌∷◌, Option, none, some, inl, inr, Option-cases, Bool-cases,
  CString, str_eq, eq_of_str_eq, if◌then◌else◌,
}
use backend_in_c.Assoc.{find, update, find-update}
use backend_in_c.Distributed.Metrics.{Doubles, Collector, value_of, assign, counter_inc}

module _ (d : Doubles) where
  find-assign :
      (name q : CString) (v : Doubles.Double d) (c : Collector d)
      → find q (assign d name v c) ≡ (if str_eq name q then some v else find q c)
  unfolding assign
  find-assign name q v c = elim (Option-cases (update name v c)) [
    | inr (c', u) ↦ rw (u, assign) (find-update name v c {d = c'} q u)
    | inl u ↦ rw (u, assign) (unfold find in refl)
  ]

  value_of-assign :
      (name q : CString) (v : Doubles.Double d) (c : Collector d)
      → value_of d q (assign d name v c) ≡ (if str_eq name q then v else value_of d q c)
  unfolding value_of
  value_of-assign name q v c = elim (Bool-cases (str_eq name q)) [
    | inl same ↦ rw same (rw (find-assign name q v c, same, value_of) refl)
    | inr other ↦ rw other (rw (find-assign name q v c, other, value_of) refl)
  ]

  -- What the collector holds after the counters of these names were incremented in turn.
  unfoldable pub incs : List CString → Collector d → Option (Collector d)
  incs [] c = some c
  incs (name ∷ names) c = elim (counter_inc d (some name) (some c)).1 [
    | none ↦ none
    | some c' ↦ incs names c'
  ]

  -- The value after as many increments as the name occurs.
  unfoldable pub bumped : CString → List CString → Doubles.Double d → Doubles.Double d
  bumped q [] v = v
  bumped q (name ∷ names) v = bumped q names (if str_eq name q then d.inc v else v)

  -- After any sequence of counter increments every metric has been incremented once for each time
  -- that its own name came up, whatever the other names.
  pub incs-bumped :
      (q : CString) (names : List CString) (c : Collector d)
      → (c' : Collector d) × (incs names c ≡ some c')
        × (value_of d q c' ≡ bumped q names (value_of d q c))
  unfolding incs bumped counter_inc
  incs-bumped q [] c = (c, refl, refl)
  incs-bumped q (name ∷ names) c =
      let next = assign d name (d.inc (value_of d name c)) c in
      let (c', run, ih) = incs-bumped q names next in
      (c', run, ih ∙ ap (bumped q names) (value_of-assign name q _ c ∙ own q name c))
    where
      own :
          (q name : CString) (c : Collector d)
          → (if str_eq name q then d.inc (value_of d name c) else value_of d q c)
            ≡ (if str_eq name q then d.inc (value_of d q c) else value_of d q c)
      own q name c = elim (Bool-cases (str_eq name q)) [
        | inl same ↦ rw (eq_of_str_eq name q same) refl
        | inr other ↦ rw other refl
      ]
