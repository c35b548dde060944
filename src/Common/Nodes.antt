-- ===== src/Common/Nodes.antt =====
-- The memory of the lists of nodes with a string for a key in src/distributed/distributed.c: how many
-- blocks they have, what a call does to them, and the loop that frees them.
use backend_in_c.Prelude.{
  ℕ, suc, ◌+◌, ◌≡◌, refl, ap, [], ◌∷◌, none, some, inl, inr, Option-cases, arith, length, ◌∙◌,
  CString, sym,
}
use backend_in_c.Common.Blocks.{Blocks, allocate, release, release-to}
use backend_in_c.Assoc.{
  Assoc, find, update, remove, update-find, update-found, length-update, remove-find, remove-found,
  length-remove,
}

-- The loop that frees a list whose nodes have `n` blocks each.
unfoldable pub release_nodes : {V : Type 0} → ℕ → Assoc V → Blocks → Blocks
release_nodes n [] blocks = blocks
release_nodes n (e ∷ es) blocks = release_nodes n es (release n blocks)

-- How many blocks the nodes have.
unfoldable pub node_blocks : {V : Type 0} → ℕ → Assoc V → ℕ
node_blocks n [] = 0
node_blocks n (e ∷ es) = n + node_blocks n es

pub release_nodes_lem :
    {V : Type 0} (n : ℕ) (es : Assoc V) (live : ℕ)
    → release_nodes n es (some (live + node_blocks n es)) ≡ some live
unfolding release_nodes node_blocks
release_nodes_lem n [] live = ap (λ (m : ℕ). some m) (omega arith)
release_nodes_lem n (e ∷ es) live =
    let rest = live + node_blocks n es in
    ap (release_nodes n es) (release-to n (live + (n + node_blocks n es)) rest (omega arith))
    ∙ release_nodes_lem n es live

-- A call leaves the number of nodes as it was, adds one with its blocks, or frees one with them.
pub data NodeStep {V : Type 0} (n : ℕ) (es ds : Assoc V) (b b' : Blocks) : Type 0 where
  keeps : length ds ≡ length es → b' ≡ b → NodeStep n es ds b b'
  grows : length ds ≡ suc (length es) → b' ≡ allocate n b → NodeStep n es ds b b'
  shrinks : length es ≡ suc (length ds) → b' ≡ release n b → NodeStep n es ds b b'

node_blocks-same :
    {V : Type 0} (n : ℕ) (es ds : Assoc V)
    → length ds ≡ length es
    → node_blocks n ds ≡ node_blocks n es
unfolding node_blocks
node_blocks-same n [] [] e = refl
node_blocks-same n [] (d ∷ ds) e = absurd (omega arith)
node_blocks-same n (x ∷ es) [] e = absurd (omega arith)
node_blocks-same n (x ∷ es) (d ∷ ds) e = ap (λ m. n + m) (node_blocks-same n es ds (omega arith))

node_blocks-more :
    {V : Type 0} (n : ℕ) (es ds : Assoc V)
    → length ds ≡ suc (length es)
    → node_blocks n ds ≡ n + node_blocks n es
unfolding node_blocks
node_blocks-more n es [] e = absurd (omega arith)
node_blocks-more n es (d ∷ ds) e = ap (λ m. n + m) (node_blocks-same n es ds (omega arith))

-- The blocks of the nodes are allocated, beside others.
abbrev pub Beside : {V : Type 0} → ℕ → ℕ → Assoc V → Blocks → Type 0
Beside n live es b = b ≡ some (live + node_blocks n es)

pub NodeStep-Beside :
    {V : Type 0} (n live : ℕ) (es ds : Assoc V) (b b' : Blocks)
    → NodeStep n es ds b b'
    → Beside n live es b
    → Beside n live ds b'
NodeStep-Beside n live es ds b b' (keeps e f) h =
    f ∙ h ∙ ap (λ m. some (live + m)) (sym (node_blocks-same n es ds e))
NodeStep-Beside n live es ds b b' (grows e f) h =
    f
    ∙ ap (allocate n) h
    ∙ unfold allocate in ap (λ (m : ℕ). some m) (omega (arith, node_blocks-more n es ds e))
NodeStep-Beside n live es ds b b' (shrinks e f) h =
    f ∙ ap (release n) h ∙ release-to n _ _ (omega (arith, node_blocks-more n ds es e))

-- A value written to the node of a key, which is a new one at the head if there was none.
pub stores-NodeStep :
    {V : Type 0} (n : ℕ) (k : CString) (v : V) (es : Assoc V) (b : Blocks)
    → NodeStep n es
        (elim (update k v es) [ some ds ↦ ds | none ↦ (k, v) ∷ es ])
        b
        (elim (find k es) [ some _ ↦ b | none ↦ allocate n b ])
stores-NodeStep n k v es b = elim (Option-cases (update k v es)) [
  | inr (ds, e) ↦ elim (Option-cases (find k es)) [
    | inr (w, there) ↦ rw (e, there) (keeps (length-update k v es {d = ds} e) refl)
    | inl absent ↦ let there = update-found k v es {d = ds} e in absurd (cc (there, absent))
  ]
  | inl e ↦ rw (e, update-find k v es e) (grows (omega arith) refl)
]

-- The first node of a key taken out and freed, if there is one.
pub removes-NodeStep :
    {V : Type 0} (n : ℕ) (k : CString) (es : Assoc V) (b : Blocks)
    → NodeStep n es
        (elim (remove k es) [ some ds ↦ ds | none ↦ es ])
        b
        (elim (find k es) [ some _ ↦ release n b | none ↦ b ])
removes-NodeStep n k es b = elim (Option-cases (remove k es)) [
  | inr (ds, e) ↦ elim (Option-cases (find k es)) [
    | inr (w, there) ↦
        let l = length-remove k es {d = ds} e in rw (e, there) (shrinks (omega arith) refl)
    | inl absent ↦ let there = remove-found k es {d = ds} e in absurd (cc (there, absent))
  ]
  | inl e ↦ rw (e, remove-find k es e) (keeps refl refl)
]
