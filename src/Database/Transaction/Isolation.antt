-- ===== src/Database/Transaction/Isolation.antt =====
-- Two transactions of src/database/database.c on one store at once. Their levels of isolation may be
-- any: no function reads them.
use backend_in_c.Prelude.{
  Option, ◌≡◌, ◌≢◌, sym, ◌∙◌, ap, none, some, false, CString, Bytes, or_else,
}
use backend_in_c.Common.{success}
use backend_in_c.HashTable.{lookup}
use backend_in_c.HashTable.Placed.{IsPlaced}
use backend_in_c.Database
use backend_in_c.Database.{System}
use backend_in_c.Database.Operations.{answer, get-answer}
use backend_in_c.Database.Transaction.{Transaction, commit, get}
use backend_in_c.Database.Transaction.Laws.{commit-Commits, get-or_else}

-- A transaction that may still be committed.
pub record IsLive (txn : Transaction) : Type 0 where
  pub open_still : txn.committed ≡ false
  pub placed : IsPlaced txn.writes

-- What becomes of a store when two transactions are committed, the first before the second.
pub record CommitsBoth (first second : Transaction) (s : System) (t : System) : Type 0 where
  pub codes :
      ((commit (some first) s).0 ≡ success)
      × ((commit (some second) (commit (some first) s).2).0 ≡ success)
  pub kept : IsPlaced t.table
  pub reads :
      (q : CString)
      → lookup t.table q
        ≡ or_else (lookup second.writes q) (or_else (lookup first.writes q) (lookup s.table q))

-- Two live transactions whose write sets, like the store, are well-formed can both be committed,
-- whatever keys they wrote, and in whatever order they were begun, written to and read from: every
-- key then reads as the second wrote it, or else as the first wrote it, or else as before, so that
-- what the first wrote under a key of both is lost.
pub commit-CommitsBoth :
    (first second : Transaction) (s : System)
    → IsLive first
    → IsLive second
    → IsPlaced s.table
    → CommitsBoth first second s (commit (some second) (commit (some first) s).2).2
commit-CommitsBoth first second s l m h =
    let c = commit-Commits first s l.open_still l.placed h in
    let d = commit-Commits second (commit (some first) s).2 m.open_still m.placed c.kept in
    record {
      codes = (c.code, d.code);
      kept = d.kept;
      reads = λ q. d.reads q ∙ ap (or_else (lookup second.writes q)) (c.reads q);
    }

answer-success : (o : Option Bytes) (v : Bytes) → answer o ≡ (success, some v) → o ≡ some v
answer-success none v e = absurd (cc e)
answer-success (some w) v e = cc e

-- A transaction, of whatever level of isolation, reads a key that it has not written itself as
-- the store has it; once a live transaction that has written another value than the store's under the
-- key is committed, it reads that value, so that its two reads differ. (The other's write set and the
-- store are well-formed.)
pub unrepeatable_read :
    (reader writer : Transaction) (s : System) (k : CString) (v : Bytes)
    → IsLive writer
    → IsPlaced s.table
    → lookup reader.writes k ≡ none
    → lookup writer.writes k ≡ some v
    → lookup s.table k ≢ some v
    → (get (some k) (some reader) s ≡ Database.get (some k) (some s))
      × (get (some k) (some reader) (commit (some writer) s).2 ≡ (success, some v))
      × (get (some k) (some reader) s ≢ get (some k) (some reader) (commit (some writer) s).2)
unrepeatable_read reader writer s k v m h unwritten written changed =
    let c = commit-Commits writer s m.open_still m.placed h in
    let before : get (some k) (some reader) s ≡ answer (lookup s.table k) =
      get-or_else reader s k ∙ ap (λ o. answer (or_else o (lookup s.table k))) unwritten in
    let after : get (some k) (some reader) (commit (some writer) s).2 ≡ (success, some v) =
      get-or_else reader (commit (some writer) s).2 k
      ∙ ap (λ o. answer (or_else o (lookup (commit (some writer) s).2.table k))) unwritten
      ∙ ap answer (c.reads k ∙ ap (λ o. or_else o (lookup s.table k)) written) in
    (
      before ∙ sym (get-answer k s),
      after,
      λ same. changed (answer-success (lookup s.table k) v (sym before ∙ same ∙ after)),
    )
