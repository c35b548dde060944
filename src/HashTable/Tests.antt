-- ===== src/HashTable/Tests.antt =====
-- A small table, and the laws of the hash table at it.
use backend_in_c.Prelude.{◌≡◌, some, arith, Bytes, CString, codes, ◌∷◌, [], false}
use backend_in_c.HashTable.Laws.{Deletes, delete-Deletes, Puts, put-Puts}
use backend_in_c.HashTable.Placed.{IsPlaced, create-IsPlaced, insert-IsPlaced}
use backend_in_c.HashTable.Blocks.{destroy}
use backend_in_c.HashTable.Destroy.{puts, deletes, run, create_blocks, calls-destroy}
use backend_in_c.HashTable.{Table, create, insert, put, delete}

abbrev pub key_a : CString
key_a = codes "a"

abbrev pub key_b : CString
key_b = codes "b"

abbrev pub value_1 : Bytes
value_1 = 1 ∷ 2 ∷ []

abbrev pub value_2 : Bytes
value_2 = 7 ∷ []

abbrev pub two_keys : Table
two_keys = insert (insert (create 4) key_a value_1) key_b value_2

pub two_keys-IsPlaced : IsPlaced two_keys
two_keys-IsPlaced =
    insert-IsPlaced (insert (create 4) key_a value_1) key_b value_2
      (insert-IsPlaced (create 4) key_a value_1 (create-IsPlaced 4 (omega arith)))

put-Puts_example : Puts two_keys key_a value_2 (put two_keys (some key_a) value_2)
put-Puts_example = put-Puts two_keys key_a value_2 two_keys-IsPlaced

delete-Deletes_example : Deletes two_keys key_a (delete two_keys (some key_a))
delete-Deletes_example = delete-Deletes two_keys key_a two_keys-IsPlaced

calls-destroy_example :
    let calls = puts key_a value_1 ∷ puts key_a value_2 ∷ puts key_b [] ∷ deletes key_a ∷ [] in
    let r = run false calls (create 4) (create_blocks (some 10)) in
    destroy false (some r.0) r.1 ≡ some 10
calls-destroy_example =
    calls-destroy false
      (puts key_a value_1 ∷ puts key_a value_2 ∷ puts key_b [] ∷ deletes key_a ∷ []) 4 10
      (omega arith)
