-- ===== src/Wal/Torn.antt =====
-- A log whose last entry was cut off in its data, as `database_recover` of src/database/database.c reads
-- it.
use backend_in_c.Prelude.{
  ℕ, zero, suc, ◌+◌, ◌-◌, ◌%◌, ◌≤◌, ◌<◌, ◌≡◌, refl, ap, ◌∙◌, [], ◌∷◌, ◌++◌, append_assoc, List,
  Bytes, length, length-append, drop, ltb, ◌==◌, true, false, arith, some, sym, take, CString,
  take-append,
}
use backend_in_c.HashTable.{Table, put}
use backend_in_c.Wal.{
  Header, Heap, wal_entry_put, type_code, wal_magic, header_size, header_bytes, read_into,
  apply_entry, recover_loop, recover,
}
use backend_in_c.HashTable.Hash.{u32}
use backend_in_c.Wal.Parse.{
  FitsFields, IsCString, c_string-append, header-round_trip, drop-header, length-header,
}
use backend_in_c.Wal.Replay.{
  LogEntry, AllLoggable, IsLoggable, header_for, header_for-FitsFields, drop-key, length-body,
  bytes_of, file_of, effect, replay, recover_loop-entry, recover_loop-tail, length-file_of,
}

drop-short : (n : ℕ) (bytes : Bytes) → length bytes ≤ n → drop n bytes ≡ []
drop-short zero [] short = refl
drop-short zero (b ∷ bytes) short = absurd (omega arith)
drop-short (suc n) [] short = refl
drop-short (suc n) (b ∷ bytes) short = drop-short n bytes (omega arith)

recover_loop-torn :
    (heap : Heap) (fuel : ℕ) (h : Header) (part : Bytes) (t : Table)
    → FitsFields h
    → h.magic ≡ wal_magic
    → length part ≤ (h.key_size + h.value_size) % u32
    → recover_loop heap (suc fuel) (header_bytes h ++ part) t
      ≡ apply_entry h
          (read_into heap.uninit ((h.key_size + h.value_size) % u32) part ++ heap.beyond)
          t
unfolding recover_loop
recover_loop-torn heap fuel h part t fits magic short =
    let whole : ltb (length (header_bytes h ++ part)) header_size ≡ false =
      ground (arith, length-header h part) in
    let ours : h.magic == wal_magic ≡ true = ground arith in
    rw
      (
        recover_loop,
        whole,
        header-round_trip h part fits,
        drop-header h part,
        ours,
        drop-short ((h.key_size + h.value_size) % u32) part short,
      )
      (recover_loop-tail heap fuel [] _ (omega arith))

pub recover_loop-entries :
    (heap : Heap) (fuel : ℕ) (es : List LogEntry) (rest : Bytes) (t : Table)
    → AllLoggable es
    → recover_loop heap (length es + fuel) (file_of es ++ rest) t
      ≡ recover_loop heap fuel rest (replay es t)
recover_loop-entries heap fuel [] rest t h = ap (λ n. recover_loop heap n rest t) (zero_more fuel)
  where
    zero_more : (n : ℕ) → 0 + n ≡ n
    zero_more n = omega arith
recover_loop-entries heap fuel (e ∷ es) rest t h =
    ap (λ n. recover_loop heap n ((bytes_of e ++ file_of es) ++ rest) t) (one_more (length es) fuel)
    ∙ ap (λ b. recover_loop heap (suc (length es + fuel)) b t)
        (append_assoc (bytes_of e) (file_of es) rest)
    ∙ recover_loop-entry heap (length es + fuel) e (file_of es ++ rest) t h.0
    ∙ recover_loop-entries heap fuel es rest (effect e t) h.1
  where
    one_more : (n m : ℕ) → suc n + m ≡ suc (n + m)
    one_more n m = omega arith

-- The data that the last header announces is not all there: the rest of the buffer is as `malloc` left it.
recover_cut :
    (heap : Heap) (es : List LogEntry) (h : Header) (part : Bytes) (t : Table)
    → AllLoggable es
    → FitsFields h
    → h.magic ≡ wal_magic
    → length part < (h.key_size + h.value_size) % u32
    → recover heap (file_of es ++ (header_bytes h ++ part)) t
      ≡ apply_entry h
          (read_into heap.uninit ((h.key_size + h.value_size) % u32) part ++ heap.beyond)
          (replay es t)
unfolding recover
recover_cut heap es h part t loggable fits magic short =
    let file = file_of es ++ (header_bytes h ++ part) in
    let fuel : length file + 1 ≡ length es + suc (length file - length es) =
      omega (arith, length-file_of es, length-append (file_of es) (header_bytes h ++ part)) in
    ap (λ n. recover_loop heap n file t) fuel
    ∙ recover_loop-entries heap (suc (length file - length es)) es (header_bytes h ++ part) t
        loggable
    ∙ recover_loop-torn heap (length file - length es) h part (replay es t) fits magic (omega arith)

-- What `read` leaves in the buffer of an entry whose key is whole in the file: behind the key and its
-- NUL, as much of the value as there is.
read_into-key :
    (uninit : ℕ → ℕ) (n : ℕ) (key : CString) (part : Bytes)
    → read_into uninit (length key + 1 + n) (key ++ 0 ∷ part) ≡ key ++ 0 ∷ read_into uninit n part
unfolding read_into
read_into-key uninit n [] part = let e : 0 + 1 + n ≡ suc n = omega arith in rw e
read_into-key uninit n (c ∷ key) part =
    let e : suc (length key) + 1 + n ≡ suc (length key + 1 + n) = omega arith in
    rw e (ap (λ t. c ∷ t) (read_into-key uninit n key part))

length-read_into : (uninit : ℕ → ℕ) (n : ℕ) (file : Bytes) → length (read_into uninit n file) ≡ n
unfolding read_into
length-read_into uninit zero file = refl
length-read_into uninit (suc n) [] = ap suc (length-read_into uninit n [])
length-read_into uninit (suc n) (b ∷ file) = ap suc (length-read_into uninit n file)

-- An entry of a put is applied with what the buffer has in the place of the value.
apply_entry-torn :
    (heap : Heap) (key : CString) (value part : Bytes) (t : Table)
    → IsCString key
    → let h = header_for (record { type = wal_entry_put; key = key; value = value }) in
      apply_entry h
        (read_into heap.uninit (h.key_size + h.value_size) (key ++ 0 ∷ part) ++ heap.beyond)
        t
      ≡ (put t (some key) (read_into heap.uninit (length value) part)).1
unfolding apply_entry type_code
apply_entry-torn heap key value part t h =
    let got = read_into heap.uninit (length value) part in
    let whole : take (length value) (got ++ heap.beyond) ≡ got =
      ap (λ n. take n (got ++ heap.beyond)) (sym (length-read_into heap.uninit (length value) part))
      ∙ take-append got heap.beyond in
    rw (
      read_into-key heap.uninit (length value) key part,
      append_assoc key (0 ∷ got) heap.beyond,
      c_string-append key (got ++ heap.beyond) h,
      drop-key key (got ++ heap.beyond),
      whole,
    )

length-take : (n : ℕ) (bs : Bytes) → n ≤ length bs → length (take n bs) ≡ n
length-take zero bs h = refl
length-take (suc n) [] h = absurd (omega arith)
length-take (suc n) (b ∷ bs) h = omega (arith, length-take n bs (omega arith))

-- Recovery of a log whose last entry, that of a `database_put`, was cut off in its value applies the
-- entries before it and then puts the entry's key with a value of the full size: the bytes that got
-- into the log, and behind them what `malloc` left in the buffer. (Keys are C strings, and the sizes
-- of every entry fit uint32_t.)
pub recover_torn :
    (heap : Heap) (es : List LogEntry) (key : CString) (value : Bytes) (cut : ℕ) (t : Table)
    → AllLoggable es
    → IsLoggable (record { type = wal_entry_put; key = key; value = value })
    → cut < length value
    → recover heap
        (file_of es
          ++ (header_bytes (header_for (record { type = wal_entry_put; key = key; value = value }))
              ++ (key ++ 0 ∷ take cut value)))
        t
      ≡ (put (replay es t) (some key) (read_into heap.uninit (length value) (take cut value))).1
recover_torn heap es key value cut t loggable last short =
    let e : LogEntry = record { type = wal_entry_put; key = key; value = value } in
    let part = key ++ 0 ∷ take cut value in
    let whole : (length key + 1 + length value) % u32 ≡ length key + 1 + length value =
      omega (arith, last.small) in
    recover_cut heap es (header_for e) part t loggable (header_for-FitsFields e last) refl (
      rw (whole, length-body key (take cut value))
        (omega (arith, length-take cut value (omega arith))))
    ∙ ap
        (λ n.
          apply_entry (header_for e) (read_into heap.uninit n part ++ heap.beyond) (replay es t))
        whole
    ∙ apply_entry-torn heap key value (take cut value) (replay es t) last.key
