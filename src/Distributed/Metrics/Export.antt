-- ===== src/Distributed/Metrics/Export.antt =====
-- The buffer of `metrics_export` in src/distributed/distributed.c: what fits it, and what does not.
use mathlib.Core.List.{map-append}
use backend_in_c.Prelude.{
  ℕ, ◌+◌, ◌<◌, ◌≡◌, refl, ◌∙◌, sym, ap, List, [], ◌∷◌, ◌++◌, append_assoc, append-nil, concat, some,
  Bool, true, false, CString, length, length-append, map, arith,
}
use backend_in_c.Common.Words.{u64}
use backend_in_c.Distributed.Metrics.{
  Doubles, Collector, Buffer, buffer_size, append_line, append_lines, fresh_buffer, so_far, line_of,
  export,
}

-- What the lines come to.
abbrev pub total : List CString → ℕ
total lines = length (concat lines)

append_line-fits :
    (line : CString) (b : Buffer)
    → b.offset + length line < buffer_size
    → append_line line b ≡ record {
      text = some (so_far b.text ++ line);
      offset = b.offset + length line;
      overrun = b.overrun;
    }
unfolding append_line
append_line-fits line b h = ground arith

-- Further lines behind a text that is there already.
append_lines-fits :
    (lines : List CString) (text : CString) (offset : ℕ) (overrun : Bool)
    → offset + total lines < buffer_size
    → append_lines lines (record { text = some text; offset = offset; overrun = overrun })
      ≡ record {
        text = some (text ++ concat lines);
        offset = offset + total lines;
        overrun = overrun;
      }
unfolding append_lines so_far
append_lines-fits [] text offset overrun h =
    let e : offset ≡ offset + 0 = omega arith in
    λ i. record { text = some (sym (append-nil text) i); offset = e i; overrun = overrun }
append_lines-fits (line ∷ rest) text offset overrun h =
    let split = length-append line (concat rest) in
    let b : Buffer = record { text = some text; offset = offset; overrun = overrun } in
    let e : offset + length line + total rest ≡ offset + total (line ∷ rest) =
      omega (arith, split) in
    ap (append_lines rest) (append_line-fits line b (omega (arith, split)))
    ∙ append_lines-fits rest (text ++ line) (offset + length line) overrun (omega (arith, split))
    ∙ λ i. record {
      text = some (append_assoc text line (concat rest) i);
      offset = e i;
      overrun = overrun;
    }

-- A collector with at least one metric, whose lines come to less than the buffer, is exported as those
-- lines, in order, within the buffer.
pub export-fits :
    (d : Doubles) (m : CString × Doubles.Double d) (c : Collector d)
    → total (map (line_of d) (m ∷ c)) < buffer_size
    → export d (some (m ∷ c))
      ≡ some (record {
        text = some (concat (map (line_of d) (m ∷ c)));
        offset = total (map (line_of d) (m ∷ c));
        overrun = false;
      })
unfolding export append_lines so_far
export-fits d m c h =
    let line = line_of d m in
    let rest = map (line_of d) c in
    let split = length-append line (concat rest) in
    let e : 0 + length line + total rest ≡ total (line ∷ rest) = omega (arith, split) in
    ap (λ (b : Buffer). some b)
      (ap (append_lines rest) (append_line-fits line fresh_buffer (omega (arith, split)))
        ∙ append_lines-fits rest line (0 + length line) false (omega (arith, split))
        ∙ λ i. record { text = some (line ++ concat rest); offset = e i; overrun = false })

-- An overrun is never undone.
append_lines-overrun :
    (lines : List CString) (b : Buffer) → b.overrun ≡ true → (append_lines lines b).overrun ≡ true
unfolding append_lines append_line
append_lines-overrun [] b h = h
append_lines-overrun (line ∷ rest) b h =
    append_lines-overrun rest (append_line line b) (ground arith)

offset-append_lines :
    (lines : List CString) (b : Buffer) → (append_lines lines b).offset ≡ b.offset + total lines
unfolding append_lines append_line
offset-append_lines [] b = omega arith
offset-append_lines (line ∷ rest) b =
    rw length-append (omega (arith, offset-append_lines rest (append_line line b)))

append_lines-append :
    (ls ms : List CString) (b : Buffer)
    → append_lines (ls ++ ms) b ≡ append_lines ms (append_lines ls b)
unfolding append_lines
append_lines-append [] ms b = refl
append_lines-append (l ∷ ls) ms b = append_lines-append ls ms (append_line l b)

past_end :
    (line : CString) (b : Buffer)
    → buffer_size < b.offset
    → b.offset + length line < u64
    → (append_line line b).overrun ≡ true
unfolding append_line
past_end line b h fits = ground arith

-- A collector whose first metrics already come to more than the buffer, with one more behind them
-- and all lines less than 2 ^ 64 bytes: the export writes past the end of the buffer.
pub export_overruns :
    (d : Doubles) (front back : Collector d) (m : CString × Doubles.Double d)
    → buffer_size < total (map (line_of d) front)
    → total (map (line_of d) front) + length (line_of d m) < u64
    → (b : Buffer) × (export d (some (front ++ m ∷ back)) ≡ some b) × (b.overrun ≡ true)
unfolding export append_lines
export_overruns d front back m long fits =
    let filled = append_lines (map (line_of d) front) fresh_buffer in
    let at = offset-append_lines (map (line_of d) front) fresh_buffer in
    (
      append_lines (map (line_of d) (front ++ m ∷ back)) fresh_buffer,
      refl,
      rw (map-append, append_lines-append)
          (append_lines-overrun (map (line_of d) back) (append_line (line_of d m) filled)
            (past_end (line_of d m) filled (omega (arith, at)) (omega (arith, at)))),
    )
