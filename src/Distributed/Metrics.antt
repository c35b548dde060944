-- ===== src/Distributed/Metrics.antt =====
-- The metrics of src/distributed/distributed.c: a list of named doubles. The doubles are a parameter:
-- their type, the operations that the code makes with them, and the text that `%.2f` prints.
pub mod Values
pub mod Export
pub mod Destroy
use backend_in_c.Prelude.{
  ℕ, ◌+◌, ◌-◌, ◌<◌, List, [], ◌∷◌, ◌++◌, Option, none, some, Bool, true, false, ◌||◌, CString,
  codes, length, take, map, ltb, if◌then◌else◌,
}
use backend_in_c.Common.{ErrorCode, success, error_invalid_param}
use backend_in_c.Common.Words.{sub64}
use backend_in_c.Assoc.{Assoc, find, update}

-- `inc x` is `x + 1.0`, `mean x y` is `(x + y) / 2.0`.
pub record Doubles : Type 1 where
  pub Double : Type 0
  pub zero : Double
  pub inc : Double → Double
  pub mean : Double → Double → Double
  pub print : Double → CString

module _ (d : Doubles) where
  open d use {Double}

  abbrev pub Collector : Type 0
  Collector = Assoc Double

  -- `find_or_create_metric`: the value of the metric, 0.0 of a new one
  unfoldable pub value_of : CString → Collector → Double
  value_of name c = elim (find name c) [ some v ↦ v | none ↦ d.zero ]

  -- The metric's new value written to its node, which is a new one at the head if there was none.
  unfoldable pub assign : CString → Double → Collector → Collector
  unfolding update
  assign name v c = elim (update name v c) [ some c' ↦ c' | none ↦ (name, v) ∷ c ]

  -- `metrics_counter_inc`
  unfoldable pub counter_inc : Option CString → Option Collector → ErrorCode × Option Collector
  unfolding value_of assign
  counter_inc (some name) (some c) = (success, some (assign name (d.inc (value_of name c)) c))
  counter_inc name c = (error_invalid_param, c)

  -- `metrics_gauge_set`
  unfoldable pub gauge_set :
      Double → Option CString → Option Collector → ErrorCode × Option Collector
  unfolding assign
  gauge_set value (some name) (some c) = (success, some (assign name value c))
  gauge_set value name c = (error_invalid_param, c)

  -- `metrics_histogram_observe`
  unfoldable pub histogram_observe :
      Double → Option CString → Option Collector → ErrorCode × Option Collector
  unfolding value_of assign
  histogram_observe value (some name) (some c) =
      (success, some (assign name (d.mean (value_of name c) value) c))
  histogram_observe value name c = (error_invalid_param, c)

  -- the text of `"%s: %.2f\n"`
  unfoldable pub line_of : CString × Double → CString
  line_of (name, v) = name ++ (codes ": " ++ (d.print v ++ 10 ∷ []))

-- The buffer of `metrics_export` while it is filled: the C string at its start, the offset for the next
-- line, and whether a write went past its end. There is no text as long as nothing is written: the
-- buffer then has the bytes that `malloc` left in it, which need not have a NUL among them.
pub record Buffer : Type 0 where
  pub text : Option CString
  pub offset : ℕ
  pub overrun : Bool

abbrev pub buffer_size : ℕ
buffer_size = 4096

-- The characters that are written already.
unfoldable pub so_far : Option CString → CString
so_far none = []
so_far (some text) = text

-- `offset += snprintf(buffer + offset, size - offset, …)`: the limit is a size_t, at most so many
-- bytes are written with the NUL, and the result counts the characters that there would have been.
-- From an offset of the buffer's size on, the string at its start stays as it is.
unfoldable pub append_line : CString → Buffer → Buffer
unfolding so_far
append_line line b =
    let limit = sub64 buffer_size b.offset in
    record {
      text =
          if ltb b.offset buffer_size
          then some
              (so_far b.text ++ (if ltb (length line) limit then line else take (limit - 1) line))
          else b.text;
      offset = b.offset + length line;
      overrun =
          b.overrun
          || ltb buffer_size
              (b.offset + (if ltb (length line) limit then length line + 1 else limit));
    }

unfoldable pub append_lines : List CString → Buffer → Buffer
append_lines [] b = b
append_lines (line ∷ rest) b = append_lines rest (append_line line b)

-- the buffer as `safe_malloc` returns it
abbrev pub fresh_buffer : Buffer
fresh_buffer = record { text = none; offset = 0; overrun = false }

-- `metrics_export`: of a collector without metrics, an unwritten buffer is returned
unfoldable pub export : (d : Doubles) → Option (Collector d) → Option Buffer
unfolding append_lines append_line line_of
export d none = none
export d (some c) = some (append_lines (map (line_of d) c) fresh_buffer)
