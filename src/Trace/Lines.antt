-- ===== src/Trace/Lines.antt =====
-- The reading of events.jsonl (packages/trace/src/index.ts). A text is the list of its code points.
use agent_loop_snapshot.Prelude.{
  ℕ, ◌+◌, Bool, true, false, Option, none, some, List, [], ◌∷◌, ◌++◌, ◌===◌, ltb, if◌then◌else◌,
  length, is_blank_text,
}
use agent_loop_snapshot.Trace.Diagnostic.{
  TraceDiagnostic, Code, error, invalid_jsonl_line, partial_jsonl_tail, events_read_failed,
  event_file_too_large, untrusted_events_file, missing_events_file, event_place, events_place,
}

abbrev pub Text : Type 0
Text = List ℕ

abbrev newline : ℕ
newline = 10

abbrev pub begin : ℕ → List Text × Text → List Text × Text
begin c ([], rest) = ([], c ∷ rest)
begin c (l ∷ ls, rest) = ((c ∷ l) ∷ ls, rest)

-- The lines that end in a buffer, and what stays in it: what `indexOf('\n')` and the two `slice`s
-- give until there is no line feed.
unfoldable pub cut_lines : Text → List Text × Text
cut_lines [] = ([], [])
cut_lines (c ∷ cs) =
    let cut = cut_lines cs in if c === newline then ([] ∷ cut.0, cut.1) else begin c cut

-- `replace(/\r$/, '')`
abbrev pub strip_return : Text → Text
strip_return [] = []
strip_return (c ∷ []) = if c === 13 then [] else c ∷ []
strip_return (c ∷ d ∷ cs) = c ∷ strip_return (d ∷ cs)

-- The variables of `readJsonlFile`.
pub record Reading (V : Type 0) : Type 0 where
  pub buffer : Text
  pub line : ℕ
  pub values : List V
  pub diagnostics : List TraceDiagnostic

abbrev pub jsonl_diagnostic : Code → ℕ → ℕ → TraceDiagnostic
jsonl_diagnostic code line index = record {
  severity = error;
  code = code;
  place = event_place index;
  subject = "";
  line = some line;
}

abbrev pub events_diagnostic : Code → TraceDiagnostic
events_diagnostic code = record {
  severity = error;
  code = code;
  place = events_place;
  subject = "";
  line = none;
}

-- What `inspectSnapshotPath` answers for a path.
pub data Inspected : Type 0 where
  trusted : (size : ℕ) → Inspected
  is_missing is_untrusted : Inspected

-- Over `JSON.parse`.
module _ {V : Type 0} (parse : Text → Option V) where
  -- `parseLine`
  unfoldable pub parse_line : Text → (is_tail : Bool) → Reading V → Reading V
  parse_line raw is_tail r = if is_blank_text raw then r else elim (parse raw) [
    | some v ↦ record r { values = r.values ++ v ∷ [] }
    | none ↦ record r {
      diagnostics =
          r.diagnostics
          ++ jsonl_diagnostic (if is_tail then partial_jsonl_tail else invalid_jsonl_line) r.line
              (length r.values)
            ∷ [];
    }
  ]

  unfoldable pub parse_lines : List Text → Reading V → Reading V
  unfolding parse_line
  parse_lines [] r = r
  parse_lines (l ∷ ls) r =
      parse_lines ls (parse_line (strip_return l) false (record r { line = r.line + 1 }))

  -- One turn of the loop over the stream.
  unfoldable pub read_chunk : Text → Reading V → Reading V
  unfolding cut_lines parse_lines
  read_chunk chunk r =
      let cut = cut_lines (r.buffer ++ chunk) in parse_lines cut.0 (record r { buffer = cut.1 })

  unfoldable pub read_chunks : List Text → Reading V → Reading V
  unfolding read_chunk
  read_chunks [] r = r
  read_chunks (c ∷ cs) r = read_chunks cs (read_chunk c r)

  unfoldable pub read_tail : Reading V → Reading V
  unfolding parse_line
  read_tail r = elim r.buffer [
    | [] ↦ r
    | c ∷ cs ↦ parse_line (c ∷ cs) true (record r { line = r.line + 1 })
  ]

  abbrev nothing_read : List TraceDiagnostic → Reading V
  nothing_read ds = record { buffer = []; line = 0; values = []; diagnostics = ds }

  -- The stream's chunks, and whether it failed after them.
  unfoldable pub read_stream : List Text → (fails : Bool) → Reading V
  unfolding read_chunks read_tail
  read_stream cs fails =
      let r = read_chunks cs (nothing_read []) in
      read_tail (
        if fails
        then record r { diagnostics = r.diagnostics ++ events_diagnostic events_read_failed ∷ [] }
        else r)

  -- `readJsonlFile`: the values and the diagnostics
  unfoldable pub read_jsonl_file : Inspected → (max_bytes : ℕ) → List Text → Bool → Reading V
  unfolding read_stream
  read_jsonl_file is_missing max_bytes cs fails =
      nothing_read (events_diagnostic missing_events_file ∷ [])
  read_jsonl_file is_untrusted max_bytes cs fails =
      nothing_read (events_diagnostic untrusted_events_file ∷ [])
  read_jsonl_file (trusted size) max_bytes cs fails =
      if ltb max_bytes size
      then nothing_read (events_diagnostic event_file_too_large ∷ [])
      else read_stream cs fails
