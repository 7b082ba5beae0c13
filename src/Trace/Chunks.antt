-- ===== src/Trace/Chunks.antt =====
-- How events.jsonl is cut into chunks does not matter (packages/trace/src/index.ts).
use agent_loop_snapshot.Prelude.{
  ℕ, ◌+◌, ◌≡◌, refl, sym, ap, ◌∙◌, Bool, false, inl, inr, Bool-cases, Option-cases, Option,
  is_blank_text, ltb, List, [], ◌∷◌, ◌++◌, ◌===◌, if◌then◌else◌,
}
use agent_loop_snapshot.Trace.Facts.{append_nil, append_assoc}
use agent_loop_snapshot.Trace.Diagnostic.{events_read_failed, event_file_too_large}
use agent_loop_snapshot.Trace.Lines.{
  Text, begin, cut_lines, strip_return, Reading, parse_line, parse_lines, read_chunk, read_chunks,
  read_tail, events_diagnostic, read_stream, read_jsonl_file, Inspected, is_missing, is_untrusted,
  trusted,
}

abbrev pub joined : List Text → Text
joined [] = []
joined (c ∷ cs) = c ++ joined cs

abbrev pub after : List Text → List Text × Text → List Text × Text
after ls cut = (ls ++ cut.0, cut.1)

begin-after :
    (c : ℕ) (ls : List Text) (rest : Text) (b : Text)
    → (c === 10) ≡ false
    → begin c (after ls (cut_lines (rest ++ b)))
      ≡ after (begin c (ls, rest)).0 (cut_lines ((begin c (ls, rest)).1 ++ b))
unfolding cut_lines
begin-after c [] rest b h = rw (cut_lines, h) refl
begin-after c (l ∷ ls) rest b h = refl

-- What a buffer leaves behind, with what comes after it, is cut as the whole is.
pub cut_lines-append :
    (a b : Text) → cut_lines (a ++ b) ≡ after (cut_lines a).0 (cut_lines ((cut_lines a).1 ++ b))
unfolding cut_lines
cut_lines-append [] b = refl
cut_lines-append (c ∷ a) b = elim (Bool-cases (c === 10)) [
  | inl h ↦ rw (cut_lines, h) (ap (λ cut. ([] ∷ cut.0, cut.1)) (cut_lines-append a b))
  | inr h ↦
      rw (cut_lines, h)
        (ap (begin c) (cut_lines-append a b) ∙ begin-after c (cut_lines a).0 (cut_lines a).1 b h)
]

module _ {V : Type 0} (parse : Text → Option V) where
  abbrev with_buffer : Text → Reading V → Reading V
  with_buffer t r = record r { buffer = t }

  parse_line-with_buffer :
      (raw : Text) (is_tail : Bool) (t : Text) (r : Reading V)
      → parse_line parse raw is_tail (with_buffer t r)
        ≡ with_buffer t (parse_line parse raw is_tail r)
  unfolding parse_line
  parse_line-with_buffer raw is_tail t r = elim (Bool-cases (is_blank_text raw)) [
    | inl h ↦ rw (parse_line, h) refl
    | inr h ↦ elim (Option-cases (parse raw)) [
      | inl g ↦ rw (parse_line, h, g) refl
      | inr (v, g) ↦ rw (parse_line, h, g) refl
    ]
  ]

  parse_lines-with_buffer :
      (ls : List Text) (t : Text) (r : Reading V)
      → parse_lines parse ls (with_buffer t r) ≡ with_buffer t (parse_lines parse ls r)
  unfolding parse_lines
  parse_lines-with_buffer [] t r = refl
  parse_lines-with_buffer (l ∷ ls) t r =
      ap (parse_lines parse ls)
        (parse_line-with_buffer (strip_return l) false t (record r { line = r.line + 1 }))
      ∙ parse_lines-with_buffer ls t _

  parse_lines-append :
      (ls ms : List Text) (r : Reading V)
      → parse_lines parse (ls ++ ms) r ≡ parse_lines parse ms (parse_lines parse ls r)
  unfolding parse_lines
  parse_lines-append [] ms r = refl
  parse_lines-append (l ∷ ls) ms r = parse_lines-append ls ms _

  read_chunk-append :
      (a b : Text) (r : Reading V)
      → read_chunk parse b (read_chunk parse a r) ≡ read_chunk parse (a ++ b) r
  unfolding read_chunk
  read_chunk-append a b r =
      let first = cut_lines (r.buffer ++ a) in
      let second = cut_lines (first.1 ++ b) in
      let whole : cut_lines (r.buffer ++ (a ++ b)) ≡ (first.0 ++ second.0, second.1) =
        ap cut_lines (sym (append_assoc r.buffer a b)) ∙ cut_lines-append (r.buffer ++ a) b in
      ap (read_chunk parse b) (parse_lines-with_buffer first.0 first.1 r)
      ∙ (parse_lines-with_buffer second.0 second.1 (parse_lines parse first.0 r)
          ∙ sym (
              ap (λ cut. parse_lines parse cut.0 (with_buffer cut.1 r)) whole
              ∙ (parse_lines-with_buffer (first.0 ++ second.0) second.1 r
                  ∙ ap (with_buffer second.1) (parse_lines-append first.0 second.0 r))))

  read_chunks-joined :
      (c : Text) (cs : List Text) (r : Reading V)
      → read_chunks parse (c ∷ cs) r ≡ read_chunk parse (joined (c ∷ cs)) r
  unfolding read_chunks
  read_chunks-joined c [] r = ap (λ t. read_chunk parse t r) (append_nil c)
  read_chunks-joined c (d ∷ cs) r =
      read_chunks-joined d cs (read_chunk parse c r) ∙ read_chunk-append c (joined (d ∷ cs)) r

  abbrev unread : Reading V
  unread = record { buffer = []; line = 0; values = []; diagnostics = [] }

  read_chunks-text :
      (cs : List Text) → read_chunks parse cs unread ≡ read_chunk parse (joined cs) unread
  unfolding read_chunks
  read_chunks-text [] = refl
  read_chunks-text (c ∷ cs) = read_chunks-joined c cs unread

  read_stream-joined :
      (cs ds : List Text) (fails : Bool)
      → joined cs ≡ joined ds
      → read_stream parse cs fails ≡ read_stream parse ds fails
  unfolding read_stream
  read_stream-joined cs ds fails h =
      ap
        (λ (r : Reading V). read_tail parse (
          if fails
          then record r { diagnostics = r.diagnostics ++ events_diagnostic events_read_failed ∷ [] }
          else r))
        (read_chunks-text cs ∙ (ap (λ t. read_chunk parse t unread) h ∙ sym (read_chunks-text ds)))

  -- What is read of events.jsonl, values and diagnostics with their line numbers, depends on the
  -- text that the stream gives, and not on how it is cut into chunks.
  pub read_jsonl_file-joined :
      (file : Inspected) (max_bytes : ℕ) (cs ds : List Text) (fails : Bool)
      → joined cs ≡ joined ds
      → read_jsonl_file parse file max_bytes cs fails
        ≡ read_jsonl_file parse file max_bytes ds fails
  unfolding read_jsonl_file
  read_jsonl_file-joined is_missing max_bytes cs ds fails h = refl
  read_jsonl_file-joined is_untrusted max_bytes cs ds fails h = refl
  read_jsonl_file-joined (trusted size) max_bytes cs ds fails h =
      ap
        (λ r.
          if ltb max_bytes size
          then record {
            buffer = [];
            line = 0;
            values = [];
            diagnostics = events_diagnostic event_file_too_large ∷ [];
          }
          else r)
        (read_stream-joined cs ds fails h)
