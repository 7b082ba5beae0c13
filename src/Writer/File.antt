-- ===== src/Writer/File.antt =====
-- The file of packages/recorder/src/writer.ts as its readers see it: lines that end in a newline, and
-- the text after the last of them.
use agent_loop_snapshot.Prelude.{
  ℕ, zero, suc, ◌≡◌, refl, sym, ap, ◌∙◌, Bool, true, false, List, [], ◌∷◌, ◌++◌, ◌===◌, inl, inr,
  Bool-cases, All, take,
}
use agent_loop_snapshot.Schema.Envelope.{Event}
use agent_loop_snapshot.Trace.Lines.{Text, begin, cut_lines}
use agent_loop_snapshot.Trace.Facts.{append_nil, append_assoc}
use agent_loop_snapshot.Trace.Chunks.{after, cut_lines-append}
use agent_loop_snapshot.Writer.State.{
  Chunk, separator, line, torn, Written, whole, short, failed, Writer,
}

-- The lines of a text that end, and what follows the last of them.
abbrev pub Lines : Type 0
Lines = List Text × Text

abbrev pub add_text : Text → Lines → Lines
add_text t (ls, rest) = (ls, rest ++ t)

abbrev pub end_line : Lines → Lines
end_line (ls, rest) = (ls ++ rest ∷ [], [])

-- A separator that is due ends the line that stands open.
abbrev pub separated : Written → (due : Bool) → Lines → Lines
separated whole true l = end_line l
separated _ _ l = l

-- An event's text goes on the line that stands open, which ends where the text is written whole.
abbrev pub with_event : Written → Text → Lines → Lines
with_event whole t l = end_line (add_text t l)
with_event (short n) t l = add_text (take n t) l
with_event (failed n) t l = add_text (take n t) l

abbrev pub OneLine : Text → Type 0
OneLine = All (λ c. (c === 10) ≡ false)

take-OneLine : (n : ℕ) (t : Text) → OneLine t → OneLine (take n t)
take-OneLine zero t h = tt
take-OneLine (suc n) [] h = tt
take-OneLine (suc n) (c ∷ t) h = (h.0, take-OneLine n t h.1)

append-OneLine : (s t : Text) → OneLine s → OneLine t → OneLine (s ++ t)
append-OneLine [] t g h = h
append-OneLine (c ∷ s) t g h = (g.0, append-OneLine s t g.1 h)

cut_lines-of_line : (t : Text) → OneLine t → cut_lines t ≡ ([], t)
unfolding cut_lines
cut_lines-of_line [] h = refl
cut_lines-of_line (c ∷ t) h = rw (cut_lines, h.0) (ap (begin c) (cut_lines-of_line t h.1))

cut_lines-of_ended : (t : Text) → OneLine t → cut_lines (t ++ 10 ∷ []) ≡ (t ∷ [], [])
unfolding cut_lines
cut_lines-of_ended [] h = refl
cut_lines-of_ended (c ∷ t) h = rw (cut_lines, h.0) (ap (begin c) (cut_lines-of_ended t h.1))

begin-OneLine : (c : ℕ) (l : Lines) → (c === 10) ≡ false → OneLine l.1 → OneLine (begin c l).1
begin-OneLine c ([], rest) h g = (h, g)
begin-OneLine c (l ∷ ls, rest) h g = g

-- What is left after the last newline has none.
rest-OneLine : (t : Text) → OneLine (cut_lines t).1
unfolding cut_lines
rest-OneLine [] = tt
rest-OneLine (c ∷ t) = elim (Bool-cases (c === 10)) [
  | inl h ↦ rw (cut_lines, h) (rest-OneLine t)
  | inr h ↦ rw (cut_lines, h) (begin-OneLine c (cut_lines t) h (rest-OneLine t))
]

cut_lines-add_text : (s t : Text) → OneLine t → cut_lines (s ++ t) ≡ add_text t (cut_lines s)
cut_lines-add_text s t h =
    cut_lines-append s t
    ∙ ap (after (cut_lines s).0) (
        cut_lines-of_line ((cut_lines s).1 ++ t)
          (append-OneLine (cut_lines s).1 t (rest-OneLine s) h))
    ∙ ap (λ ls. (ls, (cut_lines s).1 ++ t)) (sym (append_nil (cut_lines s).0))

cut_lines-end_line : (s : Text) → cut_lines (s ++ 10 ∷ []) ≡ end_line (cut_lines s)
cut_lines-end_line s =
    cut_lines-append s (10 ∷ [])
    ∙ ap (after (cut_lines s).0) (cut_lines-of_ended (cut_lines s).1 (rest-OneLine s))

-- Over the text of an event, which is `JSON.stringify(event)`, and what the file held when it was
-- opened.
module _ (json : Event → Text) (before : Text) where
  abbrev pub chunk_text : Chunk → Text
  chunk_text separator = 10 ∷ []
  chunk_text (line e) = json e ++ 10 ∷ []
  chunk_text (torn e n) = take n (json e)

  abbrev pub text_of : List Chunk → Text
  text_of [] = []
  text_of (c ∷ cs) = chunk_text c ++ text_of cs

  -- The lines of the file.
  abbrev pub file_lines : Writer → Lines
  file_lines w = cut_lines (before ++ text_of w.content)

  text_of-snoc : (cs : List Chunk) (c : Chunk) → text_of (cs ++ c ∷ []) ≡ text_of cs ++ chunk_text c
  text_of-snoc [] c = sym (append_nil (chunk_text c))
  text_of-snoc (d ∷ cs) c =
      ap (λ t. chunk_text d ++ t) (text_of-snoc cs c)
      ∙ sym (append_assoc (chunk_text d) (text_of cs) (chunk_text c))

  -- One more piece in the file.
  file-snoc :
      (cs : List Chunk) (c : Chunk)
      → before ++ text_of (cs ++ c ∷ []) ≡ (before ++ text_of cs) ++ chunk_text c
  file-snoc cs c =
      ap (λ t. before ++ t) (text_of-snoc cs c)
      ∙ sym (append_assoc before (text_of cs) (chunk_text c))

  pub lines-separator :
      (cs : List Chunk)
      → cut_lines (before ++ text_of (cs ++ separator ∷ []))
        ≡ end_line (cut_lines (before ++ text_of cs))
  lines-separator cs =
      ap cut_lines (file-snoc cs separator) ∙ cut_lines-end_line (before ++ text_of cs)

  pub lines-torn :
      (cs : List Chunk) (e : Event) (n : ℕ)
      → OneLine (json e)
      → cut_lines (before ++ text_of (cs ++ torn e n ∷ []))
        ≡ add_text (take n (json e)) (cut_lines (before ++ text_of cs))
  lines-torn cs e n h =
      ap cut_lines (file-snoc cs (torn e n))
      ∙ cut_lines-add_text (before ++ text_of cs) (take n (json e)) (take-OneLine n (json e) h)

  pub lines-line :
      (cs : List Chunk) (e : Event)
      → OneLine (json e)
      → cut_lines (before ++ text_of (cs ++ line e ∷ []))
        ≡ end_line (add_text (json e) (cut_lines (before ++ text_of cs)))
  lines-line cs e h =
      ap cut_lines
        (file-snoc cs (line e) ∙ sym (append_assoc (before ++ text_of cs) (json e) (10 ∷ [])))
      ∙ cut_lines-end_line ((before ++ text_of cs) ++ json e)
      ∙ ap end_line (cut_lines-add_text (before ++ text_of cs) (json e) h)
