-- ===== src/Writer/Order.antt =====
-- The order of the events in a file that the writer of packages/recorder/src/writer.ts makes.
use agent_loop_snapshot.Prelude.{
  ℕ, ◌≤◌, ◌<◌, String, ◌≡◌, refl, sym, ap, ◌∙◌, ◌⊎◌, inl, inr, Bool, true, false, ◌&&◌, not, Option,
  none, some, List, [], ◌∷◌, ◌++◌, arith, eq_iff, leb, is_some, if◌then◌else◌, if_elim, Bool-cases,
  All, All-snoc, All-map,
}
use agent_loop_snapshot.Schema.Envelope.{Event}
use agent_loop_snapshot.Writer.State.{
  Chunk, separator, line, torn, Written, whole, short, failed, Io, Writer, Scan, WriterOptions,
  or_default, new_writer, sync, other_run, bind_run, write_separator, write_line, write, must_sync,
  count_write, append, flush, close, WriterError, event_write_failed,
}
use agent_loop_snapshot.Trace.Facts.{append_nil}

-- The events whose text was written as a whole.
abbrev pub written_whole : List Chunk → List Event
written_whole [] = []
written_whole (separator ∷ cs) = written_whole cs
written_whole (line e ∷ cs) = e ∷ written_whole cs
written_whole (torn _ _ ∷ cs) = written_whole cs

abbrev pub Ascending : List Event → Type 0
Ascending [] = Unit
Ascending (e ∷ es) = All (λ (x : Event). e.sequence < x.sequence) es × Ascending es

-- The numbers ascend from above `s` up to `last`, and all events are of the run.
pub record Ordered (s : ℕ) (es : List Event) (run : Option String) (last : ℕ) : Type 0 where
  pub ascending : Ascending es
  pub above : All (λ (e : Event). s < e.sequence) es
  pub upto : All (λ (e : Event). e.sequence ≤ last) es
  pub one_run : All (λ (e : Event). run ≡ some e.run_id) es
  pub start : s ≤ last

abbrev pub IsOrdered : ℕ → Writer → Type 0
IsOrdered s w = Ordered s (written_whole w.content) w.run_id w.last_sequence

-- The writer that an operation leaves is ordered.
abbrev Left : ℕ → Option WriterError × Writer → Type 0
Left s out = IsOrdered s out.1

written_whole-append :
    (cs ds : List Chunk) → written_whole (cs ++ ds) ≡ written_whole cs ++ written_whole ds
written_whole-append [] ds = refl
written_whole-append (separator ∷ cs) ds = written_whole-append cs ds
written_whole-append (line e ∷ cs) ds = ap (λ es. e ∷ es) (written_whole-append cs ds)
written_whole-append (torn e n ∷ cs) ds = written_whole-append cs ds

Ascending-snoc :
    (es : List Event) (n : ℕ) (x : Event)
    → Ascending es
    → All (λ (e : Event). e.sequence ≤ n) es
    → n < x.sequence
    → Ascending (es ++ x ∷ [])
Ascending-snoc [] n x a b h = (tt, tt)
Ascending-snoc (e ∷ es) n x a b h = (
  All-snoc (λ (y : Event). e.sequence < y.sequence) es a.0 (omega (arith, b.0, h)),
  Ascending-snoc es n x a.1 b.1 h,
)

-- One more event, of the run and with a larger number.
Ordered-snoc :
    (s : ℕ) (es : List Event) (run : Option String) (n : ℕ) (x : Event)
    → Ordered s es run n
    → run ≡ some x.run_id
    → n < x.sequence
    → Ordered s (es ++ x ∷ []) run x.sequence
Ordered-snoc s es run n x o r h = record {
  ascending = Ascending-snoc es n x o.ascending o.upto h;
  above = All-snoc (λ (e : Event). s < e.sequence) es o.above (omega (arith, o.start, h));
  upto =
      All-snoc (λ (e : Event). e.sequence ≤ x.sequence) es
        (All-map (λ (e : Event). e.sequence ≤ n) (λ (e : Event). e.sequence ≤ x.sequence)
          (λ e b. omega (arith, b, h)) es o.upto)
        (omega arith);
  one_run = All-snoc (λ (e : Event). run ≡ some e.run_id) es o.one_run r;
  start = omega (arith, o.start, h);
}

Ordered-later :
    (s : ℕ) (es : List Event) (run : Option String) (n m : ℕ)
    → Ordered s es run n
    → n ≤ m
    → Ordered s es run m
Ordered-later s es run n m o h = record {
  ascending = o.ascending;
  above = o.above;
  upto =
      All-map (λ (e : Event). e.sequence ≤ n) (λ (e : Event). e.sequence ≤ m)
        (λ e b. omega (arith, b, h)) es o.upto;
  one_run = o.one_run;
  start = omega (arith, o.start, h);
}

-- The fields that writing leaves alone.
pub record SameHead (a b : Writer) : Type 0 where
  pub flush_mode : b.flush_mode ≡ a.flush_mode
  pub batch_size : b.batch_size ≡ a.batch_size
  pub closed : b.closed ≡ a.closed
  pub run_id : b.run_id ≡ a.run_id
  pub last_sequence : b.last_sequence ≡ a.last_sequence

SameHead-written :
    (w : Writer) (cs : List Chunk) (due : Bool)
    → SameHead w (record w { content = cs; needs_separator = due })
SameHead-written w cs due = record {
  flush_mode = refl;
  batch_size = refl;
  closed = refl;
  run_id = refl;
  last_sequence = refl;
}

SameHead-trans : {a b c : Writer} → SameHead a b → SameHead b c → SameHead a c
SameHead-trans f g = record {
  flush_mode = g.flush_mode ∙ f.flush_mode;
  batch_size = g.batch_size ∙ f.batch_size;
  closed = g.closed ∙ f.closed;
  run_id = g.run_id ∙ f.run_id;
  last_sequence = g.last_sequence ∙ f.last_sequence;
}

written_whole-snoc_piece :
    (cs : List Chunk) (c : Chunk)
    → written_whole (c ∷ []) ≡ []
    → written_whole (cs ++ c ∷ []) ≡ written_whole cs
written_whole-snoc_piece cs c h =
    written_whole-append cs (c ∷ [])
    ∙ ap (λ es. written_whole cs ++ es) h
    ∙ sym (append_nil (written_whole cs))

-- What a write does to the events whose text is there as a whole.
abbrev WriteOutcome : Event → Writer → Bool × Writer → Type 0
WriteOutcome e w out =
    SameHead w out.1
    × (((out.0 ≡ true) × (written_whole out.1.content ≡ written_whole w.content ++ e ∷ []))
        ⊎ (written_whole out.1.content ≡ written_whole w.content))

line_outcome : (x : Written) (e : Event) (w : Writer) → WriteOutcome e w (write_line x e w)
line_outcome whole e w = (
  SameHead-written w (w.content ++ line e ∷ []) w.needs_separator,
  inl (refl, written_whole-append w.content (line e ∷ [])),
)
line_outcome (short n) e w = (
  SameHead-written w (w.content ++ torn e n ∷ []) w.needs_separator,
  inr (written_whole-snoc_piece w.content (torn e n) refl),
)
line_outcome (failed n) e w = (
  SameHead-written w (w.content ++ torn e n ∷ []) w.needs_separator,
  inr (written_whole-snoc_piece w.content (torn e n) refl),
)

separator-SameHead : (io : Io) (w : Writer) → SameHead w (write_separator io w).1
separator-SameHead io w = ground (arith)

separator_outcome :
    (io : Io) (w : Writer)
    → written_whole (write_separator io w).1.content ≡ written_whole w.content
separator_outcome io w = ground (arith, written_whole-snoc_piece w.content separator refl)

after_separator :
    (e : Event) (v w : Writer) (out : Bool × Writer)
    → SameHead v w
    → written_whole w.content ≡ written_whole v.content
    → WriteOutcome e w out
    → WriteOutcome e v out
after_separator e v w out same kept h = (
  SameHead-trans same h.0,
  elim h.1 [
    | inl (yes_written, added) ↦ inl (yes_written, added ∙ ap (λ es. es ++ e ∷ []) kept)
    | inr unchanged ↦ inr (unchanged ∙ kept)
  ],
)

write_outcome : (io : Io) (e : Event) (w : Writer) → WriteOutcome e w (write io e w)
unfolding write
write_outcome io e w =
    if_elim (WriteOutcome e w) (not io.before_write)
      (λ _. (SameHead-written w w.content w.needs_separator, inr refl))
      (λ _.
        let w₁ = (write_separator io w).1 in
        if_elim (WriteOutcome e w) (write_separator io w).0
          (λ _.
            after_separator e w w₁ (write_line io.line_written e w₁) (separator-SameHead io w)
              (separator_outcome io w) (line_outcome io.line_written e w₁))
          (λ _. (separator-SameHead io w, inr (separator_outcome io w))))

pub write-SameHead : (io : Io) (e : Event) (w : Writer) → SameHead w (write io e w).1
write-SameHead io e w = (write_outcome io e w).0

sync-Ordered : (s : ℕ) (io : Io) (w : Writer) → IsOrdered s w → IsOrdered s (sync io w).1
unfolding sync
sync-Ordered s io w o = elim (Bool-cases (io.before_sync && io.synced)) [
  | inl h ↦ rw h o
  | inr h ↦ rw h o
]

Ordered-bind :
    (s : ℕ) (es : List Event) (run : Option String) (n : ℕ) (id : String)
    → Ordered s es run n
    → Ordered s es (some (or_default run id)) n
Ordered-bind s es (some r) n id o = o
Ordered-bind s [] none n id o = record {
  ascending = tt;
  above = tt;
  upto = tt;
  one_run = tt;
  start = o.start;
}
Ordered-bind s (e ∷ es) none n id o = cc o.one_run.0

pub bound_run :
    (run : Option String) (id : String)
    → other_run run id ≡ false
    → some (or_default run id) ≡ some id
bound_run none id h = refl
bound_run (some r) id h = ground (arith, eq_iff id r)

-- `append` below its three tests.
written-IsOrdered :
    (s : ℕ) (io : Io) (e : Event) (w : Writer)
    → IsOrdered s w
    → w.run_id ≡ some e.run_id
    → w.last_sequence < e.sequence
    → let w₁ = (write io e w).1 in
      IsOrdered s
        (if not (write io e w).0
          then (some event_write_failed, w₁)
          else if must_sync (count_write e w₁)
          then sync io (count_write e w₁)
          else (none, count_write e w₁)).1
written-IsOrdered s io e w o r h =
    let (same, out) = write_outcome io e w in
    elim out [
      | inl (yes_written, ls) ↦
          let w₁ = (write io e w).1 in
          let counted : IsOrdered s (count_write e w₁) =
            rw (ls, same.run_id)
              (Ordered-snoc s (written_whole w.content) w.run_id w.last_sequence e o r h) in
          elim (Bool-cases (must_sync (count_write e w₁))) [
            | inl m ↦ rw (yes_written, m) (sync-Ordered s io (count_write e w₁) counted)
            | inr m ↦ rw (yes_written, m) counted
          ]
      | inr ls ↦
          let w₁ = (write io e w).1 in
          let kept : IsOrdered s w₁ = rw (ls, same.run_id, same.last_sequence) o in
          let counted : IsOrdered s (count_write e w₁) =
            rw (ls, same.run_id)
              (Ordered-later s (written_whole w.content) w.run_id w.last_sequence e.sequence o
                (omega (arith, h))) in
          elim (Bool-cases (write io e w).0) [
            | inl yes_written ↦ elim (Bool-cases (must_sync (count_write e w₁))) [
              | inl m ↦ rw (yes_written, m) (sync-Ordered s io (count_write e w₁) counted)
              | inr m ↦ rw (yes_written, m) counted
            ]
            | inr not_written ↦ rw not_written kept
          ]
    ]

append-IsOrdered :
    (s : ℕ) (io : Io) (e : Event) (w : Writer) → IsOrdered s w → IsOrdered s (append io e w).1
unfolding append
append-IsOrdered s io e w o =
    let bound = Ordered-bind s (written_whole w.content) w.run_id w.last_sequence e.run_id o in
    if_elim (Left s) w.closed (λ _. o)
      (λ _.
        if_elim (Left s) (other_run w.run_id e.run_id) (λ _. o)
          (λ k.
            if_elim (Left s) (leb e.sequence w.last_sequence) (λ _. bound)
              (λ l.
                written-IsOrdered s io e (bind_run e.run_id w) bound (bound_run w.run_id e.run_id k)
                  (ground (arith, l)))))

close-IsOrdered : (s : ℕ) (io : Io) (w : Writer) → IsOrdered s w → IsOrdered s (close io w).1
unfolding close
close-IsOrdered s io w o =
    if_elim (Left s) w.closed (λ _. o)
      (λ _.
        if_elim (Left s) (is_some (sync io w).0) (λ _. sync-Ordered s io w o)
          (λ _. sync-Ordered s io w o))

flush-IsOrdered : (s : ℕ) (io : Io) (w : Writer) → IsOrdered s w → IsOrdered s (flush io w).1
unfolding flush
flush-IsOrdered s io w o = if_elim (Left s) w.closed (λ _. o) (λ _. sync-Ordered s io w o)

pub data Step : Writer → Writer → Type 0 where
  appends : (io : Io) (e : Event) (w : Writer) → Step w (append io e w).1
  flushes : (io : Io) (w : Writer) → Step w (flush io w).1
  closes : (io : Io) (w : Writer) → Step w (close io w).1

-- The writers that an opened one can become.
pub data Reached (scan : Scan) (o : WriterOptions) : Writer → Type 0 where
  opened : Reached scan o (new_writer scan o)
  step : {w w' : Writer} → Reached scan o w → Step w w' → Reached scan o w'

-- Whatever fails, the events whose text a writer has written as a whole have ascending numbers above
-- the one it was opened at, at most its last one, and are all of its run.
pub Reached-IsOrdered :
    {scan : Scan} {o : WriterOptions} {w : Writer}
    → Reached scan o w
    → IsOrdered (or_default scan.last_sequence 0) w
unfolding new_writer
Reached-IsOrdered opened = record {
  ascending = tt;
  above = tt;
  upto = tt;
  one_run = tt;
  start = omega arith;
}
Reached-IsOrdered {scan} (step r (appends io e w)) =
    append-IsOrdered (or_default scan.last_sequence 0) io e w (Reached-IsOrdered r)
Reached-IsOrdered {scan} (step r (flushes io w)) =
    flush-IsOrdered (or_default scan.last_sequence 0) io w (Reached-IsOrdered r)
Reached-IsOrdered {scan} (step r (closes io w)) =
    close-IsOrdered (or_default scan.last_sequence 0) io w (Reached-IsOrdered r)
