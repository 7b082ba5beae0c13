-- ===== src/Writer/Durable.antt =====
-- What an append of packages/recorder/src/writer.ts promises where it returns, and what it leaves
-- behind where it throws.
use agent_loop_snapshot.Prelude.{
  ◌<◌, ◌≡◌, refl, ap, sym, ◌∙◌, ◌⊎◌, inl, inr, Bool, true, false, not, Option, none, some, arith,
  leb, if◌then◌else◌, if_elim, eq_refl, ℕ, String,
}
use agent_loop_snapshot.Schema.Envelope.{Event}
use agent_loop_snapshot.Trace.Lines.{Text}
use agent_loop_snapshot.Writer.State.{
  FlushMode, Written, whole, short, failed, Io, Writer, WriterError, event_write_failed,
  event_sync_failed, sequence_not_increasing, sync, or_default, other_run, bind_run,
  write_separator, write_line, write, must_sync, count_write, append, flush, close,
}
use agent_loop_snapshot.Writer.Order.{bound_run, write-SameHead, Step, appends, flushes, closes}
use agent_loop_snapshot.Writer.File.{
  Lines, OneLine, file_lines, separated, with_event, lines-separator, lines-torn, lines-line,
}

-- `append` below its three tests.
after_tests : Io → Event → Writer → Option WriterError × Writer
after_tests io e v =
    let (written, w₁) = write io e v in
    let w₂ = count_write e w₁ in
    if not written
    then (some event_write_failed, w₁)
    else if must_sync w₂
    then sync io w₂
    else (none, w₂)

-- Over the text of an event, which has no newline, and what the file held when it was opened.
module _ (json : Event → Text) (before : Text) (one_line : (e : Event) → OneLine (json e)) where
  -- The lines with what is written of the event.
  abbrev pub lines_with : Io → Event → Writer → Lines
  lines_with io e w =
      with_event io.line_written (json e)
        (separated io.separator_written w.needs_separator (file_lines json before w))

  -- What an append leaves where it returns: what was written of the event stands on the line that
  -- was open, or on one of its own if a separator was due and written, and the file is synced as far
  -- as the mode asks.
  pub record Appended (io : Io) (e : Event) (w w' : Writer) : Type 0 where
    pub added : file_lines json before w' ≡ lines_with io e w
    pub last_sequence : w'.last_sequence ≡ e.sequence
    pub increasing : w.last_sequence < e.sequence
    pub each_synced : w.flush_mode ≡ FlushMode.event → w'.durable ≡ w'.content
    pub batch_synced :
        w.flush_mode ≡ FlushMode.batch
        → (w'.pending_writes < w.batch_size) ⊎ (w'.durable ≡ w'.content)

  -- What a failed write leaves: the lines as they were, or a part of the event's text on the line that
  -- stands open, after a separator that was due.
  abbrev pub TornBy : Io → Event → Writer → Writer → Type 0
  TornBy io e w w' =
      (file_lines json before w' ≡ file_lines json before w)
      ⊎ ((n : ℕ) × (io.line_written ≡ failed n) × (file_lines json before w' ≡ lines_with io e w))

  -- What an append leaves where it throws `x`.
  abbrev pub Refused : WriterError → Io → Event → Writer → Writer → Type 0
  Refused event_sync_failed io e w w' =
      (file_lines json before w' ≡ lines_with io e w) × (w'.last_sequence ≡ e.sequence)
  Refused event_write_failed io e w w' = TornBy io e w w' × (w'.last_sequence ≡ w.last_sequence)
  Refused _ io e w w' = (w'.content ≡ w.content) × (w'.last_sequence ≡ w.last_sequence)

  abbrev pub Promise : Io → Event → Writer → Option WriterError × Writer → Type 0
  Promise io e w out = elim out.0 [ none ↦ Appended io e w out.1 | some x ↦ Refused x io e w out.1 ]

  -- What `write` leaves, by whether it returned.
  abbrev WriteLeft : Io → Event → Writer → Bool × Writer → Type 0
  WriteLeft io e w out = elim out.0 [
    | true ↦ file_lines json before out.1 ≡ lines_with io e w
    | false ↦ TornBy io e w out.1
  ]

  line-WriteLeft :
      (x : Written) (io : Io) (e : Event) (w v : Writer)
      → io.line_written ≡ x
      → file_lines json before v
        ≡ separated io.separator_written w.needs_separator (file_lines json before w)
      → WriteLeft io e w (write_line x e v)
  line-WriteLeft whole io e w v h k =
      lines-line json before v.content e (one_line e) ∙ ap (with_event whole (json e)) k ∙ rw h refl
  line-WriteLeft (short n) io e w v h k =
      lines-torn json before v.content e n (one_line e)
      ∙ ap (with_event (short n) (json e)) k
      ∙ rw h refl
  line-WriteLeft (failed n) io e w v h k = inr (
    n,
    h,
    lines-torn json before v.content e n (one_line e)
        ∙ ap (with_event (failed n) (json e)) k
        ∙ rw h refl,
  )

  separated_file :
      (io : Io) (w : Writer)
      → (write_separator io w).0 ≡ true
      → file_lines json before (write_separator io w).1
        ≡ separated io.separator_written w.needs_separator (file_lines json before w)
  separated_file io w h = ground (arith, h, lines-separator json before w.content)

  unseparated_file :
      (io : Io) (w : Writer)
      → (write_separator io w).0 ≡ false
      → file_lines json before (write_separator io w).1 ≡ file_lines json before w
  unseparated_file io w h = ground (arith, h)

  write-WriteLeft : (io : Io) (e : Event) (w : Writer) → WriteLeft io e w (write io e w)
  unfolding write
  write-WriteLeft io e w =
      if_elim (WriteLeft io e w) (not io.before_write) (λ _. inl refl)
        (λ _.
          if_elim (WriteLeft io e w) (write_separator io w).0
            (λ h.
              line-WriteLeft io.line_written io e w (write_separator io w).1 refl
                (separated_file io w h))
            (λ h. inl (unseparated_file io w h)))

  -- The writer is open, of the event's run, and at its number, and what was written of the event is
  -- in the file, if the sync failed.
  abbrev Stuck : Io → Event → Writer → Option WriterError × Writer → Type 0
  Stuck io e w out =
      out.0 ≡ some event_sync_failed
      → (out.1.closed ≡ false)
        × (out.1.run_id ≡ some e.run_id)
        × (out.1.last_sequence ≡ e.sequence)
        × (file_lines json before out.1 ≡ lines_with io e w)

  written-Stuck :
      (io : Io) (e : Event) (v : Writer)
      → v.closed ≡ false
      → v.run_id ≡ some e.run_id
      → Stuck io e v (after_tests io e v)
  unfolding sync after_tests
  written-Stuck io e v on run =
      let same = write-SameHead io e v in
      let left = write-WriteLeft io e v in ground (arith, on, run, same, left)

  append-Stuck : (io : Io) (e : Event) (w : Writer) → Stuck io e w (append io e w)
  unfolding append after_tests
  append-Stuck io e w =
      if_elim (Stuck io e w) w.closed (λ _ h. cc)
        (λ on.
          if_elim (Stuck io e w) (other_run w.run_id e.run_id) (λ _ h. cc)
            (λ k.
              if_elim (Stuck io e w) (leb e.sequence w.last_sequence) (λ _ h. cc)
                (λ _. written-Stuck io e (bind_run e.run_id w) on (bound_run w.run_id e.run_id k))))

bind_run-bound : (id : String) (w : Writer) → w.run_id ≡ some id → bind_run id w ≡ w
bind_run-bound id w h =
    ap (λ r. record w { run_id = some (or_default r id) }) h
    ∙ ap (λ r. record w { run_id = r }) (sym h)

not_again :
    (io : Io) (e : Event) (w : Writer)
    → w.closed ≡ false
    → w.run_id ≡ some e.run_id
    → w.last_sequence ≡ e.sequence
    → append io e w ≡ (some sequence_not_increasing, bind_run e.run_id w)
unfolding append
not_again io e w on run last = rw (on, run, last, eq_refl e.run_id) (ground arith)

module _ (json : Event → Text) (before : Text) (one_line : (e : Event) → OneLine (json e)) where
  -- Where an append writes its event whole and its sync fails, the event's text stands in the file as
  -- an ended line (after what stood open there, if no separator was due and written), and another
  -- append of the same event is refused and changes nothing, whatever the file system does then.
  pub retry_after_sync_failure :
      (io io' : Io) (e : Event) (w : Writer)
      → io.line_written ≡ whole
      → (append io e w).0 ≡ some event_sync_failed
      → (file_lines json before (append io e w).1
          ≡ with_event whole
              (json e)
              (separated io.separator_written w.needs_separator (file_lines json before w)))
        × (append io' e (append io e w).1 ≡ (some sequence_not_increasing, (append io e w).1))
  retry_after_sync_failure io io' e w all_written h =
      let (on, run, last, lines) = append-Stuck json before one_line io e w h in
      let v = (append io e w).1 in
      (
        lines
            ∙ ap
                (λ x.
                  with_event x (json e)
                    (separated io.separator_written w.needs_separator (file_lines json before w)))
                all_written,
        not_again io' e v on run last
            ∙ ap (λ u. (some sequence_not_increasing, u)) (bind_run-bound e.run_id v run),
      )

-- No operation changes a closed writer.
pub Step-closed : {w w' : Writer} → Step w w' → w.closed ≡ true → w' ≡ w
unfolding append flush close
Step-closed (appends io e w) h = ground arith
Step-closed (flushes io w) h = ground arith
Step-closed (closes io w) h = ground arith
