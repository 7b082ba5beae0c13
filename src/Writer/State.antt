-- ===== src/Writer/State.antt =====
-- packages/recorder/src/writer.ts: `JsonlEventWriter`, its file and its operations. Each operation
-- is one step of its queue.
use agent_loop_snapshot.Prelude.{
  ℕ, ◌+◌, max, String, Bool, true, false, ◌&&◌, not, Option, none, some, List, [], ◌∷◌, ◌++◌, ◌==◌,
  leb, if◌then◌else◌, is_some,
}
use agent_loop_snapshot.Schema.Envelope.{Event}

pub data FlushMode : Type 0 where
  event batch manual : FlushMode

pub data WriterError : Type 0 where
  event_write_failed event_sync_failed sequence_not_increasing run_id_mismatch : WriterError
  writer_closed : WriterError
  -- what closing the handle throws is passed on as it is
  handle_threw : WriterError

-- What one write leaves in the file: a newline, an event's text with its newline, or the first
-- characters of such a text.
pub data Chunk : Type 0 where
  separator : Chunk
  line : Event → Chunk
  torn : Event → (characters : ℕ) → Chunk

-- What the file system makes of a write: all of the text is written; or it returns, or throws, when
-- some characters before the newline at the end are. The code does not look at `bytesWritten`.
pub data Written : Type 0 where
  whole : Written
  short failed : (characters : ℕ) → Written

-- What the fault injector and the file system answer during one operation.
pub record Io : Type 0 where
  pub before_write : Bool
  pub separator_written : Written
  pub line_written : Written
  pub before_sync : Bool
  pub synced : Bool
  pub handle_closed : Bool

-- `content` is the file since the writer was opened and `durable` what the last sync covered.
pub record Writer : Type 0 where
  pub content : List Chunk
  pub durable : List Chunk
  pub flush_mode : FlushMode
  pub batch_size : ℕ
  pub pending_writes : ℕ
  pub needs_separator : Bool
  pub closed : Bool
  pub run_id : Option String
  pub last_sequence : ℕ

-- What `scanJsonlFile` finds in an existing file, as far as the constructor reads it; the last
-- event's fields are there where they have the right type.
pub record Scan : Type 0 where
  pub ends_with_newline : Bool
  pub has_content : Bool
  pub last_run_id : Option String
  pub last_sequence : Option ℕ

pub record WriterOptions : Type 0 where
  pub flush_mode : Option FlushMode
  pub batch_size : Option ℕ

abbrev pub or_default {ℓ} : {A : Type ℓ} → Option A → A → A
or_default none d = d
or_default (some a) d = a

-- The constructor of `JsonlEventWriter`.
unfoldable pub new_writer : Scan → WriterOptions → Writer
new_writer scan o = record {
  content = [];
  durable = [];
  flush_mode = or_default o.flush_mode FlushMode.event;
  batch_size = max 1 (or_default o.batch_size 10);
  pending_writes = 0;
  needs_separator = not scan.ends_with_newline && scan.has_content;
  closed = false;
  run_id = scan.last_run_id;
  last_sequence = or_default scan.last_sequence 0;
}

-- `syncInternal`
unfoldable pub sync : Io → Writer → Option WriterError × Writer
sync io w =
    if io.before_sync && io.synced
    then (none, record w { durable = w.content; pending_writes = 0 })
    else (some event_sync_failed, w)

abbrev pub other_run : Option String → String → Bool
other_run none id = false
other_run (some r) id = not (id == r)

abbrev pub bind_run : String → Writer → Writer
bind_run id w = record w { run_id = some (or_default w.run_id id) }

-- The separator of `append`, where one is due. It is a single character.
abbrev pub write_separator : Io → Writer → Bool × Writer
write_separator io w =
    if w.needs_separator
    then elim io.separator_written [
      | whole ↦ (true, record w { content = w.content ++ separator ∷ []; needs_separator = false })
      | short _ ↦ (true, record w { needs_separator = false })
      | failed _ ↦ (false, w)
    ]
    else (true, w)

-- The write of an event's text.
abbrev pub write_line : Written → Event → Writer → Bool × Writer
write_line whole e w = (true, record w { content = w.content ++ line e ∷ [] })
write_line (short n) e w = (true, record w { content = w.content ++ torn e n ∷ [] })
write_line (failed n) e w = (false, record w { content = w.content ++ torn e n ∷ [] })

-- The `try` block of `append`; whether it returned.
unfoldable pub write : Io → Event → Writer → Bool × Writer
write io e w =
    if not io.before_write
    then (false, w)
    else let (separated, w₁) = write_separator io w in
      if separated then write_line io.line_written e w₁ else (false, w₁)

abbrev pub must_sync : Writer → Bool
must_sync w = elim w.flush_mode [
  | FlushMode.event ↦ true
  | FlushMode.batch ↦ leb w.batch_size w.pending_writes
  | FlushMode.manual ↦ false
]

abbrev pub count_write : Event → Writer → Writer
count_write e w = record w { last_sequence = e.sequence; pending_writes = w.pending_writes + 1 }

-- `append`
unfoldable pub append : Io → Event → Writer → Option WriterError × Writer
unfolding write sync
append io e w =
    if w.closed
    then (some writer_closed, w)
    else if other_run w.run_id e.run_id
    then (some run_id_mismatch, w)
    else if leb e.sequence w.last_sequence
    then (some sequence_not_increasing, bind_run e.run_id w)
    else let (written, w₁) = write io e (bind_run e.run_id w) in
      let w₂ = count_write e w₁ in
      if not written
      then (some event_write_failed, w₁)
      else if must_sync w₂
      then sync io w₂
      else (none, w₂)

-- `flush`
unfoldable pub flush : Io → Writer → Option WriterError × Writer
unfolding sync
flush io w = if w.closed then (none, w) else sync io w

-- `close`; the writer is closed once the sync succeeds, even where closing the handle throws.
unfoldable pub close : Io → Writer → Option WriterError × Writer
unfolding sync
close io w =
    if w.closed
    then (none, w)
    else let (failure, w₁) = sync io w in
      if is_some failure
      then (failure, w₁)
      else (if io.handle_closed then none else some handle_threw, record w₁ { closed = true })
