-- ===== src/Writer/Tests.antt =====
-- The event writer at concrete events.
use agent_loop_snapshot.Prelude.{
  ℕ, ◌+◌, ◌%◌, ◌≡◌, refl, Bool, true, false, none, some, [], ◌∷◌, arith,
}
use agent_loop_snapshot.Schema.Json.{Json}
use agent_loop_snapshot.Schema.Envelope.{Event, read_only, supplied}
use agent_loop_snapshot.Writer.State.{
  Scan, WriterOptions, Io, whole, failed, Writer, new_writer, append, write, sync, close,
  event_sync_failed, sequence_not_increasing,
}
use agent_loop_snapshot.Writer.Order.{
  IsOrdered, Reached, opened, step, appends, closes, Reached-IsOrdered,
}
use agent_loop_snapshot.Trace.Lines.{Text, cut_lines}
use agent_loop_snapshot.Writer.File.{OneLine, file_lines, separated, with_event}
use agent_loop_snapshot.Writer.Durable.{retry_after_sync_failure}

abbrev new_file : Scan
new_file = record {
  ends_with_newline = false;
  has_content = false;
  last_run_id = none;
  last_sequence = none;
}

abbrev defaults : WriterOptions
defaults = record { flush_mode = none; batch_size = none }

abbrev with_sync : Bool → Io
with_sync b = record {
  before_write = true;
  separator_written = whole;
  line_written = whole;
  before_sync = true;
  synced = b;
  handle_closed = true;
}

abbrev numbered : ℕ → Event
numbered n = record {
  schema_version = "0.2.0";
  run_id = "run";
  event_id = "a";
  parent_ids = [];
  sequence = n;
  event_type = "note";
  timestamp = "noon";
  monotonic_offset_ms = 0;
  actor = "agent";
  payload = supplied Json.null;
  security = record { side_effect = read_only; redactions = [] };
}

abbrev first : Writer
first = new_writer new_file defaults

abbrev one_line : Writer
one_line = (append (with_sync true) (numbered 1) first).1

abbrev shut : Writer
shut = (close (with_sync true) one_line).1

Reached-end : Reached new_file defaults shut
Reached-end =
    step (step opened (appends (with_sync true) (numbered 1) first))
      (closes (with_sync true) one_line)

sync_fails : (append (with_sync false) (numbered 2) one_line).0 ≡ some event_sync_failed
unfolding append new_writer write sync
sync_fails = refl

is_shut : shut.closed ≡ true
unfolding append new_writer write sync close
is_shut = refl

Reached-IsOrdered_example : IsOrdered 0 shut
Reached-IsOrdered_example = Reached-IsOrdered Reached-end

-- A text of each event in place of its JSON: its number's last digit in braces.
abbrev braced : Event → Text
braced e = 123 ∷ (48 + e.sequence % 10) ∷ 125 ∷ []

braced-OneLine : (e : Event) → OneLine (braced e)
braced-OneLine e = (refl, (ground arith, (refl, tt)))

abbrev breaking : Io
breaking = record (with_sync true) { line_written = failed 2 }

abbrev torn_file : Writer
torn_file = (append breaking (numbered 2) one_line).1

-- After a write that failed half-way the next event is put on the broken line.
glued_test :
    file_lines braced [] (append (with_sync true) (numbered 3) torn_file).1
    ≡ ((123 ∷ 49 ∷ 125 ∷ []) ∷ (123 ∷ 50 ∷ 123 ∷ 51 ∷ 125 ∷ []) ∷ [], [])
unfolding append new_writer write sync cut_lines
glued_test = refl

retry_after_sync_failure_example :
    (file_lines braced [] (append (with_sync false) (numbered 2) one_line).1
      ≡ with_event whole
          (braced (numbered 2))
          (separated whole one_line.needs_separator (file_lines braced [] one_line)))
    × (append (with_sync true) (numbered 2) (append (with_sync false) (numbered 2) one_line).1
        ≡ (some sequence_not_increasing, (append (with_sync false) (numbered 2) one_line).1))
retry_after_sync_failure_example =
    retry_after_sync_failure braced [] braced-OneLine (with_sync false) (with_sync true)
      (numbered 2) one_line refl sync_fails
