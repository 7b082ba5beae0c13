-- ===== src/Export/Queue.antt =====
-- packages/otel-export/src/queue.ts: the batches that wait for the collector, as files.
pub mod Capacity
pub mod Flush
mod Tests
use agent_loop_snapshot.Prelude.{
  ℕ, zero, suc, ◌+◌, ◌-◌, String, Bool, true, false, ◌&&◌, ◌||◌, not, Option, none, some, List, [],
  ◌∷◌, ◌++◌, ◌==◌, leb, ltb, ◌===◌, if◌then◌else◌, length, all, keep, codes, is_digit, is_some,
  get_text, set_text,
}
use agent_loop_snapshot.Replay.Policy.{max_safe_integer}
use agent_loop_snapshot.Export.HttpClient.{
  DeliveryState, DeliveryReport, accepted, rejected, queued, not_queued, unknown_delivery,
}

-- `QueueEntry`: `request` is the body, which the queue does not look into.
pub record QueueEntry (R : Type 0) : Type 0 where
  pub batch_id : String
  pub target_alias : String
  pub config_fingerprint : String
  pub request : R
  pub span_count : ℕ
  pub created_at : ℕ
  pub expires_at : ℕ
  pub attempts : ℕ

-- A file of the directory `entries`: a queue entry with the bytes of its text, or something that
-- `scan` passes over.
pub data File (R : Type 0) : Type 0 where
  entry_file : QueueEntry R → (bytes : ℕ) → File R
  other_file : File R

-- The files by their names, in the order of the directory.
abbrev pub Directory : Type 0 → Type 0
Directory R = List (String × File R)

abbrev pub remove_file : {R : Type 0} → String → Directory R → Directory R
remove_file p [] = []
remove_file p ((q, f) ∷ d) = if q == p then d else (q, f) ∷ remove_file p d

-- A new name, where the file system lists it.
abbrev pub list_at : {R : Type 0} → ℕ → String × File R → Directory R → Directory R
list_at zero f d = f ∷ d
list_at (suc n) f [] = f ∷ []
list_at (suc n) f (g ∷ d) = g ∷ list_at n f d

pub record StoredEntry (R : Type 0) : Type 0 where
  pub entry : QueueEntry R
  pub path : String
  pub bytes : ℕ

pub record ScanResult (R : Type 0) : Type 0 where
  pub entries : List (StoredEntry R)
  pub pending_bytes : ℕ
  pub expired_count : ℕ
  pub foreign_config_count : ℕ

-- `OtlpPersistentQueueOptions`, with the defaults put in.
pub record QueueOptions : Type 0 where
  pub target_alias : String
  pub config_fingerprint : String
  pub max_entries : ℕ
  pub max_bytes : ℕ
  pub retention_ms : ℕ
  pub lock_stale_ms : ℕ

-- What the clock and the file system answer during one `scan`, by the file's name.
pub record ScanAnswers : Type 0 where
  pub now : String → ℕ
  pub unlinks : String → Bool

abbrev pub is_own : {R : Type 0} → QueueOptions → QueueEntry R → Bool
is_own o e = e.target_alias == o.target_alias && e.config_fingerprint == o.config_fingerprint

abbrev nothing_found : {R : Type 0} → ScanResult R
nothing_found = record {
  entries = [];
  pending_bytes = 0;
  expired_count = 0;
  foreign_config_count = 0;
}

abbrev found : {R : Type 0} → QueueOptions → StoredEntry R → ScanResult R → ScanResult R
found o s rest = record rest {
  entries = s ∷ rest.entries;
  pending_bytes = s.bytes + rest.pending_bytes;
  foreign_config_count =
      if is_own o s.entry then rest.foreign_config_count else suc rest.foreign_config_count;
}

abbrev is_expired : {R : Type 0} → ScanAnswers → String → QueueEntry R → Bool
is_expired a p e = leb e.expires_at (a.now p)

-- `scan`: what it finds.
unfoldable pub scan : {R : Type 0} → QueueOptions → ScanAnswers → Directory R → ScanResult R
scan o a [] = nothing_found
scan o a ((p, other_file) ∷ d) = scan o a d
scan o a ((p, entry_file e bytes) ∷ d) =
    let rest = scan o a d in
    if is_expired a p e
    then record rest { expired_count = suc rest.expired_count }
    else found o (record { entry = e; path = p; bytes = bytes }) rest

-- `scan(true)`: the files that it leaves.
unfoldable pub after_scan : {R : Type 0} → ScanAnswers → Directory R → Directory R
after_scan a [] = []
after_scan a ((p, other_file) ∷ d) = (p, other_file) ∷ after_scan a d
after_scan a ((p, entry_file e bytes) ∷ d) =
    let rest = after_scan a d in
    if is_expired a p e && a.unlinks p then rest else (p, entry_file e bytes) ∷ rest

-- What one attempt to create the lock file meets; `stat` gives a lock's age, and `none` says that
-- `stat` or the removal of a stale lock failed.
pub data LockTry : Type 0 where
  created failed : LockTry
  exists : (age : Option ℕ) → LockTry

pub data LockError : Type 0 where
  queue_locked queue_lock_failed : LockError

-- `acquireLock`, by the attempts left; `none` says that the lock is held.
unfoldable pub acquire_from : ℕ → QueueOptions → List LockTry → Option LockError
acquire_from zero o tries = some queue_locked
acquire_from (suc n) o [] = some queue_locked
acquire_from (suc n) o (created ∷ tries) = none
acquire_from (suc n) o (failed ∷ tries) = some queue_lock_failed
acquire_from (suc n) o (exists none ∷ tries) = acquire_from n o tries
acquire_from (suc n) o (exists (some age) ∷ tries) =
    let again = acquire_from n o tries in
    if ltb o.lock_stale_ms age then again else some queue_locked

unfoldable pub acquire_lock : QueueOptions → List LockTry → Option LockError
unfolding acquire_from
acquire_lock o tries = acquire_from 2 o tries

abbrev is_id_character : ℕ → Bool
is_id_character c =
    is_digit c || (leb 65 c && leb c 90) || (leb 97 c && leb c 122) || c === 95 || c === 45

-- `isSafeBatchId`
unfoldable pub is_safe_batch_id : String → Bool
is_safe_batch_id s =
    all is_id_character (codes s) && (leb 1 (length (codes s)) && leb (length (codes s)) 128)

-- `OtlpQueueBatch`, with a generated identity where it has none.
pub record Batch (R : Type 0) : Type 0 where
  pub batch_id : String
  pub request : R
  pub span_count : ℕ

abbrev pub queue_report : QueueOptions → DeliveryState → DeliveryReport
queue_report o state = record {
  state = state;
  target_alias = o.target_alias;
  attempted = false;
  accepted_span_count = 0;
  rejected_span_count = 0;
  attempts = 0;
  retry_after_ms = none;
}

-- A report with the identity of its batch.
abbrev pub BatchReport : Type 0
BatchReport = DeliveryReport × Option String

-- What the surroundings answer to one `enqueue`; `place` is where the directory lists the new file.
pub record EnqueueAnswers : Type 0 where
  pub tries : List LockTry
  pub during_scan : ScanAnswers
  pub created_now : ℕ
  pub expires_now : ℕ
  pub writes : Bool
  pub place : ℕ

-- Over the bytes of an entry's text, and the name of a batch's file.
module _ {R : Type 0} (byte_length : QueueEntry R → ℕ) (file_name : String → String) where
  abbrev pub new_entry : QueueOptions → EnqueueAnswers → Batch R → QueueEntry R
  new_entry o a b = record {
    batch_id = b.batch_id;
    target_alias = o.target_alias;
    config_fingerprint = o.config_fingerprint;
    request = b.request;
    span_count = b.span_count;
    created_at = a.created_now;
    expires_at = a.expires_now + o.retention_ms;
    attempts = 0;
  }

  -- `link` does not replace a file that is there.
  abbrev put_new :
      QueueOptions → EnqueueAnswers → QueueEntry R → Directory R → BatchReport × Directory R
  put_new o a e d =
      if is_some (get_text (file_name e.batch_id) d) || not a.writes
      then ((queue_report o not_queued, none), d)
      else (
        (queue_report o queued, some e.batch_id),
        list_at a.place (file_name e.batch_id, entry_file e (byte_length e)) d,
      )

  abbrev pub at_capacity : QueueOptions → ScanResult R → ℕ → Bool
  at_capacity o s bytes =
      leb o.max_entries (length s.entries) || ltb o.max_bytes (s.pending_bytes + bytes)

  -- `enqueue`
  unfoldable pub enqueue :
      QueueOptions → EnqueueAnswers → Batch R → Directory R → BatchReport × Directory R
  unfolding acquire_lock scan after_scan is_safe_batch_id
  enqueue o a b d =
      if is_some (acquire_lock o a.tries)
      then ((queue_report o not_queued, none), d)
      else if not (is_safe_batch_id b.batch_id) || not (leb b.span_count max_safe_integer)
      then ((queue_report o not_queued, none), after_scan a.during_scan d)
      else if at_capacity o (scan o a.during_scan d) (byte_length (new_entry o a b))
      then ((queue_report o not_queued, none), after_scan a.during_scan d)
      else put_new o a (new_entry o a b) (after_scan a.during_scan d)
