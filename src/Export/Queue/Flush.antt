-- ===== src/Export/Queue/Flush.antt =====
-- The flush of the queue (packages/otel-export/src/queue.ts).
pub mod Names
pub mod Kept
use agent_loop_snapshot.Prelude.{
  ℕ, ◌+◌, String, Bool, true, false, ◌&&◌, ◌||◌, not, Option, none, some, List, [], ◌∷◌, leb, ltb,
  ◌===◌, if◌then◌else◌, length, keep, set_text,
}
use agent_loop_snapshot.Export.HttpClient.{
  DeliveryState, DeliveryReport, accepted, rejected, unknown_delivery,
}
use agent_loop_snapshot.Export.Queue.{
  QueueEntry, entry_file, Directory, remove_file, StoredEntry, ScanResult, QueueOptions,
  ScanAnswers, is_own, scan, after_scan, LockTry, LockError, acquire_lock, BatchReport,
}

-- What the clock, the sender and the file system answer for one entry; `none` says that `send`
-- throws. The time is what has passed since the flush began.
pub record Turn : Type 0 where
  pub before : ℕ
  pub sent : Option DeliveryReport
  pub unlinks : Bool
  pub writes : Bool
  pub after : ℕ

-- `flush_failed`: an entry could not be written again, and the flush throws.
pub data Flushed (R : Type 0) : Type 0 where
  flushed : (deliveries : List BatchReport) (deadline_exceeded : Bool) → Directory R → Flushed R
  flush_failed : Directory R → Flushed R

abbrev pub passed : Option ℕ → ℕ → Bool
passed none elapsed = false
passed (some deadline) elapsed = leb deadline elapsed

abbrev pub no_report : {R : Type 0} → QueueEntry R → DeliveryReport
no_report e = record {
  state = unknown_delivery;
  target_alias = e.target_alias;
  attempted = true;
  accepted_span_count = 0;
  rejected_span_count = 0;
  attempts = 1;
  retry_after_ms = none;
}

-- `decorate`, of what the sender reports
abbrev pub decorated : {R : Type 0} → QueueEntry R → Turn → DeliveryReport
decorated e t = elim t.sent [
  | none ↦ no_report e
  | some r ↦ record r { target_alias = e.target_alias }
]

abbrev pub is_final : DeliveryState → Bool
is_final accepted = true
is_final rejected = true
is_final _ = false

abbrev pub add_attempts : {R : Type 0} → QueueEntry R → ℕ → QueueEntry R
add_attempts e n = record e { attempts = e.attempts + n }

abbrev pub cons_delivery : {R : Type 0} → BatchReport → Flushed R → Flushed R
cons_delivery r (flushed ds x d) = flushed (r ∷ ds) x d
cons_delivery r (flush_failed d) = flush_failed d

module _ {R : Type 0} (byte_length : QueueEntry R → ℕ) (turn : String → Turn) where
  -- What becomes of the entry's file; `none` says that it could not be written.
  unfoldable pub settle : StoredEntry R → DeliveryReport → Directory R → Option (Directory R)
  settle s r d =
      if is_final r.state
      then some (if (turn s.path).unlinks then remove_file s.path d else d)
      else if (turn s.path).writes
      then some (
          set_text s.path
            (entry_file (add_attempts s.entry r.attempts)
              (byte_length (add_attempts s.entry r.attempts)))
            d)
      else none

  -- The loop over the eligible entries.
  unfoldable pub flush_loop : Option ℕ → List (StoredEntry R) → Directory R → Flushed R
  unfolding settle
  flush_loop deadline [] d = flushed [] false d
  flush_loop deadline (s ∷ ss) d = elim (passed deadline (turn s.path).before) [
    | true ↦ flushed [] true d
    | false ↦
        let r = decorated s.entry (turn s.path) in
        elim (settle s r d) [
          | none ↦ flush_failed d
          | some d' ↦ elim (passed deadline (turn s.path).after) [
            | true ↦ flushed ((r, some s.entry.batch_id) ∷ []) true d'
            | false ↦ cons_delivery (r, some s.entry.batch_id) (flush_loop deadline ss d')
          ]
        ]
  ]

-- What `flushInternal` ends with.
pub data FlushResult (R : Type 0) : Type 0 where
  locked : LockError → FlushResult R
  done : Flushed R → (pending_count : ℕ) → FlushResult R
  thrown : Directory R → FlushResult R

-- Over the order of two batch identities, and the bytes of an entry's text.
module _ {R : Type 0} (locale_leb : String → String → Bool) (byte_length : QueueEntry R → ℕ) where
  -- `left` may stand before `right`.
  abbrev pub in_order : StoredEntry R → StoredEntry R → Bool
  in_order l r =
      ltb l.entry.created_at r.entry.created_at
      || (l.entry.created_at === r.entry.created_at && locale_leb l.entry.batch_id r.entry.batch_id)

  unfoldable pub insert_entry : StoredEntry R → List (StoredEntry R) → List (StoredEntry R)
  insert_entry s [] = s ∷ []
  insert_entry s (t ∷ ts) = if in_order s t then s ∷ t ∷ ts else t ∷ insert_entry s ts

  unfoldable pub sort_entries : List (StoredEntry R) → List (StoredEntry R)
  unfolding insert_entry
  sort_entries [] = []
  sort_entries (s ∷ ss) = insert_entry s (sort_entries ss)

  unfoldable pub eligible : QueueOptions → ScanResult R → List (StoredEntry R)
  unfolding sort_entries
  eligible o s = sort_entries (keep (λ x. is_own o x.entry) s.entries)

  abbrev pub counted : QueueOptions → ScanAnswers → Flushed R → FlushResult R
  counted o a (flush_failed d) = thrown d
  counted o a (flushed ds x d) = done (flushed ds x d) (length (scan o a d).entries)

  -- `flushInternal`; `first` and `last` are the answers to its two scans.
  unfoldable pub flush :
      QueueOptions
      → List LockTry
      → (first last : ScanAnswers) → (String → Turn)
      → Option ℕ
      → Directory R
      → FlushResult R
  unfolding acquire_lock scan after_scan eligible flush_loop
  flush o tries first last turn deadline d = elim (acquire_lock o tries) [
    | some e ↦ locked e
    | none ↦
        counted o last
          (flush_loop byte_length turn deadline (eligible o (scan o first d)) (after_scan first d))
  ]
