-- ===== src/Export/Queue/Tests.antt =====
-- Runs of the export queue.
use agent_loop_snapshot.Prelude.{
  ℕ, String, ◌≡◌, refl, Bool, true, false, some, none, [], ◌∷◌, get_text,
}
use agent_loop_snapshot.Export.HttpClient.{DeliveryReport, exhausted}
use agent_loop_snapshot.Export.Queue.{
  QueueEntry, entry_file, other_file, Directory, QueueOptions, ScanAnswers, EnqueueAnswers, Batch,
  created, exists, enqueue, after_scan,
}
use agent_loop_snapshot.Export.Queue.Capacity.{Added, enqueue-Added, is_queued}
use agent_loop_snapshot.Export.Queue.Flush.{Turn, done, flushed, flush}
use agent_loop_snapshot.Export.Queue.Flush.Kept.{FlushKept, flush-Kept}

abbrev options : QueueOptions
options = record {
  target_alias = "main";
  config_fingerprint = "f";
  max_entries = 2;
  max_bytes = 100;
  retention_ms = 50;
  lock_stale_ms = 10;
}

abbrev waiting_entry : (id : String) (created expires : ℕ) → QueueEntry String
waiting_entry id at expires = record {
  batch_id = id;
  target_alias = "main";
  config_fingerprint = "f";
  request = "spans";
  span_count = 3;
  created_at = at;
  expires_at = expires;
  attempts = 0;
}

abbrev directory : Directory String
directory =
    ("a", entry_file (waiting_entry "a" 5 90) 20)
    ∷ ("old", entry_file (waiting_entry "old" 1 30) 20)
    ∷ ("note", other_file)
    ∷ []

abbrev at_forty : ScanAnswers
at_forty = record { now = λ _. 40; unlinks = λ _. true }

abbrev answers : EnqueueAnswers
answers = record {
  tries = exists (some 11) ∷ created ∷ [];
  during_scan = at_forty;
  created_now = 40;
  expires_now = 40;
  writes = true;
  place = 1;
}

abbrev twenty : QueueEntry String → ℕ
twenty _ = 20

abbrev batch : Batch String
batch = record { batch_id = "b"; request = "more"; span_count = 1 }

abbrev same_name : String → String
same_name id = id

enqueue_test : is_queued (enqueue twenty same_name options answers batch directory).0 ≡ true
unfolding enqueue
enqueue_test = refl

enqueue-Added_example :
    Added twenty same_name options answers batch directory
      (enqueue twenty same_name options answers batch directory).1
enqueue-Added_example = enqueue-Added twenty same_name options answers batch directory enqueue_test

abbrev exhausted_report : DeliveryReport
exhausted_report = record {
  state = exhausted;
  target_alias = "main";
  attempted = true;
  accepted_span_count = 0;
  rejected_span_count = 0;
  attempts = 4;
  retry_after_ms = none;
}

abbrev turn : String → Turn
turn _ = record {
  before = 1;
  sent = some exhausted_report;
  unlinks = true;
  writes = true;
  after = 2;
}

abbrev id_leb : String → String → Bool
id_leb _ _ = true

flush_test :
    flush id_leb twenty options (created ∷ []) at_forty at_forty turn (some 9) directory
    ≡ done
        (flushed ((exhausted_report, some "a") ∷ []) false (
          ("a", entry_file (record (waiting_entry "a" 5 90) { attempts = 4 }) 20)
          ∷ ("note", other_file)
          ∷ []))
        1
unfolding flush
flush_test = refl

first_left :
    get_text "a" (after_scan at_forty directory) ≡ some (entry_file (waiting_entry "a" 5 90) 20)
unfolding after_scan
first_left = refl

flush-Kept_example :
    FlushKept turn "a"
      (waiting_entry "a" 5 90)
      (flush id_leb twenty options (created ∷ []) at_forty at_forty turn (some 9) directory)
flush-Kept_example =
    flush-Kept turn "a" (waiting_entry "a" 5 90) id_leb twenty options (created ∷ []) at_forty
      at_forty (some 9) directory 20 (refl, (refl, (refl, tt))) first_left
