-- ===== src/Export/Queue/Capacity.antt =====
-- The queue does not grow over its capacity (packages/otel-export/src/queue.ts).
use agent_loop_snapshot.Prelude.{
  ℕ, zero, suc, ◌+◌, ◌≤◌, ◌<◌, String, ◌≡◌, ◌≢◌, refl, Bool, true, false, ◌||◌, not, inl, inr,
  Bool-cases, Option, none, some, [], ◌∷◌, ◌==◌, leb, ltb, if◌then◌else◌, arith, length, is_some,
  get_text, if_elim, eq_refl, eq_iff,
}
use agent_loop_snapshot.Replay.Policy.{max_safe_integer}
use agent_loop_snapshot.Export.HttpClient.{queued}
use agent_loop_snapshot.Export.Queue.{
  QueueEntry, File, entry_file, other_file, Directory, list_at, ScanAnswers, QueueOptions, scan,
  after_scan, EnqueueAnswers, Batch, BatchReport, new_entry, enqueue, at_capacity, acquire_lock,
  is_safe_batch_id,
}

-- How many entries of a directory are not expired at a time, and how many bytes they have.
abbrev pub live_entries : {R : Type 0} → ℕ → Directory R → ℕ
live_entries t [] = 0
live_entries t ((_, other_file) ∷ d) = live_entries t d
live_entries t ((_, entry_file e _) ∷ d) = (if leb e.expires_at t then 0 else 1) + live_entries t d

abbrev pub live_bytes : {R : Type 0} → ℕ → Directory R → ℕ
live_bytes t [] = 0
live_bytes t ((_, other_file) ∷ d) = live_bytes t d
live_bytes t ((_, entry_file e bytes) ∷ d) =
    (if leb e.expires_at t then 0 else bytes) + live_bytes t d

at_most : (b : Bool) (n : ℕ) → (if b then 0 else n) ≤ n
at_most true n = omega arith
at_most false n = omega arith

still_expired : (e n t : ℕ) → leb e n ≡ true → n ≤ t → leb e t ≡ true
still_expired e n t h k = ground arith

module _ {R : Type 0} (o : QueueOptions) (a : ScanAnswers) (t : ℕ)
    (later : (p : String) → a.now p ≤ t) where
  live_entries-scan :
      (d : Directory R) → live_entries t (after_scan a d) ≤ length (scan o a d).entries
  unfolding scan after_scan
  live_entries-scan [] = omega arith
  live_entries-scan ((p, other_file) ∷ d) = live_entries-scan d
  live_entries-scan ((p, entry_file e bytes) ∷ d) = elim (Bool-cases (leb e.expires_at (a.now p))) [
    | inl h ↦ elim (Bool-cases (a.unlinks p)) [
      | inl u ↦ rw (scan, after_scan, h, u) (live_entries-scan d)
      | inr u ↦
          rw (scan, after_scan, h, u, still_expired e.expires_at (a.now p) t h (later p))
            (omega (arith, live_entries-scan d))
    ]
    | inr h ↦
        rw (scan, after_scan, h)
          (omega (arith, live_entries-scan d, at_most (leb e.expires_at t) 1))
  ]

  live_bytes-scan : (d : Directory R) → live_bytes t (after_scan a d) ≤ (scan o a d).pending_bytes
  unfolding scan after_scan
  live_bytes-scan [] = omega arith
  live_bytes-scan ((p, other_file) ∷ d) = live_bytes-scan d
  live_bytes-scan ((p, entry_file e bytes) ∷ d) = elim (Bool-cases (leb e.expires_at (a.now p))) [
    | inl h ↦ elim (Bool-cases (a.unlinks p)) [
      | inl u ↦ rw (scan, after_scan, h, u) (live_bytes-scan d)
      | inr u ↦
          rw (scan, after_scan, h, u, still_expired e.expires_at (a.now p) t h (later p))
            (omega (arith, live_bytes-scan d))
    ]
    | inr h ↦
        rw (scan, after_scan, h)
          (omega (arith, live_bytes-scan d, at_most (leb e.expires_at t) bytes))
  ]

-- The place of a new file in the directory does not matter to the sums, nor to the other names.
live_entries-list_at :
    {R : Type 0} (t n : ℕ) (f : String × File R) (d : Directory R)
    → live_entries t (list_at n f d) ≡ live_entries t (f ∷ d)
live_entries-list_at t zero f d = refl
live_entries-list_at t (suc n) f [] = refl
live_entries-list_at t (suc n) (p, other_file) ((_, other_file) ∷ d) =
    live_entries-list_at t n (p, other_file) d
live_entries-list_at t (suc n) (p, entry_file e b) ((_, other_file) ∷ d) =
    live_entries-list_at t n (p, entry_file e b) d
live_entries-list_at t (suc n) (p, other_file) ((_, entry_file _ _) ∷ d) =
    omega (arith, live_entries-list_at t n (p, other_file) d)
live_entries-list_at t (suc n) (p, entry_file e b) ((_, entry_file _ _) ∷ d) =
    omega (arith, live_entries-list_at t n (p, entry_file e b) d)

live_bytes-list_at :
    {R : Type 0} (t n : ℕ) (f : String × File R) (d : Directory R)
    → live_bytes t (list_at n f d) ≡ live_bytes t (f ∷ d)
live_bytes-list_at t zero f d = refl
live_bytes-list_at t (suc n) f [] = refl
live_bytes-list_at t (suc n) (p, other_file) ((_, other_file) ∷ d) =
    live_bytes-list_at t n (p, other_file) d
live_bytes-list_at t (suc n) (p, entry_file e b) ((_, other_file) ∷ d) =
    live_bytes-list_at t n (p, entry_file e b) d
live_bytes-list_at t (suc n) (p, other_file) ((_, entry_file _ _) ∷ d) =
    omega (arith, live_bytes-list_at t n (p, other_file) d)
live_bytes-list_at t (suc n) (p, entry_file e b) ((_, entry_file _ _) ∷ d) =
    omega (arith, live_bytes-list_at t n (p, entry_file e b) d)

get_text-list_at_new :
    {R : Type 0} (n : ℕ) (p : String) (f : File R) (d : Directory R)
    → get_text p d ≡ none
    → get_text p (list_at n (p, f) d) ≡ some f
get_text-list_at_new zero p f d h = rw (eq_refl p) refl
get_text-list_at_new (suc n) p f [] h = rw (eq_refl p) refl
get_text-list_at_new (suc n) p f ((q, g) ∷ d) h = elim (Bool-cases (q == p)) [
  | inl e ↦ cc (rw e at h)
  | inr e ↦ rw e (get_text-list_at_new n p f d (rw e at h))
]

get_text-list_at_other :
    {R : Type 0} (n : ℕ) (p q : String) (f : File R) (d : Directory R)
    → q ≢ p
    → get_text q (list_at n (p, f) d) ≡ get_text q d
get_text-list_at_other zero p q f d h = ground (arith, eq_iff p q)
get_text-list_at_other (suc n) p q f [] h = ground (arith, eq_iff p q)
get_text-list_at_other (suc n) p q f ((r, g) ∷ d) h =
    ground (arith, get_text-list_at_other n p q f d h)

fits_of : (n m b c : ℕ) → (leb m n || ltb c b) ≡ false → (n < m) × (b ≤ c)
fits_of n m b c h = (ground (arith, h), ground (arith, h))

-- A report says that its batch is queued.
abbrev pub is_queued : BatchReport → Bool
is_queued r = elim r.0.state [ queued ↦ true | _ ↦ false ]

-- The entry of a batch: of the queue's own target and configuration, not tried yet, and to be kept
-- for the retention time.
pub record EntryOf {R : Type 0} (o : QueueOptions) (a : EnqueueAnswers) (b : Batch R)
    (e : QueueEntry R) : Type 0 where
  pub batch_id : e.batch_id ≡ b.batch_id
  pub request : e.request ≡ b.request
  pub span_count : e.span_count ≡ b.span_count
  pub target_alias : e.target_alias ≡ o.target_alias
  pub config_fingerprint : e.config_fingerprint ≡ o.config_fingerprint
  pub created_at : e.created_at ≡ a.created_now
  pub expires_at : e.expires_at ≡ a.expires_now + o.retention_ms
  pub attempts : e.attempts ≡ 0

-- What a queued batch leaves of the queue.
pub record Added {R : Type 0} (byte_length : QueueEntry R → ℕ) (file_name : String → String)
    (o : QueueOptions) (a : EnqueueAnswers) (b : Batch R) (before after : Directory R)
    : Type 0 where
  pub is_new : get_text (file_name b.batch_id) (after_scan a.during_scan before) ≡ none
  pub entry : QueueEntry R
  pub entry_of : EntryOf o a b entry
  pub stored : get_text (file_name b.batch_id) after ≡ some (entry_file entry (byte_length entry))
  pub others :
      (p : String)
      → p ≢ file_name b.batch_id
      → get_text p after ≡ get_text p (after_scan a.during_scan before)
  pub within_entries :
      (t : ℕ) → ((p : String) → a.during_scan.now p ≤ t) → live_entries t after ≤ o.max_entries
  pub within_bytes :
      (t : ℕ) → ((p : String) → a.during_scan.now p ≤ t) → live_bytes t after ≤ o.max_bytes

module _ {R : Type 0} (byte_length : QueueEntry R → ℕ) (file_name : String → String) where
  none_there : {A : Type 0} (m : Option A) (w : Bool) → (is_some m || not w) ≡ false → m ≡ none
  none_there none w h = refl
  none_there (some x) w h = cc

  added :
      (o : QueueOptions) (a : EnqueueAnswers) (b : Batch R) (d : Directory R)
      → at_capacity byte_length file_name o
          (scan o a.during_scan d)
          (byte_length (new_entry byte_length file_name o a b))
        ≡ false
      → (is_some (get_text (file_name b.batch_id) (after_scan a.during_scan d)) || not a.writes)
        ≡ false
      → Added byte_length file_name o a b d (
          list_at a.place
            (
              file_name b.batch_id,
              entry_file
                  (new_entry byte_length file_name o a b)
                  (byte_length (new_entry byte_length file_name o a b)),
            )
            (after_scan a.during_scan d))
  added o a b d room free =
      let e = new_entry byte_length file_name o a b in
      let old = after_scan a.during_scan d in
      let name = file_name b.batch_id in
      let file : File R = entry_file e (byte_length e) in
      let s = scan o a.during_scan d in
      let fits : (length s.entries < o.max_entries)
          × (s.pending_bytes + byte_length e ≤ o.max_bytes) =
        fits_of (length s.entries) o.max_entries (s.pending_bytes + byte_length e) o.max_bytes
          room in
      record {
        is_new = none_there (get_text name old) a.writes free;
        entry = e;
        entry_of = record {
          batch_id = refl;
          request = refl;
          span_count = refl;
          target_alias = refl;
          config_fingerprint = refl;
          created_at = refl;
          expires_at = refl;
          attempts = refl;
        };
        stored =
            get_text-list_at_new a.place name file old
              (none_there (get_text name old) a.writes free);
        others = λ p. get_text-list_at_other a.place name p file old;
        within_entries = λ t later. omega (
          arith,
          live_entries-list_at t a.place (name, file) old,
          live_entries-scan o a.during_scan t later d,
          at_most (leb e.expires_at t) 1,
          fits.0,
        );
        within_bytes = λ t later. omega (
          arith,
          live_bytes-list_at t a.place (name, file) old,
          live_bytes-scan o a.during_scan t later d,
          at_most (leb e.expires_at t) (byte_length e),
          fits.1,
        );
      }

  -- Where `enqueue` reports a batch as queued, its name was free, the file of that name now holds an
  -- entry with the batch's identity, request and span count, the queue's target and configuration, no
  -- attempts and the retention time, every other file is as the scan left it, and at every time after
  -- the scan the entries that are not expired are at most as many, and have at most as many bytes, as
  -- the options allow.
  pub enqueue-Added :
      (o : QueueOptions) (a : EnqueueAnswers) (b : Batch R) (d : Directory R)
      → is_queued (enqueue byte_length file_name o a b d).0 ≡ true
      → Added byte_length file_name o a b d (enqueue byte_length file_name o a b d).1
  unfolding enqueue
  enqueue-Added o a b d =
      let P = λ (x : BatchReport × Directory R).
        is_queued x.0 ≡ true → Added byte_length file_name o a b d x.1 in
      if_elim P (is_some (acquire_lock o a.tries)) (λ _ h. cc)
        (λ _.
          if_elim P (not (is_safe_batch_id b.batch_id) || not (leb b.span_count max_safe_integer))
            (λ _ h. cc)
            (λ _.
              if_elim P
                (at_capacity byte_length file_name o (scan o a.during_scan d)
                  (byte_length (new_entry byte_length file_name o a b)))
                (λ _ h. cc)
                (λ room.
                  if_elim P
                    (is_some (get_text (file_name b.batch_id) (after_scan a.during_scan d))
                      || not a.writes)
                    (λ _ h. cc) (λ free _. added o a b d room free))))
