-- ===== src/Export/Queue/Flush/Kept.antt =====
-- A flush loses no batch (packages/otel-export/src/queue.ts).
use agent_loop_snapshot.Prelude.{
  ℕ, ◌≤◌, String, ◌≡◌, refl, sym, ap, ◌∙◌, ◌⊎◌, inl, inr, Bool, true, false, Bool-cases, Option,
  none, some, Option-cases, List, [], ◌∷◌, ◌==◌, arith, eq_iff, eq_refl, All, All-map, if_elim,
  bool_elim, keep, keep-All, get_text, set_text, get_text-here, get_text-there, map_get-same,
  map_get-other, same_text-eq,
}
use mathlib.Core.Path.{subst}
use agent_loop_snapshot.Export.HttpClient.{DeliveryReport}
use agent_loop_snapshot.Export.Queue.{
  QueueEntry, File, entry_file, Directory, remove_file, StoredEntry, QueueOptions, ScanAnswers,
  is_own, scan, after_scan, LockTry, acquire_lock, BatchReport,
}
use agent_loop_snapshot.Export.Queue.Flush.{
  Turn, Flushed, flushed, flush_failed, passed, decorated, is_final, add_attempts, cons_delivery,
  settle, flush_loop, FlushResult, locked, done, thrown, eligible, counted, flush,
}
use agent_loop_snapshot.Export.Queue.Flush.Names.{
  NamesOnce, InDirectory, option_cases, get_text-after_scan, scan-InDirectory, sort_entries-All,
}

-- The same batch, with as many attempts or more.
pub record SameBatch {R : Type 0} (e f : QueueEntry R) : Type 0 where
  pub batch_id : f.batch_id ≡ e.batch_id
  pub request : f.request ≡ e.request
  pub span_count : f.span_count ≡ e.span_count
  pub attempts : e.attempts ≤ f.attempts

module _ {R : Type 0} (turn : String → Turn) (p : String) (e : QueueEntry R) where
  -- The batch is in the directory under its name, or the sender accepted or rejected it.
  abbrev pub Kept : Directory R → Type 0
  Kept d =
      ((f : QueueEntry R) × (n : ℕ) × (get_text p d ≡ some (entry_file f n)) × SameBatch e f)
      ⊎ ((r : DeliveryReport) × ((turn p).sent ≡ some r) × (is_final r.state ≡ true))

  -- The files that a flush of the entries leaves.
  abbrev pub left_of : Flushed R → Directory R
  left_of (flushed _ _ d) = d
  left_of (flush_failed d) = d

  abbrev MaybeKept : Option (Directory R) → Type 0
  MaybeKept none = Unit
  MaybeKept (some d) = Kept d

  -- An entry under the name is that batch.
  abbrev Known : StoredEntry R → Type 0
  Known s = s.path ≡ p → SameBatch e s.entry

  under :
      (l : String) (f : File R) (c d : Directory R)
      → get_text p c ≡ get_text p d
      → get_text p ((l, f) ∷ c) ≡ get_text p ((l, f) ∷ d)
  under l f c d h = elim (Bool-cases (l == p)) [
    | inl a ↦ get_text-here p l f c a ∙ sym (get_text-here p l f d a)
    | inr a ↦ get_text-there p l f c a ∙ (h ∙ sym (get_text-there p l f d a))
  ]

  get_text-remove_file :
      (q : String) (d : Directory R)
      → (q == p) ≡ false
      → get_text p (remove_file q d) ≡ get_text p d
  get_text-remove_file q [] h = refl
  get_text-remove_file q ((l, f) ∷ d) h = elim (Bool-cases (l == q)) [
    | inl a ↦
        rw a
          (sym (get_text-there p l f d (subst (λ v. (v == p) ≡ false) (sym ((eq_iff l q).0 a)) h)))
    | inr a ↦ rw a (under l f (remove_file q d) d (get_text-remove_file q d h))
  ]

  removed-Kept : (q : String) (d : Directory R) → (q == p) ≡ false → Kept d → Kept (remove_file q d)
  removed-Kept q d h (inl (f, n, there, same)) =
      inl (f, n, get_text-remove_file q d h ∙ there, same)
  removed-Kept q d h (inr sent) = inr sent

  written-Kept :
      (s : StoredEntry R) (k n : ℕ) (d : Directory R)
      → Known s
      → Kept d
      → Kept (set_text s.path (entry_file (add_attempts s.entry k) n) d)
  written-Kept s k n d known (inr sent) = inr sent
  written-Kept s k n d known (inl (f, m, there, same)) = elim (Bool-cases (s.path == p)) [
    | inl h ↦
        let q = (eq_iff s.path p).0 h in
        let w = entry_file (add_attempts s.entry k) n in
        let k_same = known q in
        inl (
          add_attempts s.entry k,
          n,
          subst (λ v. get_text v (set_text s.path w d) ≡ some w) q
              (map_get-same (λ a b. a == b) s.path w d (eq_refl s.path)),
          record {
            batch_id = k_same.batch_id;
            request = k_same.request;
            span_count = k_same.span_count;
            attempts = omega (arith, k_same.attempts);
          },
        )
    | inr h ↦ inl (
      f,
      m,
      map_get-other (λ a b. a == b) same_text-eq s.path p _ d
            (λ q. let yes_same = (eq_iff s.path p).1 q in cc (h, yes_same))
          ∙ there,
      same,
    )
  ]

  final_sent :
      (f : QueueEntry R) (t : Turn)
      → is_final (decorated f t).state ≡ true
      → (r : DeliveryReport) × (t.sent ≡ some r) × (is_final r.state ≡ true)
  final_sent f t h = elim (Option-cases t.sent) [
    | inl n ↦ let never : false ≡ true = rw (decorated, n) at h in cc
    | inr (r, q) ↦ (r, q, rw (decorated, q) at h)
  ]

  module _ (byte_length : QueueEntry R → ℕ) where
    settle-Kept :
        (s : StoredEntry R) (d : Directory R)
        → Known s
        → Kept d
        → MaybeKept (settle byte_length turn s (decorated s.entry (turn s.path)) d)
    unfolding settle
    settle-Kept s d known k =
        let r = decorated s.entry (turn s.path) in
        if_elim MaybeKept (is_final r.state)
          (λ final.
            if_elim Kept (turn s.path).unlinks
              (λ _. elim (Bool-cases (s.path == p)) [
                | inl h ↦ inr (
                    subst
                      (λ v.
                        (x : DeliveryReport) × ((turn v).sent ≡ some x) × (is_final x.state ≡ true))
                      ((eq_iff s.path p).0 h) (final_sent s.entry (turn s.path) final))
                | inr h ↦ removed-Kept s.path d h k
              ])
              (λ _. k))
          (λ _.
            if_elim MaybeKept (turn s.path).writes (λ _. written-Kept s r.attempts _ d known k)
              (λ _. tt))

    cons-Kept :
        (r : BatchReport) (f : Flushed R) → Kept (left_of f) → Kept (left_of (cons_delivery r f))
    cons-Kept r (flushed ds x d) k = k
    cons-Kept r (flush_failed d) k = k

    flush_loop-Kept :
        (deadline : Option ℕ) (ss : List (StoredEntry R)) (d : Directory R)
        → All Known ss
        → Kept d
        → Kept (left_of (flush_loop byte_length turn deadline ss d))
    unfolding flush_loop
    flush_loop-Kept deadline [] d ks k = k
    flush_loop-Kept deadline (s ∷ ss) d ks k =
        let r = decorated s.entry (turn s.path) in
        bool_elim (λ f. Kept (left_of f)) (passed deadline (turn s.path).before) (λ _. k)
          (λ _. settled _ (settle byte_length turn s r d) (settle-Kept s d ks.0 k) (λ d' k'.
            bool_elim (λ f. Kept (left_of f)) (passed deadline (turn s.path).after) (λ _. k')
              (λ _.
                cons-Kept (r, some s.entry.batch_id) (flush_loop byte_length turn deadline ss d')
                  (flush_loop-Kept deadline ss d' ks.1 k'))))
      where
        settled :
            (f : Directory R → Flushed R) (m : Option (Directory R))
            → MaybeKept m
            → ((d' : Directory R) → Kept d' → Kept (left_of (f d')))
            → Kept (left_of (elim m [ none ↦ flush_failed d | some d' ↦ f d' ]))
        settled f none _ g = k
        settled f (some d') k' g = g d' k'

module _ {R : Type 0} (turn : String → Turn) (p : String) (e : QueueEntry R) where
  -- Where the queue is not locked, the batch is kept.
  abbrev pub FlushKept : FlushResult R → Type 0
  FlushKept (locked _) = Unit
  FlushKept (done f _) = Kept turn p e (left_of turn p e f)
  FlushKept (thrown d) = Kept turn p e d

  counted-Kept :
      (o : QueueOptions) (a : ScanAnswers) (locale_leb : String → String → Bool)
      (byte_length : QueueEntry R → ℕ) (f : Flushed R)
      → Kept turn p e (left_of turn p e f)
      → FlushKept (counted locale_leb byte_length o a f)
  counted-Kept o a locale_leb byte_length (flushed ds x d) k = k
  counted-Kept o a locale_leb byte_length (flush_failed d) k = k

  entries_known :
      (n : ℕ) (d : Directory R) (s : StoredEntry R)
      → get_text p d ≡ some (entry_file e n)
      → InDirectory d s
      → s.path ≡ p
      → SameBatch e s.entry
  entries_known n d s there h q =
      let same : e ≡ s.entry =
        entry_path n s.bytes s.entry (sym there ∙ (ap (λ v. get_text v d) (sym q) ∙ h)) in
      subst (SameBatch e) same
        (record { batch_id = refl; request = refl; span_count = refl; attempts = omega arith })
    where
      entry_path :
          (n m : ℕ) (f : QueueEntry R) → some (entry_file e n) ≡ some (entry_file f m) → e ≡ f
      entry_path n m f h = cc

  -- In a directory whose names are distinct, every entry that the flush's first scan leaves is
  -- afterwards still there under its name, as the same batch with as many attempts or more, unless
  -- the sender accepted or rejected it: also where the deadline passes, a file cannot be removed
  -- or written, or the sender throws.
  pub flush-Kept :
      (locale_leb : String → String → Bool) (byte_length : QueueEntry R → ℕ) (o : QueueOptions)
      (tries : List LockTry) (first last : ScanAnswers) (deadline : Option ℕ) (d : Directory R)
      (n : ℕ)
      → NamesOnce d
      → get_text p (after_scan first d) ≡ some (entry_file e n)
      → FlushKept (flush locale_leb byte_length o tries first last turn deadline d)
  unfolding flush eligible
  flush-Kept locale_leb byte_length o tries first last deadline d n once there =
      let start : Kept turn p e (after_scan first d) = inl (
        e,
        n,
        there,
        record { batch_id = refl; request = refl; span_count = refl; attempts = omega arith },
      ) in
      let known =
        All-map (InDirectory d) (λ s. s.path ≡ p → SameBatch e s.entry)
          (λ s h. entries_known n d s (get_text-after_scan first p _ d once there) h)
          (scan o first d).entries (scan-InDirectory o first d once) in
      let all =
        sort_entries-All locale_leb byte_length _
          (keep (λ s. is_own o s.entry) (scan o first d).entries)
          (keep-All _ (λ s. is_own o s.entry) (scan o first d).entries known) in
      option_cases FlushKept (acquire_lock o tries) (λ _. tt)
        (counted-Kept o last locale_leb byte_length _ (
          flush_loop-Kept turn p e byte_length deadline
            (eligible locale_leb byte_length o (scan o first d)) (after_scan first d) all start))
