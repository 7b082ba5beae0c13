-- ===== src/Export/Queue/Flush/Names.antt =====
-- The files that a scan leaves, by their names (packages/otel-export/src/queue.ts).
use agent_loop_snapshot.Prelude.{
  ℕ, String, ◌≡◌, sym, ◌∙◌, inl, inr, Bool, ◌&&◌, Bool-cases, Option, none, some, List, [], ◌∷◌,
  ◌==◌, leb, eq_iff, eq_refl, All, All-map, if_elim, get_text, get_text-here, get_text-there,
}
use mathlib.Core.Path.{subst}
use agent_loop_snapshot.Export.Queue.{
  QueueEntry, File, entry_file, other_file, Directory, StoredEntry, QueueOptions, ScanAnswers,
  ScanResult, scan, after_scan,
}
use agent_loop_snapshot.Export.Queue.Flush.{in_order, insert_entry, sort_entries}

pub option_cases :
    {A B : Type 0} (P : B → Type 0) (m : Option A) {f : A → B} {x : B}
    → ((a : A) → P (f a))
    → P x
    → P (elim m [ some a ↦ f a | none ↦ x ])
option_cases P none g h = h
option_cases P (some a) g h = g a

same_head :
    {R : Type 0} (p k : String) (f g : File R) (c d : Directory R)
    → (get_text k c ≡ some g → get_text k d ≡ some g)
    → get_text k ((p, f) ∷ c) ≡ some g
    → get_text k ((p, f) ∷ d) ≡ some g
same_head p k f g c d t h = elim (Bool-cases (p == k)) [
  | inl q ↦ get_text-here k p f d q ∙ (sym (get_text-here k p f c q) ∙ h)
  | inr q ↦ get_text-there k p f d q ∙ t (sym (get_text-there k p f c q) ∙ h)
]

-- Each name stands once in the directory.
abbrev pub NamesOnce : {R : Type 0} → Directory R → Type 0
NamesOnce [] = Unit
NamesOnce ((p, _) ∷ d) = (get_text p d ≡ none) × NamesOnce d

module _ {R : Type 0} where
  below :
      (p k : String) (f g : File R) (d : Directory R)
      → get_text p d ≡ none
      → get_text k d ≡ some g
      → get_text k ((p, f) ∷ d) ≡ some g
  below p k f g d n h = elim (Bool-cases (p == k)) [
    | inl q ↦
        let m = subst (λ v. get_text v d ≡ none) ((eq_iff p k).0 q) n in
        let bad : none ≡ some g = sym m ∙ h in cc
    | inr q ↦ get_text-there k p f d q ∙ h
  ]

  pub get_text-after_scan :
      (a : ScanAnswers) (k : String) (g : File R) (d : Directory R)
      → NamesOnce d
      → get_text k (after_scan a d) ≡ some g
      → get_text k d ≡ some g
  unfolding after_scan
  get_text-after_scan a k g [] n h = h
  get_text-after_scan a k g ((p, other_file) ∷ d) n h =
      same_head p k other_file g (after_scan a d) d (get_text-after_scan a k g d n.1) h
  get_text-after_scan a k g ((p, entry_file e b) ∷ d) n h =
      if_elim (λ c. get_text k c ≡ some g → get_text k ((p, entry_file e b) ∷ d) ≡ some g)
        (leb e.expires_at (a.now p) && a.unlinks p)
        (λ _ q. below p k (entry_file e b) g d n.0 (get_text-after_scan a k g d n.1 q))
        (λ _ q.
          same_head p k (entry_file e b) g (after_scan a d) d (get_text-after_scan a k g d n.1) q)
        h

  abbrev pub InDirectory : Directory R → StoredEntry R → Type 0
  InDirectory d s = get_text s.path d ≡ some (entry_file s.entry s.bytes)

  pub scan-InDirectory :
      (o : QueueOptions) (a : ScanAnswers) (d : Directory R)
      → NamesOnce d
      → All (InDirectory d) (scan o a d).entries
  unfolding scan
  scan-InDirectory o a [] n = tt
  scan-InDirectory o a ((p, other_file) ∷ d) n =
      All-map _ _ (λ s h. below p s.path other_file _ d n.0 h) (scan o a d).entries
        (scan-InDirectory o a d n.1)
  scan-InDirectory o a ((p, entry_file e b) ∷ d) n =
      let rest =
        All-map _ _ (λ s h. below p s.path (entry_file e b) _ d n.0 h) (scan o a d).entries
          (scan-InDirectory o a d n.1) in
      if_elim (λ (r : ScanResult R). All (InDirectory ((p, entry_file e b) ∷ d)) r.entries)
        (leb e.expires_at (a.now p)) (λ _. rest)
        (λ _. (get_text-here p p (entry_file e b) d (eq_refl p), rest))

  module _ (locale_leb : String → String → Bool) (byte_length : QueueEntry R → ℕ)
      (P : StoredEntry R → Type 0) where
    insert_entry-All :
        (s : StoredEntry R) (ss : List (StoredEntry R))
        → P s
        → All P ss
        → All P (insert_entry locale_leb byte_length s ss)
    unfolding insert_entry
    insert_entry-All s [] h hs = (h, tt)
    insert_entry-All s (t ∷ ts) h hs =
        if_elim (All P) (in_order locale_leb byte_length s t) (λ _. (h, hs))
          (λ _. (hs.0, insert_entry-All s ts h hs.1))

    pub sort_entries-All :
        (ss : List (StoredEntry R)) → All P ss → All P (sort_entries locale_leb byte_length ss)
    unfolding sort_entries
    sort_entries-All [] hs = tt
    sort_entries-All (s ∷ ss) hs =
        insert_entry-All s (sort_entries locale_leb byte_length ss) hs.0 (sort_entries-All ss hs.1)
