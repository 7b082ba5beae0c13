-- ===== src/Trace/Start.antt =====
-- Where the search for cycles starts (packages/trace/src/index.ts).
use agent_loop_snapshot.Prelude.{
  ℕ, zero, suc, ◌+◌, String, ◌≡◌, ◌≢◌, refl, sym, ap, ◌∙◌, ◌⊎◌, inl, inr, Bool, true, false, none,
  some, List, [], ◌∷◌, ◌++◌, ◌==◌, if◌then◌else◌, arith, eq_iff, eq_refl, map, keep, length,
  length-map, keep_ext, includes, All, All-map, All-Mem, members, ||_right, if_elim, Bool-cases,
  get_text, set_text,
}
use mathlib.Core.Path.{subst}
use mathlib.Core.List.{Memᴰ}
use agent_loop_snapshot.Trace.Index.{LoadedEvent, Indexes}
use agent_loop_snapshot.Trace.Structure.{
  ℤ, pos, is_zero, is_positive, Indegrees, indegree, is_known, count_known, count_parents,
  positives, first_ready, enough,
}
use agent_loop_snapshot.Trace.Waiting.{NoDup, Distinct, waiting-none, waiting-zero}
use agent_loop_snapshot.Trace.Facts.{append_nil, append_assoc, different}
use agent_loop_snapshot.Trace.Sorting.{grounded, Describes, Invariant, left, reached, zero_of}

set_text-new :
    {V : Type 0} (k : String) (v : V) (m : List (String × V))
    → get_text k m ≡ none
    → set_text k v m ≡ m ++ (k, v) ∷ []
set_text-new k v [] h = refl
set_text-new k v ((l, w) ∷ m) h = elim (Bool-cases (l == k)) [
  | inl e ↦ let no : some w ≡ none = rw e at h in cc
  | inr e ↦ rw e (ap (λ n. (l, w) ∷ n) (set_text-new k v m (rw e at h)))
]

get_text-snoc :
    {V : Type 0} (k l : String) (v : V) (m : List (String × V))
    → get_text k m ≡ none
    → l ≢ k
    → get_text k (m ++ (l, v) ∷ []) ≡ none
get_text-snoc k l v [] h n = elim (Bool-cases (l == k)) [
  | inl e ↦ absurd (n ((eq_iff l k).0 e))
  | inr e ↦ rw e refl
]
get_text-snoc k l v ((j, w) ∷ m) h n = elim (Bool-cases (j == k)) [
  | inl e ↦ let no : some w ≡ none = rw e at h in cc
  | inr e ↦ rw e (get_text-snoc k l v m (rw e at h) n)
]

All-both :
    {A : Type 0} (P Q R : A → Type 0)
    → ((a : A) → P a → Q a → R a)
    → (xs : List A) → All P xs
    → All Q xs
    → All R xs
All-both P Q R f [] p q = tt
All-both P Q R f (a ∷ xs) p q = (f a p.0 q.0, All-both P Q R f xs p.1 q.1)

module _ (x : Indexes) where
  abbrev entry : LoadedEvent → String × ℤ
  entry e = (e.event_id, pos (count_known x e.parent_ids))

  count_parents-append :
      (es : List LoadedEvent) (d : Indegrees)
      → Distinct es
      → All (λ e. get_text e.event_id d ≡ none) es
      → count_parents x es d ≡ d ++ map entry es
  unfolding count_parents
  count_parents-append [] d dist h = append_nil d
  count_parents-append (e ∷ es) d dist h =
      rw (set_text-new e.event_id (pos (count_known x e.parent_ids)) d h.0) (
        count_parents-append es (d ++ entry e ∷ []) dist.1 (
          All-both _ _ _
            (λ f new other.
              get_text-snoc f.event_id e.event_id (pos (count_known x e.parent_ids)) d new
                (λ q. other (sym q)))
            es h.1 dist.0)
        ∙ append_assoc d (entry e ∷ []) (map entry es))

  get_text-entries :
      (es : List LoadedEvent) (e : LoadedEvent)
      → Distinct es
      → Memᴰ e es
      → get_text e.event_id (map entry es) ≡ some (pos (count_known x e.parent_ids))
  get_text-entries [] e dist m = elim m [ ]
  get_text-entries (f ∷ es) e dist (Memᴰ.head p) =
      subst
        (λ g. get_text g.event_id (map entry (f ∷ es)) ≡ some (pos (count_known x g.parent_ids)))
        (sym p) (rw (eq_refl f.event_id) refl)
  get_text-entries (f ∷ es) e dist (Memᴰ.tail m) =
      rw (different f.event_id e.event_id (λ q. All-Mem _ es dist.0 m (sym q)))
        (get_text-entries es e dist.1 m)

  -- Each event's indegree starts at the number of its parents that are there.
  count_parents-entries :
      (es : List LoadedEvent) → Distinct es → count_parents x es [] ≡ map entry es
  count_parents-entries es dist = count_parents-append es [] dist (nowhere es)
    where
      nowhere : (es : List LoadedEvent) → All (λ e. get_text {V = ℤ} e.event_id [] ≡ none) es
      nowhere [] = tt
      nowhere (e ∷ es) = (refl, nowhere es)

  start_degree :
      (es : List LoadedEvent) (e : LoadedEvent)
      → Distinct es
      → Memᴰ e es
      → get_text e.event_id (count_parents x es []) ≡ some (pos (count_known x e.parent_ids))
  start_degree es e dist m = rw (count_parents-entries es dist) (get_text-entries es e dist m)

  abbrev is_ready : Indegrees → LoadedEvent → Bool
  is_ready d e = is_zero (indegree e.event_id d)

  ready_source :
      (d : Indegrees) (es : List LoadedEvent) (k : String)
      → includes (first_ready x es d) k ≡ true
      → (f : LoadedEvent) × Memᴰ f es × (f.event_id ≡ k) × (is_ready d f ≡ true)
  ready_source d [] k h = cc
  ready_source d (e ∷ es) k h = elim (Bool-cases (is_ready d e)) [
    | inr q ↦
        let (f, m, a, b) = ready_source d es k (rw (is_ready, q) at h) in (f, Memᴰ.tail m, a, b)
    | inl q ↦ elim (Bool-cases (e.event_id == k)) [
      | inl same ↦ (e, Memᴰ.head refl, (eq_iff e.event_id k).0 same, q)
      | inr other ↦
          let (f, m, a, b) = ready_source d es k (rw (is_ready, q, other) at h) in
          (f, Memᴰ.tail m, a, b)
    ]
  ]

  ready_here :
      (d : Indegrees) (es : List LoadedEvent) (e : LoadedEvent)
      → Memᴰ e es
      → is_ready d e ≡ true
      → includes (first_ready x es d) e.event_id ≡ true
  ready_here d [] e m h = elim m [ ]
  ready_here d (f ∷ es) e (Memᴰ.head p) h =
      subst (λ g. includes (first_ready x (f ∷ es) d) g.event_id ≡ true) (sym p)
        (first_one (subst (λ g. is_ready d g ≡ true) p h))
    where
      first_one : is_ready d f ≡ true → includes (first_ready x (f ∷ es) d) f.event_id ≡ true
      first_one q = rw (is_ready, q, eq_refl f.event_id) refl
  ready_here d (f ∷ es) e (Memᴰ.tail m) h =
      if_elim (λ fs. includes (map (λ g. g.event_id) fs) e.event_id ≡ true) (is_ready d f)
        (λ _.
          ||_right (f.event_id == e.event_id) (includes (first_ready x es d) e.event_id)
            (ready_here d es e m h))
        (λ _. ready_here d es e m h)

  NoDup-ready : (d : Indegrees) (es : List LoadedEvent) → Distinct es → NoDup (first_ready x es d)
  NoDup-ready d [] dist = tt
  NoDup-ready d (e ∷ es) dist =
      if_elim (λ fs. NoDup (map (λ g. g.event_id) fs)) (is_ready d e)
        (λ _. (
          not_later (Bool-cases (includes (first_ready x es d) e.event_id)),
          NoDup-ready d es dist.1,
        ))
        (λ _. NoDup-ready d es dist.1)
    where
      not_later :
          (includes (first_ready x es d) e.event_id ≡ true)
            ⊎ (includes (first_ready x es d) e.event_id ≡ false)
          → includes (first_ready x es d) e.event_id ≡ false
      not_later (inr h) = h
      not_later (inl h) =
          let (f, m, same, _) = ready_source d es e.event_id h in
          absurd (All-Mem _ es dist.0 m same)

  ready_or_positive :
      (n k p : ℕ) (e : LoadedEvent) (fs : List LoadedEvent)
      → length fs + p ≡ k
      → length (if is_zero (pos n) then e ∷ fs else fs) + (if is_positive (pos n) then suc p else p)
        ≡ suc k
  ready_or_positive zero k p e fs h = omega (arith, h)
  ready_or_positive (suc n) k p e fs h = omega (arith, h)

  partition :
      (es : List LoadedEvent)
      → length (keep (λ e. is_zero (pos (count_known x e.parent_ids))) es)
          + positives x (map entry es)
        ≡ length es
  partition [] = refl
  partition (e ∷ es) =
      ready_or_positive (count_known x e.parent_ids) (length es) (positives x (map entry es)) e
        (keep (λ f. is_zero (pos (count_known x f.parent_ids))) es) (partition es)

  module _ (es : List LoadedEvent) (dist : Distinct es) (known : Describes x es) where
    abbrev start : Indegrees
    start = count_parents x es []

    start_left : (e : LoadedEvent) → left x es [] [] e ≡ count_known x e.parent_ids
    start_left e = omega (arith, waiting-none x e.parent_ids)

    start_ready :
        (e : LoadedEvent) → Memᴰ e es → is_ready start e ≡ is_zero (pos (left x es [] [] e))
    start_ready e m =
        rw (is_ready, indegree, start_degree es e dist m)
          (ap (λ n. is_zero (pos n)) (sym (start_left e)))

    settled_start :
        (e : LoadedEvent)
        → Memᴰ e es
        → includes (first_ready x es start) e.event_id ≡ true
        → left x es [] [] e ≡ 0
    settled_start e m h =
        let (f, mf, same, q) = ready_source start es e.event_id h in
        let here : is_ready start e ≡ true =
          subst (λ v. is_zero (indegree v start) ≡ true) same q in
        zero_of (pos (left x es [] [] e)) (left x es [] [] e) refl (sym (start_ready e m) ∙ here)

    start_reached :
        (id : String)
        → reached x es [] (first_ready x es start) id ≡ includes (first_ready x es start) id
    start_reached id = ground arith

    pub start-Invariant : Invariant x es [] (first_ready x es start) [] start
    start-Invariant = record {
      degree = λ e m. start_degree es e dist m ∙ ap (λ n. some (pos n)) (sym (start_left e));
      settled = λ e m h. settled_start e m (sym (start_reached e.event_id) ∙ h);
      complete = λ e m h.
          start_reached e.event_id
          ∙ ready_here start es e m (start_ready e m ∙ ap (λ n. is_zero (pos n)) h);
      is_grounded = λ e m h.
          let z = settled_start e m (sym (start_reached e.event_id) ∙ h) in
          grounded e (λ f mf inc.
            let never =
              waiting-zero x [] e.parent_ids f.event_id (omega (arith, z)) inc (known.known f mf) in
            cc never);
      known = λ id h.
          let (f, mf, same, _) = ready_source start es id (sym (start_reached id) ∙ h) in
          subst (λ v. is_known x v ≡ true) same (known.known f mf);
      distinct = NoDup-ready start es dist;
      apart = λ id h. refl;
    }

    -- The identities that are ready and the ones that wait are all of them.
    pub start_enough : enough x start (first_ready x es start) ≡ length es
    start_enough = omega (
      arith,
      length-map (λ (e : LoadedEvent). e.event_id) (keep (is_ready start) es),
      ap length (
          keep_ext (is_ready start) (λ e. is_zero (pos (count_known x e.parent_ids))) es
            (All-map (λ e. Memᴰ e es) _
              (λ e m. start_ready e m ∙ ap (λ n. is_zero (pos n)) (start_left e)) es (members es))),
      ap (positives x) (count_parents-entries es dist),
      partition es,
    )
