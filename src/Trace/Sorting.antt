-- ===== src/Trace/Sorting.antt =====
-- The invariant of the search for cycles (packages/trace/src/index.ts).
use agent_loop_snapshot.Prelude.{
  ℕ, zero, suc, ◌+◌, String, ◌≡◌, ◌≢◌, refl, sym, ap, ◌∙◌, inl, inr, Bool, true, false, ◌||◌, some,
  List, [], ◌∷◌, ◌++◌, ◌==◌, arith, eq_iff, eq_refl, includes, All, Bool-cases, ||_right, get_text,
  set_text, map_get-same, map_get-other, same_text-eq,
}
use mathlib.Core.Path.{subst}
use mathlib.Core.List.{Memᴰ}
use agent_loop_snapshot.Trace.Index.{LoadedEvent, Indexes, get_list}
use agent_loop_snapshot.Trace.Structure.{ℤ, pos, dec, is_zero, Indegrees, indegree, is_known}
use agent_loop_snapshot.Trace.Waiting.{
  times, occurs, includes-snoc, NoDup, NoDup-snoc, Distinct, Distinct-same, waiting, waiting-done,
  waiting-zero,
}

pub differs : (a b : String) → (a == b) ≡ false → a ≢ b
differs a b h e = let same = (eq_iff a b).1 e in cc (h, same)

pub zero_of : (z : ℤ) (n : ℕ) → z ≡ pos n → is_zero z ≡ true → n ≡ 0
zero_of z n e h = elim_zero n (sym (ap is_zero e) ∙ h)
  where
    elim_zero : (n : ℕ) → is_zero (pos n) ≡ true → n ≡ 0
    elim_zero zero q = refl
    elim_zero (suc n) q = cc

pub not_zero_of : (z : ℤ) (n : ℕ) → z ≡ pos n → is_zero z ≡ false → n ≢ 0
not_zero_of z n e h q = let no : is_zero z ≡ true = ap is_zero (e ∙ ap pos q) in cc (h, no)

-- Every parent that is in the trace is grounded: no chain of parents goes on for ever.
pub data Grounded (es : List LoadedEvent) : LoadedEvent → Type 0 where
  grounded :
      (e : LoadedEvent)
      → ((f : LoadedEvent) → Memᴰ f es → includes e.parent_ids f.event_id ≡ true → Grounded es f)
      → Grounded es e

-- What the indexes promise of a trace.
pub record Describes (x : Indexes) (es : List LoadedEvent) : Type 0 where
  pub known : (f : LoadedEvent) → Memᴰ f es → is_known x f.event_id ≡ true
  pub source : (p : String) → is_known x p ≡ true → (f : LoadedEvent) × Memᴰ f es × (f.event_id ≡ p)
  pub occurs_as :
      (e : LoadedEvent) (id : String)
      → Memᴰ e es
      → occurs e.event_id (get_list id x.children_by_id) ≡ times id e.parent_ids
  pub children : (id : String) → All (λ c. Memᴰ c es) (get_list id x.children_by_id)

module _ (x : Indexes) (es : List LoadedEvent) where
  -- What an event still waits for: parents that are not done, and turns of the inner loop.
  abbrev pub left : List String → List LoadedEvent → LoadedEvent → ℕ
  left done cs e = waiting x done e.parent_ids + occurs e.event_id cs

  abbrev pub reached : List String → List String → String → Bool
  reached done ready id = includes ready id || includes done id

  -- `done` are the identities that have left `ready`, `cs` the children that are still to be counted.
  pub record Invariant (done ready : List String) (cs : List LoadedEvent) (d : Indegrees)
      : Type 0 where
    pub degree : (e : LoadedEvent) → Memᴰ e es → get_text e.event_id d ≡ some (pos (left done cs e))
    pub settled :
        (e : LoadedEvent) → Memᴰ e es → reached done ready e.event_id ≡ true → left done cs e ≡ 0
    pub complete :
        (e : LoadedEvent) → Memᴰ e es → left done cs e ≡ 0 → reached done ready e.event_id ≡ true
    pub is_grounded :
        (e : LoadedEvent) → Memᴰ e es → reached done ready e.event_id ≡ true → Grounded es e
    pub known : (id : String) → reached done ready id ≡ true → is_known x id ≡ true
    pub distinct : NoDup ready
    pub apart : (id : String) → includes ready id ≡ true → includes done id ≡ false

  module _ (all_known : Describes x es) (no_twice : Distinct es) where
    shifted_left :
        (done : List String) (id : String) (e : LoadedEvent)
        → Memᴰ e es
        → is_known x id ≡ true
        → includes done id ≡ false
        → left (id ∷ done) (get_list id x.children_by_id) e ≡ left done [] e
    shifted_left done id e m k n =
        omega (arith, waiting-done x done id e.parent_ids k n, all_known.occurs_as e id m)

    shifted_reached :
        (done ready : List String) (id v : String)
        → reached (id ∷ done) ready v ≡ reached done (id ∷ ready) v
    shifted_reached done ready id v = ground arith

    -- The next identity leaves `ready`.
    pub shift :
        (done ready : List String) (id : String) (d : Indegrees)
        → Invariant done (id ∷ ready) [] d
        → Invariant (id ∷ done) ready (get_list id x.children_by_id) d
    shift done ready id d i =
        let here : reached done (id ∷ ready) id ≡ true = rw (eq_refl id) refl in
        let k = i.known id here in
        let n = i.apart id (rw (eq_refl id) refl) in
        record {
          degree = λ e m. rw (shifted_left done id e m k n) (i.degree e m);
          settled = λ e m h.
              shifted_left done id e m k n
              ∙ i.settled e m (sym (shifted_reached done ready id e.event_id) ∙ h);
          complete = λ e m h.
              shifted_reached done ready id e.event_id
              ∙ i.complete e m (sym (shifted_left done id e m k n) ∙ h);
          is_grounded =
              λ e m h. i.is_grounded e m (sym (shifted_reached done ready id e.event_id) ∙ h);
          known = λ v h. i.known v (sym (shifted_reached done ready id v) ∙ h);
          distinct = i.distinct.1;
          apart = λ v h. elim (Bool-cases (id == v)) [
            | inl e ↦
                let no = subst (λ u. includes ready u ≡ true) (sym ((eq_iff id v).0 e)) h in
                let yes_no = i.distinct.0 in cc (no, yes_no)
            | inr e ↦ rw e (i.apart v (||_right (id == v) (includes ready v) h))
          ];
        }

    -- What holds of `c`, and of the events of other identities, holds of every event.
    by_identity :
        (P : LoadedEvent → Type 0) (c e : LoadedEvent)
        → Memᴰ c es
        → Memᴰ e es
        → P c
        → ((c.event_id == e.event_id) ≡ false → P e)
        → P e
    by_identity P c e mc me p q = elim (Bool-cases (c.event_id == e.event_id)) [
      | inl h ↦ subst P (Distinct-same es c e no_twice mc me ((eq_iff c.event_id e.event_id).0 h)) p
      | inr h ↦ q h
    ]

    left_same :
        (done : List String) (cs : List LoadedEvent) (c : LoadedEvent)
        → left done (c ∷ cs) c ≡ suc (left done cs c)
    left_same done cs c = rw (eq_refl c.event_id) (omega arith)

    left_other :
        (done : List String) (cs : List LoadedEvent) (c e : LoadedEvent)
        → (c.event_id == e.event_id) ≡ false
        → left done (c ∷ cs) e ≡ left done cs e
    left_other done cs c e h = rw h (omega arith)

    pub counted :
        (done ready : List String) (cs : List LoadedEvent) (c : LoadedEvent) (d : Indegrees)
        → Memᴰ c es
        → Invariant done ready (c ∷ cs) d
        → dec (indegree c.event_id d) ≡ pos (left done cs c)
    counted done ready cs c d m i = rw (indegree, i.degree c m, left_same done cs c) refl

    degree_after :
        (done ready : List String) (cs : List LoadedEvent) (c : LoadedEvent) (d : Indegrees)
        → Memᴰ c es
        → Invariant done ready (c ∷ cs) d
        → (e : LoadedEvent) → Memᴰ e es
        → get_text e.event_id (set_text c.event_id (dec (indegree c.event_id d)) d)
          ≡ some (pos (left done cs e))
    degree_after done ready cs c d m i e me =
        by_identity
          (λ f.
            get_text f.event_id (set_text c.event_id (dec (indegree c.event_id d)) d)
            ≡ some (pos (left done cs f)))
          c e m me
          (map_get-same (λ a b. a == b) c.event_id (dec (indegree c.event_id d)) d
              (eq_refl c.event_id)
            ∙ ap some (counted done ready cs c d m i))
          (λ h.
            map_get-other (λ a b. a == b) same_text-eq c.event_id e.event_id
              (dec (indegree c.event_id d)) d (differs c.event_id e.event_id h)
            ∙ (i.degree e me ∙ ap (λ n. some (pos n)) (left_other done cs c e h)))

    settled_before :
        (done : List String) (cs : List LoadedEvent) (c e : LoadedEvent)
        → left done (c ∷ cs) e ≡ 0
        → left done cs e ≡ 0
    settled_before done cs c e h = omega (arith, h)

    -- A child that still waits.
    pub not_yet :
        (done ready : List String) (cs : List LoadedEvent) (c : LoadedEvent) (d : Indegrees)
        → Memᴰ c es
        → left done cs c ≢ 0
        → Invariant done ready (c ∷ cs) d
        → Invariant done ready cs (set_text c.event_id (dec (indegree c.event_id d)) d)
    not_yet done ready cs c d m n i = record {
      degree = degree_after done ready cs c d m i;
      settled = λ e me h. settled_before done cs c e (i.settled e me h);
      complete = λ e me.
          by_identity (λ f. left done cs f ≡ 0 → reached done ready f.event_id ≡ true) c e m me
            (λ z. absurd (n z)) (λ o z. i.complete e me (left_other done cs c e o ∙ z));
      is_grounded = i.is_grounded;
      known = i.known;
      distinct = i.distinct;
      apart = i.apart;
    }

    reached_more :
        (done ready : List String) (id v : String)
        → reached done (ready ++ id ∷ []) v ≡ (reached done ready v || id == v)
    reached_more done ready id v = ground (arith, includes-snoc ready id v)

    reached_before :
        (done ready : List String) (id v : String)
        → (id == v) ≡ false
        → reached done (ready ++ id ∷ []) v ≡ true
        → reached done ready v ≡ true
    reached_before done ready id v n h =
        let g = sym (reached_more done ready id v) ∙ h in ground (arith, g, n)

    reached_after :
        (done ready : List String) (id v : String)
        → reached done ready v ≡ true
        → reached done (ready ++ id ∷ []) v ≡ true
    reached_after done ready id v h = reached_more done ready id v ∙ ground (arith, h)

    reached_itself :
        (done ready : List String) (id : String) → reached done (ready ++ id ∷ []) id ≡ true
    reached_itself done ready id =
        reached_more done ready id id ∙ ||_right (reached done ready id) (id == id) (eq_refl id)

    not_reached :
        (done ready : List String) (cs : List LoadedEvent) (c : LoadedEvent) (d : Indegrees)
        → Memᴰ c es
        → Invariant done ready (c ∷ cs) d
        → reached done ready c.event_id ≡ false
    not_reached done ready cs c d m i = elim (Bool-cases (reached done ready c.event_id)) [
      | inr h ↦ h
      | inl h ↦ absurd (omega (arith, i.settled c m h, left_same done cs c))
    ]

    parents_done :
        (done ready : List String) (cs cs' : List LoadedEvent) (c : LoadedEvent) (d : Indegrees)
        → left done cs c ≡ 0
        → Invariant done ready cs' d
        → Grounded es c
    parents_done done ready cs cs' c d z i = grounded c (λ f mf parent. i.is_grounded f mf (
        ||_right (includes ready f.event_id) (includes done f.event_id) (
          waiting-zero x done c.parent_ids f.event_id (omega (arith, z)) parent
            (all_known.known f mf))))

    -- A child that waits no longer comes into `ready`.
    pub ready_now :
        (done ready : List String) (cs : List LoadedEvent) (c : LoadedEvent) (d : Indegrees)
        → Memᴰ c es
        → left done cs c ≡ 0
        → Invariant done ready (c ∷ cs) d
        → Invariant done
            (ready ++ c.event_id ∷ [])
            cs
            (set_text c.event_id (dec (indegree c.event_id d)) d)
    ready_now done ready cs c d m z i =
        let out = not_reached done ready cs c d m i in
        record {
          degree = degree_after done ready cs c d m i;
          settled = λ e me.
              by_identity
                (λ f.
                  reached done (ready ++ c.event_id ∷ []) f.event_id ≡ true → left done cs f ≡ 0)
                c e m me (λ _. z)
                (λ o h.
                  settled_before done cs c e
                    (i.settled e me (reached_before done ready c.event_id e.event_id o h)));
          complete = λ e me.
              by_identity
                (λ f.
                  left done cs f ≡ 0 → reached done (ready ++ c.event_id ∷ []) f.event_id ≡ true)
                c e m me (λ _. reached_itself done ready c.event_id)
                (λ o h.
                  reached_after done ready c.event_id e.event_id
                    (i.complete e me (left_other done cs c e o ∙ h)));
          is_grounded = λ e me.
              by_identity
                (λ f. reached done (ready ++ c.event_id ∷ []) f.event_id ≡ true → Grounded es f) c e
                m me (λ _. parents_done done ready cs (c ∷ cs) c d z i)
                (λ o h. i.is_grounded e me (reached_before done ready c.event_id e.event_id o h));
          known = λ id h. elim (Bool-cases (c.event_id == id)) [
            | inl e ↦
                subst (λ v. is_known x v ≡ true) ((eq_iff c.event_id id).0 e) (all_known.known c m)
            | inr e ↦ i.known id (reached_before done ready c.event_id id e h)
          ];
          distinct = NoDup-snoc ready c.event_id i.distinct (ground (arith, out));
          apart = λ id h. elim (Bool-cases (c.event_id == id)) [
            | inl e ↦
                subst (λ v. includes done v ≡ false) ((eq_iff c.event_id id).0 e)
                  (ground (arith, out))
            | inr e ↦
                i.apart id
                  (let g = sym (includes-snoc ready c.event_id id) ∙ h in ground (arith, g, e))
          ];
        }
