-- ===== src/Trace/Sorted.antt =====
-- The end of the search for cycles (packages/trace/src/index.ts).
use agent_loop_snapshot.Prelude.{
  ℕ, zero, suc, String, ◌≡◌, ◌↔◌, refl, sym, ap, true, none, some, List, [], ◌∷◌, ◌++◌,
  if◌then◌else◌, arith, includes, All, set_text, if_elim,
}
use mathlib.Core.Path.{subst}
use mathlib.Core.List.{Memᴰ}
use agent_loop_snapshot.Trace.Index.{LoadedEvent, Indexes, get_list}
use agent_loop_snapshot.Trace.Structure.{
  pos, dec, is_zero, is_positive, Indegrees, indegree, relax, drain,
}
use agent_loop_snapshot.Trace.Waiting.{Distinct, zero-waiting}
use agent_loop_snapshot.Trace.Sorting.{
  Grounded, grounded, Describes, Invariant, left, zero_of, not_zero_of, shift, counted, ready_now,
  not_yet,
}

module _ (x : Indexes) (es : List LoadedEvent) where
  module _ (all_known : Describes x es) (no_twice : Distinct es) where
    relax-Invariant :
        (done ready : List String) (cs : List LoadedEvent) (d : Indegrees)
        → All (λ c. Memᴰ c es) cs
        → Invariant x es done ready cs d
        → Invariant x es done (relax x cs d ready).1 [] (relax x cs d ready).0
    unfolding relax
    relax-Invariant done ready [] d ms i = i
    relax-Invariant done ready (c ∷ cs) d ms i =
        let next = dec (indegree c.event_id d) in
        let made = counted x es all_known no_twice done ready cs c d ms.0 i in
        relax-Invariant done (if is_zero next then ready ++ c.event_id ∷ [] else ready) cs
          (set_text c.event_id next d) ms.1
          (if_elim (λ r. Invariant x es done r cs (set_text c.event_id next d)) (is_zero next)
            (λ h.
              ready_now x es all_known no_twice done ready cs c d ms.0
                (zero_of next (left x es done cs c) made h) i)
            (λ h.
              not_yet x es all_known no_twice done ready cs c d ms.0
                (not_zero_of next (left x es done cs c) made h) i))

    pub drain-Invariant :
        (fuel : ℕ) (done ready : List String) (d : Indegrees) (n : ℕ) (r : Indegrees × ℕ)
        → Invariant x es done ready [] d
        → drain x fuel d ready n ≡ some r
        → (all : List String) × Invariant x es all [] [] r.0
    unfolding drain
    drain-Invariant fuel done [] d n r i h =
        let same : (d, n) ≡ r = ap (λ o. elim o [ none ↦ (d, n) | some s ↦ s ]) h in
        (done, subst (λ s. Invariant x es done [] [] s.0) same i)
    drain-Invariant zero done (id ∷ ready) d n r i h = cc
    drain-Invariant (suc fuel) done (id ∷ ready) d n r i h =
        let cs = get_list id x.children_by_id in
        drain-Invariant fuel (id ∷ done) (relax x cs d ready).1 (relax x cs d ready).0 (suc n) r
          (relax-Invariant (id ∷ done) ready cs d (all_known.children id)
            (shift x es all_known no_twice done ready id d i))
          h

    done_of :
        (all : List String) (d : Indegrees) (e : LoadedEvent)
        → Invariant x es all [] [] d
        → Memᴰ e es
        → Grounded es e
        → includes all e.event_id ≡ true
    done_of all d e i m (grounded _ parents) = i.complete e m (
        omega (
          arith,
          zero-waiting x all e.parent_ids (λ p inc k.
              let (f, mf, same) = all_known.source p k in
              subst (λ v. includes all v ≡ true) same
                (done_of all d f i mf
                  (parents f mf (subst (λ v. includes e.parent_ids v ≡ true) (sym same) inc)))),
        ))

    positive_left :
        (all : List String) (d : Indegrees) (e : LoadedEvent) (n : ℕ)
        → Invariant x es all [] [] d
        → Memᴰ e es
        → left x es all [] e ≡ n
        → is_positive (indegree e.event_id d) ≡ is_positive (pos n)
    positive_left all d e n i m h = rw (indegree, i.degree e m) (ap (λ k. is_positive (pos k)) h)

    -- At the end, the events whose indegree is positive are the ones that are not grounded.
    pub end-positive :
        (all : List String) (d : Indegrees) (e : LoadedEvent)
        → Invariant x es all [] [] d
        → Memᴰ e es
        → (is_positive (indegree e.event_id d) ≡ true) ↔ (¬ Grounded es e)
    end-positive all d e i m = (to, from (left x es all [] e) refl)
      where
        to : is_positive (indegree e.event_id d) ≡ true → ¬ Grounded es e
        to h g =
            let no = positive_left all d e 0 i m (i.settled e m (done_of all d e i m g)) in
            cc (h, no)

        from :
            (n : ℕ)
            → left x es all [] e ≡ n
            → ¬ Grounded es e
            → is_positive (indegree e.event_id d) ≡ true
        from zero z g = absurd (g (i.is_grounded e m (i.complete e m z)))
        from (suc n) z g = positive_left all d e (suc n) i m z
