-- ===== src/Trace/Cycles.antt =====
-- Which events the cycle diagnostics name (packages/trace/src/index.ts).
use agent_loop_snapshot.Prelude.{
  ℕ, suc, ◌+◌, String, ◌≡◌, refl, ◌↔◌, inl, inr, false, some, List, [], ◌∷◌, ◌==◌, ◌===◌, arith,
  length, Mem-keep, keep-Mem, Bool-cases, if_elim,
}
use mathlib.Core.List.{Memᴰ}
use agent_loop_snapshot.Trace.Index.{LoadedEvent, Indexes, build_indexes}
use agent_loop_snapshot.Trace.Structure.{
  is_positive, Indegrees, indegree, positives, enough, count_parents, first_ready, sort_out,
  in_cycle,
}
use agent_loop_snapshot.Trace.Termination.{drain_total}
use agent_loop_snapshot.Trace.Waiting.{Distinct}
use agent_loop_snapshot.Trace.Sorting.{Grounded, Invariant}
use agent_loop_snapshot.Trace.Sorted.{drain-Invariant, end-positive}
use agent_loop_snapshot.Trace.Facts.{build_indexes-Describes}
use agent_loop_snapshot.Trace.Start.{start-Invariant, start_enough}

module _ (x : Indexes) where
  no_positive :
      (d : Indegrees) (id : String) → positives x d ≡ 0 → is_positive (indegree id d) ≡ false
  no_positive [] id h = refl
  no_positive ((l, n) ∷ d) id h = elim (Bool-cases (l == id)) [
    | inl e ↦ elim (Bool-cases (is_positive n)) [
      | inl q ↦ let never : suc (positives x d) ≡ 0 = rw q at h in absurd (omega (arith, never))
      | inr q ↦ rw (indegree, e) q
    ]
    | inr e ↦
        rw (indegree, e)
          (no_positive d id (
            if_elim (λ k. k ≡ 0 → positives x d ≡ 0) (is_positive n)
              (λ _ z. absurd (omega (arith, z))) (λ _ z. z) h))
  ]

  -- The search ends on every trace, also where identities are used twice: the identities that it
  -- has looked at and those that keep a positive indegree are as many as those that were ready or
  -- had a positive indegree at first.
  pub sort_out_total :
      (es : List LoadedEvent)
      → (r : Indegrees × ℕ) × (sort_out x es ≡ some r)
        × (r.1 + positives x r.0
            ≡ enough x (count_parents x es []) (first_ready x es (count_parents x es [])))
  unfolding sort_out
  sort_out_total es =
      let d = count_parents x es [] in
      let (r, ends, whole) =
        drain_total x (enough x d (first_ready x es d)) d (first_ready x es d) 0 (omega arith) in
      (r, ends, omega (arith, whole))

searched :
    (es : List LoadedEvent) (r : Indegrees × ℕ)
    → Distinct es
    → sort_out (build_indexes es) es ≡ some r
    → (done : List String) × Invariant (build_indexes es) es done [] [] r.0
unfolding sort_out
searched es r dist h =
    let x = build_indexes es in
    let describes = build_indexes-Describes es dist in
    let d = count_parents x es [] in
    drain-Invariant x es describes dist (enough x d (first_ready x es d)) [] (first_ready x es d) d
      0 r (start-Invariant x es dist describes) h

-- In a trace of distinct identities, the cycle diagnostics name exactly the events that have a
-- chain of parents in the trace without an end: those on a cycle and those that descend from one.
pub in_cycle_iff :
    (es : List LoadedEvent) (e : LoadedEvent)
    → Distinct es
    → Memᴰ e es
    → Memᴰ e (in_cycle (build_indexes es) es) ↔ (¬ Grounded es e)
unfolding in_cycle
in_cycle_iff es e dist m =
    let x = build_indexes es in
    let describes = build_indexes-Describes es dist in
    let (r, ends, whole) = sort_out_total x es in
    let (done, i) = searched es r dist ends in
    let iff = end-positive x es describes dist done r.0 e i m in
    rw (in_cycle, ends)
      (if_elim (λ l. Memᴰ e l ↔ (¬ Grounded es e)) (r.1 === length es)
        (λ q.
          let all = start_enough x es dist describes in
          let zero_left : positives x r.0 ≡ 0 = ground (arith, q, whole, all) in
          (
            λ never. elim never [ ],
            λ g.
                let yes_no = iff.1 g in
                let other = no_positive x r.0 e.event_id zero_left in cc (yes_no, other),
          ))
        (λ _. (
          λ k. iff.0 (keep-Mem (λ f. is_positive (indegree f.event_id r.0)) e es k).1,
          λ g. Mem-keep (λ f. is_positive (indegree f.event_id r.0)) e es m (iff.1 g),
        )))
