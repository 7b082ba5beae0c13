-- ===== src/Trace/Termination.antt =====
-- The search for cycles ends (packages/trace/src/index.ts).
use agent_loop_snapshot.Prelude.{
  ℕ, zero, suc, ◌+◌, ◌≤◌, String, ◌≡◌, refl, ◌∙◌, ap, inl, inr, Bool, true, false, some, List, [],
  ◌∷◌, ◌++◌, ◌==◌, if◌then◌else◌, arith, length-append, set_text, Bool-cases,
}
use agent_loop_snapshot.Trace.Index.{LoadedEvent, Indexes, get_list}
use agent_loop_snapshot.Trace.Structure.{
  ℤ, pos, negsuc, dec, is_zero, is_positive, Indegrees, indegree, relax, drain, positives, enough,
}

module _ (x : Indexes) where
  positives-cons :
      (l : String) (w : ℤ) (d : Indegrees)
      → positives x ((l, w) ∷ d) ≡ (if is_positive w then 1 else 0) + positives x d
  positives-cons l w d = ground arith

  dec_balance :
      (w : ℤ)
      → (if is_positive (dec w) then 1 else 0) + (if is_zero (dec w) then 1 else 0)
        ≡ (if is_positive w then 1 else 0)
  dec_balance (pos zero) = refl
  dec_balance (pos (suc zero)) = refl
  dec_balance (pos (suc (suc n))) = refl
  dec_balance (negsuc n) = refl

  abbrev one_if : Bool → ℕ
  one_if b = if b then 1 else 0

  positives-set_text :
      (id : String) (v : ℤ) (d : Indegrees)
      → positives x (set_text id v d) + one_if (is_positive (indegree id d))
        ≡ positives x d + one_if (is_positive v)
  positives-set_text id v [] = ground arith
  positives-set_text id v ((l, w) ∷ d) = elim (Bool-cases (l == id)) [
    | inl e ↦ rw (indegree, e) (omega (arith, positives-cons l v d, positives-cons l w d))
    | inr e ↦
        rw (indegree, e)
          (omega (
            arith,
            positives-cons l w d,
            positives-cons l w (set_text id v d),
            positives-set_text id v d,
          ))
  ]

  -- One indegree stops being positive exactly as it becomes zero.
  positives-dec :
      (id : String) (d : Indegrees)
      → positives x (set_text id (dec (indegree id d)) d) + one_if (is_zero (dec (indegree id d)))
        ≡ positives x d
  positives-dec id d =
      omega (arith, positives-set_text id (dec (indegree id d)) d, dec_balance (indegree id d))

  relax-enough :
      (cs : List LoadedEvent) (d : Indegrees) (ready : List String)
      → enough x (relax x cs d ready).0 (relax x cs d ready).1 ≡ enough x d ready
  unfolding relax
  relax-enough [] d ready = refl
  relax-enough (c ∷ cs) d ready =
      let next = dec (indegree c.event_id d) in
      relax-enough cs (set_text c.event_id next d)
        (if is_zero next then ready ++ c.event_id ∷ [] else ready)
      ∙ one_more c.event_id d ready (is_zero next) refl
    where
      less :
          (id : String) (d : Indegrees) (z : ℕ)
          → one_if (is_zero (dec (indegree id d))) ≡ z
          → positives x (set_text id (dec (indegree id d)) d) + z ≡ positives x d
      less id d z e = omega (arith, positives-dec id d, e)

      one_more :
          (id : String) (d : Indegrees) (ready : List String) (z : Bool)
          → is_zero (dec (indegree id d)) ≡ z
          → enough x (set_text id (dec (indegree id d)) d) (if z then ready ++ id ∷ [] else ready)
            ≡ enough x d ready
      one_more id d ready true e =
          omega (arith, length-append ready (id ∷ []), less id d 1 (ap one_if e))
      one_more id d ready false e = omega (arith, less id d 0 (ap one_if e))

  -- With as much fuel as there are identities to come, the search ends, and what it has looked at
  -- and what is left make up the whole.
  pub drain_total :
      (fuel : ℕ) (d : Indegrees) (ready : List String) (n : ℕ)
      → enough x d ready ≤ fuel
      → (e : Indegrees × ℕ) × (drain x fuel d ready n ≡ some e)
        × (e.1 + positives x e.0 ≡ n + enough x d ready)
  unfolding drain
  drain_total fuel d [] n h = ((d, n), refl, omega arith)
  drain_total zero d (id ∷ ready) n h = absurd (omega (arith, h))
  drain_total (suc fuel) d (id ∷ ready) n h =
      let next = relax x (get_list id x.children_by_id) d ready in
      let same = relax-enough (get_list id x.children_by_id) d ready in
      let (e, ends, whole) = drain_total fuel next.0 next.1 (suc n) (omega (arith, h, same)) in
      (e, ends, omega (arith, whole, same))
