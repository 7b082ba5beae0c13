-- ===== src/Trace/Structure.antt =====
-- `buildStructuralDiagnostics` (packages/trace/src/index.ts).
use agent_loop_snapshot.Prelude.{
  ℕ, zero, suc, ◌+◌, String, Bool, true, false, not, Option, none, some, List, [], ◌∷◌, ◌++◌, ◌==◌,
  ◌===◌, if◌then◌else◌, is_some, keep, map, length, get_text, set_text,
}
use agent_loop_snapshot.Trace.Diagnostic.{
  TraceDiagnostic, error, warning, broken_parent_reference, event_cycle, missing_root_event,
  orphan_root_event, event_place, parent_place, root_place,
}
use agent_loop_snapshot.Trace.Index.{LoadedEvent, Indexes, get_list}

-- An indegree, which a trace with two events of one identity takes below 0.
pub data ℤ : Type 0 where
  pos : ℕ → ℤ
  negsuc : ℕ → ℤ

abbrev pub dec : ℤ → ℤ
dec (pos zero) = negsuc 0
dec (pos (suc n)) = pos n
dec (negsuc n) = negsuc (suc n)

abbrev pub is_zero : ℤ → Bool
is_zero (pos zero) = true
is_zero (pos (suc _)) = false
is_zero (negsuc _) = false

abbrev pub is_positive : ℤ → Bool
is_positive (pos zero) = false
is_positive (pos (suc _)) = true
is_positive (negsuc _) = false

abbrev pub Indegrees : Type 0
Indegrees = List (String × ℤ)

-- `indegree.get(id) ?? 0`
abbrev pub indegree : String → Indegrees → ℤ
indegree id d = elim (get_text id d) [ none ↦ pos 0 | some n ↦ n ]

abbrev number_from : ℕ → List LoadedEvent → List (String × ℕ) → List (String × ℕ)
number_from n [] m = m
number_from n (e ∷ es) m = number_from (suc n) es (set_text e.event_id n m)

-- `eventIndex`; the last event of an identity counts.
unfoldable pub event_index : List LoadedEvent → List (String × ℕ)
event_index es = number_from 0 es []

abbrev index_or_zero : String → List (String × ℕ) → ℕ
index_or_zero id m = elim (get_text id m) [ none ↦ 0 | some n ↦ n ]

module _ (x : Indexes) where
  abbrev pub is_known : String → Bool
  is_known id = is_some (get_text id x.event_by_id)

  -- How many of the parents are there.
  abbrev pub count_known : List String → ℕ
  count_known [] = 0
  count_known (p ∷ ps) = let rest = count_known ps in if is_known p then suc rest else rest

  -- The diagnostics of the missing parents; `i` is the first one's index.
  abbrev pub broken_parents :
      List (String × ℕ) → LoadedEvent → ℕ → List String → List TraceDiagnostic
  broken_parents at e i [] = []
  broken_parents at e i (p ∷ ps) =
      let rest = broken_parents at e (suc i) ps in
      if is_known p
      then rest
      else record {
        severity = error;
        code = broken_parent_reference;
        place = parent_place (index_or_zero e.event_id at) i;
        subject = p;
        line = get_text e.event_id x.event_line_by_id;
      }
        ∷ rest

  -- The first loop: its diagnostics, and the indegrees.
  unfoldable pub broken_references : List (String × ℕ) → List LoadedEvent → List TraceDiagnostic
  broken_references at [] = []
  broken_references at (e ∷ es) = broken_parents at e 0 e.parent_ids ++ broken_references at es

  unfoldable pub count_parents : List LoadedEvent → Indegrees → Indegrees
  count_parents [] d = d
  count_parents (e ∷ es) d =
      count_parents es (set_text e.event_id (pos (count_known e.parent_ids)) d)

  -- The inner loop over the children.
  unfoldable pub relax : List LoadedEvent → Indegrees → List String → Indegrees × List String
  relax [] d ready = (d, ready)
  relax (c ∷ cs) d ready =
      let next = dec (indegree c.event_id d) in
      relax cs (set_text c.event_id next d)
        (if is_zero next then ready ++ c.event_id ∷ [] else ready)

  -- The loop over `ready`, with `processed`; `none` says that the fuel ran out.
  unfoldable pub drain : ℕ → Indegrees → List String → ℕ → Option (Indegrees × ℕ)
  unfolding relax
  drain fuel d [] n = some (d, n)
  drain zero d (id ∷ ready) n = none
  drain (suc fuel) d (id ∷ ready) n =
      let next = relax (get_list id x.children_by_id) d ready in drain fuel next.0 next.1 (suc n)

  abbrev pub positives : Indegrees → ℕ
  positives [] = 0
  positives ((_, n) ∷ d) = if is_positive n then suc (positives d) else positives d

  abbrev pub first_ready : List LoadedEvent → Indegrees → List String
  first_ready es d =
      map (λ (e : LoadedEvent). e.event_id) (keep (λ e. is_zero (indegree e.event_id d)) es)

  -- Each turn takes one identity out of `ready`, and one comes in as an indegree stops being
  -- positive.
  abbrev pub enough : Indegrees → List String → ℕ
  enough d ready = length ready + positives d

  unfoldable pub sort_out : List LoadedEvent → Option (Indegrees × ℕ)
  unfolding count_parents drain
  sort_out es =
      let d = count_parents es [] in drain (enough d (first_ready es d)) d (first_ready es d) 0

  abbrev cycle_diagnostic : List (String × ℕ) → LoadedEvent → TraceDiagnostic
  cycle_diagnostic at e = record {
    severity = error;
    code = event_cycle;
    place = event_place (index_or_zero e.event_id at);
    subject = e.event_id;
    line = get_text e.event_id x.event_line_by_id;
  }

  -- The events that the cycle diagnostics name.
  unfoldable pub in_cycle : List LoadedEvent → List LoadedEvent
  unfolding sort_out
  in_cycle es = elim (sort_out es) [
    | none ↦ []
    | some (d, n) ↦
        if n === length es then [] else keep (λ e. is_positive (indegree e.event_id d)) es
  ]

  abbrev orphan : List (String × ℕ) → LoadedEvent → TraceDiagnostic
  orphan at e = record {
    severity = warning;
    code = orphan_root_event;
    place = event_place (index_or_zero e.event_id at);
    subject = e.event_id;
    line = get_text e.event_id x.event_line_by_id;
  }

  abbrev missing_root : String → TraceDiagnostic
  missing_root id = record {
    severity = error;
    code = missing_root_event;
    place = root_place;
    subject = id;
    line = none;
  }

  abbrev pub has_no_parents : LoadedEvent → Bool
  has_no_parents e = elim e.parent_ids [ [] ↦ true | _ ∷ _ ↦ false ]

  -- What the manifest's root event, where it declares one, adds.
  unfoldable pub root_diagnostics :
      Option String → List (String × ℕ) → List LoadedEvent → List TraceDiagnostic
  root_diagnostics none at es = []
  root_diagnostics (some root) at es =
      (if is_known root then [] else missing_root root ∷ [])
      ++ map (orphan at) (keep (λ e. not (e.event_id == root)) (keep has_no_parents es))

  -- `buildStructuralDiagnostics`, of the manifest's `root_event_id`
  unfoldable pub build_structural_diagnostics :
      Option String → List LoadedEvent → List TraceDiagnostic
  unfolding event_index broken_references in_cycle root_diagnostics
  build_structural_diagnostics root es =
      let at = event_index es in
      broken_references at es
      ++ (map (cycle_diagnostic at) (in_cycle es) ++ root_diagnostics root at es)
