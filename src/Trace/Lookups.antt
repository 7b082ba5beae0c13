-- ===== src/Trace/Lookups.antt =====
-- A query over the indexes finds what a search through the trace finds
-- (packages/trace/src/index.ts).
use agent_loop_snapshot.Prelude.{
  ℕ, ◌+◌, String, ◌≡◌, refl, sym, ap, ◌∙◌, Bool, true, false, ◌&&◌, inl, inr, Bool-cases, Option,
  none, some, List, [], ◌∷◌, ◌++◌, ◌==◌, eq_iff, keep, keep_ext, All,
}
use agent_loop_snapshot.Trace.Index.{
  LoadedEvent, Indexes, get_list, add_event, add_events, no_indexes, build_indexes,
}
use agent_loop_snapshot.Trace.Query.{EventQuery, holds_for, in_range, candidates, find_events}
use agent_loop_snapshot.Trace.Facts.{append_nil, append_assoc, copies, get_list-add_to}
use agent_loop_snapshot.Trace.Waiting.{one_if}

-- What `findEvents` promises of an event.
abbrev pub matches_query : EventQuery → LoadedEvent → Bool
matches_query q e =
    holds_for (λ a. e.actor == a) q.actor
    && (holds_for (λ t. e.event_type == t) q.event_type && in_range q e)

same_sym : (a b : String) → (a == b) ≡ (b == a)
same_sym a b = elim (Bool-cases (a == b)) [
  | inl h ↦ let g = (eq_iff b a).1 (sym ((eq_iff a b).0 h)) in h ∙ sym g
  | inr h ↦ elim (Bool-cases (b == a)) [
    | inl g ↦ let bad = (eq_iff a b).1 (sym ((eq_iff b a).0 g)) in cc (bad, h)
    | inr g ↦ h ∙ sym g
  ]
]

copies-keep :
    (p : LoadedEvent → Bool) (b : Bool) (e : LoadedEvent) (es : List LoadedEvent)
    → b ≡ p e
    → copies (one_if b) e ++ keep p es ≡ keep p (e ∷ es)
copies-keep p true e es h = rw (sym h) refl
copies-keep p false e es h = rw (sym h) refl

actors-add_events :
    (a : String) (n : ℕ) (es : List LoadedEvent) (i : Indexes)
    → get_list a (add_events n es i).events_by_actor
      ≡ get_list a i.events_by_actor ++ keep (λ e. e.actor == a) es
unfolding add_events
actors-add_events a n [] i = append_nil (get_list a i.events_by_actor)
actors-add_events a n (e ∷ es) i =
    actors-add_events a (n + 1) es (add_event n e i)
    ∙ (ap (λ cs. cs ++ keep (λ f. f.actor == a) es) (get_list-add_to a e.actor e i.events_by_actor)
        ∙ (append_assoc (get_list a i.events_by_actor) (copies (one_if (a == e.actor)) e)
              (keep (λ f. f.actor == a) es)
            ∙ ap (λ cs. get_list a i.events_by_actor ++ cs)
                (copies-keep (λ f. f.actor == a) (a == e.actor) e es (same_sym a e.actor))))

types-add_events :
    (t : String) (n : ℕ) (es : List LoadedEvent) (i : Indexes)
    → get_list t (add_events n es i).events_by_type
      ≡ get_list t i.events_by_type ++ keep (λ e. e.event_type == t) es
unfolding add_events
types-add_events t n [] i = append_nil (get_list t i.events_by_type)
types-add_events t n (e ∷ es) i =
    types-add_events t (n + 1) es (add_event n e i)
    ∙ (ap (λ cs. cs ++ keep (λ f. f.event_type == t) es)
          (get_list-add_to t e.event_type e i.events_by_type)
        ∙ (append_assoc (get_list t i.events_by_type) (copies (one_if (t == e.event_type)) e)
              (keep (λ f. f.event_type == t) es)
            ∙ ap (λ cs. get_list t i.events_by_type ++ cs)
                (copies-keep (λ f. f.event_type == t) (t == e.event_type) e es
                  (same_sym t e.event_type))))

keep-keep :
    {A : Type 0} (p q : A → Bool) (xs : List A) → keep p (keep q xs) ≡ keep (λ x. q x && p x) xs
keep-keep p q [] = refl
keep-keep p q (x ∷ xs) = elim (Bool-cases (q x)) [
  | inl h ↦ rw (h, keep-keep p q xs) refl
  | inr h ↦ rw (h, keep-keep p q xs) refl
]

keep_all : {A : Type 0} (xs : List A) → keep (λ _. true) xs ≡ xs
keep_all [] = refl
keep_all (x ∷ xs) = ap (λ ys. x ∷ ys) (keep_all xs)

and_true : (b : Bool) → b ≡ (b && true)
and_true true = refl
and_true false = refl

everywhere :
    {A : Type 0} (p q : A → Bool) → ((a : A) → p a ≡ q a) → (xs : List A) → All (λ a. p a ≡ q a) xs
everywhere p q h [] = tt
everywhere p q h (x ∷ xs) = (h x, everywhere p q h xs)

and_assoc : (a b c : Bool) → ((a && b) && c) ≡ (a && (b && c))
and_assoc true b c = refl
and_assoc false b c = refl

candidates-keep :
    (es : List LoadedEvent) (root a t : Option String)
    → candidates es (build_indexes es) root a t
      ≡ keep (λ e. holds_for (λ x. e.actor == x) a && holds_for (λ x. e.event_type == x) t) es
unfolding build_indexes
candidates-keep es root none none = sym (keep_all es)
candidates-keep es root none (some t) = types-add_events t 0 es no_indexes
candidates-keep es root (some a) none =
    actors-add_events a 0 es no_indexes
    ∙ keep_ext _ _ es (everywhere _ _ (λ e. and_true (e.actor == a)) es)
candidates-keep es root (some a) (some t) =
    ap (keep (λ e. e.event_type == t)) (actors-add_events a 0 es no_indexes)
    ∙ keep-keep (λ e. e.event_type == t) (λ e. e.actor == a) es

-- A query finds, in the order of the trace, every event of the trace that has the actor and the
-- type asked for, where they are, and whose sequence number and time are within the bounds.
pub find_events_lem :
    (es : List LoadedEvent) (root : Option String) (q : EventQuery)
    → find_events es (build_indexes es) root q ≡ keep (matches_query q) es
unfolding find_events
find_events_lem es root q =
    ap (keep (in_range q)) (candidates-keep es root q.actor q.event_type)
    ∙ (keep-keep (in_range q) _ es
        ∙ keep_ext _ _ es (
            everywhere _ _
              (λ e.
                and_assoc (holds_for (λ a. e.actor == a) q.actor)
                  (holds_for (λ t. e.event_type == t) q.event_type) (in_range q e))
              es))
