-- ===== src/Trace/Facts.antt =====
-- What the indexes of a trace say of it (packages/trace/src/index.ts).
use agent_loop_snapshot.Prelude.{
  ℕ, zero, suc, ◌+◌, String, ◌≡◌, ◌≢◌, refl, sym, ap, ◌∙◌, inl, inr, Bool, true, false, ◌||◌,
  Option, none, some, List, [], ◌∷◌, ◌++◌, ◌==◌, arith, eq_iff, eq_refl, is_some, any, All, All-Mem,
  members, ||_right, Bool-cases, get_text, set_text, map_get-same, map_get-other, same_text-eq,
}
use mathlib.Core.Path.{subst}
use mathlib.Core.List.{Memᴰ}
use agent_loop_snapshot.Trace.Index.{
  LoadedEvent, Indexes, get_list, add_to, add_child, set_first, add_event, add_events, no_indexes,
  build_indexes,
}
use agent_loop_snapshot.Trace.Structure.{is_known}
use agent_loop_snapshot.Trace.Waiting.{one_if, times, occurs, Distinct}
use agent_loop_snapshot.Trace.Sorting.{Describes}

abbrev Children : Type 0
Children = List (String × List LoadedEvent)

-- Some event of the list has the identity.
abbrev has : List LoadedEvent → String → Bool
has es id = any (λ (e : LoadedEvent). e.event_id == id) es

is_some-set_text :
    {V : Type 0} (k l : String) (v : V) (m : List (String × V))
    → is_some (get_text k (set_text l v m)) ≡ (is_some (get_text k m) || l == k)
is_some-set_text k l v [] = ground arith
is_some-set_text k l v ((j, w) ∷ m) =
    ground (arith, eq_iff j l, eq_refl l, is_some-set_text k l v m)

covered :
    {V : Type 0} (k l : String) (m : List (String × V))
    → is_some (get_text l m) ≡ true
    → is_some (get_text k m) ≡ (is_some (get_text k m) || l == k)
covered k l m h = elim (Bool-cases (l == k)) [
  | inl q ↦ rw (subst (λ v. is_some (get_text v m) ≡ true) ((eq_iff l k).0 q) h) refl
  | inr q ↦ rw q (ground arith)
]

is_some-set_first :
    {V : Type 0} (k l : String) (v : V) (m : List (String × V))
    → is_some (get_text k (set_first l v m)) ≡ (is_some (get_text k m) || l == k)
is_some-set_first k l v m = elim (Bool-cases (is_some (get_text l m))) [
  | inl e ↦ rw e (covered k l m e)
  | inr e ↦ rw e (is_some-set_text k l v m)
]

abbrev by_ids : List LoadedEvent → List (String × LoadedEvent) → List (String × LoadedEvent)
by_ids [] m = m
by_ids (e ∷ es) m = by_ids es (set_first e.event_id e m)

event_by_id-add_events :
    (n : ℕ) (es : List LoadedEvent) (i : Indexes)
    → (add_events n es i).event_by_id ≡ by_ids es i.event_by_id
unfolding add_events
event_by_id-add_events n [] i = refl
event_by_id-add_events n (e ∷ es) i = event_by_id-add_events (n + 1) es (add_event n e i)

is_some-by_ids :
    (k : String) (es : List LoadedEvent) (m : List (String × LoadedEvent))
    → is_some (get_text k (by_ids es m)) ≡ (is_some (get_text k m) || has es k)
is_some-by_ids k [] m = ground arith
is_some-by_ids k (e ∷ es) m =
    is_some-by_ids k es (set_first e.event_id e m)
    ∙ ground (arith, is_some-set_first k e.event_id e m)

is_known-build_indexes :
    (es : List LoadedEvent) (k : String) → is_known (build_indexes es) k ≡ has es k
unfolding build_indexes
is_known-build_indexes es k =
    ap (λ m. is_some (get_text k m)) (event_by_id-add_events 0 es no_indexes)
    ∙ is_some-by_ids k es []

has-Mem : (es : List LoadedEvent) (f : LoadedEvent) → Memᴰ f es → has es f.event_id ≡ true
has-Mem [] f m = elim m [ ]
has-Mem (e ∷ es) f (Memᴰ.head p) = rw (sym p, eq_refl f.event_id) refl
has-Mem (e ∷ es) f (Memᴰ.tail m) =
    ||_right (e.event_id == f.event_id) (has es f.event_id) (has-Mem es f m)

Mem-has :
    (es : List LoadedEvent) (k : String)
    → has es k ≡ true
    → (f : LoadedEvent) × Memᴰ f es × (f.event_id ≡ k)
Mem-has [] k h = cc
Mem-has (e ∷ es) k h = elim (Bool-cases (e.event_id == k)) [
  | inl q ↦ (e, Memᴰ.head refl, (eq_iff e.event_id k).0 q)
  | inr q ↦ let (f, m, same) = Mem-has es k (rw q at h) in (f, Memᴰ.tail m, same)
]

abbrev pub copies : ℕ → LoadedEvent → List LoadedEvent
copies zero e = []
copies (suc n) e = e ∷ copies n e

abbrev children_of : String → List LoadedEvent → List LoadedEvent
children_of id [] = []
children_of id (e ∷ es) = copies (times id e.parent_ids) e ++ children_of id es

pub append_nil : {A : Type 0} (xs : List A) → xs ≡ xs ++ []
append_nil [] = refl
append_nil (x ∷ xs) = ap (λ ys. x ∷ ys) (append_nil xs)

pub append_assoc : {A : Type 0} (xs ys zs : List A) → (xs ++ ys) ++ zs ≡ xs ++ (ys ++ zs)
append_assoc [] ys zs = refl
append_assoc (x ∷ xs) ys zs = ap (λ vs. x ∷ vs) (append_assoc xs ys zs)

abbrev listed : Option (List LoadedEvent) → List LoadedEvent
listed o = elim o [ none ↦ [] | some es ↦ es ]

added_here :
    (p : String) (e : LoadedEvent) (m : Children)
    → get_list p (add_to p e m) ≡ get_list p m ++ e ∷ []
added_here p e m = ap listed (map_get-same (λ a b. a == b) p (get_list p m ++ e ∷ []) m (eq_refl p))

pub get_list-add_to :
    (id p : String) (e : LoadedEvent) (m : Children)
    → get_list id (add_to p e m) ≡ get_list id m ++ copies (one_if (id == p)) e
get_list-add_to id p e m = elim (Bool-cases (id == p)) [
  | inl h ↦ rw h (
      subst (λ v. get_list id (add_to v e m) ≡ get_list id m ++ e ∷ []) ((eq_iff id p).0 h)
        (added_here id e m))
  | inr h ↦ rw h (
      ap listed (
        map_get-other (λ a b. a == b) same_text-eq p id (get_list p m ++ e ∷ []) m
          (λ q. let no = (eq_iff id p).1 (sym q) in cc (h, no)))
      ∙ append_nil (get_list id m))
]

copies_more :
    (b : Bool) (n : ℕ) (e : LoadedEvent)
    → copies (one_if b) e ++ copies n e ≡ copies (one_if b + n) e
copies_more true n e = ground arith
copies_more false n e = ap (λ k. copies k e) (omega arith)

get_list-add_child :
    (id : String) (e : LoadedEvent) (ps : List String) (m : Children)
    → get_list id (add_child e ps m) ≡ get_list id m ++ copies (times id ps) e
get_list-add_child id e [] m = append_nil (get_list id m)
get_list-add_child id e (p ∷ ps) m =
    get_list-add_child id e ps (add_to p e m)
    ∙ (ap (λ es. es ++ copies (times id ps) e) (get_list-add_to id p e m)
        ∙ (append_assoc (get_list id m) (copies (one_if (id == p)) e) (copies (times id ps) e)
            ∙ ap (λ es. get_list id m ++ es) (copies_more (id == p) (times id ps) e)))

get_list-add_events :
    (id : String) (n : ℕ) (es : List LoadedEvent) (i : Indexes)
    → get_list id (add_events n es i).children_by_id
      ≡ get_list id i.children_by_id ++ children_of id es
unfolding add_events
get_list-add_events id n [] i = append_nil (get_list id i.children_by_id)
get_list-add_events id n (e ∷ es) i =
    get_list-add_events id (n + 1) es (add_event n e i)
    ∙ (ap (λ cs. cs ++ children_of id es) (get_list-add_child id e e.parent_ids i.children_by_id)
        ∙ append_assoc (get_list id i.children_by_id) (copies (times id e.parent_ids) e)
            (children_of id es))

-- The children of an identity are the events that name it as a parent, in the order of the trace.
pub children-build_indexes :
    (es : List LoadedEvent) (id : String)
    → get_list id (build_indexes es).children_by_id ≡ children_of id es
unfolding build_indexes
children-build_indexes es id = get_list-add_events id 0 es no_indexes

occurs-append :
    (id : String) (cs ds : List LoadedEvent) → occurs id (cs ++ ds) ≡ occurs id cs + occurs id ds
occurs-append id [] ds = omega arith
occurs-append id (c ∷ cs) ds = omega (arith, occurs-append id cs ds)

occurs-copies :
    (id : String) (n : ℕ) (e : LoadedEvent) → (e.event_id == id) ≡ true → occurs id (copies n e) ≡ n
occurs-copies id zero e h = refl
occurs-copies id (suc n) e h = rw h (omega (arith, occurs-copies id n e h))

occurs-copies-other :
    (id : String) (n : ℕ) (e : LoadedEvent)
    → (e.event_id == id) ≡ false
    → occurs id (copies n e) ≡ 0
occurs-copies-other id zero e h = refl
occurs-copies-other id (suc n) e h = rw h (omega (arith, occurs-copies-other id n e h))

pub different : (a b : String) → a ≢ b → (a == b) ≡ false
different a b n = elim (Bool-cases (a == b)) [ inl h ↦ absurd (n ((eq_iff a b).0 h)) | inr h ↦ h ]

-- No event of the list has the identity.
abbrev Without : String → List LoadedEvent → Type 0
Without k = All (λ f. f.event_id ≢ k)

occurs-Without :
    (k id : String) (es : List LoadedEvent) → Without k es → occurs k (children_of id es) ≡ 0
occurs-Without k id [] w = refl
occurs-Without k id (f ∷ es) w =
    occurs-append k (copies (times id f.parent_ids) f) (children_of id es)
    ∙ omega (
      arith,
      occurs-copies-other k (times id f.parent_ids) f (different f.event_id k w.0),
      occurs-Without k id es w.1,
    )

occurs-children_of :
    (id : String) (es : List LoadedEvent) (e : LoadedEvent)
    → Distinct es
    → Memᴰ e es
    → occurs e.event_id (children_of id es) ≡ times id e.parent_ids
occurs-children_of id [] e d m = elim m [ ]
occurs-children_of id (f ∷ es) e d (Memᴰ.head p) =
    subst (λ (g : LoadedEvent). occurs g.event_id (children_of id (f ∷ es)) ≡ times id g.parent_ids)
      (sym p)
      (occurs-append f.event_id (copies (times id f.parent_ids) f) (children_of id es)
        ∙ omega (
          arith,
          occurs-copies f.event_id (times id f.parent_ids) f (eq_refl f.event_id),
          occurs-Without f.event_id id es d.0,
        ))
occurs-children_of id (f ∷ es) e d (Memᴰ.tail m) =
    occurs-append e.event_id (copies (times id f.parent_ids) f) (children_of id es)
    ∙ omega (
      arith,
      occurs-copies-other e.event_id (times id f.parent_ids) f
          (different f.event_id e.event_id (λ q. All-Mem _ es d.0 m (sym q))),
      occurs-children_of id es e d.1 m,
    )

All-append : {A : Type 0} (P : A → Type 0) (xs ys : List A) → All P xs → All P ys → All P (xs ++ ys)
All-append P [] ys a b = b
All-append P (x ∷ xs) ys a b = (a.0, All-append P xs ys a.1 b)

All-copies : (P : LoadedEvent → Type 0) (n : ℕ) (e : LoadedEvent) → P e → All P (copies n e)
All-copies P zero e p = tt
All-copies P (suc n) e p = (p, All-copies P n e p)

All-children_of :
    (P : LoadedEvent → Type 0) (id : String) (es : List LoadedEvent)
    → All P es
    → All P (children_of id es)
All-children_of P id [] a = tt
All-children_of P id (e ∷ es) a =
    All-append P (copies (times id e.parent_ids) e) (children_of id es)
      (All-copies P (times id e.parent_ids) e a.0) (All-children_of P id es a.1)

pub build_indexes-Describes :
    (es : List LoadedEvent) → Distinct es → Describes (build_indexes es) es
build_indexes-Describes es d = record {
  known = λ f m. is_known-build_indexes es f.event_id ∙ has-Mem es f m;
  source = λ p k. Mem-has es p (sym (is_known-build_indexes es p) ∙ k);
  occurs_as = λ e id m.
      ap (occurs e.event_id) (children-build_indexes es id) ∙ occurs-children_of id es e d m;
  children = λ id.
      subst (All (λ c. Memᴰ c es)) (sym (children-build_indexes es id))
        (All-children_of (λ c. Memᴰ c es) id es (members es));
}
