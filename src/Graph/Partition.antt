-- ===== src/Graph/Partition.antt =====
-- Grouping loses no event and folds only events of one kind (packages/graph/src/index.ts).
use agent_loop_snapshot.Prelude.{
  ℕ, String, ◌≡◌, refl, sym, ap, ◌∙◌, ◌≢◌, Bool, true, false, ◌||◌, Option, none, some, List, [],
  ◌∷◌, ◌++◌, ◌==◌, if◌then◌else◌, if_elim, is_some, All, All-snoc, All-map, last?, arith, eq_iff,
  codes,
}
use mathlib.Core.Path.{subst}
use agent_loop_snapshot.Schema.Envelope.{Event}
use agent_loop_snapshot.Graph.Grouping.{
  NodeStatus, verified, ends_with, status_for_type, FoldKind, EventGroup, fold_kind_of, same_fold,
  new_group, add_to_groups, group_from, group_events, create_node,
}

abbrev pub flatten : List EventGroup → List Event
flatten [] = []
flatten (g ∷ gs) = g.events ++ flatten gs

append_assoc : {A : Type 0} (xs ys zs : List A) → (xs ++ ys) ++ zs ≡ xs ++ (ys ++ zs)
append_assoc [] ys zs = refl
append_assoc (x ∷ xs) ys zs = ap (λ l. x ∷ l) (append_assoc xs ys zs)

append-nil : {A : Type 0} (xs : List A) → xs ++ [] ≡ xs
append-nil [] = refl
append-nil (x ∷ xs) = ap (λ l. x ∷ l) (append-nil xs)

flatten-add_to_groups :
    (gs : List EventGroup) (e : Event) (k : Option FoldKind)
    → flatten (add_to_groups gs e k) ≡ flatten gs ++ e ∷ []
flatten-add_to_groups [] e k = refl
flatten-add_to_groups (g ∷ []) e k =
    if_elim (λ hs. flatten hs ≡ (g.events ++ []) ++ e ∷ []) (same_fold k g.fold_kind)
      (λ _. append-nil (g.events ++ e ∷ []) ∙ ap (λ l. l ++ e ∷ []) (sym (append-nil g.events)))
      (λ _. sym (append_assoc g.events [] (e ∷ [])))
flatten-add_to_groups (g ∷ h ∷ gs) e k =
    ap (λ l. g.events ++ l) (flatten-add_to_groups (h ∷ gs) e k)
    ∙ sym (append_assoc g.events (flatten (h ∷ gs)) (e ∷ []))

flatten-group_from :
    (b : Bool) (gs : List EventGroup) (es : List Event)
    → flatten (group_from b gs es) ≡ flatten gs ++ es
flatten-group_from b gs [] = sym (append-nil (flatten gs))
flatten-group_from b gs (e ∷ es) =
    let k = if b then fold_kind_of e.event_type else none in
    flatten-group_from b (add_to_groups gs e k) es
    ∙ ap (λ l. l ++ es) (flatten-add_to_groups gs e k)
    ∙ append_assoc (flatten gs) (e ∷ []) es

-- A group is one event that is not folded, or consists of events of its fold kind.
pub data IsFolded : EventGroup → Type 0 where
  alone : (e : Event) → IsFolded (new_group e none)
  run_of :
      (k : FoldKind) (e : Event) (es : List Event)
      → All (λ (x : Event). fold_kind_of x.event_type ≡ some k) (e ∷ es)
      → IsFolded (record { events = e ∷ es; fold_kind = some k })

same_fold-eq :
    (k f : Option FoldKind) → same_fold k f ≡ true → (l : FoldKind) × (k ≡ some l) × (f ≡ some l)
same_fold-eq none none h = cc
same_fold-eq none (some m) h = cc
same_fold-eq (some l) none h = ground (arith, h)
same_fold-eq (some l) (some m) h = (l, refl, ground (arith, h))

grow :
    (g : EventGroup) (e : Event) (l : FoldKind)
    → g.fold_kind ≡ some l
    → fold_kind_of e.event_type ≡ some l
    → IsFolded g
    → IsFolded (record g { events = g.events ++ e ∷ [] })
grow g e l fits kind (alone x) = cc fits
grow g e l fits kind (run_of m x xs all) =
    let same : l ≡ m = cc fits in
    run_of m x (xs ++ e ∷ []) (
      All-snoc (λ (y : Event). fold_kind_of y.event_type ≡ some m) (x ∷ xs) all
        (kind ∙ ap (λ j. some j) same))

-- `kind` is the fold kind of the event, or folding is off.
abbrev IsKindOf : Event → Option FoldKind → Type 0
IsKindOf e kind = (l : FoldKind) → kind ≡ some l → fold_kind_of e.event_type ≡ some l

new_group-IsFolded :
    (e : Event) (kind : Option FoldKind) → IsKindOf e kind → IsFolded (new_group e kind)
new_group-IsFolded e none h = alone e
new_group-IsFolded e (some l) h = run_of l e [] (h l refl, tt)

add_to_groups-IsFolded :
    (gs : List EventGroup) (e : Event) (kind : Option FoldKind)
    → IsKindOf e kind
    → All IsFolded gs
    → All IsFolded (add_to_groups gs e kind)
add_to_groups-IsFolded [] e kind h all = (new_group-IsFolded e kind h, tt)
add_to_groups-IsFolded (g ∷ []) e kind h all =
    if_elim (All IsFolded) (same_fold kind g.fold_kind)
      (λ same.
        let (l, k, f) = same_fold-eq kind g.fold_kind same in (grow g e l f (h l k) all.0, tt))
      (λ _. (all.0, (new_group-IsFolded e kind h, tt)))
add_to_groups-IsFolded (g ∷ i ∷ gs) e kind h all =
    (all.0, add_to_groups-IsFolded (i ∷ gs) e kind h all.1)

kind_of : (b : Bool) (e : Event) → IsKindOf e (if b then fold_kind_of e.event_type else none)
kind_of true e l h = h
kind_of false e l h = cc

group_from-IsFolded :
    (b : Bool) (gs : List EventGroup) (es : List Event)
    → All IsFolded gs
    → All IsFolded (group_from b gs es)
group_from-IsFolded b gs [] all = all
group_from-IsFolded b gs (e ∷ es) all =
    let k = if b then fold_kind_of e.event_type else none in
    group_from-IsFolded b (add_to_groups gs e k) es
      (add_to_groups-IsFolded gs e k (kind_of b e) all)

-- Grouping keeps every event, in its order, and each group is one event that is not folded or
-- consists of events that all have the group's fold kind.
pub group_events_lem :
    (es : List Event) (b : Bool)
    → (flatten (group_events es b) ≡ es) × All IsFolded (group_events es b)
unfolding group_events
group_events_lem es b = (flatten-group_from b [] es, group_from-IsFolded b [] es tt)

last?-cons : (e : Event) (es : List Event) → (l : Event) × (last? (e ∷ es) ≡ some l)
last?-cons e [] = (e, refl)
last?-cons e (x ∷ es) = last?-cons x es

node_of_folded :
    (decimal : ℕ → String) (g : EventGroup) → IsFolded g → is_some (create_node decimal g) ≡ true
unfolding create_node
node_of_folded decimal g (alone e) = refl
node_of_folded decimal g (run_of k e es all) = let (l, h) = last?-cons e es in rw h refl

-- No group of events makes `createNode` throw.
pub create_node_total :
    (decimal : ℕ → String) (es : List Event) (b : Bool)
    → All (λ g. is_some (create_node decimal g) ≡ true) (group_events es b)
create_node_total decimal es b =
    All-map IsFolded (λ g. is_some (create_node decimal g) ≡ true) (node_of_folded decimal)
      (group_events es b) (group_events_lem es b).1

is_late :
    (t : String)
    → (t == "verification.completed") ≡ true
    → (ends_with (codes t) (codes ".completed") || t == "run.completed") ≢ false
is_late t h late =
    let same : t ≡ "verification.completed" =
      ground (arith, h, eq_iff t "verification.completed") in
    let bad : true ≡ false =
      subst (λ u. (ends_with (codes u) (codes ".completed") || u == "run.completed") ≡ false) same
        late in
    cc bad

abbrev IsOther : NodeStatus → Type 0
IsOther s = s ≢ verified

-- No event type has the status verified: the type `verification.completed` counts as completed.
pub status_for_type_lem : (t : String) → status_for_type t ≢ verified
unfolding status_for_type
status_for_type_lem t =
    if_elim IsOther (ends_with (codes t) (codes ".failed") || t == "run.failed") (λ _ e. cc)
      (λ _.
        if_elim IsOther (ends_with (codes t) (codes ".completed") || t == "run.completed")
          (λ _ e. cc)
          (λ late.
            if_elim IsOther (t == "state.changed") (λ _ e. cc)
              (λ _.
                if_elim IsOther (t == "decision.recorded") (λ _ e. cc)
                  (λ _.
                    if_elim IsOther (t == "checkpoint.created") (λ _ e. cc)
                      (λ _.
                        if_elim IsOther (t == "verification.completed")
                          (λ h. absurd (is_late t h late))
                          (λ _.
                            if_elim IsOther
                              (ends_with (codes t) (codes ".requested") || t == "run.started")
                              (λ _ e. cc) (λ _ e. cc)))))))
