-- ===== src/Redaction/Masking/Members.antt =====
-- Reading a member after it was written (packages/recorder/src/redaction.ts).
use agent_loop_snapshot.Prelude.{
  ℕ, zero, suc, String, ◌≡◌, refl, false, none, some, ◌==◌, arith, eq_refl, eq_iff,
}
use agent_loop_snapshot.Schema.Json.{Json, Items, nil, cons, Fields, end, field, get}
use agent_loop_snapshot.State.Container.{item_at, put_item, define}
use agent_loop_snapshot.Redaction.Walk.{member, assign_member}

pub item_at-put_item :
    (i : ℕ) (v w : Json) (vs : Items) → item_at i vs ≡ some v → item_at i (put_item i w vs) ≡ some w
item_at-put_item i v w nil h = cc
item_at-put_item zero v w (cons x vs) h = refl
item_at-put_item (suc i) v w (cons x vs) h = item_at-put_item i v w vs h

pub get-define : (k : String) (v : Json) (fs : Fields) → get k (define k v fs) ≡ some v
get-define k v end = rw (eq_refl k) refl
get-define k v (field j w fs) = ground (arith, get-define k v fs)

pub get-define_other :
    (k l : String) (v : Json) (fs : Fields) → (k == l) ≡ false → get l (define k v fs) ≡ get l fs
get-define_other k l v end h = rw h refl
get-define_other k l v (field j w fs) h =
    ground (arith, h, get-define_other k l v fs h, eq_iff j k, eq_iff j l, eq_iff k l)

pub get-assign_member :
    (k : String) (v x : Json) (fs : Fields) → get k (assign_member k v fs) ≡ some x → v ≡ x
get-assign_member k v x fs h = ground (arith, h, get-define k v fs)

pub member-get :
    (k : String) (v x : Json) (fs : Fields) → member k fs ≡ some v → get k fs ≡ some x → v ≡ x
member-get k v x fs h g = ground (arith, h, g)

pub member-none : (k : String) (fs : Fields) → member k fs ≡ none → get k fs ≡ none
member-none k fs h = ground (arith, h)
