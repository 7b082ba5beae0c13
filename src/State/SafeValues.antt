-- ===== src/State/SafeValues.antt =====
-- What changes a container keeps it free of dangerous keys (packages/recorder/src/checkpoints.ts).
use agent_loop_snapshot.Prelude.{
  ℕ, zero, suc, String, ◌≡◌, refl, true, false, ◌&&◌, not, some, arith, &&_split,
}
use agent_loop_snapshot.Schema.Json.{
  Json, null, bool, num, str, arr, obj, finite, infinite, Items, nil, cons, Fields, end, field, get,
}
use agent_loop_snapshot.State.Pointer.{is_dangerous}
use agent_loop_snapshot.State.Container.{
  clone, clone_items, clone_fields, is_safe, safe_items, safe_fields, item_at, push_item, put_item,
  remove_item, define, remove, spread,
}

mutual
  unfolding is_safe safe_items safe_fields clone clone_items clone_fields

  pub clone-safe : (v : Json) → is_safe v ≡ true → is_safe (clone v) ≡ true
  clone-safe null h = refl
  clone-safe (bool _) h = refl
  clone-safe (num (finite _ _ _)) h = refl
  clone-safe (num (infinite _)) h = refl
  clone-safe (str _) h = refl
  clone-safe (arr vs) h = clone_items-safe vs h
  clone-safe (obj fs) h = clone_fields-safe fs h

  clone_items-safe : (vs : Items) → safe_items vs ≡ true → safe_items (clone_items vs) ≡ true
  clone_items-safe nil h = refl
  clone_items-safe (cons v vs) h =
      let (a, b) = &&_split (is_safe v) (safe_items vs) h in
      rw (clone-safe v a, clone_items-safe vs b) refl

  pub clone_fields-safe :
      (fs : Fields) → safe_fields fs ≡ true → safe_fields (clone_fields fs) ≡ true
  clone_fields-safe end h = refl
  clone_fields-safe (field k v fs) h =
      let (k_safe, rest) = &&_split (not (is_dangerous k)) (is_safe v && safe_fields fs) h in
      let (a, b) = &&_split (is_safe v) (safe_fields fs) rest in
      rw (k_safe, clone-safe v a, clone_fields-safe fs b) refl

pub get-safe :
    (k : String) (fs : Fields) (v : Json)
    → safe_fields fs ≡ true
    → get k fs ≡ some v
    → is_safe v ≡ true
unfolding safe_fields
get-safe k end v h g = cc
get-safe k (field j w fs) v h g = ground (arith, h, g, get-safe k fs v)

pub item_at-safe :
    (i : ℕ) (vs : Items) (v : Json)
    → safe_items vs ≡ true
    → item_at i vs ≡ some v
    → is_safe v ≡ true
unfolding safe_items
item_at-safe i nil v h g = cc
item_at-safe zero (cons w vs) v h g = ground (arith, h, g)
item_at-safe (suc i) (cons w vs) v h g = ground (arith, h, g, item_at-safe i vs v)

module _ (v : Json) (v_safe : is_safe v ≡ true) where
  pub push-safe : (vs : Items) → safe_items vs ≡ true → safe_items (push_item vs v) ≡ true
  unfolding safe_items
  push-safe nil h = rw v_safe refl
  push-safe (cons w vs) h = ground (arith, h, push-safe vs)

  pub put_item-safe :
      (i : ℕ) (vs : Items) → safe_items vs ≡ true → safe_items (put_item i v vs) ≡ true
  unfolding safe_items
  put_item-safe i nil h = rw v_safe refl
  put_item-safe zero (cons w vs) h = ground (arith, h, v_safe)
  put_item-safe (suc i) (cons w vs) h = ground (arith, h, put_item-safe i vs)

  pub define-safe :
      (k : String) (fs : Fields)
      → is_dangerous k ≡ false
      → safe_fields fs ≡ true
      → safe_fields (define k v fs) ≡ true
  unfolding safe_fields
  define-safe k end d h = rw (d, v_safe) refl
  define-safe k (field j w fs) d h = ground (arith, d, h, v_safe, define-safe k fs)

pub remove_item-safe :
    (i : ℕ) (vs : Items) → safe_items vs ≡ true → safe_items (remove_item i vs) ≡ true
unfolding safe_items
remove_item-safe i nil h = refl
remove_item-safe zero (cons w vs) h = ground (arith, h)
remove_item-safe (suc i) (cons w vs) h = ground (arith, h, remove_item-safe i vs)

pub remove-safe :
    (k : String) (fs : Fields) → safe_fields fs ≡ true → safe_fields (remove k fs) ≡ true
unfolding safe_fields
remove-safe k end h = refl
remove-safe k (field j w fs) h = ground (arith, h, remove-safe k fs)

pub spread-safe :
    (fs gs : Fields)
    → safe_fields fs ≡ true
    → safe_fields gs ≡ true
    → safe_fields (spread fs gs) ≡ true
unfolding safe_fields
spread-safe fs end h g = h
spread-safe fs (field k v gs) h g =
    spread-safe (define k v fs) gs (define-safe v (ground (arith, g)) k fs (ground (arith, g)) h)
      (ground (arith, g))
