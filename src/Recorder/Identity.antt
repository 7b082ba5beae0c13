-- ===== src/Recorder/Identity.antt =====
-- Interceptors may rewrite an event's payload and security, and never its identity.
use agent_loop_snapshot.Prelude.{
  String, ◌≡◌, refl, ◌⊎◌, inl, inr, Bool, true, false, List, [], ◌∷◌, arith, eq_iff, Bool-cases,
}
use mathlib.Core.Path.{subst}
use agent_loop_snapshot.Schema.Envelope.{Event, Checkpoint}
use agent_loop_snapshot.Recorder.Record.{RunRecord, Result, ok, err, RecorderError, has_id}
use agent_loop_snapshot.Recorder.Commit.{
  Call, Interceptor, Intercepted, unchanged, failed, replaced, same_texts, same_identity,
  same_checkpoint_identity, accept, intercept, prepare,
}

-- Agreement in all fields but payload and security.
pub record SameIdentity (a b : Event) : Type 0 where
  pub schema_version : a.schema_version ≡ b.schema_version
  pub run_id : a.run_id ≡ b.run_id
  pub event_id : a.event_id ≡ b.event_id
  pub parent_ids : a.parent_ids ≡ b.parent_ids
  pub sequence : a.sequence ≡ b.sequence
  pub event_type : a.event_type ≡ b.event_type
  pub timestamp : a.timestamp ≡ b.timestamp
  pub monotonic_offset_ms : a.monotonic_offset_ms ≡ b.monotonic_offset_ms
  pub actor : a.actor ≡ b.actor

same_texts-eq : (as' bs : List String) → same_texts as' bs ≡ true → as' ≡ bs
same_texts-eq [] [] h = refl
same_texts-eq [] (b ∷ bs) h = cc
same_texts-eq (a ∷ as') [] h = cc
same_texts-eq (a ∷ as') (b ∷ bs) h = ground (arith, eq_iff a b, same_texts-eq as' bs)

pub SameIdentity-refl : (a : Event) → SameIdentity a a
SameIdentity-refl a = ground arith

SameIdentity-trans : {a b c : Event} → SameIdentity a b → SameIdentity b c → SameIdentity a c
SameIdentity-trans h k = ground arith

SameIdentity-of : (a b : Event) → same_identity a b ≡ true → SameIdentity a b
unfolding same_identity
SameIdentity-of a b h = ground (
  arith,
  eq_iff b.schema_version a.schema_version,
  eq_iff b.run_id a.run_id,
  eq_iff b.event_id a.event_id,
  eq_iff b.event_type a.event_type,
  eq_iff b.timestamp a.timestamp,
  eq_iff b.actor a.actor,
  same_texts-eq b.parent_ids a.parent_ids,
)

pub Result-cases {ℓ} :
    {A : Type ℓ} (r : Result A) → ((a : A) × (r ≡ ok a)) ⊎ ((e : RecorderError) × (r ≡ err e))
Result-cases (ok a) = inl (a, refl)
Result-cases (err e) = inr (e, refl)

-- A chain of interceptors keeps every relation that its identity test keeps.
module _ {A : Type 0} (P : A → A → Type 0) (same : A → A → Bool)
    (ask : Interceptor → A → Intercepted A) (P_refl : (a : A) → P a a)
    (P_trans : (a b c : A) → P a b → P b c → P a c)
    (P_of : (a b : A) → same a b ≡ true → P a b) where
  accept_keeps : (a b : A) (x : Intercepted A) → accept same a x ≡ ok b → P a b
  accept_keeps a b unchanged h = let e : a ≡ b = cc in subst (P a) e (P_refl a)
  accept_keeps a b failed h = cc
  accept_keeps a b (replaced c) h = elim (Bool-cases (same a c)) [
    | inl yes_same ↦ let e : c ≡ b = ground arith in subst (P a) e (P_of a c yes_same)
    | inr other ↦ ground arith
  ]

  pub intercept_keeps : (is : List Interceptor) (a b : A) → intercept same ask is a ≡ ok b → P a b
  unfolding intercept
  intercept_keeps [] a b h = let e : a ≡ b = cc in subst (P a) e (P_refl a)
  intercept_keeps (i ∷ is) a b h = elim (Result-cases (accept same a (ask i a))) [
    | inl (c, e) ↦
        P_trans a c b (accept_keeps a c (ask i a) e)
          (intercept_keeps is c b (rw (e, intercept) at h))
    | inr (x, e) ↦ ground arith
  ]

-- However many interceptors rewrite an event, its identity stays.
pub intercept-SameIdentity :
    (is : List Interceptor) (a b : Event)
    → intercept same_identity (λ i. i.before_append) is a ≡ ok b
    → SameIdentity a b
intercept-SameIdentity =
    intercept_keeps SameIdentity same_identity (λ i. i.before_append) SameIdentity-refl
      (λ a b c h k. SameIdentity-trans h k) SameIdentity-of

-- What a checkpoint's interceptors leave alone.
pub record SameCheckpoint (a b : Checkpoint) : Type 0 where
  pub checkpoint_id : a.checkpoint_id ≡ b.checkpoint_id
  pub run_id : a.run_id ≡ b.run_id
  pub last_event_id : a.last_event_id ≡ b.last_event_id
  pub sequence : a.sequence ≡ b.sequence

SameCheckpoint-of : (a b : Checkpoint) → same_checkpoint_identity a b ≡ true → SameCheckpoint a b
unfolding same_checkpoint_identity
SameCheckpoint-of a b h = ground (
  arith,
  eq_iff b.checkpoint_id a.checkpoint_id,
  eq_iff b.run_id a.run_id,
  eq_iff b.last_event_id a.last_event_id,
)

pub intercept-SameCheckpoint :
    (is : List Interceptor) (a b : Checkpoint)
    → intercept same_checkpoint_identity (λ i. i.before_checkpoint) is a ≡ ok b
    → SameCheckpoint a b
intercept-SameCheckpoint =
    intercept_keeps SameCheckpoint same_checkpoint_identity (λ i. i.before_checkpoint)
      (λ a. ground arith) (λ a b c h k. ground arith) SameCheckpoint-of

-- What `prepare` lets through: the event up to payload and security, with an unused identity.
pub prepare-SameIdentity :
    (call : Call) (r : RunRecord) (event e : Event)
    → prepare call r event ≡ ok e
    → SameIdentity event e × (has_id r.events event.event_id ≡ false)
unfolding prepare
prepare-SameIdentity call r event e h =
    elim (Result-cases (intercept same_identity (λ i. i.before_append) call.interceptors event)) [
      | inl (c, f) ↦
          let same : c ≡ e = ground arith in
          (
            subst (SameIdentity event) same (intercept-SameIdentity call.interceptors event c f),
            ground arith,
          )
      | inr (x, f) ↦ ground arith
    ]
