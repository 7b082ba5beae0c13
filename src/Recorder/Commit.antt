-- ===== src/Recorder/Commit.antt =====
-- packages/recorder/src/index.ts: building an event, running the interceptors, committing.
use agent_loop_snapshot.Prelude.{
  ℕ, ◌+◌, ◌-◌, String, Bool, true, false, ◌&&◌, not, List, [], ◌∷◌, ◌++◌, ◌==◌, ◌===◌,
  if◌then◌else◌,
}
use agent_loop_snapshot.Schema.Envelope.{Event, Checkpoint, snapshot_schema_version}
use agent_loop_snapshot.Recorder.Record.{
  RunRecord, Result, ok, err, reserved_event_type, duplicate_event_id,
  interceptor_identity_mutation, interceptor_failed_before_commit, interceptor_threw, Exec, ◌>>=◌,
  lift, EventContext, AppendInput, is_reserved, has_id, is_empty, assert_context, default_security,
  or_else,
}

-- What a `before…` interceptor answers: nothing, a replacement, or an exception.
pub data Intercepted {ℓ} (A : Type ℓ) : Type ℓ where
  unchanged failed : Intercepted A
  replaced : A → Intercepted A

-- An interceptor as it answers during one operation; `after…` answers whether it returned.
pub record Interceptor : Type 0 where
  pub before_append : Event → Intercepted Event
  pub after_append : Event → Bool
  pub before_checkpoint : Checkpoint → Intercepted Checkpoint
  pub after_checkpoint : Checkpoint → Bool

-- What the clock, the identity generator and the interceptors give during one operation.
pub record Call : Type 0 where
  pub now : String
  pub monotonic_now : ℕ
  pub event_id : String
  pub checkpoint_id : String
  pub interceptors : List Interceptor

abbrev pub same_texts : List String → List String → Bool
same_texts [] [] = true
same_texts (a ∷ as') (b ∷ bs) = a == b && same_texts as' bs
same_texts _ _ = false

-- The test of `assertIdentityPreserved`.
unfoldable pub same_identity : Event → Event → Bool
same_identity original intercepted =
    intercepted.schema_version == original.schema_version
    && intercepted.run_id == original.run_id
    && intercepted.event_id == original.event_id
    && intercepted.sequence === original.sequence
    && intercepted.event_type == original.event_type
    && intercepted.timestamp == original.timestamp
    && intercepted.monotonic_offset_ms === original.monotonic_offset_ms
    && intercepted.actor == original.actor
    && same_texts intercepted.parent_ids original.parent_ids

-- The test of `assertCheckpointIdentityPreserved`.
unfoldable pub same_checkpoint_identity : Checkpoint → Checkpoint → Bool
same_checkpoint_identity original intercepted =
    intercepted.schema_version == original.schema_version
    && intercepted.checkpoint_id == original.checkpoint_id
    && intercepted.run_id == original.run_id
    && intercepted.created_at == original.created_at
    && intercepted.last_event_id == original.last_event_id
    && intercepted.sequence === original.sequence

abbrev pub accept : {A : Type 0} → (A → A → Bool) → A → Intercepted A → Result A
accept same a unchanged = ok a
accept same a failed = err interceptor_threw
accept same a (replaced b) = if same a b then ok b else err interceptor_identity_mutation

-- A loop over the interceptors; each sees what those before it made.
module _ {A : Type 0} (same : A → A → Bool) (ask : Interceptor → A → Intercepted A) where
  unfoldable pub intercept : List Interceptor → A → Result A
  intercept [] a = ok a
  intercept (i ∷ is) a = elim (accept same a (ask i a)) [ ok b ↦ intercept is b | err e ↦ err e ]

-- The loop over an `after…` hook: the first failure stops it.
module _ {A : Type 0} (hook : Interceptor → A → Bool) where
  unfoldable pub notify : List Interceptor → A → Bool
  notify [] a = true
  notify (i ∷ is) a = hook i a && notify is a

-- `buildEvent`
unfoldable pub build_event : Call → EventContext → AppendInput → Bool → RunRecord → Result Event
build_event call ctx input allow_lifecycle r =
    if not allow_lifecycle && is_reserved input.event_type
    then err reserved_event_type
    else elim (if is_empty r.events then ok tt else assert_context r ctx) [
      | err e ↦ err e
      | ok _ ↦ ok (record {
        schema_version = snapshot_schema_version;
        run_id = r.run_id;
        event_id = call.event_id;
        parent_ids = ctx.parent_ids;
        sequence = r.next_sequence;
        event_type = input.event_type;
        timestamp = call.now;
        monotonic_offset_ms = call.monotonic_now - r.started_monotonic;
        actor = or_else input.actor ctx.actor;
        payload = input.payload;
        security = default_security input.security;
      })
    ]

-- The checks and hooks of `commitEvent`, before anything is written.
unfoldable pub prepare : Call → RunRecord → Event → Result Event
unfolding intercept same_identity notify
prepare call r event =
    if has_id r.events event.event_id
    then err duplicate_event_id
    else elim (intercept same_identity (λ i. i.before_append) call.interceptors event) [
      | err e ↦ err e
      | ok e ↦
          if notify (λ i. i.after_append) call.interceptors e
          then ok e
          else err interceptor_failed_before_commit
    ]

abbrev pub push : (RunRecord → RunRecord) → Event → Exec Event
push on_committed e r = (
  ok e,
  on_committed (record r { events = r.events ++ e ∷ []; next_sequence = r.next_sequence + 1 }),
)

-- `commitEvent`
unfoldable pub commit_event : Call → (RunRecord → RunRecord) → Event → Exec Event
unfolding prepare
commit_event call on_committed event r =
    (lift (prepare call r event) >>= λ e. push on_committed e) r
