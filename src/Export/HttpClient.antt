-- ===== src/Export/HttpClient.antt =====
-- packages/otel-export/src/http-client.ts: the bounded OTLP/HTTP sender.
pub mod Target
pub mod Delivery
mod Tests
use agent_loop_snapshot.Prelude.{
  ℕ, zero, suc, ◌+◌, ◌-◌, ◌*◌, ◌/◌, ◌^◌, min, max, String, Bool, true, false, ◌&&◌, ◌||◌, not,
  Option, none, some, List, [], ◌∷◌, ◌==◌, ◌===◌, leb, ltb, if◌then◌else◌, codes, is_blank,
}
use agent_loop_snapshot.Schema.Json.{Number, finite, infinite, Json, Fields, get, as_record}

-- `ExportDeliveryState` and `ExportDeliveryReport`, without its message and batch identity.
pub data DeliveryState : Type 0 where
  dry_run not_queued queued accepted retryable rejected exhausted unknown_delivery : DeliveryState

pub record DeliveryReport : Type 0 where
  pub state : DeliveryState
  pub target_alias : String
  pub attempted : Bool
  pub accepted_span_count : ℕ
  pub rejected_span_count : ℕ
  pub attempts : ℕ
  pub retry_after_ms : Option ℕ

-- `value ?? other`, where a missing field reads as undefined.
abbrev or_nullish : Option Json → Option Json → Option Json
or_nullish none other = other
or_nullish (some Json.null) other = other
or_nullish (some v) other = some v

abbrev digits_only : List ℕ → Bool
digits_only [] = true
digits_only (c ∷ cs) = leb 48 c && leb c 57 && digits_only cs

-- `/^(0|[1-9][0-9]*)$/`
unfoldable is_decimal : List ℕ → Bool
is_decimal [] = false
is_decimal (c ∷ []) = leb 48 c && leb c 57
is_decimal (c ∷ d ∷ cs) = leb 49 c && leb c 57 && digits_only (d ∷ cs)

abbrev floor_of : Number → ℕ
floor_of (finite false m k) = m / 2 ^ k
floor_of (finite true m k) = 0
floor_of (infinite _) = 0

-- What `responseText` gives, and `JSON.parse` where the text is not blank.
pub data Body : Type 0 where
  unreadable blank unparsable : Body
  parsed : Json → Body

pub data Success : Type 0 where
  plain invalid : Success
  partial : (rejected_spans : ℕ) → Success

-- `Number(value)` on a decimal text.
module _ (number_of : String → ℕ) where
  -- `nonNegativeInteger`
  unfoldable pub non_negative_integer : Option Json → ℕ
  unfolding is_decimal
  non_negative_integer (some (Json.num n)) = floor_of n
  non_negative_integer (some (Json.str s)) = if is_decimal (codes s) then number_of s else 0
  non_negative_integer _ = 0

  -- The part of `partialSuccess` below the test of the value.
  abbrev partial_of : Option Json → Success
  partial_of (some (Json.obj fs)) =
      partial (non_negative_integer (or_nullish (get "rejectedSpans" fs) (get "rejected_spans" fs)))
  partial_of _ = plain

  -- `parseSuccessResponse` on a text that was read, with `partialSuccess`; `plain` is undefined.
  unfoldable pub parse_success : Body → Success
  parse_success (parsed (Json.obj fs)) =
      partial_of (or_nullish (get "partialSuccess" fs) (get "partial_success" fs))
  parse_success unparsable = invalid
  parse_success _ = plain

-- `retryableStatus`
unfoldable pub retryable_status : ℕ → Bool
retryable_status s = s === 429 || s === 502 || s === 503 || s === 504

-- What one request comes to: a response, with what `retryAfterMs` reads of its headers, or an
-- exception; `timed_out` is the client's own timer.
pub data Fetched : Type 0 where
  response : (status : ℕ) (body : Body) (retry_after : Option ℕ) → Fetched
  threw : Fetched

-- What the world answers around one attempt: whether the caller's signal was aborted before it and
-- when it threw, whether the target could be resolved, the request, the time since the start after
-- it, `Math.floor(exponential * (0.5 + random()))`, and whether the sleep ended without an abort.
pub record Attempt : Type 0 where
  pub aborted_before : Bool
  pub resolved : Bool
  pub fetched : Fetched
  pub aborted : Bool
  pub timed_out : Bool
  pub elapsed : ℕ
  pub jittered : ℕ → ℕ
  pub slept : Bool

pub record HttpConfig : Type 0 where
  pub target_alias : String
  pub max_attempts : ℕ
  pub retry_budget_ms : ℕ

-- `report`
unfoldable pub report :
    DeliveryState → String → ℕ → ℕ → Option ℕ → Option ℕ → Option ℕ → Option Bool → DeliveryReport
report state alias span_count attempts accepted_spans rejected_spans retry_after attempted =
    record {
      state = state;
      target_alias = alias;
      attempted = elim attempted [ some b ↦ b | none ↦ ltb 0 attempts ];
      accepted_span_count = elim accepted_spans [ some n ↦ n | none ↦ 0 ];
      rejected_span_count = elim rejected_spans [
        | some n ↦ n
        | none ↦ elim state [ rejected ↦ span_count | _ ↦ 0 ]
      ];
      attempts = attempts;
      retry_after_ms = retry_after;
    }

-- The delay before the attempt after attempt `n`.
abbrev pub delay : Attempt → ℕ → Option ℕ → ℕ
delay a n last = elim last [ some ms ↦ ms | none ↦ a.jittered (min 10000 (100 * 2 ^ (n - 1))) ]

-- How the `try` statement of `send` ends: with a report, or with the two variables that it sets.
pub data Ending : Type 0 where
  reported : DeliveryReport → Ending
  retry : (last_retry_after : Option ℕ) (last_unknown : Bool) → Ending

module _ (number_of : String → ℕ) (config : HttpConfig) (span_count : ℕ) where
  abbrev tell : DeliveryState → ℕ → Option ℕ → Option ℕ → Option ℕ → Option Bool → DeliveryReport
  tell state n a r t b = report state config.target_alias span_count n a r t b

  -- The `catch` block.
  abbrev caught : Attempt → ℕ → Option ℕ → Ending
  caught a n last =
      if a.aborted
      then reported (report unknown_delivery config.target_alias span_count n none none none none)
      else retry (if a.timed_out then last else none) true

  abbrev on_success : Success → ℕ → DeliveryReport
  on_success invalid n = report rejected config.target_alias span_count n none none none none
  on_success plain n =
      report accepted config.target_alias span_count n (some span_count) (some 0) none none
  on_success (partial k) n =
      if k === 0
      then report accepted config.target_alias span_count n (some span_count) (some 0) none none
      else report rejected config.target_alias span_count n (some (span_count - k)) (some k) none
          none

  abbrev is_unreadable : Body → Bool
  is_unreadable unreadable = true
  is_unreadable _ = false

  -- The `try` statement.
  unfoldable pub request : Attempt → ℕ → Option ℕ → Ending
  unfolding report parse_success retryable_status
  request a n last = elim a.fetched [
    | threw ↦ caught a n last
    | response status body retry_after ↦
        if status === 200
        then if is_unreadable body
          then caught a n last
          else reported (on_success (parse_success number_of body) n)
        else if not (retryable_status status)
        then reported (report rejected config.target_alias span_count n none none none none)
        else retry retry_after false
  ]

  -- The report below the loop.
  unfoldable pub give_up : ℕ → Option ℕ → Bool → DeliveryReport
  unfolding report
  give_up n last unknown =
      report (if unknown then unknown_delivery else exhausted) config.target_alias span_count n none
        none last none

  -- The loop of `send`, with `left` attempts to go.
  unfoldable pub send_loop : (ℕ → Attempt) → ℕ → ℕ → Option ℕ → Bool → DeliveryReport
  unfolding give_up request report
  send_loop world zero n last unknown = give_up n last unknown
  send_loop world (suc left) n last unknown =
      let a = world n in
      let following = send_loop world left (n + 1) in
      if a.aborted_before
      then report unknown_delivery config.target_alias span_count n none none none none
      else if not a.resolved
      then report rejected config.target_alias span_count n none none none (some false)
      else elim (request a (n + 1) last) [
        | reported r ↦ r
        | retry last' unknown' ↦
            if left === 0 || ltb config.retry_budget_ms (a.elapsed + delay a (n + 1) last')
            then give_up (n + 1) last' unknown'
            else if a.slept
            then following last' unknown'
            else report unknown_delivery config.target_alias span_count (n + 1) none none last' none
      ]

  -- `send`
  unfoldable pub send : (ℕ → Attempt) → DeliveryReport
  unfolding send_loop
  send world = send_loop world (max 1 config.max_attempts) 0 none false
