-- ===== src/Export/HttpClient/Delivery.antt =====
-- What the sender of packages/otel-export/src/http-client.ts does at most, and what its report says.
use agent_loop_snapshot.Prelude.{
  ℕ, zero, suc, ◌+◌, ◌-◌, ◌≤◌, ◌<◌, max, ◌≡◌, refl, sym, ◌≢◌, ◌⊎◌, Bool, true, false, ◌||◌, not,
  Option, none, arith, ltb, ◌===◌, if_elim, String, Bool-cases, inl, inr,
}
use mathlib.Core.Path.{subst}
use agent_loop_snapshot.Export.HttpClient.{
  accepted, rejected, exhausted, unknown_delivery, DeliveryReport, Body, unreadable, invalid,
  partial, parse_success, Fetched, response, threw, Attempt, HttpConfig, report, Ending, reported,
  retry, request, retryable_status, give_up, delay, send_loop, send,
}

ending_elim {κ} :
    (P : DeliveryReport → Type κ) (e : Ending) {g : Option ℕ → Bool → DeliveryReport}
    → ((r : DeliveryReport) → e ≡ reported r → P r)
    → ((l : Option ℕ) (u : Bool) → e ≡ retry l u → P (g l u))
    → P (elim e [ reported r ↦ r | retry l u ↦ g l u ])
ending_elim P (reported r) f h = f r refl
ending_elim P (retry l u) f h = h l u refl

module _ (number_of : String → ℕ) (config : HttpConfig) (span_count : ℕ) where
  -- Nothing could be read of the answer, and the caller did not abort; or the collector answered
  -- that it is busy.
  abbrev pub MayRepeat : Attempt → Type 0
  MayRepeat a = elim a.fetched [
    | threw ↦ a.aborted ≡ false
    | response status b _ ↦
        ((status ≡ 200) × (b ≡ unreadable) × (a.aborted ≡ false))
        ⊎ (status ≡ 429)
        ⊎ (status ≡ 502)
        ⊎ (status ≡ 503)
        ⊎ (status ≡ 504)
  ]

  -- Attempt `n`, the request numbered `n + 1`, failed in a way that may be repeated, and the wait
  -- after it fits the budget.
  pub record Repeated (a : Attempt) (n : ℕ) : Type 0 where
    pub wanted : a.aborted_before ≡ false
    pub resolved : a.resolved ≡ true
    pub last : Option ℕ
    pub next : Option ℕ
    pub unknown : Bool
    pub may_repeat : MayRepeat a
    pub failed : request number_of config span_count a (n + 1) last ≡ retry next unknown
    pub in_budget : a.elapsed + delay a (n + 1) next ≤ config.retry_budget_ms
    pub slept : a.slept ≡ true

  abbrev pub RepeatedBefore : (ℕ → Attempt) → ℕ → ℕ → Type 0
  RepeatedBefore world n k = (i : ℕ) → n ≤ i → i + 1 < k → Repeated (world i) i

  -- The answer to a request was read, and is a success for all spans.
  abbrev pub AnsweredWhole : Attempt → Type 0
  AnsweredWhole a =
      (b : Body) × (after : Option ℕ) × (a.fetched ≡ response 200 b after)
      × (b ≢ unreadable)
      × (parse_success number_of b ≢ invalid)
      × ((k : ℕ) → parse_success number_of b ≡ partial k → k ≡ 0)

  pub record Truthful (world : ℕ → Attempt) (r : DeliveryReport) : Type 0 where
    pub whole :
        r.state ≡ accepted → (r.accepted_span_count ≡ span_count) × (r.rejected_span_count ≡ 0)
    pub answered : r.state ≡ accepted → AnsweredWhole (world (r.attempts - 1))
    pub unconfirmed :
        r.state ≡ unknown_delivery → (r.accepted_span_count ≡ 0) × (r.rejected_span_count ≡ 0)
    pub given_up : r.state ≡ exhausted → (r.accepted_span_count ≡ 0) × (r.rejected_span_count ≡ 0)

  -- The report of the loop at `n` attempts with `left` to go.
  record Loop (world : ℕ → Attempt) (left n : ℕ) (r : DeliveryReport) : Type 0 where
    at_least : n ≤ r.attempts
    at_most : r.attempts ≤ n + left
    truthful : Truthful world r
    repeated : RepeatedBefore world n r.attempts

  early :
      (world : ℕ → Attempt) (left n : ℕ) (r : DeliveryReport)
      → n ≤ r.attempts
      → r.attempts ≤ n + 1
      → r.attempts ≤ n + left
      → Truthful world r
      → Loop world left n r
  early world left n r a b c t = record {
    at_least = a;
    at_most = c;
    truthful = t;
    repeated = λ i h k. ground (arith, a, b, h, k);
  }

  -- A report that claims no delivery.
  abbrev Quiet : DeliveryReport → Type 0
  Quiet r =
      (r.state ≢ accepted)
      × (r.state ≢ rejected → (r.accepted_span_count ≡ 0) × (r.rejected_span_count ≡ 0))

  Quiet-Truthful : (world : ℕ → Attempt) (r : DeliveryReport) → Quiet r → Truthful world r
  Quiet-Truthful world r q = record {
    whole = λ h. ground (arith, q.0, h);
    answered = λ h. ground (arith, q.0, h);
    unconfirmed = λ h. q.1 (λ e. cc (e, h));
    given_up = λ h. q.1 (λ e. cc (e, h));
  }

  fetched-cases :
      (f : Fetched)
      → (f ≡ threw)
        ⊎ ((status : ℕ) × (b : Body) × (after : Option ℕ) × (f ≡ response status b after))
  fetched-cases threw = inl refl
  fetched-cases (response status b after) = inr (status, b, after, refl)

  request-counts :
      (a : Attempt) (n : ℕ) (last : Option ℕ) (r : DeliveryReport)
      → request number_of config span_count a n last ≡ reported r
      → (r.attempts ≡ n)
        × (r.state ≡ accepted → (r.accepted_span_count ≡ span_count) × (r.rejected_span_count ≡ 0))
        × (r.state ≢ exhausted)
        × (r.state ≡ unknown_delivery → (r.accepted_span_count ≡ 0) × (r.rejected_span_count ≡ 0))
  unfolding request report
  request-counts a n last r h = ground (arith, h)

  request-threw :
      (a : Attempt) (n : ℕ) (last : Option ℕ) (r : DeliveryReport)
      → request number_of config span_count a n last ≡ reported r
      → r.state ≡ accepted
      → a.fetched ≢ threw
  unfolding request report
  request-threw a n last r h s f = ground (arith, h, s, f)

  request-status :
      (a : Attempt) (n : ℕ) (last : Option ℕ) (r : DeliveryReport) (status : ℕ) (b : Body)
      (after : Option ℕ)
      → request number_of config span_count a n last ≡ reported r
      → r.state ≡ accepted
      → a.fetched ≡ response status b after
      → (status ≡ 200)
        × (b ≢ unreadable)
        × (parse_success number_of b ≢ invalid)
        × ((k : ℕ) → parse_success number_of b ≡ partial k → k ≡ 0)
  unfolding request report
  request-status a n last r status b after h s f = (
    ground (arith, h, s, f),
    λ e. ground (arith, h, s, f, e),
    λ e. ground (arith, h, s, f, e),
    λ k e. ground (arith, h, s, f, e),
  )

  request-answered :
      (a : Attempt) (n : ℕ) (last : Option ℕ) (r : DeliveryReport)
      → request number_of config span_count a n last ≡ reported r
      → r.state ≡ accepted
      → AnsweredWhole a
  request-answered a n last r h s = elim (fetched-cases a.fetched) [
    | inl f ↦ absurd (request-threw a n last r h s f)
    | inr (status, b, after, f) ↦
        let (ok200, readable, valid, none_rejected) =
          request-status a n last r status b after h s f in
        (b, after, rw (sym ok200) f, readable, valid, none_rejected)
  ]

  request-MayRepeat :
      (a : Attempt) (n : ℕ) (last next : Option ℕ) (unknown : Bool)
      → request number_of config span_count a n last ≡ retry next unknown
      → MayRepeat a
  unfolding request retryable_status
  request-MayRepeat a n last next unknown h = ground (arith, h)

  request-Truthful :
      (world : ℕ → Attempt) (n : ℕ) (last : Option ℕ) (r : DeliveryReport)
      → request number_of config span_count (world n) (n + 1) last ≡ reported r
      → (r.attempts ≡ n + 1) × Truthful world r
  request-Truthful world n last r h =
      let (count, counts, kept, unsure) = request-counts (world n) (n + 1) last r h in
      let back : n ≡ r.attempts - 1 = omega (arith, count) in
      (
        count,
        record {
          whole = counts;
          answered = λ s.
              subst (λ i. AnsweredWhole (world i)) back
                (request-answered (world n) (n + 1) last r h s);
          unconfirmed = unsure;
          given_up = λ s. absurd (kept s);
        },
      )

  give_up-Truthful :
      (world : ℕ → Attempt) (n : ℕ) (last : Option ℕ) (unknown : Bool)
      → Truthful world (give_up number_of config span_count n last unknown)
  unfolding give_up report
  give_up-Truthful world n last unknown =
      Quiet-Truthful world (give_up number_of config span_count n last unknown) (ground arith)

  later :
      (world : ℕ → Attempt) (left n : ℕ) (r : DeliveryReport)
      → Repeated (world n) n
      → Loop world left (n + 1) r
      → Loop world (suc left) n r
  later world left n r again l = record {
    at_least = omega (arith, l.at_least);
    at_most = omega (arith, l.at_most);
    truthful = l.truthful;
    repeated = λ i h k. elim (Bool-cases (i === n)) [
      | inl same ↦ let e : n ≡ i = ground (arith, same) in subst (λ j. Repeated (world j) j) e again
      | inr other ↦ l.repeated i (ground (arith, other, h)) k
    ];
  }

  loop_lem :
      (world : ℕ → Attempt) (left n : ℕ) (last : Option ℕ) (unknown : Bool)
      → Loop world left n (send_loop number_of config span_count world left n last unknown)
  unfolding send_loop give_up report
  loop_lem world zero n last unknown =
      early world 0 n (give_up number_of config span_count n last unknown) (omega arith)
        (omega arith) (omega arith) (give_up-Truthful world n last unknown)
  loop_lem world (suc left) n last unknown =
      if_elim (Loop world (suc left) n) (world n).aborted_before
        (λ _.
          early world (suc left) n _ (omega arith) (omega arith) (omega arith)
            (Quiet-Truthful world _ (ground arith)))
        (λ h.
          if_elim (Loop world (suc left) n) (not (world n).resolved)
            (λ _.
              early world (suc left) n _ (omega arith) (omega arith) (omega arith)
                (Quiet-Truthful world _ (ground arith)))
            (λ k.
              ending_elim (Loop world (suc left) n)
                (request number_of config span_count (world n) (n + 1) last)
                (λ r f.
                  let (c, t) = request-Truthful world n last r f in
                  early world (suc left) n r (omega (arith, c)) (omega (arith, c))
                    (omega (arith, c)) t)
                (λ l u f.
                  if_elim (Loop world (suc left) n)
                    (left === 0
                      || ltb config.retry_budget_ms ((world n).elapsed + delay (world n) (n + 1) l))
                    (λ _.
                      early world (suc left) n _ (omega arith) (omega arith) (omega arith)
                        (give_up-Truthful world (n + 1) l u))
                    (λ b.
                      if_elim (Loop world (suc left) n) (world n).slept
                        (λ s.
                          later world left n _
                            (record {
                              wanted = h;
                              resolved = ground (arith, k);
                              last = last;
                              next = l;
                              unknown = u;
                              may_repeat = request-MayRepeat (world n) (n + 1) last l u f;
                              failed = f;
                              in_budget = ground (arith, b);
                              slept = s;
                            })
                            (loop_lem world left (n + 1) l u))
                        (λ _.
                          early world (suc left) n _ (omega arith) (omega arith) (omega arith)
                            (Quiet-Truthful world _ (ground arith)))))))

  -- `send` makes at most the configured number of attempts (or one), and repeats a request only
  -- where the one before it was not answered readably (and not aborted), or was answered with status
  -- 429, 502, 503 or 504, and the wait after it fits the budget. It says accepted only where its last
  -- request was answered with status 200 and a readable body that tells of no rejected span, and then
  -- counts all spans; where it cannot confirm a delivery or gives up it counts none.
  pub send-Truthful :
      (world : ℕ → Attempt)
      → let r = send number_of config span_count world in
        (r.attempts ≤ max 1 config.max_attempts)
        × RepeatedBefore world 0 r.attempts
        × Truthful world r
  unfolding send
  send-Truthful world =
      let l = loop_lem world (max 1 config.max_attempts) 0 none false in
      (omega (arith, l.at_most), l.repeated, l.truthful)
