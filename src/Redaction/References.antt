-- ===== src/Redaction/References.antt =====
-- The placeholders of one pipeline are references: equal values get equal ones
-- (packages/recorder/src/redaction.ts).
use agent_loop_snapshot.Prelude.{
  String, ◌≡◌, refl, Option, none, some, [], ◌∷◌, ◌++◌, arith, get_text, eq_iff,
}
use agent_loop_snapshot.Schema.Json.{Json}
use agent_loop_snapshot.Redaction.Rules.{
  done, Memory, Runtime, Pipeline, identity_of, new_reference, remembered, reference_for,
}
use agent_loop_snapshot.Redaction.Walk.{ExecutionOptions}
use agent_loop_snapshot.Redaction.Content.{redact_json_value}
use agent_loop_snapshot.Redaction.Steps.{Keeps, Ensures-memory}
use agent_loop_snapshot.Redaction.Recall.{redact_json_value-Keeps}

-- The memory that any number of redactions by pipelines with one memory leave.
pub data Redacted (r : Runtime) (m : Memory) : Memory → Type 0 where
  here : Redacted r m m
  next :
      {n : Memory} (options : ExecutionOptions) (p : Pipeline) (v : Json)
      → Redacted r m n
      → Redacted r m (redact_json_value r options p v n).1

get_text-append :
    (k l t u : String) (m : Memory) → get_text k m ≡ some t → get_text k (m ++ (l, u) ∷ []) ≡ some t
get_text-append k l t u [] h = cc
get_text-append k l t u ((j, w) ∷ m) h = ground (arith, h, get_text-append k l t u m)

get_text-last :
    (k t : String) (m : Memory) → get_text k m ≡ none → get_text k (m ++ (k, t) ∷ []) ≡ some t
get_text-last k t [] h = ground (arith, eq_iff k k)
get_text-last k t ((j, w) ∷ m) h = ground (arith, h, get_text-last k t m)

module _ (r : Runtime) where
  abbrev Remembers : String → String → Memory → Type 0
  Remembers k t m = get_text k m ≡ some t

  remembered-Keeps :
      (k t : String) (o : Option String) (v : Json) (category : String)
      → Keeps (Remembers k t) (remembered r o v category)
  remembered-Keeps k t (some u) v category = λ m i. (i, tt)
  remembered-Keeps k t none v category =
      λ m i. (get_text-append k (identity_of r v) t (new_reference r category m) m i, tt)

  reference_for-Keeps :
      (k t : String) (v : Json) (category : String)
      → Keeps (Remembers k t) (reference_for r v category)
  unfolding reference_for
  reference_for-Keeps k t v category =
      λ m i. remembered-Keeps k t (get_text (identity_of r v) m) v category m i

  Redacted-Remembers :
      {m n : Memory} (k t : String) → Redacted r m n → Remembers k t m → Remembers k t n
  Redacted-Remembers k t here h = h
  Redacted-Remembers k t (next options p v before) h =
      Ensures-memory (Remembers k t) (λ _. Unit {0}) _
        (redact_json_value-Keeps r (Remembers k t) (reference_for-Keeps k t) options p v _
          (Redacted-Remembers k t before h))

  remembered-Remembers :
      (v : Json) (category t : String) (m n : Memory) (o : Option String)
      → get_text (identity_of r v) m ≡ o
      → remembered r o v category m ≡ (done t, n)
      → Remembers (identity_of r v) t n
  remembered-Remembers v category t m n (some u) q h = cc
  remembered-Remembers v category t m n none q h =
      cc (get_text-last (identity_of r v) (new_reference r category m) m q)

  given-Remembers :
      (v : Json) (category t : String) (m n : Memory)
      → reference_for r v category m ≡ (done t, n)
      → Remembers (identity_of r v) t n
  unfolding reference_for
  given-Remembers v category t m n h =
      remembered-Remembers v category t m n (get_text (identity_of r v) m) refl h

-- Once a pipeline has given a value a reference, it gives every value with the same canonical text
-- this one, whatever the rule that finds it, after any redactions in between.
pub reference_for-Redacted :
    (r : Runtime) (v w : Json) (category category' t : String) (m m₁ m₂ : Memory)
    → identity_of r v ≡ identity_of r w
    → reference_for r v category m ≡ (done t, m₁)
    → Redacted r m₁ m₂
    → reference_for r w category' m₂ ≡ (done t, m₂)
unfolding reference_for
reference_for-Redacted r v w category category' t m m₁ m₂ same given later =
    let known =
      Redacted-Remembers r (identity_of r v) t later (given-Remembers r v category t m m₁ given) in
    rw (← same) (rw known refl)
