-- ===== src/Export/HttpClient/Target.antt =====
-- packages/otel-export/src/http-client.ts: `resolveTarget`, over the URL parser and the test that
-- the platform's headers make.
use agent_loop_snapshot.Prelude.{
  String, ◌≡◌, refl, ◌⊎◌, inl, inr, Bool, true, ◌&&◌, ◌||◌, not, Option, none, some, List, [], ◌∷◌,
  ◌++◌, arith, eq_iff, ◌==◌, ◌===◌, if◌then◌else◌, codes, any, Bool-cases, includes,
}
use mathlib.Core.Path.{subst}

pub record Url : Type 0 where
  pub username : String
  pub password : String
  pub protocol : String
  pub hostname : String

pub record TargetConfig : Type 0 where
  pub endpoint : Option String
  pub endpoint_env : Option String
  pub headers_env : List (String × String)

pub record ResolvedTarget : Type 0 where
  pub endpoint : Url
  pub headers : List (String × String)

-- `isLocalHttpHost`
unfoldable pub is_local_http_host : String → Bool
is_local_http_host = includes ("localhost" ∷ "127.0.0.1" ∷ "[::1]" ∷ "::1" ∷ [])

-- `value.length === 0 || /[\r\n]/.test(value)`
abbrev is_unsafe : String → Bool
is_unsafe v = v == "" || any (λ c. c === 13 || c === 10) (codes v)

abbrev first_headers : List (String × String)
first_headers =
    ("Accept", "application/json")
    ∷ ("Content-Type", "application/json")
    ∷ ("User-Agent", "agent-loop-snapshot-otel-export/1.0")
    ∷ []

-- The test of the parsed endpoint.
unfoldable is_allowed : Url → Bool
unfolding is_local_http_host
is_allowed u =
    u.username == ""
    && u.password == ""
    && (u.protocol == "https:" || (u.protocol == "http:" && is_local_http_host u.hostname))

-- The endpoint has no credentials, and is encrypted or local.
pub record IsSafe (u : Url) : Type 0 where
  pub no_username : u.username ≡ ""
  pub no_password : u.password ≡ ""
  pub protected :
      (u.protocol ≡ "https:") ⊎ ((u.protocol ≡ "http:") × (is_local_http_host u.hostname ≡ true))

is_allowed-IsSafe : (u : Url) → is_allowed u ≡ true → IsSafe u
unfolding is_allowed
is_allowed-IsSafe u h = ground (
  arith,
  h,
  eq_iff u.username "",
  eq_iff u.password "",
  eq_iff u.protocol "https:",
  eq_iff u.protocol "http:",
)

abbrev and_then : {A B : Type 0} → Option A → (A → Option B) → Option B
and_then none f = none
and_then (some a) f = f a

and_then-some :
    {A B : Type 0} (o : Option A) (f : A → Option B) {b : B}
    → and_then o f ≡ some b
    → (a : A) × (o ≡ some a) × (f a ≡ some b)
and_then-some none f h = cc
and_then-some (some a) f h = (a, refl, h)

module _ (environment : String → Option String) (parse_url : String → Option Url)
    (accepts_header : String → String → Bool) where
  -- One header of the loop: the value that the environment has for the variable.
  abbrev header_value : String × String → Option (String × String)
  header_value (header, variable) =
      and_then (environment variable)
        (λ v. if is_unsafe v || not (accepts_header header v) then none else some (header, v))

  unfoldable resolve_headers : List (String × String) → Option (List (String × String))
  resolve_headers [] = some []
  resolve_headers (h ∷ hs) =
      and_then (header_value h) (λ v. and_then (resolve_headers hs) (λ vs. some (v ∷ vs)))

  -- The endpoint's text, where there is one that is not empty.
  abbrev endpoint_value : TargetConfig → Option String
  endpoint_value config =
      and_then
        (elim config.endpoint [
          | some e ↦ some e
          | none ↦ environment (elim config.endpoint_env [ some v ↦ v | none ↦ "" ])
        ])
        (λ v. if v == "" then none else some v)

  -- `resolveTarget`
  unfoldable pub resolve_target : TargetConfig → Option ResolvedTarget
  unfolding is_allowed resolve_headers
  resolve_target config = and_then (endpoint_value config) (λ v. and_then (parse_url v) (λ u.
      if not (is_allowed u)
      then none
      else and_then (resolve_headers config.headers_env)
          (λ hs. some (record { endpoint = u; headers = first_headers ++ hs }))))

  -- Whatever the environment and the URL parser say, a target that is resolved has no credentials in
  -- its URL, and is reached by HTTPS, or by HTTP on the local host.
  pub resolve_target-IsSafe :
      (config : TargetConfig) (t : ResolvedTarget)
      → resolve_target config ≡ some t
      → IsSafe t.endpoint
  unfolding resolve_target
  resolve_target-IsSafe config t h =
      let (v, _, g) = and_then-some (endpoint_value config) _ h in
      let (u, _, f) = and_then-some (parse_url v) _ g in
      elim (Bool-cases (is_allowed u)) [
        | inl yes_allowed ↦
            let (hs, _, k) =
              and_then-some (resolve_headers config.headers_env) _ (rw yes_allowed at f) in
            let same : u ≡ t.endpoint = ground (arith, k) in
            subst IsSafe same (is_allowed-IsSafe u yes_allowed)
        | inr no_allowed ↦ let bad : none ≡ some t = rw no_allowed at f in cc bad
      ]
