-- ===== src/Redaction/Text.antt =====
-- packages/recorder/src/redaction.ts: the texts of JSON values.
use Prim.Native.String
use agent_loop_snapshot.Prelude.{String, Bool, true, false, List, [], ◌∷◌, sort}
use agent_loop_snapshot.Schema.Json.{
  Number, Json, null, bool, num, str, arr, obj, Items, nil, cons, Fields, end, field,
}

-- The members of an array, before its `]`.
abbrev comma_then : String → String → String
comma_then s rest = String.◌++◌ s (String.◌++◌ "," rest)

-- `JSON.stringify` of the numbers and the texts.
module _ (number_text : Number → String) (quoted : String → String) where
  abbrev primitive : Json → String
  primitive (bool true) = "true"
  primitive (bool false) = "false"
  primitive (num n) = number_text n
  primitive (str s) = quoted s
  primitive _ = "null"

  abbrev member : String → String → String
  member k v = String.◌++◌ (quoted k) (String.◌++◌ ":" v)

  -- `JSON.stringify`
  unfoldable mutual
    pub stringify : Json → String
    stringify null = "null"
    stringify (bool b) = primitive (bool b)
    stringify (num n) = number_text n
    stringify (str s) = quoted s
    stringify (arr vs) = String.◌++◌ "[" (String.◌++◌ (stringify_items vs) "]")
    stringify (obj fs) = String.◌++◌ "{" (String.◌++◌ (stringify_fields fs) "}")

    pub stringify_items : Items → String
    stringify_items nil = ""
    stringify_items (cons v nil) = stringify v
    stringify_items (cons v (cons w vs)) = comma_then (stringify v) (stringify_items (cons w vs))

    pub stringify_fields : Fields → String
    stringify_fields end = ""
    stringify_fields (field k v end) = member k (stringify v)
    stringify_fields (field k v (field l w fs)) =
        comma_then (member k (stringify v)) (stringify_fields (field l w fs))

-- `join(',')`
abbrev join : List String → String
join [] = ""
join (t ∷ []) = t
join (t ∷ u ∷ ts) = comma_then t (join (u ∷ ts))

-- `before` is the order of `sort` on the keys.
module _ (number_text : Number → String) (quoted : String → String)
    (before : String → String → Bool) where
  abbrev members_text : List (String × String) → List String
  members_text [] = []
  members_text ((k, t) ∷ ms) = member number_text quoted k t ∷ members_text ms

  -- `canonicalJson`
  unfoldable mutual
    pub canonical_json : Json → String
    canonical_json null = "null"
    canonical_json (bool b) = primitive number_text quoted (bool b)
    canonical_json (num n) = number_text n
    canonical_json (str s) = quoted s
    canonical_json (arr vs) = String.◌++◌ "[" (String.◌++◌ (join (canonical_items vs)) "]")
    canonical_json (obj fs) = String.◌++◌ "{" (
        String.◌++◌ (join (members_text (sort (λ m n. before m.0 n.0) (canonical_members fs)))) "}")

    pub canonical_items : Items → List String
    canonical_items nil = []
    canonical_items (cons v vs) = canonical_json v ∷ canonical_items vs

    pub canonical_members : Fields → List (String × String)
    canonical_members end = []
    canonical_members (field k v fs) = (k, canonical_json v) ∷ canonical_members fs
