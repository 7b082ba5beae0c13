-- ===== src/Redaction/Input.antt =====
-- What a caller of the recorder may supply (packages/recorder/src/redaction.ts).
use agent_loop_snapshot.Prelude.{String, Bool, Option}
use agent_loop_snapshot.Schema.Json.{Number}

-- What a caller may supply: `date` has its ISO text, `failure` the name, the message, the stack and
-- the own properties of an `Error`, and `other` is a function, a symbol or a big integer.
mutual
  pub data Input : Type 0 where
    undefined not_a_number other : Input
    null : Input
    bool : Bool → Input
    num : Number → Input
    str date : String → Input
    failure : (name message : String) → Option String → Properties → Input
    array : Elements → Input
    object : Properties → Input

  pub data Elements : Type 0 where
    nil : Elements
    cons : Input → Elements → Elements

  pub data Properties : Type 0 where
    end : Properties
    field : String → Input → Properties → Properties
