-- ===== src/Types/Json.antt =====
-- `serde_json::Value`, by its constructors. A number is a `u64`, a negative `i64`, or an `f64` given
-- by its bit pattern; an object is the list of its members.
use cala.Prelude.{ℕ, String, Bool}

mutual
  pub data Json : Type 0 where
    null : Json
    boolean : Bool → Json
    pos_int : ℕ → Json
    neg_int : ℕ → Json
    float : ℕ → Json
    str : String → Json
    array : JsonItems → Json
    object : JsonMembers → Json

  pub data JsonItems : Type 0 where
    nil : JsonItems
    cons : Json → JsonItems → JsonItems

  pub data JsonMembers : Type 0 where
    end : JsonMembers
    member : String → Json → JsonMembers → JsonMembers
