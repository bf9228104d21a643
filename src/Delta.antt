-- ===== src/Delta.antt =====
-- Signal K deltas as the codecs see them: `Delta`, `DeltaUpdate` and `DeltaValue` of
-- src/foundation/types/signalk.ts, with what their `Array.isArray` and `typeof` tests can find. `rest` holds
-- the members that a codec does not look at, which its spreads carry along.
use signalk_edge_link.Prelude.{Option, List}
use signalk_edge_link.Json.{Json, Text}

-- An entry of `values` is an object with a text as its `path`, or it is malformed.
pub data Entry : Type 0 where
  malformed : Json → Entry
  value_at : Text → Json → Json → Entry

-- `values` is `none` where it is no array.
pub record Update : Type 0 where
  pub values : Option (List Entry)
  pub rest : Json

-- `context` is `none` where it is missing, and `updates` where it is no array.
pub record Delta : Type 0 where
  pub context : Option Text
  pub updates : Option (List Update)
  pub rest : Json
