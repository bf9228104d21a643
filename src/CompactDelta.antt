-- ===== src/CompactDelta.antt =====
-- src/codec/compact-delta.ts: deltas as arrays by position. A member that is missing is `undefined`; the
-- serialisation of the arrays between the two ends is left out.
pub mod RoundTrip
mod Tests
use signalk_edge_link.Prelude.{
  ℕ, suc, ◌+◌, Bool, true, false, not, ◌&&◌, Option, none, some, List, [], ◌∷◌, ltb, leb,
  if◌then◌else◌, map,
}
use signalk_edge_link.Json.{
  Text, Json, Items, Fields, undefined, null, boolean, number, nan, infinity, negative_infinity,
  string, array, object, no_items, item, no_fields, field, same_text,
}

-- `DeltaUpdate`, as the encoder reads it.
pub record SourceUpdate : Type 0 where
  pub source : Json
  pub dollar_source : Json
  pub timestamp : Json
  pub values : Json
  pub meta : Json

-- `updates` is `none` where it is no array.
pub record SourceDelta : Type 0 where
  pub context : Json
  pub updates : Option (List SourceUpdate)

-- What the decoder makes: the entries are paths, or their numbers in the dictionary, with values.
pub record DecodedUpdate : Type 0 where
  pub source : Json
  pub dollar_source : Json
  pub timestamp : Json
  pub values : List (Json × Json)
  pub meta : List (Json × Json)

pub record DecodedDelta : Type 0 where
  pub context : Text
  pub updates : List DecodedUpdate

unfoldable pub member : Fields → Text → Json
member no_fields key = undefined
member (field k v fs) key = let rest = member fs key in if same_text k key then v else rest

abbrev pub path_key : Text
path_key = 112 ∷ 97 ∷ 116 ∷ 104 ∷ []

abbrev pub value_key : Text
value_key = 118 ∷ 97 ∷ 108 ∷ 117 ∷ 101 ∷ []

abbrev pub is_undefined : Json → Bool
is_undefined undefined = true
is_undefined other = false

abbrev pub pair : Json → Json → Json
pair path value = array (item path (item value no_items))

-- The tuples of the entries that are objects with a path.
unfoldable pub encode_entries : Items → Items
encode_entries no_items = no_items
encode_entries (item (object fs) es) =
    let rest = encode_entries es in
    if is_undefined (member fs path_key)
    then rest
    else item (pair (member fs path_key) (member fs value_key)) rest
encode_entries (item other es) = encode_entries es

abbrev pub entries_of : Json → Items
entries_of (array es) = encode_entries es
entries_of other = no_items

-- `a ?? null`
abbrev pub or_null : Json → Json
or_null undefined = null
or_null other = other

abbrev pub meta_or_null : Items → Json
meta_or_null no_items = null
meta_or_null (item e es) = array (item e es)

unfoldable pub encode_update : SourceUpdate → Json
encode_update u = array (
    item (or_null u.source) (
      item (or_null u.dollar_source) (
        item (or_null u.timestamp)
          (item (array (entries_of u.values)) (item (meta_or_null (entries_of u.meta)) no_items)))))

unfoldable pub encode_updates : List SourceUpdate → Items
encode_updates [] = no_items
encode_updates (u ∷ us) = item (encode_update u) (encode_updates us)

abbrev pub updates_of : SourceDelta → List SourceUpdate
updates_of d = elim d.updates [ none ↦ [] | some us ↦ us ]

unfoldable pub encode_compact_delta : SourceDelta → Json
encode_compact_delta d = pair (or_null d.context) (array (encode_updates (updates_of d)))

unfoldable pub encode_deltas : List SourceDelta → Items
encode_deltas [] = no_items
encode_deltas (d ∷ ds) = item (encode_compact_delta d) (encode_deltas ds)

-- The three forms of a payload: an array, an object whose `updates` is an array (its context and these),
-- and any other object, whose members that are no objects are `none`.
pub data Payload : Type 0 where
  delta_list : List SourceDelta → Payload
  one_delta : Json → List SourceUpdate → Payload
  delta_members : List (Text × Option SourceDelta) → Payload

unfoldable pub deltas_of : List (Text × Option SourceDelta) → List SourceDelta
deltas_of [] = []
deltas_of ((k, none) ∷ ms) = deltas_of ms
deltas_of ((k, some d) ∷ ms) = d ∷ deltas_of ms

unfoldable pub encode_compact_payload : Payload → Items
encode_compact_payload (delta_list ds) = encode_deltas ds
encode_compact_payload (one_delta context us) =
    item (encode_compact_delta (record { context = context; updates = some us })) no_items
encode_compact_payload (delta_members ms) = encode_deltas (deltas_of ms)

-- `decodeValueTuples`, and `decodeMetaTuples`, which is the same.
unfoldable pub decode_tuples : Items → List (Json × Json)
decode_tuples no_items = []
decode_tuples (item (array (item p (item v more))) ts) = (p, v) ∷ decode_tuples ts
decode_tuples (item other ts) = decode_tuples ts

abbrev pub tuples_of : Json → List (Json × Json)
tuples_of (array ts) = decode_tuples ts
tuples_of other = []

abbrev pub present_or_undefined : Json → Json
present_or_undefined null = undefined
present_or_undefined other = other

abbrev pub string_or_undefined : Json → Json
string_or_undefined (string s) = string s
string_or_undefined other = undefined

-- A tuple of five items or more.
unfoldable pub decode_update : Json → Option DecodedUpdate
decode_update (array (item source (item dollar (item timestamp (item values (item meta more)))))) =
    some (record {
      source = present_or_undefined source;
      dollar_source = string_or_undefined dollar;
      timestamp = string_or_undefined timestamp;
      values = tuples_of values;
      meta = tuples_of meta;
    })
decode_update other = none

abbrev pub push_decoded {ℓ} : {A : Type ℓ} → Option A → List A → List A
push_decoded none us = us
push_decoded (some u) us = u ∷ us

unfoldable pub decode_updates : Items → List DecodedUpdate
decode_updates no_items = []
decode_updates (item u us) = push_decoded (decode_update u) (decode_updates us)

abbrev pub context_of : Json → Text
context_of (string s) = s
context_of other = []

unfoldable pub decode_compact_delta : Json → Option DecodedDelta
decode_compact_delta (array (item context (item (array us) more))) =
    some (record { context = context_of context; updates = decode_updates us })
decode_compact_delta other = none

-- The test of the first element: an array of two or more, of which the second is an array.
unfoldable pub is_compact_delta_array : Json → Bool
is_compact_delta_array (array (item (array (item context (item (array us) more))) rest)) = true
is_compact_delta_array other = false

unfoldable pub decode_deltas : Items → List DecodedDelta
decode_deltas no_items = []
decode_deltas (item d ds) = push_decoded (decode_compact_delta d) (decode_deltas ds)

unfoldable pub decode_compact_delta_array : Json → List DecodedDelta
decode_compact_delta_array (array ds) = decode_deltas ds
decode_compact_delta_array other = []
