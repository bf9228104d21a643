-- ===== src/CompactDelta/Tests.antt =====
-- A delta of two updates through the compact form.
use signalk_edge_link.Prelude.{◌≡◌, refl, false, none, List, [], ◌∷◌, map}
use signalk_edge_link.Json.{
  Json, undefined, null, number, string, array, object, no_items, item, no_fields, field, same_text,
}
use signalk_edge_link.CompactDelta.{
  SourceUpdate, one_delta, delta_members, deltas_of, member, path_key, value_key, pair,
  encode_entries, encode_update, encode_updates, encode_compact_delta, encode_deltas,
  encode_compact_payload, decode_tuples, decode_update, decode_updates, decode_compact_delta,
  is_compact_delta_array, decode_deltas, decode_compact_delta_array,
}
use signalk_edge_link.CompactDelta.RoundTrip.{
  view_delta, payload_deltas, has_deltas, decode-encode_payload,
}

abbrev sog : Json
sog = string (115 ∷ 111 ∷ 103 ∷ [])

abbrev entry : Json
entry = object (field path_key sog (field value_key (number (52 ∷ [])) no_fields))

-- An entry without a path, then one with it.
abbrev updates : List SourceUpdate
updates =
    record {
      source = undefined;
      dollar_source = string (103 ∷ []);
      timestamp = null;
      values = array (item (object no_fields) (item entry no_items));
      meta = undefined;
    }
    ∷ []

abbrev sent : Json
sent = array (
    item
      (pair null (
        array (
          item
            (array (
              item null (
                item (string (103 ∷ [])) (
                  item null (
                    item (array (item (pair sog (number (52 ∷ []))) no_items))
                      (item null no_items))))))
            no_items)))
      no_items)

encode_compact_payload-sent : array (encode_compact_payload (one_delta undefined updates)) ≡ sent
unfolding encode_compact_payload encode_compact_delta encode_updates encode_update encode_entries
    member same_text
encode_compact_payload-sent = refl

decode_compact_delta_array-sent :
    decode_compact_delta_array sent
    ≡ record {
      context = [];
      updates =
          record {
            source = undefined;
            dollar_source = string (103 ∷ []);
            timestamp = undefined;
            values = (sog, number (52 ∷ [])) ∷ [];
            meta = [];
          }
          ∷ [];
    }
      ∷ []
unfolding decode_compact_delta_array decode_deltas decode_compact_delta decode_updates decode_update
    decode_tuples
decode_compact_delta_array-sent = refl

encode_compact_payload-members :
    encode_compact_payload (delta_members ((103 ∷ [], none) ∷ [])) ≡ no_items
unfolding encode_compact_payload deltas_of encode_deltas
encode_compact_payload-members = refl

is_compact_delta_array-plain :
    is_compact_delta_array (array (item (object no_fields) no_items)) ≡ false
unfolding is_compact_delta_array
is_compact_delta_array-plain = refl

decode-encode_payload_example :
    (decode_compact_delta_array (array (encode_compact_payload (one_delta undefined updates)))
      ≡ map view_delta (payload_deltas (one_delta undefined updates)))
    × (is_compact_delta_array (array (encode_compact_payload (one_delta undefined updates)))
        ≡ has_deltas (payload_deltas (one_delta undefined updates)))
decode-encode_payload_example = decode-encode_payload (one_delta undefined updates)
