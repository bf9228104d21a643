-- ===== src/ValueDedup/Tests.antt =====
-- A speed that stays the same, over a link.
use signalk_edge_link.Prelude.{◌≡◌, refl, none, some, List, [], ◌∷◌, map, All}
use signalk_edge_link.Json.{Json, number, string, null, stringify, escape, escape_all, same_text}
use signalk_edge_link.Delta.{Delta, Entry, malformed, value_at}
use signalk_edge_link.ValueDedup.{
  delta_record, dedup_delta_payload, dedup_members, create_value_dedup_state, dedup_delta_array,
  dedup_delta, dedup_updates, dedup_update, dedup_entries, dedup_entry, dedup_value,
  undedup_delta_array, undedup_delta, undedup_updates, undedup_update, undedup_entries,
  undedup_entry, undedup_value, dup_sentinel, cache_get, cache_set, cache_has, cache_delete,
  cache_key, drop_first, is_sentinel, stable_repr,
}
use signalk_edge_link.ValueDedup.Link.{represent_delta, undedup-dedup, PlainDelta}
use signalk_edge_link.ValueDedup.Cache.{Bounded, cache-Bounded}
use signalk_edge_link.ValueDedup.Sentinels.{CleanDelta, undedup-Clean}

abbrev delta_of : Entry → Delta
delta_of e = record {
  context = none;
  updates = some (record { values = some (e ∷ malformed null ∷ []); rest = null } ∷ []);
  rest = null;
}

abbrev speed : Json → Entry
speed value = value_at (115 ∷ 111 ∷ 103 ∷ []) value null

abbrev deltas : List Delta
deltas =
    delta_of (speed (number (52 ∷ [])))
    ∷ delta_of (speed (number (52 ∷ [])))
    ∷ delta_of (speed (string (52 ∷ [])))
    ∷ []

abbrev sent : List Delta
sent =
    delta_of (speed (number (52 ∷ [])))
    ∷ delta_of (speed dup_sentinel)
    ∷ delta_of (speed (string (52 ∷ [])))
    ∷ []

dedup_delta_array-deltas : (dedup_delta_array create_value_dedup_state deltas).0 ≡ sent
unfolding dedup_delta_array dedup_delta dedup_updates dedup_update dedup_entries dedup_entry
    dedup_value create_value_dedup_state cache_get cache_set cache_has cache_delete cache_key
    stable_repr stringify escape escape_all same_text drop_first
dedup_delta_array-deltas = refl

dedup_delta_payload-record :
    (dedup_delta_payload create_value_dedup_state
      (delta_record ((7 ∷ [], delta_of (speed null)) ∷ []))).0
    ≡ delta_record ((7 ∷ [], delta_of (speed null)) ∷ [])
unfolding dedup_delta_payload dedup_members dedup_delta dedup_updates dedup_update dedup_entries
    dedup_entry dedup_value create_value_dedup_state cache_get cache_key
dedup_delta_payload-record = refl

-- A sentinel whose value the receiver missed is dropped.
undedup_delta_array-missed :
    (undedup_delta_array create_value_dedup_state (delta_of (speed dup_sentinel) ∷ [])).0
    ≡ record {
      context = none;
      updates = some (record { values = some (malformed null ∷ []); rest = null } ∷ []);
      rest = null;
    }
      ∷ []
unfolding undedup_delta_array undedup_delta undedup_updates undedup_update undedup_entries
    undedup_entry undedup_value create_value_dedup_state cache_get cache_key is_sentinel same_text
undedup_delta_array-missed = refl

plain : All PlainDelta deltas
unfolding is_sentinel
plain = (((refl, (tt, tt)), tt), (((refl, (tt, tt)), tt), (((refl, (tt, tt)), tt), tt)))

undedup-dedup_example :
    (map represent_delta
        (undedup_delta_array create_value_dedup_state
          (dedup_delta_array create_value_dedup_state deltas).0).0
      ≡ map represent_delta deltas)
    × ((undedup_delta_array create_value_dedup_state
          (dedup_delta_array create_value_dedup_state deltas).0).1
        ≡ (dedup_delta_array create_value_dedup_state deltas).1)
undedup-dedup_example = undedup-dedup create_value_dedup_state deltas plain

cache-Bounded_example :
    Bounded (dedup_delta_array create_value_dedup_state deltas).1
    × Bounded (undedup_delta_array create_value_dedup_state sent).1
cache-Bounded_example = cache-Bounded deltas sent

undedup-Clean_example : All CleanDelta (undedup_delta_array create_value_dedup_state sent).0
undedup-Clean_example = undedup-Clean sent
