-- ===== src/ValueDedup/Cache.antt =====
-- The cache of src/codec/value-dedup.ts: `cacheSet` and its bound.
use signalk_edge_link.Prelude.{
  ◌≤◌, ◌<◌, true, not, ◌&&◌, Option, List, [], ◌∷◌, ◌≡◌, arith, Bool-cases, length, length-append,
  leb, inl, inr, Option-cases,
}
use signalk_edge_link.Json.{Text, Json, same_text}
use signalk_edge_link.Delta.{Entry, malformed, value_at, Update, Delta}
use signalk_edge_link.ValueDedup.{
  Cache, cache_get, cache_has, cache_delete, cache_set, cache_key, drop_first,
  value_dedup_cache_max, is_sentinel, is_undefined, stable_repr, undedup_value, undedup_entry,
  undedup_entries, undedup_update, undedup_updates, undedup_delta, undedup_delta_array,
  create_value_dedup_state, dedup_delta_array, dedup_delta, dedup_updates, dedup_update,
  dedup_entries, dedup_entry, dedup_value,
}

-- The cache holds at most VALUE_DEDUP_CACHE_MAX values.
abbrev pub Bounded : Cache → Type 0
Bounded m = length m ≤ value_dedup_cache_max

length-cache_delete_le : (m : Cache) (key : Text) → length (cache_delete m key) ≤ length m
unfolding cache_delete
length-cache_delete_le [] key = omega arith
length-cache_delete_le ((k, v) ∷ m) key =
    let r = length-cache_delete_le m key in
    elim (Bool-cases (same_text k key)) [ inl p ↦ rw p (omega arith) | inr p ↦ rw p (omega arith) ]

length-cache_delete :
    (m : Cache) (key : Text) → cache_has m key ≡ true → length (cache_delete m key) < length m
unfolding cache_delete cache_has
length-cache_delete [] key h = ground arith
length-cache_delete ((k, v) ∷ m) key h = elim (Bool-cases (same_text k key)) [
  | inl p ↦ let r = length-cache_delete_le m key in rw p (omega arith)
  | inr p ↦ let r = length-cache_delete m key (rw p at h) in rw p (omega arith)
]

length-drop_first : (m : Cache) → 0 < length m → length (drop_first m) < length m
unfolding drop_first
length-drop_first [] h = omega arith
length-drop_first (e ∷ m) h = omega arith

cache_set-Bounded : (m : Cache) (key : Text) (v : Json) → Bounded m → Bounded (cache_set m key v)
unfolding cache_set
cache_set-Bounded m key v h = elim (Bool-cases (cache_has m key)) [
  | inl p ↦
      let r = length-cache_delete m key p in
      rw p (omega (arith, length-append (cache_delete m key) ((key, v) ∷ [])))
  | inr p ↦ elim (Bool-cases (leb value_dedup_cache_max (length m))) [
    | inl q ↦
        let full : value_dedup_cache_max ≤ length m = ground arith in
        let r = length-drop_first m (omega arith) in
        rw (p, q) (omega (arith, length-append (drop_first m) ((key, v) ∷ [])))
    | inr q ↦
        let room : length m < value_dedup_cache_max = ground arith in
        rw (p, q) (omega (arith, length-append m ((key, v) ∷ [])))
  ]
]

-- What every write to the cache keeps, both walks over deltas keep.
module _ (P : Cache → Type 0)
    (write : (m : Cache) (key : Text) (v : Json) → P m → P (cache_set m key v)) where
  dedup_entry-keeps :
      (context : Option Text) (m : Cache) (e : Entry) → P m → P (dedup_entry context m e).1
  unfolding dedup_entry dedup_value
  dedup_entry-keeps context m (malformed e) h = h
  dedup_entry-keeps context m (value_at [] value rest) h = h
  dedup_entry-keeps context m (value_at (c ∷ cs) value rest) h =
      let key : Text = cache_key context (c ∷ cs) in
      let cached : Json = cache_get m key in
      elim (Bool-cases
        (not (is_undefined cached) && same_text (stable_repr cached) (stable_repr value))) [
          | inl r ↦ rw r (write m key cached h)
          | inr r ↦ rw r (write m key value h)
        ]

  dedup_entries-keeps :
      (context : Option Text) (m : Cache) (es : List Entry) → P m → P (dedup_entries context m es).1
  unfolding dedup_entries
  dedup_entries-keeps context m [] h = h
  dedup_entries-keeps context m (e ∷ es) h =
      dedup_entries-keeps context (dedup_entry context m e).1 es (dedup_entry-keeps context m e h)

  dedup_update-keeps :
      (context : Option Text) (m : Cache) (u : Update) → P m → P (dedup_update context m u).1
  unfolding dedup_update
  dedup_update-keeps context m u h = elim (Option-cases u.values) [
    | inl p ↦ rw p h
    | inr (es, p) ↦ rw p (dedup_entries-keeps context m es h)
  ]

  dedup_updates-keeps :
      (context : Option Text) (m : Cache) (us : List Update)
      → P m
      → P (dedup_updates context m us).1
  unfolding dedup_updates
  dedup_updates-keeps context m [] h = h
  dedup_updates-keeps context m (u ∷ us) h =
      dedup_updates-keeps context (dedup_update context m u).1 us (dedup_update-keeps context m u h)

  dedup_delta-keeps : (m : Cache) (d : Delta) → P m → P (dedup_delta m d).1
  unfolding dedup_delta
  dedup_delta-keeps m d h = elim (Option-cases d.updates) [
    | inl p ↦ rw p h
    | inr (us, p) ↦ rw p (dedup_updates-keeps d.context m us h)
  ]

  dedup_delta_array-keeps : (m : Cache) (ds : List Delta) → P m → P (dedup_delta_array m ds).1
  unfolding dedup_delta_array
  dedup_delta_array-keeps m [] h = h
  dedup_delta_array-keeps m (d ∷ ds) h =
      dedup_delta_array-keeps (dedup_delta m d).1 ds (dedup_delta-keeps m d h)

  undedup_entry-keeps :
      (context : Option Text) (m : Cache) (e : Entry) → P m → P (undedup_entry context m e).1
  unfolding undedup_entry undedup_value
  undedup_entry-keeps context m (malformed e) h = h
  undedup_entry-keeps context m (value_at [] value rest) h = h
  undedup_entry-keeps context m (value_at (c ∷ cs) value rest) h =
      let key : Text = cache_key context (c ∷ cs) in
      let cached : Json = cache_get m key in
      elim (Bool-cases (is_sentinel value)) [
        | inl r ↦ elim (Bool-cases (is_undefined cached)) [
          | inl u ↦ rw (r, u) h
          | inr u ↦ rw (r, u) (write m key cached h)
        ]
        | inr r ↦ rw r (write m key value h)
      ]

  undedup_entries-keeps :
      (context : Option Text) (m : Cache) (es : List Entry)
      → P m
      → P (undedup_entries context m es).1
  unfolding undedup_entries
  undedup_entries-keeps context m [] h = h
  undedup_entries-keeps context m (e ∷ es) h =
      undedup_entries-keeps context (undedup_entry context m e).1 es
        (undedup_entry-keeps context m e h)

  undedup_update-keeps :
      (context : Option Text) (m : Cache) (u : Update) → P m → P (undedup_update context m u).1
  unfolding undedup_update
  undedup_update-keeps context m u h = elim (Option-cases u.values) [
    | inl p ↦ rw p h
    | inr (es, p) ↦ rw p (undedup_entries-keeps context m es h)
  ]

  undedup_updates-keeps :
      (context : Option Text) (m : Cache) (us : List Update)
      → P m
      → P (undedup_updates context m us).1
  unfolding undedup_updates
  undedup_updates-keeps context m [] h = h
  undedup_updates-keeps context m (u ∷ us) h =
      undedup_updates-keeps context (undedup_update context m u).1 us
        (undedup_update-keeps context m u h)

  undedup_delta-keeps : (m : Cache) (d : Delta) → P m → P (undedup_delta m d).1
  unfolding undedup_delta
  undedup_delta-keeps m d h = elim (Option-cases d.updates) [
    | inl p ↦ rw p h
    | inr (us, p) ↦ rw p (undedup_updates-keeps d.context m us h)
  ]

  undedup_delta_array-keeps : (m : Cache) (ds : List Delta) → P m → P (undedup_delta_array m ds).1
  unfolding undedup_delta_array
  undedup_delta_array-keeps m [] h = h
  undedup_delta_array-keeps m (d ∷ ds) h =
      undedup_delta_array-keeps (undedup_delta m d).1 ds (undedup_delta-keeps m d h)

-- Whatever deltas are sent or received, the caches of the sender and of the receiver hold at most
-- VALUE_DEDUP_CACHE_MAX values.
pub cache-Bounded :
    (sent received : List Delta)
    → Bounded (dedup_delta_array create_value_dedup_state sent).1
      × Bounded (undedup_delta_array create_value_dedup_state received).1
unfolding create_value_dedup_state
cache-Bounded sent received = (
  dedup_delta_array-keeps Bounded cache_set-Bounded [] sent (omega arith),
  undedup_delta_array-keeps Bounded cache_set-Bounded [] received (omega arith),
)
