-- ===== src/ValueDedup/Sentinels.antt =====
-- What a receiver forwards (`undedupDelta` of src/codec/value-dedup.ts).
use signalk_edge_link.Prelude.{
  false, Option, none, some, List, [], ◌∷◌, ◌++◌, ◌≡◌, refl, All, Bool-cases, Option-cases, inl,
  inr, leb, length,
}
use signalk_edge_link.Json.{Text, Json, same_text}
use signalk_edge_link.Delta.{Entry, malformed, value_at, Update, Delta}
use signalk_edge_link.ValueDedup.{
  Cache, cache_get, cache_has, cache_delete, cache_set, cache_key, drop_first,
  value_dedup_cache_max, is_sentinel, is_undefined, undedup_value, undedup_entry, undedup_entries,
  undedup_update, undedup_updates, undedup_delta, undedup_delta_array, create_value_dedup_state,
  push_some,
}

-- No cached value is a sentinel.
abbrev CleanCache : Cache → Type 0
CleanCache [] = Unit
CleanCache ((k, v) ∷ m) = (is_sentinel v ≡ false) × CleanCache m

-- An entry with a path has a value that is no sentinel.
abbrev CleanEntry : Entry → Type 0
CleanEntry (malformed e) = Unit
CleanEntry (value_at [] value rest) = Unit
CleanEntry (value_at (c ∷ cs) value rest) = is_sentinel value ≡ false

abbrev CleanValues : Option (List Entry) → Type 0
CleanValues none = Unit
CleanValues (some es) = All CleanEntry es

abbrev CleanUpdates : Option (List Update) → Type 0
CleanUpdates none = Unit
CleanUpdates (some us) = All (λ u. CleanValues u.values) us

abbrev pub CleanDelta : Delta → Type 0
CleanDelta d = CleanUpdates d.updates

cache_get-Clean : (m : Cache) (key : Text) → CleanCache m → is_sentinel (cache_get m key) ≡ false
unfolding cache_get is_sentinel
cache_get-Clean [] key h = refl
cache_get-Clean ((k, v) ∷ m) key h = elim (Bool-cases (same_text k key)) [
  | inl p ↦ rw p h.0
  | inr p ↦ rw p (cache_get-Clean m key h.1)
]

cache_delete-Clean : (m : Cache) (key : Text) → CleanCache m → CleanCache (cache_delete m key)
unfolding cache_delete
cache_delete-Clean [] key h = tt
cache_delete-Clean ((k, v) ∷ m) key h = elim (Bool-cases (same_text k key)) [
  | inl p ↦ rw p (cache_delete-Clean m key h.1)
  | inr p ↦ rw p (h.0, cache_delete-Clean m key h.1)
]

drop_first-Clean : (m : Cache) → CleanCache m → CleanCache (drop_first m)
unfolding drop_first
drop_first-Clean [] h = tt
drop_first-Clean (e ∷ m) h = h.1

append-Clean :
    (m : Cache) (key : Text) (v : Json)
    → CleanCache m
    → is_sentinel v ≡ false
    → CleanCache (m ++ ((key, v) ∷ []))
append-Clean [] key v h p = (p, tt)
append-Clean (e ∷ m) key v h p = (h.0, append-Clean m key v h.1 p)

cache_set-Clean :
    (m : Cache) (key : Text) (v : Json)
    → CleanCache m
    → is_sentinel v ≡ false
    → CleanCache (cache_set m key v)
unfolding cache_set
cache_set-Clean m key v h p = elim (Bool-cases (cache_has m key)) [
  | inl q ↦ rw q (append-Clean (cache_delete m key) key v (cache_delete-Clean m key h) p)
  | inr q ↦ elim (Bool-cases (leb value_dedup_cache_max (length m))) [
    | inl r ↦ rw (q, r) (append-Clean (drop_first m) key v (drop_first-Clean m h) p)
    | inr r ↦ rw (q, r) (append-Clean m key v h p)
  ]
]

-- An entry that is pushed, if any, keeps a list clean.
push_some-Clean :
    (e : Option Entry) (es : List Entry)
    → CleanValues (some (push_some e []))
    → All CleanEntry es
    → All CleanEntry (push_some e es)
push_some-Clean none es h r = r
push_some-Clean (some e) es h r = (h.0, r)

undedup_entry-Clean :
    (context : Option Text) (m : Cache) (e : Entry)
    → CleanCache m
    → All CleanEntry (push_some (undedup_entry context m e).0 [])
      × CleanCache (undedup_entry context m e).1
unfolding undedup_entry undedup_value
undedup_entry-Clean context m (malformed e) h = ((tt, tt), h)
undedup_entry-Clean context m (value_at [] value rest) h = ((tt, tt), h)
undedup_entry-Clean context m (value_at (c ∷ cs) value rest) h =
    let key : Text = cache_key context (c ∷ cs) in
    let cached : Json = cache_get m key in
    let clean = cache_get-Clean m key h in
    elim (Bool-cases (is_sentinel value)) [
      | inl r ↦ elim (Bool-cases (is_undefined cached)) [
        | inl u ↦ rw (r, u) (tt, h)
        | inr u ↦ rw (r, u) ((clean, tt), cache_set-Clean m key cached h clean)
      ]
      | inr r ↦ rw r ((r, tt), cache_set-Clean m key value h r)
    ]

undedup_entries-Clean :
    (context : Option Text) (m : Cache) (es : List Entry)
    → CleanCache m
    → All CleanEntry (undedup_entries context m es).0 × CleanCache (undedup_entries context m es).1
unfolding undedup_entries
undedup_entries-Clean context m [] h = (tt, h)
undedup_entries-Clean context m (e ∷ es) h =
    let (p, q) = undedup_entry-Clean context m e h in
    let (r, s) = undedup_entries-Clean context (undedup_entry context m e).1 es q in
    (
      push_some-Clean (undedup_entry context m e).0
          (undedup_entries context (undedup_entry context m e).1 es).0 p r,
      s,
    )

undedup_update-Clean :
    (context : Option Text) (m : Cache) (u : Update)
    → CleanCache m
    → CleanValues (undedup_update context m u).0.values × CleanCache (undedup_update context m u).1
unfolding undedup_update
undedup_update-Clean context m u h = elim (Option-cases u.values) [
  | inl p ↦ rw p (tt, h)
  | inr (es, p) ↦ rw p (undedup_entries-Clean context m es h)
]

undedup_updates-Clean :
    (context : Option Text) (m : Cache) (us : List Update)
    → CleanCache m
    → All (λ u. CleanValues u.values) (undedup_updates context m us).0
      × CleanCache (undedup_updates context m us).1
unfolding undedup_updates
undedup_updates-Clean context m [] h = (tt, h)
undedup_updates-Clean context m (u ∷ us) h =
    let (p, q) = undedup_update-Clean context m u h in
    let (r, s) = undedup_updates-Clean context (undedup_update context m u).1 us q in ((p, r), s)

undedup_delta-Clean :
    (m : Cache) (d : Delta)
    → CleanCache m
    → CleanDelta (undedup_delta m d).0 × CleanCache (undedup_delta m d).1
unfolding undedup_delta
undedup_delta-Clean m d h = elim (Option-cases d.updates) [
  | inl p ↦ rw p (tt, h)
  | inr (us, p) ↦ rw p (undedup_updates-Clean d.context m us h)
]

undedup_array-Clean :
    (m : Cache) (ds : List Delta) → CleanCache m → All CleanDelta (undedup_delta_array m ds).0
unfolding undedup_delta_array
undedup_array-Clean m [] h = tt
undedup_array-Clean m (d ∷ ds) h =
    let (p, q) = undedup_delta-Clean m d h in (p, undedup_array-Clean (undedup_delta m d).1 ds q)

-- Whatever deltas a new receiver gets, it forwards no sentinel at a path that is not empty, also where
-- it missed the value that the sentinel stands for.
pub undedup-Clean :
    (ds : List Delta) → All CleanDelta (undedup_delta_array create_value_dedup_state ds).0
unfolding create_value_dedup_state
undedup-Clean ds = undedup_array-Clean [] ds tt
