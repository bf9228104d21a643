-- ===== src/ValueDedup.antt =====
-- src/codec/value-dedup.ts: the values that a link has carried before are sent as a sentinel. The
-- functions return the cache that they leave; that they give back the very object where nothing
-- changes is not modelled.
pub mod Cache
pub mod Link
pub mod Sentinels
mod Tests
use signalk_edge_link.Prelude.{
  ℕ, Bool, true, false, not, ◌&&◌, Option, none, some, List, [], ◌∷◌, ◌++◌, leb, ◌==◌,
  if◌then◌else◌, length,
}
use signalk_edge_link.Json.{
  Text, Json, Items, Fields, undefined, null, boolean, number, nan, infinity, negative_infinity,
  string, array, object, no_fields, field, same_text, stringify, undefined_text,
}
use signalk_edge_link.Delta.{Entry, malformed, value_at, Update, Delta}

-- `ValueDedupState`: a `Map`, its entries in insertion order.
abbrev pub Cache : Type 0
Cache = List (Text × Json)

-- `VALUE_DEDUP_CACHE_MAX`
abbrev pub value_dedup_cache_max : ℕ
value_dedup_cache_max = 10000

-- `{ $$: "dup" }`
abbrev pub dup_sentinel : Json
dup_sentinel = object (field (36 ∷ 36 ∷ []) (string (100 ∷ 117 ∷ 112 ∷ [])) no_fields)

pub create_value_dedup_state : Cache
create_value_dedup_state = []

-- `${context || "*"}\u0000${path}`: a missing context and an empty one are "*".
unfoldable pub cache_key : Option Text → Text → Text
cache_key none path = 42 ∷ 0 ∷ path
cache_key (some []) path = 42 ∷ 0 ∷ path
cache_key (some (c ∷ cs)) path = (c ∷ cs) ++ (0 ∷ path)

unfoldable pub cache_has : Cache → Text → Bool
cache_has [] key = false
cache_has ((k, v) ∷ m) key = let rest = cache_has m key in if same_text k key then true else rest

-- `cache.get(key)`, which is `undefined` for a key that is not there.
unfoldable pub cache_get : Cache → Text → Json
cache_get [] key = undefined
cache_get ((k, v) ∷ m) key = let rest = cache_get m key in if same_text k key then v else rest

unfoldable pub cache_delete : Cache → Text → Cache
cache_delete [] key = []
cache_delete ((k, v) ∷ m) key =
    let rest = cache_delete m key in if same_text k key then rest else (k, v) ∷ rest

unfoldable pub drop_first : Cache → Cache
drop_first [] = []
drop_first (e ∷ m) = m

-- The key is not in the map when it is set, so that it goes to the end.
unfoldable pub cache_set : Cache → Text → Json → Cache
cache_set m key value =
    (if cache_has m key
      then cache_delete m key
      else if leb value_dedup_cache_max (length m)
      then drop_first m
      else m)
    ++ ((key, value) ∷ [])

abbrev dup_text : Json → Bool
dup_text (string s) = same_text s (100 ∷ 117 ∷ 112 ∷ [])
dup_text other = false

-- An object whose one member is `$$` with the value "dup".
unfoldable pub is_sentinel : Json → Bool
is_sentinel (object (field k v no_fields)) = same_text k (36 ∷ 36 ∷ []) && dup_text v
is_sentinel other = false

unfoldable pub stable_repr : Json → Text
stable_repr undefined = undefined_text
stable_repr nan = 0 ∷ 110 ∷ 97 ∷ 110 ∷ []
stable_repr infinity = 0 ∷ 43 ∷ 105 ∷ 110 ∷ 102 ∷ []
stable_repr negative_infinity = 0 ∷ 45 ∷ 105 ∷ 110 ∷ 102 ∷ []
stable_repr other = stringify other

abbrev pub is_undefined : Json → Bool
is_undefined undefined = true
is_undefined other = false

-- One entry of `values` in `dedupDelta`.
unfoldable pub dedup_value : Cache → Text → Text → Json → Json → Entry × Cache
dedup_value m key path value rest =
    let cached = cache_get m key in
    if not (is_undefined cached) && same_text (stable_repr cached) (stable_repr value)
    then (value_at path dup_sentinel rest, cache_set m key cached)
    else (value_at path value rest, cache_set m key value)

unfoldable pub dedup_entry : Option Text → Cache → Entry → Entry × Cache
dedup_entry context m (malformed e) = (malformed e, m)
dedup_entry context m (value_at [] value rest) = (value_at [] value rest, m)
dedup_entry context m (value_at (c ∷ cs) value rest) =
    dedup_value m (cache_key context (c ∷ cs)) (c ∷ cs) value rest

unfoldable pub dedup_entries : Option Text → Cache → List Entry → List Entry × Cache
dedup_entries context m [] = ([], m)
dedup_entries context m (e ∷ es) =
    let (e', m') = dedup_entry context m e in
    let (es', m'') = dedup_entries context m' es in (e' ∷ es', m'')

unfoldable pub dedup_update : Option Text → Cache → Update → Update × Cache
dedup_update context m u = elim u.values [
  | none ↦ (u, m)
  | some es ↦ let (es', m') = dedup_entries context m es in (record u { values = some es' }, m')
]

unfoldable pub dedup_updates : Option Text → Cache → List Update → List Update × Cache
dedup_updates context m [] = ([], m)
dedup_updates context m (u ∷ us) =
    let (u', m') = dedup_update context m u in
    let (us', m'') = dedup_updates context m' us in (u' ∷ us', m'')

unfoldable pub dedup_delta : Cache → Delta → Delta × Cache
dedup_delta m d = elim d.updates [
  | none ↦ (d, m)
  | some us ↦ let (us', m') = dedup_updates d.context m us in (record d { updates = some us' }, m')
]

unfoldable pub dedup_delta_array : Cache → List Delta → List Delta × Cache
dedup_delta_array m [] = ([], m)
dedup_delta_array m (d ∷ ds) =
    let (d', m') = dedup_delta m d in let (ds', m'') = dedup_delta_array m' ds in (d' ∷ ds', m'')

-- One entry of `values` in `undedupDelta`; a sentinel without a cached value gives none.
unfoldable pub undedup_value : Cache → Text → Text → Json → Json → Option Entry × Cache
undedup_value m key path value rest =
    let cached = cache_get m key in
    if is_sentinel value
    then if is_undefined cached
      then (none, m)
      else (some (value_at path cached rest), cache_set m key cached)
    else (some (value_at path value rest), cache_set m key value)

unfoldable pub undedup_entry : Option Text → Cache → Entry → Option Entry × Cache
undedup_entry context m (malformed e) = (some (malformed e), m)
undedup_entry context m (value_at [] value rest) = (some (value_at [] value rest), m)
undedup_entry context m (value_at (c ∷ cs) value rest) =
    undedup_value m (cache_key context (c ∷ cs)) (c ∷ cs) value rest

abbrev pub push_some : Option Entry → List Entry → List Entry
push_some none es = es
push_some (some e) es = e ∷ es

unfoldable pub undedup_entries : Option Text → Cache → List Entry → List Entry × Cache
undedup_entries context m [] = ([], m)
undedup_entries context m (e ∷ es) =
    let (e', m') = undedup_entry context m e in
    let (es', m'') = undedup_entries context m' es in (push_some e' es', m'')

unfoldable pub undedup_update : Option Text → Cache → Update → Update × Cache
undedup_update context m u = elim u.values [
  | none ↦ (u, m)
  | some es ↦ let (es', m') = undedup_entries context m es in (record u { values = some es' }, m')
]

unfoldable pub undedup_updates : Option Text → Cache → List Update → List Update × Cache
undedup_updates context m [] = ([], m)
undedup_updates context m (u ∷ us) =
    let (u', m') = undedup_update context m u in
    let (us', m'') = undedup_updates context m' us in (u' ∷ us', m'')

unfoldable pub undedup_delta : Cache → Delta → Delta × Cache
undedup_delta m d = elim d.updates [
  | none ↦ (d, m)
  | some us ↦
      let (us', m') = undedup_updates d.context m us in (record d { updates = some us' }, m')
]

unfoldable pub undedup_delta_array : Cache → List Delta → List Delta × Cache
undedup_delta_array m [] = ([], m)
undedup_delta_array m (d ∷ ds) =
    let (d', m') = undedup_delta m d in
    let (ds', m'') = undedup_delta_array m' ds in (d' ∷ ds', m'')

-- The three forms of a payload.
pub data DeltaPayload : Type 0 where
  delta_array : List Delta → DeltaPayload
  single_delta : Delta → DeltaPayload
  delta_record : List (Text × Delta) → DeltaPayload

unfoldable pub dedup_members : Cache → List (Text × Delta) → List (Text × Delta) × Cache
dedup_members m [] = ([], m)
dedup_members m ((k, d) ∷ ds) =
    let (d', m') = dedup_delta m d in let (ds', m'') = dedup_members m' ds in ((k, d') ∷ ds', m'')

unfoldable pub dedup_delta_payload : Cache → DeltaPayload → DeltaPayload × Cache
dedup_delta_payload m (delta_array ds) =
    let (ds', m') = dedup_delta_array m ds in (delta_array ds', m')
dedup_delta_payload m (single_delta d) = let (d', m') = dedup_delta m d in (single_delta d', m')
dedup_delta_payload m (delta_record ds) =
    let (ds', m') = dedup_members m ds in (delta_record ds', m')
