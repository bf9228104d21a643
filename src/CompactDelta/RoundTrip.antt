-- ===== src/CompactDelta/RoundTrip.antt =====
-- What comes out of the decoder of src/codec/compact-delta.ts for what the encoder wrote.
use signalk_edge_link.Prelude.{
  Bool, true, false, some, List, [], ◌∷◌, map, ◌≡◌, refl, ap, ap₂, ◌∙◌, if◌then◌else◌,
}
use signalk_edge_link.Json.{
  Json, Items, undefined, null, boolean, number, nan, infinity, negative_infinity, string, array,
  object, no_items, item,
}
use signalk_edge_link.CompactDelta.{
  SourceUpdate, SourceDelta, DecodedUpdate, DecodedDelta, Payload, delta_list, one_delta,
  delta_members, deltas_of, member, path_key, value_key, is_undefined, entries_of, or_null,
  meta_or_null, updates_of, pair, push_decoded, encode_entries, encode_update, encode_updates,
  encode_compact_delta, encode_deltas, encode_compact_payload, decode_tuples, tuples_of,
  present_or_undefined, string_or_undefined, decode_update, decode_updates, context_of,
  decode_compact_delta, is_compact_delta_array, decode_deltas, decode_compact_delta_array,
}

-- The pairs of the entries with a path.
unfoldable pub path_pairs : Items → List (Json × Json)
path_pairs no_items = []
path_pairs (item (object fs) es) =
    let rest = path_pairs es in
    if is_undefined (member fs path_key)
    then rest
    else (member fs path_key, member fs value_key) ∷ rest
path_pairs (item other es) = path_pairs es

abbrev pairs_of : Json → List (Json × Json)
pairs_of (array es) = path_pairs es
pairs_of other = []

-- An update as the receiver shall see it: a member of another type than the decoder's is missing.
unfoldable pub view_update : SourceUpdate → DecodedUpdate
view_update u = record {
  source = present_or_undefined u.source;
  dollar_source = string_or_undefined u.dollar_source;
  timestamp = string_or_undefined u.timestamp;
  values = pairs_of u.values;
  meta = pairs_of u.meta;
}

unfoldable pub view_delta : SourceDelta → DecodedDelta
view_delta d = record { context = context_of d.context; updates = map view_update (updates_of d) }

unfoldable pub payload_deltas : Payload → List SourceDelta
payload_deltas (delta_list ds) = ds
payload_deltas (one_delta context us) = record { context = context; updates = some us } ∷ []
payload_deltas (delta_members ms) = deltas_of ms

kept-pair :
    (b : Bool) (p v : Json) (es : Items) (ps : List (Json × Json))
    → decode_tuples es ≡ ps
    → decode_tuples (if b then es else item (pair p v) es) ≡ (if b then ps else (p, v) ∷ ps)
unfolding decode_tuples
kept-pair true p v es ps same = same
kept-pair false p v es ps same = ap (λ l. (p, v) ∷ l) same

decode_tuples-encode_entries : (es : Items) → decode_tuples (encode_entries es) ≡ path_pairs es
unfolding decode_tuples encode_entries path_pairs
decode_tuples-encode_entries no_items = refl
decode_tuples-encode_entries (item (object fs) es) =
    kept-pair (is_undefined (member fs path_key)) (member fs path_key) (member fs value_key)
      (encode_entries es) (path_pairs es) (decode_tuples-encode_entries es)
decode_tuples-encode_entries (item undefined es) = decode_tuples-encode_entries es
decode_tuples-encode_entries (item null es) = decode_tuples-encode_entries es
decode_tuples-encode_entries (item (boolean b) es) = decode_tuples-encode_entries es
decode_tuples-encode_entries (item (number n) es) = decode_tuples-encode_entries es
decode_tuples-encode_entries (item nan es) = decode_tuples-encode_entries es
decode_tuples-encode_entries (item infinity es) = decode_tuples-encode_entries es
decode_tuples-encode_entries (item negative_infinity es) = decode_tuples-encode_entries es
decode_tuples-encode_entries (item (string s) es) = decode_tuples-encode_entries es
decode_tuples-encode_entries (item (array xs) es) = decode_tuples-encode_entries es

-- `or_null` is not seen by what takes null for `undefined`.
keeps_null {ℓ} :
    {A : Type ℓ} (f : Json → A) → f null ≡ f undefined → (x : Json) → f (or_null x) ≡ f x
keeps_null f same undefined = same
keeps_null f same null = refl
keeps_null f same (boolean b) = refl
keeps_null f same (number n) = refl
keeps_null f same nan = refl
keeps_null f same infinity = refl
keeps_null f same negative_infinity = refl
keeps_null f same (string s) = refl
keeps_null f same (array xs) = refl
keeps_null f same (object fs) = refl

values_of : (x : Json) → decode_tuples (entries_of x) ≡ pairs_of x
unfolding decode_tuples
values_of (array es) = decode_tuples-encode_entries es
values_of undefined = refl
values_of null = refl
values_of (boolean b) = refl
values_of (number n) = refl
values_of nan = refl
values_of infinity = refl
values_of negative_infinity = refl
values_of (string s) = refl
values_of (object fs) = refl

tuples_of-meta : (es : Items) → tuples_of (meta_or_null es) ≡ decode_tuples es
unfolding decode_tuples
tuples_of-meta no_items = refl
tuples_of-meta (item e es) = refl

decode-encode_update : (u : SourceUpdate) → decode_update (encode_update u) ≡ some (view_update u)
unfolding decode_update encode_update view_update
decode-encode_update u = λ i. some (record {
  source = keeps_null present_or_undefined refl u.source i;
  dollar_source = keeps_null string_or_undefined refl u.dollar_source i;
  timestamp = keeps_null string_or_undefined refl u.timestamp i;
  values = values_of u.values i;
  meta = (tuples_of-meta (entries_of u.meta) ∙ values_of u.meta) i;
})

decode-encode_updates :
    (us : List SourceUpdate) → decode_updates (encode_updates us) ≡ map view_update us
unfolding decode_updates encode_updates
decode-encode_updates [] = refl
decode-encode_updates (u ∷ us) =
    ap₂ push_decoded (decode-encode_update u) (decode-encode_updates us)

decode-encode_compact_delta :
    (d : SourceDelta) → decode_compact_delta (encode_compact_delta d) ≡ some (view_delta d)
unfolding decode_compact_delta encode_compact_delta view_delta
decode-encode_compact_delta d = λ i. some (record {
  context = keeps_null context_of refl d.context i;
  updates = decode-encode_updates (updates_of d) i;
})

decode-encode_deltas :
    (ds : List SourceDelta) → decode_deltas (encode_deltas ds) ≡ map view_delta ds
unfolding decode_deltas encode_deltas
decode-encode_deltas [] = refl
decode-encode_deltas (d ∷ ds) =
    ap₂ push_decoded (decode-encode_compact_delta d) (decode-encode_deltas ds)

abbrev pub has_deltas : List SourceDelta → Bool
has_deltas [] = false
has_deltas (d ∷ ds) = true

recognised :
    (ds : List SourceDelta) → is_compact_delta_array (array (encode_deltas ds)) ≡ has_deltas ds
unfolding is_compact_delta_array encode_deltas encode_compact_delta
recognised [] = refl
recognised (d ∷ ds) = refl

encode_payload-deltas : (p : Payload) → encode_compact_payload p ≡ encode_deltas (payload_deltas p)
unfolding encode_compact_payload payload_deltas encode_deltas
encode_payload-deltas (delta_list ds) = refl
encode_payload-deltas (one_delta context us) = refl
encode_payload-deltas (delta_members ms) = refl

-- Decoding an encoded payload, in each of its three forms, gives its deltas as the receiver shall see
-- them: a context that is no text becomes empty, `source` keeps its value unless it is null, `$source`
-- and `timestamp` are kept if they are texts, and the entries of `values` and `meta` with a path keep
-- path and value in order. The receiver's test takes the array for compact if and only if it has a delta.
pub decode-encode_payload :
    (p : Payload)
    → (decode_compact_delta_array (array (encode_compact_payload p))
        ≡ map view_delta (payload_deltas p))
      × (is_compact_delta_array (array (encode_compact_payload p)) ≡ has_deltas (payload_deltas p))
unfolding decode_compact_delta_array
decode-encode_payload p = (
  ap decode_deltas (encode_payload-deltas p) ∙ decode-encode_deltas (payload_deltas p),
  ap (λ es. is_compact_delta_array (array es)) (encode_payload-deltas p)
      ∙ recognised (payload_deltas p),
)
