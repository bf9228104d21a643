-- ===== src/ValueDedup/Link.antt =====
-- The sender's and the receiver's walk over the same deltas (src/codec/value-dedup.ts).
use signalk_edge_link.Prelude.{
  true, false, Option, none, some, List, [], ◌∷◌, ◌≡◌, refl, map, ap, ap₂, All, arith, Bool-cases,
  Option-cases, inl, inr,
}
use signalk_edge_link.Json.{Text, Json, string, same_text}
use signalk_edge_link.Delta.{Entry, malformed, value_at, Update, Delta}
use signalk_edge_link.ValueDedup.{
  Cache, cache_get, cache_key, is_sentinel, is_undefined, stable_repr, dedup_value, dedup_entry,
  dedup_entries, dedup_update, dedup_updates, dedup_delta, dedup_delta_array, undedup_value,
  undedup_entry, undedup_entries, undedup_update, undedup_updates, undedup_delta,
  undedup_delta_array,
}

same_text_lem : (a b : Text) → same_text a b ≡ true → a ≡ b
unfolding same_text
same_text_lem [] [] h = refl
same_text_lem [] (b ∷ bs) h = ground arith
same_text_lem (a ∷ as_) [] h = ground arith
same_text_lem (a ∷ as_) (b ∷ bs) h =
    let p : a ≡ b = ground arith in
    let q : same_text as_ bs ≡ true = ground arith in
    ap₂ (λ x xs. x ∷ xs) p (same_text_lem as_ bs q)

-- A delta up to what `JSON.stringify` does not tell apart: each value is its representation.
abbrev represent : Entry → Entry
represent (malformed e) = malformed e
represent (value_at path value rest) = value_at path (string (stable_repr value)) rest

abbrev represent_values : Option (List Entry) → Option (List Entry)
represent_values none = none
represent_values (some es) = some (map represent es)

abbrev represent_update : Update → Update
represent_update u = record u { values = represent_values u.values }

abbrev represent_updates : Option (List Update) → Option (List Update)
represent_updates none = none
represent_updates (some us) = some (map represent_update us)

abbrev pub represent_delta : Delta → Delta
represent_delta d = record d { updates = represent_updates d.updates }

-- No value of a delta is the reserved sentinel.
abbrev IsPlain : Entry → Type 0
IsPlain (malformed e) = Unit
IsPlain (value_at path value rest) = is_sentinel value ≡ false

abbrev PlainValues : Option (List Entry) → Type 0
PlainValues none = Unit
PlainValues (some es) = All IsPlain es

abbrev PlainUpdates : Option (List Update) → Type 0
PlainUpdates none = Unit
PlainUpdates (some us) = All (λ u. PlainValues u.values) us

abbrev pub PlainDelta : Delta → Type 0
PlainDelta d = PlainUpdates d.updates

entry-link :
    (context : Option Text) (m : Cache) (e : Entry)
    → IsPlain e
    → (e' : Entry) × (undedup_entry context m (dedup_entry context m e).0
        ≡ (some e', (dedup_entry context m e).1))
      × (represent e' ≡ represent e)
unfolding undedup_entry dedup_entry undedup_value dedup_value is_sentinel same_text
entry-link context m (malformed e) h = (malformed e, refl, refl)
entry-link context m (value_at [] value rest) h = (value_at [] value rest, refl, refl)
entry-link context m (value_at (c ∷ cs) value rest) h =
    let key : Text = cache_key context (c ∷ cs) in
    let cached : Json = cache_get m key in
    elim (Bool-cases (is_undefined cached)) [
      | inl u ↦ (value_at (c ∷ cs) value rest, rw (u, h), refl)
      | inr u ↦ elim (Bool-cases (same_text (stable_repr cached) (stable_repr value))) [
        | inl s ↦ (
          value_at (c ∷ cs) cached rest,
          rw (u, s, u),
          ap (λ r. value_at (c ∷ cs) (string r) rest)
              (same_text_lem (stable_repr cached) (stable_repr value) s),
        )
        | inr s ↦ (value_at (c ∷ cs) value rest, rw (u, s, h), refl)
      ]
    ]

entries-link :
    (context : Option Text) (m : Cache) (es : List Entry)
    → All IsPlain es
    → (map represent (undedup_entries context m (dedup_entries context m es).0).0
        ≡ map represent es)
      × ((undedup_entries context m (dedup_entries context m es).0).1
          ≡ (dedup_entries context m es).1)
unfolding undedup_entries dedup_entries
entries-link context m [] h = (refl, refl)
entries-link context m (e ∷ es) h =
    let (e', p, q) = entry-link context m e h.0 in
    let (r, s) = entries-link context (dedup_entry context m e).1 es h.1 in
    (rw (undedup_entries, p) (ap₂ (λ x xs. x ∷ xs) q r), rw (undedup_entries, p) s)

update-link :
    (context : Option Text) (m : Cache) (u : Update)
    → PlainValues u.values
    → (represent_update (undedup_update context m (dedup_update context m u).0).0
        ≡ represent_update u)
      × ((undedup_update context m (dedup_update context m u).0).1 ≡ (dedup_update context m u).1)
unfolding undedup_update dedup_update
update-link context m u h = elim (Option-cases u.values) [
  | inl p ↦ (rw p refl, rw p refl)
  | inr (es, p) ↦
      let (r, s) = entries-link context m es (rw p at h) in
      (rw p (ap (λ x. record u { values = some x }) r), rw p s)
]

updates-link :
    (context : Option Text) (m : Cache) (us : List Update)
    → All (λ u. PlainValues u.values) us
    → (map represent_update (undedup_updates context m (dedup_updates context m us).0).0
        ≡ map represent_update us)
      × ((undedup_updates context m (dedup_updates context m us).0).1
          ≡ (dedup_updates context m us).1)
unfolding undedup_updates dedup_updates
updates-link context m [] h = (refl, refl)
updates-link context m (u ∷ us) h =
    let (p, q) = update-link context m u h.0 in
    let (r, s) = updates-link context (dedup_update context m u).1 us h.1 in
    (rw (undedup_updates, q) (ap₂ (λ x xs. x ∷ xs) p r), rw (undedup_updates, q) s)

delta-link :
    (m : Cache) (d : Delta)
    → PlainDelta d
    → (represent_delta (undedup_delta m (dedup_delta m d).0).0 ≡ represent_delta d)
      × ((undedup_delta m (dedup_delta m d).0).1 ≡ (dedup_delta m d).1)
unfolding undedup_delta dedup_delta
delta-link m d h = elim (Option-cases d.updates) [
  | inl p ↦ (rw p refl, rw p refl)
  | inr (us, p) ↦
      let (r, s) = updates-link d.context m us (rw p at h) in
      (rw p (ap (λ x. record d { updates = some x }) r), rw p s)
]

-- If no value of the deltas is the reserved sentinel, then a receiver whose cache is the sender's
-- restores from the deltas that the sender makes of them, in order, the same contexts, updates, paths
-- and other members, with values of the same representation; and their caches are the same again.
pub undedup-dedup :
    (m : Cache) (ds : List Delta)
    → All PlainDelta ds
    → (map represent_delta (undedup_delta_array m (dedup_delta_array m ds).0).0
        ≡ map represent_delta ds)
      × ((undedup_delta_array m (dedup_delta_array m ds).0).1 ≡ (dedup_delta_array m ds).1)
unfolding undedup_delta_array dedup_delta_array
undedup-dedup m [] h = (refl, refl)
undedup-dedup m (d ∷ ds) h =
    let (p, q) = delta-link m d h.0 in
    let (r, s) = undedup-dedup (dedup_delta m d).1 ds h.1 in
    (rw (undedup_delta_array, q) (ap₂ (λ x xs. x ∷ xs) p r), rw (undedup_delta_array, q) s)
