-- ===== src/RetransmitQueue/Oldest.antt =====
-- Which entry `_evictOldest` takes.
use signalk_edge_link.Prelude.{
  ℕ, suc, ◌≤◌, ◌<◌, ◌≡◌, refl, false, none, some, [], ◌∷◌, ltb, arith, ◌⊎◌, inl, inr, Bool-cases,
  ==-self, length,
}
use signalk_edge_link.JsSet.{has, Distinct}
use signalk_edge_link.JsMap
use signalk_edge_link.JsMap.{keys}
use signalk_edge_link.JsMap.Laws.{length-delete, has-keys_of_get}
use signalk_edge_link.RetransmitQueue.{
  QueueEntry, Entries, RetransmitQueue, oldest_entry, evict_oldest,
}

-- `at` is at most the enqueue time of every entry.
abbrev pub AtMost : ℕ → Entries → Type 0
AtMost at [] = Unit
AtMost at ((seq, e) ∷ m) = (at ≤ e.original_timestamp) × AtMost at m

AtMost-mono : (a b : ℕ) (m : Entries) → a ≤ b → AtMost b m → AtMost a m
AtMost-mono a b [] h l = tt
AtMost-mono a b ((seq, e) ∷ m) h l = (omega arith, AtMost-mono a b m h l.1)

-- The map holds an entry under `k` that was enqueued at `t`.
abbrev Holds : ℕ → ℕ → Entries → Type 0
Holds k t m = (e : QueueEntry) × (JsMap.get m k ≡ some e) × (e.original_timestamp ≡ t)

Holds-here :
    (seq : ℕ) (e : QueueEntry) (m : Entries) → Holds seq e.original_timestamp ((seq, e) ∷ m)
unfolding JsMap.get
Holds-here seq e m = (e, rw (==-self seq), refl)

Holds-there :
    (k t seq : ℕ) (e : QueueEntry) (m : Entries)
    → has (keys m) seq ≡ false
    → Holds k t m
    → Holds k t ((seq, e) ∷ m)
unfolding JsMap.get
Holds-there k t seq e m n (x, g, o) = (x, ground (arith, has-keys_of_get m k x g, congr), o)
  where
    congr : seq ≡ k → has (keys m) seq ≡ has (keys m) k
    congr p = rw p

-- What a scan that has found `(key, at)` so far ends with.
scan_lem :
    (key at : ℕ) (m : Entries)
    → Distinct (keys m)
    → (k : ℕ) × (t : ℕ) × (oldest_entry (some (key, at)) m ≡ some (k, t))
      × (t ≤ at)
      × AtMost t m
      × (((k ≡ key) × (t ≡ at)) ⊎ Holds k t m)
unfolding oldest_entry keys
scan_lem key at [] d = (key, at, refl, omega arith, tt, inl (refl, refl))
scan_lem key at ((seq, e) ∷ m) d = elim (Bool-cases (ltb e.original_timestamp at)) [
  | inl older ↦
      let (k, t, q, l, a, f) = scan_lem seq e.original_timestamp m d.1 in
      let h : Holds k t ((seq, e) ∷ m) = elim f [
        | inl (p, r) ↦ rw (p, r) (Holds-here seq e m)
        | inr h ↦ Holds-there k t seq e m d.0 h
      ] in
      (k, t, rw older q, ground arith, (l, a), inr h)
  | inr newer ↦
      let (k, t, q, l, a, f) = scan_lem key at m d.1 in
      let h : ((k ≡ key) × (t ≡ at)) ⊎ Holds k t ((seq, e) ∷ m) = elim f [
        | inl p ↦ inl p
        | inr h ↦ inr (Holds-there k t seq e m d.0 h)
      ] in
      (k, t, rw newer q, l, (ground arith, a), h)
]

oldest_entry_lem :
    (m : Entries)
    → Distinct (keys m)
    → 0 < length m
    → (k : ℕ) × (t : ℕ) × (oldest_entry none m ≡ some (k, t)) × AtMost t m × Holds k t m
unfolding oldest_entry keys
oldest_entry_lem [] d h = absurd (omega arith)
oldest_entry_lem ((seq, e) ∷ m) d h =
    let (k, t, q, l, a, f) = scan_lem seq e.original_timestamp m d.1 in
    let h : Holds k t ((seq, e) ∷ m) = elim f [
      | inl (p, r) ↦ rw (p, r) (Holds-here seq e m)
      | inr h ↦ Holds-there k t seq e m d.0 h
    ] in
    (k, t, q, (l, a), h)

-- On a non-empty queue `_evictOldest` deletes exactly one entry, and that entry was enqueued no later
-- than any other.
pub evict_oldest_lem :
    (q : RetransmitQueue)
    → Distinct (keys q.queue)
    → 0 < length q.queue
    → (k : ℕ) × (e : QueueEntry) × (JsMap.get q.queue k ≡ some e)
      × AtMost e.original_timestamp q.queue
      × (evict_oldest q ≡ record q { queue = JsMap.delete q.queue k })
      × (suc (length (evict_oldest q).queue) ≡ length q.queue)
unfolding evict_oldest
evict_oldest_lem q d h =
    let (k, t, o, a, (e, g, p)) = oldest_entry_lem q.queue d h in
    (
      k,
      e,
      g,
      rw p a,
      rw (o, evict_oldest),
      rw (o, evict_oldest) (length-delete q.queue k d (has-keys_of_get q.queue k e g)),
    )
