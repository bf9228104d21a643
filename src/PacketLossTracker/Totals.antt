-- ===== src/PacketLossTracker/Totals.antt =====
-- What the tracker has counted.
use signalk_edge_link.Prelude.{
  ℕ, zero, suc, ◌+◌, ◌≤◌, ◌<◌, ◌≡◌, refl, Bool, Option, none, some, List, [], ◌∷◌, ◌++◌, leb,
  if◌then◌else◌, length, drop, length-append, length-drop, arith, ◌⊎◌, inl, inr, Bool-cases,
  Option-cases,
}
use signalk_edge_link.PacketLossTracker.{
  Bucket, PacketLossTracker, create, finalize, new_bucket, ensure_bucket, count_packets,
  record_packet, record_batch, get_heatmap_data, total_of,
}

-- What can happen to a tracker.
pub data Event : Type 0 where
  packet : Bool → (now : ℕ) → Event
  batch : (sent lost now : ℕ) → Event
  heatmap : (now : ℕ) → Event

unfoldable pub step : PacketLossTracker → Event → PacketLossTracker
step t (packet lost now) = record_packet t lost now
step t (batch sent lost now) = record_batch t sent lost now
step t (heatmap now) = (get_heatmap_data t now).1

unfoldable pub run : PacketLossTracker → List Event → PacketLossTracker
run t [] = t
run t (e ∷ es) = run (step t e) es

-- The packets that the events count.
pub sent_by : List Event → ℕ
sent_by [] = 0
sent_by (packet lost now ∷ es) = 1 + sent_by es
sent_by (batch sent lost now ∷ es) = sent + sent_by es
sent_by (heatmap now ∷ es) = sent_by es

abbrev in_current : Option Bucket → ℕ
in_current none = 0
in_current (some b) = b.total

-- All that the tracker holds.
abbrev held : PacketLossTracker → ℕ
held t = total_of t.buckets + in_current t.current_bucket

total_of-append :
    (xs : List Bucket) (b : Bucket) → total_of (xs ++ (b ∷ [])) ≡ total_of xs + b.total
unfolding total_of
total_of-append [] b = omega arith
total_of-append (x ∷ xs) b = omega (arith, total_of-append xs b)

total_of-drop : (n : ℕ) (xs : List Bucket) → total_of (drop n xs) ≤ total_of xs
unfolding total_of
total_of-drop zero xs = omega arith
total_of-drop (suc n) [] = omega arith
total_of-drop (suc n) (x ∷ xs) = omega (arith, total_of-drop n xs)

-- A series of buckets that is not full has lost none.
abbrev pub Counts : PacketLossTracker → ℕ → Type 0
Counts t n =
    (length t.buckets ≤ t.max_buckets)
    × (held t ≤ n)
    × ((t.max_buckets ≤ length t.buckets) ⊎ (held t ≡ n))

finalize_lem :
    (most : ℕ) (xs : List Bucket) (b : Bucket)
    → length xs ≤ most
    → (length (finalize most xs b) ≤ most)
      × (total_of (finalize most xs b) ≤ total_of xs + b.total)
      × ((most ≤ length (finalize most xs b))
          ⊎ ((length xs < most) × (total_of (finalize most xs b) ≡ total_of xs + b.total)))
unfolding finalize
finalize_lem most xs b h = ground (
  arith,
  total_of-append xs b,
  total_of-drop 1 (xs ++ (b ∷ [])),
  length-append xs (b ∷ []),
  length-drop 1 (xs ++ (b ∷ [])),
)

ensure_bucket-Counts :
    (t : PacketLossTracker) (now n : ℕ) → Counts t n → Counts (ensure_bucket t now) n
unfolding ensure_bucket
ensure_bucket-Counts t now n c = elim (Option-cases t.current_bucket) [
  | inl e ↦ rw (e, ensure_bucket) (rw e at c)
  | inr (b, e) ↦ elim (Bool-cases (leb (t.last_bucket_time + t.bucket_duration) now)) [
    | inr young ↦ rw (e, ensure_bucket, young) c
    | inl old ↦
        let c' = rw e at c in
        let f = finalize_lem t.max_buckets t.buckets b c'.0 in
        rw (e, ensure_bucket, old) (f.0, omega (arith, f.1, c'.1), ground (arith, f.2, c'.2))
  ]
]

-- There is a current bucket to count in.
ensure_bucket-current :
    (t : PacketLossTracker) (now : ℕ)
    → (b : Bucket) × ((ensure_bucket t now).current_bucket ≡ some b)
unfolding ensure_bucket
ensure_bucket-current t now = elim (Option-cases t.current_bucket) [
  | inl e ↦ (new_bucket now, rw (e, ensure_bucket))
  | inr (b, e) ↦ elim (Bool-cases (leb (t.last_bucket_time + t.bucket_duration) now)) [
    | inr young ↦ (b, rw (e, ensure_bucket, young) e)
    | inl old ↦ (new_bucket now, rw (e, ensure_bucket, old))
  ]
]

count_packets-Counts :
    (t : PacketLossTracker) (sent lost n : ℕ)
    → ((b : Bucket) × (t.current_bucket ≡ some b))
    → Counts t n
    → Counts (count_packets t sent lost) (n + sent)
unfolding count_packets
count_packets-Counts t sent lost n (b, e) c =
    let c' = rw e at c in rw (e, count_packets) (c'.0, omega (arith, c'.1), ground (arith, c'.2))

-- What one event counts.
abbrev sent_of : Event → ℕ
sent_of (packet lost now) = 1
sent_of (batch sent lost now) = sent
sent_of (heatmap now) = 0

step-Counts :
    (t : PacketLossTracker) (e : Event) (n : ℕ) → Counts t n → Counts (step t e) (n + sent_of e)
unfolding step record_packet record_batch get_heatmap_data
step-Counts t (packet lost now) n c =
    count_packets-Counts (ensure_bucket t now) 1 (if lost then 1 else 0) n
      (ensure_bucket-current t now) (ensure_bucket-Counts t now n c)
step-Counts t (batch sent lost now) n c =
    count_packets-Counts (ensure_bucket t now) sent lost n (ensure_bucket-current t now)
      (ensure_bucket-Counts t now n c)
step-Counts t (heatmap now) n c =
    let z : n + 0 ≡ n = omega arith in rw z (ensure_bucket-Counts t now n c)

run-Counts :
    (es : List Event) (t : PacketLossTracker) (n : ℕ)
    → Counts t n
    → Counts (run t es) (n + sent_by es)
unfolding run sent_by
run-Counts [] t n c = let z : n + 0 ≡ n = omega arith in rw z c
run-Counts (e ∷ es) t n c =
    let z : n + sent_by (e ∷ es) ≡ n + sent_of e + sent_by es = sent_more e in
    rw z (run-Counts es (step t e) (n + sent_of e) (step-Counts t e n c))
  where
    sent_more : (x : Event) → n + sent_by (x ∷ es) ≡ n + sent_of x + sent_by es
    sent_more (packet lost now) = omega arith
    sent_more (batch sent lost now) = omega arith
    sent_more (heatmap now) = omega arith

-- Whatever is recorded at whatever clock readings, a new tracker holds at most `maxBuckets` finished
-- buckets; all that it holds, the current bucket included, is never more than what was recorded, and
-- exactly that unless there are `maxBuckets` finished buckets.
pub run-create-Counts :
    (max_buckets bucket_duration : Option ℕ) (es : List Event)
    → Counts (run (create max_buckets bucket_duration) es) (sent_by es)
unfolding create total_of
run-create-Counts m d es =
    let z : 0 + sent_by es ≡ sent_by es = omega arith in
    rw z at (run-Counts es (create m d) 0 (omega arith, omega arith, inr refl))
