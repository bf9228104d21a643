-- ===== src/PacketLossTracker.antt =====
-- src/domain/monitoring/packet-loss-tracker.ts, class PacketLossTracker. `now` is `Date.now()`; the loss
-- rates, which are float quotients, and the trend are left out.
pub mod Totals
mod Tests
use signalk_edge_link.Prelude.{
  ℕ, ◌+◌, Bool, true, false, ◌||◌, Option, none, some, List, [], ◌∷◌, ◌++◌, ltb, leb, ◌==◌,
  if◌then◌else◌, length, drop, otherwise,
}

pub record Bucket : Type 0 where
  pub timestamp : ℕ
  pub total : ℕ
  pub lost : ℕ

pub record PacketLossTracker : Type 0 where
  pub max_buckets : ℕ
  pub bucket_duration : ℕ
  pub buckets : List Bucket
  pub current_bucket : Option Bucket
  pub last_bucket_time : ℕ

-- `config.a || b`: 0 counts as missing.
pub positive_or : Option ℕ → ℕ → ℕ
positive_or none d = d
positive_or (some a) d = if a == 0 then d else a

pub create : Option ℕ → Option ℕ → PacketLossTracker
unfolding positive_or
create max_buckets bucket_duration = record {
  max_buckets = positive_or max_buckets 60;
  bucket_duration = positive_or bucket_duration 5000;
  buckets = [];
  current_bucket = none;
  last_bucket_time = 0;
}

-- `push`, and the `shift` where that is one too many.
pub finalize : ℕ → List Bucket → Bucket → List Bucket
finalize most buckets b =
    let pushed = buckets ++ (b ∷ []) in if ltb most (length pushed) then drop 1 pushed else pushed

abbrev pub new_bucket : ℕ → Bucket
new_bucket now = record { timestamp = now; total = 0; lost = 0 }

-- A clock that went back gives a negative age, for which the bucket stays.
pub ensure_bucket : PacketLossTracker → ℕ → PacketLossTracker
unfolding finalize
ensure_bucket t now = elim t.current_bucket [
  | none ↦ record t { current_bucket = some (new_bucket now); last_bucket_time = now }
  | some b ↦
      if leb (t.last_bucket_time + t.bucket_duration) now
      then record t {
        buckets = finalize t.max_buckets t.buckets b;
        current_bucket = some (new_bucket now);
        last_bucket_time = now;
      }
      else t
]

-- The counters of the current bucket, after `_ensureBucket`.
pub count_packets : PacketLossTracker → ℕ → ℕ → PacketLossTracker
count_packets t sent lost = elim t.current_bucket [
  | none ↦ t
  | some b ↦ record t {
    current_bucket = some (record b { total = b.total + sent; lost = b.lost + lost });
  }
]

pub record_packet : PacketLossTracker → Bool → ℕ → PacketLossTracker
unfolding count_packets
record_packet t lost now = count_packets (ensure_bucket t now) 1 (if lost then 1 else 0)

pub record_batch : PacketLossTracker → ℕ → ℕ → ℕ → PacketLossTracker
unfolding count_packets
record_batch t sent lost now = count_packets (ensure_bucket t now) sent lost

-- `getHeatmapData`: the buckets that it reports, and the tracker that it leaves.
pub get_heatmap_data : PacketLossTracker → ℕ → List Bucket × PacketLossTracker
get_heatmap_data t now = let t' = ensure_bucket t now in (t'.buckets, t')

pub total_of : List Bucket → ℕ
total_of [] = 0
total_of (b ∷ bs) = b.total + total_of bs

pub lost_of : List Bucket → ℕ
lost_of [] = 0
lost_of (b ∷ bs) = b.lost + lost_of bs

-- `totalExpected`, `totalLost` and `bucketCount` of `getSummary`.
pub get_summary : PacketLossTracker → ℕ → ℕ × ℕ × ℕ
unfolding get_heatmap_data
get_summary t now =
    let buckets = (get_heatmap_data t now).0 in (total_of buckets, lost_of buckets, length buckets)

pub reset : PacketLossTracker → PacketLossTracker
reset t = record t { buckets = []; current_bucket = none; last_bucket_time = 0 }
