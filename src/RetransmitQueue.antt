-- ===== src/RetransmitQueue.antt =====
-- src/transport/reliability/retransmit-queue.ts, class RetransmitQueue. `now` is `Date.now()` and
-- `hr` is `performance.now()`, in whole units; a packet is its bytes.
pub mod Size
pub mod Ack
pub mod Oldest
pub mod Attempts
pub mod Candidates
pub mod Expiry
mod Tests
use signalk_edge_link.Prelude.{
  ℕ, ◌+◌, ◌<◌, max, Bool, true, false, not, ◌&&◌, Option, none, some, List, [], ◌∷◌, map, ltb, leb,
  ◌==◌, if◌then◌else◌, length, take,
}
use signalk_edge_link.Serial.{half, u32, sub32}
use signalk_edge_link.JsMap

pub record QueueEntry : Type 0 where
  pub packet : List ℕ
  pub timestamp : ℕ
  pub original_timestamp : ℕ
  pub sent_at_hr : ℕ
  pub attempts : ℕ

abbrev pub Entries : Type 0
Entries = List (ℕ × QueueEntry)

pub record RetransmitQueue : Type 0 where
  pub max_size : ℕ
  pub max_retransmits : ℕ
  pub queue : Entries
  pub abandoned_count : ℕ
  pub last_abandoned_seq : Option ℕ

pub record RetransmitPacket : Type 0 where
  pub sequence : ℕ
  pub packet : List ℕ
  pub attempt : ℕ

abbrev or_default : Option ℕ → ℕ → ℕ
or_default none d = d
or_default (some a) d = a

-- `config.maxSize ?? 5000`, `config.maxRetransmits ?? 3`
unfoldable pub create : Option ℕ → Option ℕ → RetransmitQueue
create max_size max_retransmits = record {
  max_size = or_default max_size 5000;
  max_retransmits = or_default max_retransmits 3;
  queue = [];
  abandoned_count = 0;
  last_abandoned_seq = none;
}

-- The scan of `_evictOldest`: the key and age of the entry that was enqueued first, the first such
-- in insertion order. `none` is `oldestKey = null` with `oldestAt = Infinity`.
unfoldable pub oldest_entry : Option (ℕ × ℕ) → Entries → Option (ℕ × ℕ)
oldest_entry best [] = best
oldest_entry none ((seq, e) ∷ m) = oldest_entry (some (seq, e.original_timestamp)) m
oldest_entry (some (key, at)) ((seq, e) ∷ m) =
    oldest_entry
      (if ltb e.original_timestamp at then some (seq, e.original_timestamp) else some (key, at)) m

unfoldable pub evict_oldest : RetransmitQueue → RetransmitQueue
evict_oldest q = elim (oldest_entry none q.queue) [
  | none ↦ q
  | some (key, at) ↦ record q { queue = JsMap.delete q.queue key }
]

unfoldable pub new_entry : List ℕ → ℕ → ℕ → QueueEntry
new_entry packet now hr = record {
  packet = packet;
  timestamp = now;
  original_timestamp = now;
  sent_at_hr = hr;
  attempts = 0;
}

unfoldable pub add : RetransmitQueue → ℕ → List ℕ → ℕ → ℕ → RetransmitQueue
unfolding new_entry
add q sequence packet now hr =
    let q' = if leb q.max_size (length q.queue) then evict_oldest q else q in
    record q' { queue = JsMap.set q'.queue sequence (new_entry packet now hr) }

unfoldable pub get : RetransmitQueue → ℕ → Option QueueEntry
get q sequence = JsMap.get q.queue sequence

-- `oldestOutstandingSeq`: the numerically oldest key in serial space.
unfoldable pub oldest_outstanding : Option ℕ → List ℕ → Option ℕ
oldest_outstanding best [] = best
oldest_outstanding none (seq ∷ ks) = oldest_outstanding (some (u32 seq)) ks
oldest_outstanding (some oldest) (seq ∷ ks) =
    oldest_outstanding (some (if ltb (sub32 oldest (u32 seq)) half then u32 seq else oldest)) ks

-- Deletes the keys that pass a test; returns how many there were.
unfoldable pub remove_where : (ℕ → QueueEntry → Bool) → RetransmitQueue → ℕ × RetransmitQueue
remove_where test q =
    let to_delete = JsMap.keys_where test q.queue in
    (length to_delete, record q { queue = JsMap.delete_all q.queue to_delete })

unfoldable pub acknowledge : RetransmitQueue → ℕ → ℕ × RetransmitQueue
acknowledge q cumulative_seq = elim (oldest_outstanding none (JsMap.keys q.queue)) [
  | none ↦ (0, q)
  | some oldest ↦
      let to_end = sub32 (u32 cumulative_seq) oldest in
      if leb half to_end then (0, q) else remove_where (λ seq e. leb (sub32 seq oldest) to_end) q
]

unfoldable pub acknowledge_from : RetransmitQueue → ℕ → ℕ → ℕ × RetransmitQueue
acknowledge_from q prev cumulative =
    let to_end = sub32 cumulative prev in
    if prev == cumulative
    then (0, q)
    else if leb half to_end
    then (0, q)
    else remove_where (λ seq e. ltb 0 (sub32 seq prev) && leb (sub32 seq prev) to_end) q

-- `none` is a null or undefined `previousAckSeq`.
unfoldable pub acknowledge_range : RetransmitQueue → Option ℕ → ℕ → ℕ × RetransmitQueue
unfolding acknowledge_from
acknowledge_range q none cumulative_seq = acknowledge q (u32 cumulative_seq)
acknowledge_range q (some previous) cumulative_seq =
    acknowledge_from q (u32 previous) (u32 cumulative_seq)

-- The entry after `entry.attempts++` and `entry.timestamp = Date.now()`.
abbrev pub retried : QueueEntry → ℕ → QueueEntry
retried e now = record e { attempts = e.attempts + 1; timestamp = now }

-- One round of `retransmit`: the packet to send, if any, and the queue that it leaves.
unfoldable pub retransmit_one : RetransmitQueue → ℕ → ℕ → Option RetransmitPacket × RetransmitQueue
retransmit_one q seq now = elim (JsMap.get q.queue seq) [
  | none ↦ (none, q)
  | some e ↦
      if leb q.max_retransmits e.attempts
      then (
        none,
        record q {
          queue = JsMap.delete q.queue seq;
          abandoned_count = q.abandoned_count + 1;
          last_abandoned_seq = some (u32 seq);
        },
      )
      else (
        some (record { sequence = seq; packet = e.packet; attempt = e.attempts + 1 }),
        record q { queue = JsMap.set q.queue seq (retried e now) },
      )
]

abbrev prepend : Option RetransmitPacket → List RetransmitPacket → List RetransmitPacket
prepend none ps = ps
prepend (some p) ps = p ∷ ps

unfoldable pub retransmit : RetransmitQueue → List ℕ → ℕ → List RetransmitPacket × RetransmitQueue
retransmit q [] now = ([], q)
retransmit q (seq ∷ seqs) now =
    let (p, q') = retransmit_one q seq now in
    let (ps, q'') = retransmit q' seqs now in (prepend p ps, q'')

-- The candidates of `getOldestSequences`, each with the age it is sorted by.
unfoldable pub eligible : ℕ → ℕ → Entries → List (ℕ × ℕ)
eligible min_age now [] = []
eligible min_age now ((seq, e) ∷ m) =
    let rest = eligible min_age now m in
    if ltb 0 min_age && ltb 0 e.attempts && ltb now (e.timestamp + min_age)
    then rest
    else (seq, e.original_timestamp) ∷ rest

-- `eligible.sort((a, b) => a.at - b.at)`, a stable sort, by insertion.
unfoldable pub insert_by_age : ℕ × ℕ → List (ℕ × ℕ) → List (ℕ × ℕ)
insert_by_age a [] = a ∷ []
insert_by_age a (b ∷ bs) =
    let rest = insert_by_age a bs in if leb a.1 b.1 then a ∷ b ∷ bs else b ∷ rest

unfoldable pub sort_by_age : List (ℕ × ℕ) → List (ℕ × ℕ)
sort_by_age [] = []
sort_by_age (a ∷ as_) = insert_by_age a (sort_by_age as_)

unfoldable pub oldest_sequences : RetransmitQueue → ℕ → ℕ → ℕ → List ℕ
oldest_sequences q limit min_age now =
    map (λ e. e.0) (take limit (sort_by_age (eligible min_age now q.queue)))

unfoldable pub get_size : RetransmitQueue → ℕ
get_size q = length q.queue

pub record QueueStats : Type 0 where
  pub size : ℕ
  pub total_attempts : ℕ
  pub max_attempts : ℕ

-- `avgAttempts` is `totalAttempts / size`, a float, and is left out.
unfoldable pub stats_from : ℕ → ℕ → Entries → ℕ × ℕ
stats_from total most [] = (total, most)
stats_from total most ((seq, e) ∷ m) = stats_from (total + e.attempts) (max most e.attempts) m

unfoldable pub get_stats : RetransmitQueue → QueueStats
unfolding stats_from
get_stats q =
    let (total, most) = stats_from 0 0 q.queue in
    record { size = length q.queue; total_attempts = total; max_attempts = most }

unfoldable pub clear : RetransmitQueue → RetransmitQueue
clear q = record q { queue = [] }

-- A clock that went back gives a negative age, which expires nothing; so does 0.
unfoldable pub expire_old : RetransmitQueue → ℕ → ℕ → ℕ × RetransmitQueue
expire_old q max_age now = remove_where (λ seq e. ltb (e.original_timestamp + max_age) now) q
