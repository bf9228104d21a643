-- ===== src/Client/Kept.antt =====
-- The numbers that a queue keeps (src/transport/reliability/retransmit-queue.ts).
use signalk_edge_link.Prelude.{
  ℕ, ◌+◌, ◌^◌, ◌<◌, ◌≡◌, refl, Bool, true, false, ◌&&◌, none, some, List, [], ◌∷◌, ltb, leb, ◌==◌,
  if◌then◌else◌, arith, inl, inr, ◌⊎◌, Bool-cases, Option-cases, length,
}
use signalk_edge_link.Serial.{u32, sub32, half, is_ahead}
use signalk_edge_link.JsSet.{has}
use signalk_edge_link.JsMap
use signalk_edge_link.JsMap.{keys}
use signalk_edge_link.JsMap.Laws as Laws
use signalk_edge_link.RetransmitQueue as Queue
use signalk_edge_link.Client.{advance_acked}
use signalk_edge_link.RetransmitQueue.{
  RetransmitQueue, RetransmitPacket, QueueEntry, acknowledge_range, retransmit, retransmit_one,
  expire_old, remove_where, acknowledge_from, acknowledge, new_entry, evict_oldest, oldest_entry,
  oldest_sequences, get_size, clear,
}

-- Every queued number is ahead of `last`.
abbrev pub AllAhead : ℕ → RetransmitQueue → Type 0
AllAhead last q = (k : ℕ) → has (keys q.queue) k ≡ true → is_ahead k last ≡ true

-- The keys of the second queue are keys of the first.
abbrev pub Shrinks : RetransmitQueue → RetransmitQueue → Type 0
Shrinks q q' = (k : ℕ) → has (keys q'.queue) k ≡ true → has (keys q.queue) k ≡ true

pub retransmit_one-Shrinks :
    (q : RetransmitQueue) (seq now : ℕ) → Shrinks q (retransmit_one q seq now).1
unfolding retransmit_one
retransmit_one-Shrinks q seq now k h = elim (Option-cases (JsMap.get q.queue seq)) [
  | inl p ↦ rw (retransmit_one, p) at h
  | inr (e, p) ↦
      let there = Laws.has-keys_of_get q.queue seq e p in
      elim (Bool-cases (leb q.max_retransmits e.attempts)) [
        | inl r ↦ ground (arith, rw (retransmit_one, p, r) at h, Laws.has-keys-delete q.queue seq k)
        | inr r ↦
            let x =
              Laws.has-keys-set q.queue seq
                (record e { attempts = e.attempts + 1; timestamp = now }) k in
            let g = rw (retransmit_one, p, r) at h in
            elim (Bool-cases (seq == k)) [
              | inl same ↦ let y : seq ≡ k = ground arith in rw y at there
              | inr other ↦ ground arith
            ]
      ]
]

pub retransmit-Shrinks :
    (q : RetransmitQueue) (seqs : List ℕ) (now : ℕ) → Shrinks q (retransmit q seqs now).1
unfolding retransmit
retransmit-Shrinks q [] now k h = h
retransmit-Shrinks q (seq ∷ seqs) now k h =
    retransmit_one-Shrinks q seq now k
      (retransmit-Shrinks (retransmit_one q seq now).1 seqs now k h)

remove_where-Shrinks :
    (test : ℕ → QueueEntry → Bool) (q : RetransmitQueue) → Shrinks q (remove_where test q).1
unfolding remove_where
remove_where-Shrinks test q k h =
    ground (arith, Laws.has-keys-delete_all q.queue (JsMap.keys_where test q.queue) k)

-- An ACK that is ahead of the last one leaves what is ahead of it; any other changes nothing.
pub acknowledge_range-AllAhead :
    (q : RetransmitQueue) (last acked : ℕ)
    → last < 2 ^ 32
    → AllAhead last q
    → (advanced : ℕ) × (advance_acked (some last) acked ≡ some advanced)
      × (advanced < 2 ^ 32)
      × AllAhead advanced (acknowledge_range q (some last) acked).1
unfolding advance_acked acknowledge_range acknowledge_from remove_where
acknowledge_range-AllAhead q last acked b h =
    let cum : ℕ = u32 acked in
    let to_end : ℕ = sub32 cum (u32 last) in
    let same : u32 last ≡ last = omega arith in
    elim (Bool-cases (u32 last == cum)) [
      | inl p ↦
          let q' : cum ≡ last = ground arith in
          let n : is_ahead acked last ≡ false = ground arith in (last, rw n refl, b, rw p h)
      | inr p ↦ elim (Bool-cases (leb half to_end)) [
        | inl r ↦
            let n : is_ahead acked last ≡ false = ground arith in (last, rw n refl, b, rw (p, r) h)
        | inr r ↦
            let n : is_ahead acked last ≡ true = ground arith in
            let test : ℕ → Bool =
              λ k. ltb 0 (sub32 k (u32 last)) && leb (sub32 k (u32 last)) to_end in
            (
              cum,
              rw n refl,
              omega arith,
              rw (p, r)
                  (λ k g.
                    let x =
                      Laws.has-keys-delete_all q.queue (JsMap.keys_where (λ j v. test j) q.queue)
                        k in
                    let y = Laws.has-keys_where test q.queue k in
                    let there : has (keys q.queue) k ≡ true = ground arith in
                    let kept : test k ≡ false = ground arith in let a = h k there in ground arith),
            )
      ]
    ]

evict_oldest-Shrinks : (q : RetransmitQueue) → Shrinks q (evict_oldest q)
unfolding evict_oldest
evict_oldest-Shrinks q k h = elim (Option-cases (oldest_entry none q.queue)) [
  | inl p ↦ rw (evict_oldest, p) at h
  | inr ((key, at), p) ↦
      ground (arith, rw (evict_oldest, p) at h, Laws.has-keys-delete q.queue key k)
]

-- What is queued is the new number and some of the old ones.
pub add-Shrinks :
    (q : RetransmitQueue) (seq : ℕ) (packet : List ℕ) (now hr : ℕ) (k : ℕ)
    → has (keys (Queue.add q seq packet now hr).queue) k ≡ true
    → (seq ≡ k) ⊎ (has (keys q.queue) k ≡ true)
unfolding Queue.add
add-Shrinks q seq packet now hr k h =
    let e : QueueEntry = new_entry packet now hr in
    let old : RetransmitQueue = if leb q.max_size (length q.queue) then evict_oldest q else q in
    let x = Laws.has-keys-set old.queue seq e k in
    elim (Bool-cases (seq == k)) [
      | inl same ↦ inl (ground arith)
      | inr other ↦
          let there : has (keys old.queue) k ≡ true = ground arith in
          inr (elim (Bool-cases (leb q.max_size (length q.queue))) [
            | inl full ↦ evict_oldest-Shrinks q k (rw full at there)
            | inr room ↦ rw room at there
          ])
    ]

pub expire_old-Shrinks : (q : RetransmitQueue) (age now : ℕ) → Shrinks q (expire_old q age now).1
unfolding expire_old
expire_old-Shrinks q age now =
    remove_where-Shrinks (λ seq e. ltb (e.original_timestamp + age) now) q
