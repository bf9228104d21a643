-- ===== src/RetransmitQueue/Size.antt =====
-- The invariant of the retransmit queue: distinct keys, at most `maxSize` of them, and no entry
-- retransmitted more than `maxRetransmits` times; every operation keeps it.
use signalk_edge_link.Prelude.{
  ℕ, ◌+◌, ◌≤◌, ◌<◌, ◌≡◌, refl, ◌∙◌, Bool, Option, none, some, List, [], ◌∷◌, leb, ◌==◌, arith, inl,
  inr, Bool-cases, Option-cases, length,
}
use signalk_edge_link.Serial.{u32, sub32, half}
use signalk_edge_link.JsSet.{Distinct}
use signalk_edge_link.JsMap
use signalk_edge_link.JsMap.{keys, keys_where, reject}
use signalk_edge_link.JsMap.Laws
use signalk_edge_link.RetransmitQueue.{
  QueueEntry, Entries, RetransmitQueue, create, retried, evict_oldest, add, acknowledge,
  acknowledge_from, acknowledge_range, remove_where, retransmit_one, retransmit, clear, expire_old,
  oldest_outstanding,
}
use signalk_edge_link.RetransmitQueue.Oldest.{evict_oldest_lem}

pub record IsValid (q : RetransmitQueue) : Type 0 where
  pub distinct : Distinct (keys q.queue)
  pub bounded : length q.queue ≤ q.max_size
  pub tried :
      (k : ℕ) (e : QueueEntry) → JsMap.get q.queue k ≡ some e → e.attempts ≤ q.max_retransmits

-- Deleting by a test leaves the entries that fail it, and counts the others.
pub remove_where_lem :
    (test : ℕ → QueueEntry → Bool) (q : RetransmitQueue)
    → Distinct (keys q.queue)
    → ((remove_where test q).1 ≡ record q { queue = reject test q.queue })
      × ((remove_where test q).0 + length (remove_where test q).1.queue ≡ length q.queue)
unfolding remove_where
remove_where_lem test q d =
    let e = Laws.delete_all-keys_where test q.queue d in
    (rw e, rw e (Laws.length-keys_where test q.queue))

remove_where-IsValid :
    (test : ℕ → QueueEntry → Bool) (q : RetransmitQueue)
    → IsValid q
    → IsValid (remove_where test q).1
remove_where-IsValid test q v = rw ((remove_where_lem test q v.distinct).0) (record {
  distinct = Laws.Distinct-keys-reject test q.queue v.distinct;
  bounded = omega (arith, Laws.length-reject-le test q.queue, v.bounded);
  tried = λ k e h. v.tried k e (Laws.get_of_reject test q.queue k e v.distinct h);
})

delete-IsValid :
    (q : RetransmitQueue) (seq : ℕ)
    → IsValid q
    → IsValid (record q { queue = JsMap.delete q.queue seq })
delete-IsValid q seq v = record {
  distinct = Laws.Distinct-keys-delete q.queue seq v.distinct;
  bounded = omega (arith, Laws.length-delete-le q.queue seq, v.bounded);
  tried = λ k e h. ground (arith, Laws.get-delete q.queue seq k, v.tried k e);
}

set-tried :
    (q : RetransmitQueue) (m : Entries) (seq : ℕ) (x : QueueEntry)
    → ((k : ℕ) (e : QueueEntry) → JsMap.get m k ≡ some e → e.attempts ≤ q.max_retransmits)
    → x.attempts ≤ q.max_retransmits
    → (k : ℕ) (e : QueueEntry) → JsMap.get (JsMap.set m seq x) k ≡ some e
    → e.attempts ≤ q.max_retransmits
set-tried q m seq x t l k e h = ground (arith, Laws.get-set m seq x k, t k e)

-- A new packet takes a slot that is free, or that eviction has freed.
set-IsValid :
    (q : RetransmitQueue) (seq : ℕ) (x : QueueEntry)
    → IsValid q
    → x.attempts ≤ q.max_retransmits
    → length q.queue < q.max_size
    → IsValid (record q { queue = JsMap.set q.queue seq x })
set-IsValid q seq x v t l = record {
  distinct = Laws.Distinct-keys-set q.queue seq x v.distinct;
  bounded = omega (arith, Laws.length-set q.queue seq x);
  tried = set-tried q q.queue seq x v.tried t;
}

add-IsValid :
    (q : RetransmitQueue) (seq : ℕ) (packet : List ℕ) (now hr : ℕ)
    → 0 < q.max_size
    → IsValid q
    → IsValid (add q seq packet now hr)
unfolding add
add-IsValid q seq packet now hr p v = elim (Bool-cases (leb q.max_size (length q.queue))) [
  | inl full ↦
      let (k, e, g, a, s, l) = evict_oldest_lem q v.distinct (ground arith) in
      let v' : IsValid (evict_oldest q) = rw s (delete-IsValid q k v) in
      let m : (evict_oldest q).max_size ≡ q.max_size = rw s in
      rw full (set-IsValid (evict_oldest q) seq _ v' (omega arith) (omega (arith, v.bounded)))
  | inr room ↦ rw room (set-IsValid q seq _ v (omega arith) (ground arith))
]

acknowledge-IsValid : (q : RetransmitQueue) (c : ℕ) → IsValid q → IsValid (acknowledge q c).1
unfolding acknowledge
acknowledge-IsValid q c v = elim (Option-cases (oldest_outstanding none (keys q.queue))) [
  | inl e ↦ rw (e, acknowledge) v
  | inr (oldest, e) ↦ elim (Bool-cases (leb half (sub32 (u32 c) oldest))) [
    | inl stale ↦ rw (e, acknowledge, stale) v
    | inr live ↦ rw (e, acknowledge, live) (remove_where-IsValid _ q v)
  ]
]

acknowledge_from-IsValid :
    (q : RetransmitQueue) (p c : ℕ) → IsValid q → IsValid (acknowledge_from q p c).1
unfolding acknowledge_from
acknowledge_from-IsValid q p c v = elim (Bool-cases (p == c)) [
  | inl same ↦ rw same v
  | inr differ ↦ elim (Bool-cases (leb half (sub32 c p))) [
    | inl stale ↦ rw (differ, stale) v
    | inr live ↦ rw (differ, live) (remove_where-IsValid _ q v)
  ]
]

acknowledge_range-IsValid :
    (q : RetransmitQueue) (previous : Option ℕ) (cumulative : ℕ)
    → IsValid q
    → IsValid (acknowledge_range q previous cumulative).1
unfolding acknowledge_range
acknowledge_range-IsValid q none cumulative v = acknowledge-IsValid q (u32 cumulative) v
acknowledge_range-IsValid q (some previous) cumulative v =
    acknowledge_from-IsValid q (u32 previous) (u32 cumulative) v

pub retransmit_one-IsValid :
    (q : RetransmitQueue) (seq now : ℕ) → IsValid q → IsValid (retransmit_one q seq now).1
unfolding retransmit_one
retransmit_one-IsValid q seq now v = elim (Option-cases (JsMap.get q.queue seq)) [
  | inl e ↦ rw (e, retransmit_one) v
  | inr (e, g) ↦ elim (Bool-cases (leb q.max_retransmits e.attempts)) [
    | inl spent ↦
        let v' = delete-IsValid q seq v in
        rw (g, retransmit_one, spent)
          (record { distinct = v'.distinct; bounded = v'.bounded; tried = v'.tried })
    | inr again ↦
        let l =
          Laws.length-set_old q.queue seq (retried e now) (Laws.has-keys_of_get q.queue seq e g) in
        rw (g, retransmit_one, again)
          (record {
            distinct = Laws.Distinct-keys-set q.queue seq _ v.distinct;
            bounded = omega (arith, v.bounded);
            tried = set-tried q q.queue seq _ v.tried (ground arith);
          })
  ]
]

retransmit-IsValid :
    (q : RetransmitQueue) (seqs : List ℕ) (now : ℕ) → IsValid q → IsValid (retransmit q seqs now).1
unfolding retransmit
retransmit-IsValid q [] now v = v
retransmit-IsValid q (seq ∷ seqs) now v =
    retransmit-IsValid (retransmit_one q seq now).1 seqs now (retransmit_one-IsValid q seq now v)

-- The calls that change a queue, each with its clock readings.
pub data Call : Type 0 where
  adds : (sequence : ℕ) (packet : List ℕ) (now hr : ℕ) → Call
  acknowledges : (previous : Option ℕ) (cumulative : ℕ) → Call
  retransmits : (sequences : List ℕ) (now : ℕ) → Call
  expires : (max_age now : ℕ) → Call
  clears : Call

pub step : RetransmitQueue → Call → RetransmitQueue
step q (adds sequence packet now hr) = add q sequence packet now hr
step q (acknowledges previous cumulative) = (acknowledge_range q previous cumulative).1
step q (retransmits sequences now) = (retransmit q sequences now).1
step q (expires max_age now) = (expire_old q max_age now).1
step q clears = clear q

-- Every call keeps the keys distinct, the size within `maxSize`, and each entry's attempts within
-- `maxRetransmits`, if `maxSize` is not 0.
step-IsValid : (q : RetransmitQueue) (c : Call) → 0 < q.max_size → IsValid q → IsValid (step q c)
unfolding step expire_old clear keys JsMap.get
step-IsValid q (adds s p now hr) h v = add-IsValid q s p now hr h v
step-IsValid q (acknowledges p c) h v = acknowledge_range-IsValid q p c v
step-IsValid q (retransmits ss now) h v = retransmit-IsValid q ss now v
step-IsValid q (expires a now) h v = remove_where-IsValid _ q v
step-IsValid q clears h v = record { distinct = tt; bounded = omega arith; tried = λ k e g. cc }

retransmit-max_size :
    (q : RetransmitQueue) (seqs : List ℕ) (now : ℕ)
    → (retransmit q seqs now).1.max_size ≡ q.max_size
unfolding retransmit retransmit_one
retransmit-max_size q [] now = refl
retransmit-max_size q (seq ∷ seqs) now =
    retransmit-max_size (retransmit_one q seq now).1 seqs now ∙ ground arith

step-max_size : (q : RetransmitQueue) (c : Call) → (step q c).max_size ≡ q.max_size
unfolding step add evict_oldest acknowledge_range acknowledge remove_where expire_old clear
step-max_size q (adds s p now hr) = ground arith
step-max_size q (acknowledges none c) = ground arith
step-max_size q (acknowledges (some p) c) = ground arith
step-max_size q (retransmits ss now) = retransmit-max_size q ss now
step-max_size q (expires a now) = refl
step-max_size q clears = refl

pub run : RetransmitQueue → List Call → RetransmitQueue
run q [] = q
run q (c ∷ cs) = run (step q c) cs

run-IsValid :
    (q : RetransmitQueue) (cs : List Call) → 0 < q.max_size → IsValid q → IsValid (run q cs)
unfolding run
run-IsValid q [] h v = v
run-IsValid q (c ∷ cs) h v =
    run-IsValid (step q c) cs (rw (step-max_size q c) h) (step-IsValid q c h v)

-- Whatever calls a queue of positive `maxSize` receives, at any clock readings, its keys are distinct,
-- it holds at most `maxSize` entries, and none was retransmitted more than `maxRetransmits` times.
pub run-create-IsValid :
    (size : ℕ) (retransmits_max : Option ℕ) (cs : List Call)
    → 0 < size
    → IsValid (run (create (some size) retransmits_max) cs)
unfolding create keys JsMap.get
run-create-IsValid size r cs h =
    run-IsValid (create (some size) r) cs h
      (record { distinct = tt; bounded = omega arith; tried = λ k e g. cc })
