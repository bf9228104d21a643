-- ===== src/RetransmitQueue/Attempts.antt =====
-- What `retransmit` sends, how often, and what it gives up on.
use signalk_edge_link.Prelude.{
  ℕ, ◌+◌, ◌-◌, ◌≤◌, ◌<◌, ◌≡◌, refl, ◌∙◌, Option, none, some, List, [], ◌∷◌, leb, ◌==◌,
  if◌then◌else◌, arith, inl, inr, Bool-cases, Option-cases, ==_iff, length, All,
}
use signalk_edge_link.JsSet.{Distinct}
use signalk_edge_link.JsMap
use signalk_edge_link.JsMap.{keys}
use signalk_edge_link.JsMap.Laws
use signalk_edge_link.RetransmitQueue.{
  QueueEntry, RetransmitQueue, RetransmitPacket, prepend, retried, retransmit_one, retransmit,
}

-- How many of the packets carry a sequence number.
pub times : ℕ → List RetransmitPacket → ℕ
times s [] = 0
times s (p ∷ ps) = (if p.sequence == s then 1 else 0) + times s ps

-- The retransmissions that the queue still allows for a sequence number.
abbrev left_of : ℕ → Option QueueEntry → ℕ
left_of most none = 0
left_of most (some e) = most - e.attempts

abbrev pub budget : RetransmitQueue → ℕ → ℕ
budget q s = left_of q.max_retransmits (JsMap.get q.queue s)

times-retransmit_one :
    (q : RetransmitQueue) (seq now s : ℕ)
    → times s (prepend (retransmit_one q seq now).0 []) + budget (retransmit_one q seq now).1 s
      ≡ budget q s
unfolding times retransmit_one
times-retransmit_one q seq now s = elim (Option-cases (JsMap.get q.queue seq)) [
  | inl e ↦ rw (e, retransmit_one) (omega arith)
  | inr (e, g) ↦ elim (Bool-cases (leb q.max_retransmits e.attempts)) [
    | inl spent ↦
        rw (g, retransmit_one, spent) (ground (arith, Laws.get-delete q.queue seq s, congr))
    | inr again ↦
        rw (g, retransmit_one, again)
          (ground (arith, Laws.get-set q.queue seq (retried e now) s, congr))
  ]
]
  where
    congr : seq ≡ s → JsMap.get q.queue seq ≡ JsMap.get q.queue s
    congr p = rw p

times-prepend :
    (s : ℕ) (p : Option RetransmitPacket) (ps : List RetransmitPacket)
    → times s (prepend p ps) ≡ times s (prepend p []) + times s ps
unfolding times
times-prepend s none ps = omega arith
times-prepend s (some p) ps = omega arith

-- Each packet sent for a sequence number uses up one of its retransmissions, and nothing else does:
-- for any list of requested numbers, what is sent for `s` and what is still allowed for `s` add up to
-- what was allowed before.
pub times-retransmit :
    (q : RetransmitQueue) (seqs : List ℕ) (now s : ℕ)
    → times s (retransmit q seqs now).0 + budget (retransmit q seqs now).1 s ≡ budget q s
unfolding retransmit times
times-retransmit q [] now s = omega arith
times-retransmit q (seq ∷ seqs) now s = omega (
  arith,
  times-retransmit (retransmit_one q seq now).1 seqs now s,
  times-retransmit_one q seq now s,
  times-prepend s (retransmit_one q seq now).0 (retransmit (retransmit_one q seq now).1 seqs now).0,
)

retransmit_one-count :
    (q : RetransmitQueue) (seq now : ℕ)
    → Distinct (keys q.queue)
    → length (retransmit_one q seq now).1.queue + (retransmit_one q seq now).1.abandoned_count
      ≡ length q.queue + q.abandoned_count
unfolding retransmit_one
retransmit_one-count q seq now d = elim (Option-cases (JsMap.get q.queue seq)) [
  | inl e ↦ rw (e, retransmit_one)
  | inr (e, g) ↦ elim (Bool-cases (leb q.max_retransmits e.attempts)) [
    | inl spent ↦
        rw (g, retransmit_one, spent)
          (omega (arith, Laws.length-delete q.queue seq d (Laws.has-keys_of_get q.queue seq e g)))
    | inr again ↦
        rw (g, retransmit_one, again)
          (omega (
            arith,
            Laws.length-set_old q.queue seq (retried e now) (Laws.has-keys_of_get q.queue seq e g),
          ))
  ]
]

-- A packet that is sent again has the bytes of an entry of the queue, and counts an attempt more.
abbrev pub IsResend : RetransmitQueue → RetransmitPacket → Type 0
IsResend q p =
    (e : QueueEntry) × (JsMap.get q.queue p.sequence ≡ some e)
    × (p.packet ≡ e.packet)
    × (e.attempts < p.attempt)
    × (p.attempt ≤ q.max_retransmits)

max_retransmits-retransmit_one :
    (q : RetransmitQueue) (seq now : ℕ)
    → (retransmit_one q seq now).1.max_retransmits ≡ q.max_retransmits
unfolding retransmit_one
max_retransmits-retransmit_one q seq now = ground arith

retransmit_one-old :
    (q : RetransmitQueue) (seq now k : ℕ) (e' : QueueEntry)
    → JsMap.get (retransmit_one q seq now).1.queue k ≡ some e'
    → (e : QueueEntry) × (JsMap.get q.queue k ≡ some e)
      × (e'.packet ≡ e.packet)
      × (e.attempts ≤ e'.attempts)
unfolding retransmit_one
retransmit_one-old q seq now k e' h = elim (Option-cases (JsMap.get q.queue seq)) [
  | inl n ↦ (e', rw (n, retransmit_one) at h, refl, omega arith)
  | inr (e, g) ↦ elim (Bool-cases (leb q.max_retransmits e.attempts)) [
    | inl spent ↦
        let h' : JsMap.get (JsMap.delete q.queue seq) k ≡ some e' =
          rw (g, retransmit_one, spent) at h in
        (e', ground (arith, Laws.get-delete q.queue seq k), refl, omega arith)
    | inr again ↦
        let h' : JsMap.get (JsMap.set q.queue seq (retried e now)) k ≡ some e' =
          rw (g, retransmit_one, again) at h in
        let l = Laws.get-set q.queue seq (retried e now) k in
        elim (Bool-cases (seq == k)) [
          | inl same ↦
              let p : seq ≡ k = (==_iff seq k).0 same in (e, rw p at g, ground arith, ground arith)
          | inr other ↦ (e', ground arith, refl, omega arith)
        ]
  ]
]

retransmit_one-IsResend :
    (q : RetransmitQueue) (seq now : ℕ) → All (IsResend q) (prepend (retransmit_one q seq now).0 [])
unfolding retransmit_one
retransmit_one-IsResend q seq now = elim (Option-cases (JsMap.get q.queue seq)) [
  | inl n ↦ rw (n, retransmit_one) tt
  | inr (e, g) ↦ elim (Bool-cases (leb q.max_retransmits e.attempts)) [
    | inl spent ↦ rw (g, retransmit_one, spent) tt
    | inr again ↦ rw (g, retransmit_one, again) ((e, g, refl, omega arith, ground arith), tt)
  ]
]

IsResend-mono :
    (q : RetransmitQueue) (seq now : ℕ) (ps : List RetransmitPacket)
    → All (IsResend (retransmit_one q seq now).1) ps
    → All (IsResend q) ps
IsResend-mono q seq now [] a = tt
IsResend-mono q seq now (p ∷ ps) ((e', g, b, l, m), a) =
    let (e, o, c, k) = retransmit_one-old q seq now p.sequence e' g in
    (
      (e, o, b ∙ c, omega arith, omega (arith, max_retransmits-retransmit_one q seq now)),
      IsResend-mono q seq now ps a,
    )

All-prepend :
    (P : RetransmitPacket → Type 0) (p : Option RetransmitPacket) (ps : List RetransmitPacket)
    → All P (prepend p [])
    → All P ps
    → All P (prepend p ps)
All-prepend P none ps a b = b
All-prepend P (some p) ps a b = (a.0, b)

-- Every packet that `retransmit` sends carries the bytes that the queue holds for its sequence number,
-- with an attempt number above the entry's and within `maxRetransmits`.
pub retransmit-IsResend :
    (q : RetransmitQueue) (seqs : List ℕ) (now : ℕ) → All (IsResend q) (retransmit q seqs now).0
unfolding retransmit
retransmit-IsResend q [] now = tt
retransmit-IsResend q (seq ∷ seqs) now =
    All-prepend (IsResend q) (retransmit_one q seq now).0 _ (retransmit_one-IsResend q seq now)
      (IsResend-mono q seq now _ (retransmit-IsResend (retransmit_one q seq now).1 seqs now))
