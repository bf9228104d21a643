-- ===== src/RetransmitQueue/Candidates.antt =====
-- Which entries `getOldestSequences` picks.
use mathlib.Core.List.Perm
use mathlib.Core.List.{Perm}
use signalk_edge_link.JsSet.{Distinct}
use signalk_edge_link.JsMap
use signalk_edge_link.JsMap.{keys}
use signalk_edge_link.JsMap.Laws as Laws
use signalk_edge_link.RetransmitQueue.Size.{IsValid}
use signalk_edge_link.Prelude.{
  ℕ, suc, ◌+◌, Bool, true, false, Option, none, some, ◌&&◌, ◌||◌, ltb, ◌==◌, if◌then◌else◌, ◌≤◌,
  ◌≡◌, refl, sym, ap, ◌∙◌, min, List, [], ◌∷◌, ◌++◌, map, leb, leb→le, arith, inl, inr, Bool-cases,
  length, length-take, All, take, drop, take-drop,
}
use signalk_edge_link.RetransmitQueue.{
  RetransmitQueue, QueueEntry, eligible, insert_by_age, sort_by_age, oldest_sequences,
}

-- A candidate: a sequence number and when it was enqueued.
abbrev pub Candidate : Type 0
Candidate = ℕ × ℕ

abbrev pub Sorted : List Candidate → Type 0
Sorted [] = Unit
Sorted (a ∷ as_) = All (λ (b : Candidate). a.1 ≤ b.1) as_ × Sorted as_

insert-All :
    (n : ℕ) (a : Candidate) (bs : List Candidate)
    → n ≤ a.1
    → All (λ (b : Candidate). n ≤ b.1) bs
    → All (λ (b : Candidate). n ≤ b.1) (insert_by_age a bs)
unfolding insert_by_age
insert-All n a [] h l = (h, tt)
insert-All n a (b ∷ bs) h l = elim (Bool-cases (leb a.1 b.1)) [
  | inl le ↦ rw le (h, l)
  | inr gt ↦ rw gt (l.0, insert-All n a bs h l.1)
]

All-mono :
    (m n : ℕ) (bs : List Candidate)
    → m ≤ n
    → All (λ (b : Candidate). n ≤ b.1) bs
    → All (λ (b : Candidate). m ≤ b.1) bs
All-mono m n [] h l = tt
All-mono m n (b ∷ bs) h l = (omega (arith, l.0), All-mono m n bs h l.1)

insert-Sorted : (a : Candidate) (bs : List Candidate) → Sorted bs → Sorted (insert_by_age a bs)
unfolding insert_by_age
insert-Sorted a [] s = (tt, tt)
insert-Sorted a (b ∷ bs) s = elim (Bool-cases (leb a.1 b.1)) [
  | inl le ↦ let l : a.1 ≤ b.1 = leb→le a.1 b.1 le in rw le ((l, All-mono a.1 b.1 bs l s.0), s)
  | inr gt ↦ rw gt (insert-All b.1 a bs (ground arith) s.0, insert-Sorted a bs s.1)
]

sort-Sorted : (as_ : List Candidate) → Sorted (sort_by_age as_)
unfolding sort_by_age
sort-Sorted [] = tt
sort-Sorted (a ∷ as_) = insert-Sorted a (sort_by_age as_) (sort-Sorted as_)

insert-Perm : (a : Candidate) (bs : List Candidate) → Perm (insert_by_age a bs) (a ∷ bs)
unfolding insert_by_age
insert-Perm a [] = Perm.refl (a ∷ [])
insert-Perm a (b ∷ bs) = elim (Bool-cases (leb a.1 b.1)) [
  | inl le ↦ rw le (Perm.refl (a ∷ b ∷ bs))
  | inr gt ↦ rw gt (Perm.trans (Perm.cons b (insert-Perm a bs)) (Perm.swap a b bs))
]

sort-Perm : (as_ : List Candidate) → Perm (sort_by_age as_) as_
unfolding sort_by_age
sort-Perm [] = Perm.refl []
sort-Perm (a ∷ as_) = Perm.trans (insert-Perm a (sort_by_age as_)) (Perm.cons a (sort-Perm as_))

insert-length :
    (a : Candidate) (bs : List Candidate) → length (insert_by_age a bs) ≡ suc (length bs)
unfolding insert_by_age
insert-length a [] = refl
insert-length a (b ∷ bs) = ground (arith, insert-length a bs)

sort-length : (as_ : List Candidate) → length (sort_by_age as_) ≡ length as_
unfolding sort_by_age
sort-length [] = refl
sort-length (a ∷ as_) = insert-length a (sort_by_age as_) ∙ ap suc (sort-length as_)

-- What the queue offers of an entry: when it was enqueued, unless it was sent again less than `min_age`
-- ago.
abbrev pub due : ℕ → ℕ → Option QueueEntry → Option ℕ
due min_age now none = none
due min_age now (some e) =
    if e.attempts == 0 || (min_age == 0 || leb (e.timestamp + min_age) now)
    then some e.original_timestamp
    else none

eligible_lem :
    (min_age now : ℕ) (m : List (ℕ × QueueEntry)) (k : ℕ)
    → Distinct (keys m)
    → JsMap.get (eligible min_age now m) k ≡ due min_age now (JsMap.get m k)
unfolding eligible JsMap.get keys
eligible_lem min_age now [] k d = refl
eligible_lem min_age now ((seq, e) ∷ m) k (new, d) =
    let waits : Bool = ltb 0 min_age && ltb 0 e.attempts && ltb now (e.timestamp + min_age) in
    let rest = eligible_lem min_age now m k d in
    elim (Bool-cases waits) [
      | inl w ↦
          let late : (e.attempts == 0 || (min_age == 0 || leb (e.timestamp + min_age) now))
              ≡ false =
            ground arith in
          elim (Bool-cases (seq == k)) [
            | inl same ↦
                let eq : seq ≡ k = ground arith in
                let gone : JsMap.get m k ≡ none = Laws.get-none m k (rw eq at new) in
                rw (w, same, late) (rest ∙ ap (due min_age now) gone)
            | inr other ↦ rw (w, other) rest
          ]
      | inr w ↦
          let early : (e.attempts == 0 || (min_age == 0 || leb (e.timestamp + min_age) now))
              ≡ true =
            ground arith in
          elim (Bool-cases (seq == k)) [
            | inl same ↦ rw (w, same, early) refl
            | inr other ↦ rw (w, other) rest
          ]
    ]

-- In a valid queue `getOldestSequences` splits the candidates, which are the entries that were never sent
-- again or not in the last `min_age`, each with the time it was enqueued, into those that it returns, as
-- many as there are up to `limit`, and the rest, each candidate in one of them: the returned ones are in
-- the order of their time, oldest first, and none of the rest is older than one that is returned.
pub oldest_sequences-Sorted :
    (q : RetransmitQueue) (limit min_age now k : ℕ)
    → IsValid q
    → (chosen : List Candidate) × (others : List Candidate) × (JsMap.get
          (eligible min_age now q.queue)
          k
        ≡ due min_age now (JsMap.get q.queue k))
      × (oldest_sequences q limit min_age now ≡ map (λ (c : Candidate). c.0) chosen)
      × (length chosen ≡ min limit (length (eligible min_age now q.queue)))
      × Perm (chosen ++ others) (eligible min_age now q.queue)
      × Sorted (chosen ++ others)
unfolding oldest_sequences
oldest_sequences-Sorted q limit min_age now k v =
    let all = eligible min_age now q.queue in
    let sorted = sort_by_age all in
    let whole : sorted ≡ take limit sorted ++ drop limit sorted = sym (take-drop limit sorted) in
    (
      take limit sorted,
      drop limit sorted,
      eligible_lem min_age now q.queue k v.distinct,
      refl,
      length-take limit sorted ∙ ap (min limit) (sort-length all),
      rw whole at (sort-Perm all),
      rw whole at (sort-Sorted all),
    )
