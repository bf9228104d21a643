-- ===== src/RetransmitQueue/Ack.antt =====
-- What an ACK removes from the retransmit queue, in unbounded sequence numbers.
use signalk_edge_link.Prelude.{
  ℕ, ◌+◌, ◌-◌, ◌^◌, ◌≤◌, ◌<◌, ◌≡◌, refl, ap, ◌∙◌, min, Bool, true, false, ◌&&◌, none, some, List,
  [], ◌∷◌, map, ltb, leb, ◌==◌, if◌then◌else◌, arith, inl, inr, Bool-cases, All,
}
use signalk_edge_link.Serial.{u32, sub32, half}
use signalk_edge_link.Serial.Laws.{sub32-u32, u32-ne}
use signalk_edge_link.JsSet.{has}
use signalk_edge_link.JsMap
use signalk_edge_link.JsMap.{keys, reject}
use signalk_edge_link.JsMap.Laws
use signalk_edge_link.RetransmitQueue.{
  RetransmitQueue, acknowledge, acknowledge_from, acknowledge_range, oldest_outstanding,
}
use signalk_edge_link.RetransmitQueue.Size.{IsValid, remove_where_lem}

-- The test that `acknowledgeRange` deletes by.
abbrev in_range : ℕ → ℕ → ℕ → Bool
in_range prev to_end seq = ltb 0 (sub32 seq prev) && leb (sub32 seq prev) to_end

in_range-u32 :
    (prev cum n : ℕ)
    → prev ≤ cum
    → cum < prev + half
    → prev ≤ n
    → n < prev + 2 ^ 32
    → in_range (u32 prev) (sub32 (u32 cum) (u32 prev)) (u32 n) ≡ (ltb prev n && leb n cum)
in_range-u32 prev cum n a b c d = ground (arith, sub32-u32 n prev, sub32-u32 cum prev)

acknowledge_from_lem :
    (q : RetransmitQueue) (p c k : ℕ)
    → IsValid q
    → sub32 c p < half
    → JsMap.get (acknowledge_from q p c).1.queue k
      ≡ (if in_range p (sub32 c p) k then none else JsMap.get q.queue k)
unfolding acknowledge_from
acknowledge_from_lem q p c k v h = elim (Bool-cases (p == c)) [
  | inl same ↦ let e : in_range p (sub32 c p) k ≡ false = ground arith in rw (same, e)
  | inr differ ↦
      let live : leb half (sub32 c p) ≡ false = ground arith in
      rw (differ, live, (remove_where_lem (λ seq e. in_range p (sub32 c p) seq) q v.distinct).0)
        (Laws.get-reject (in_range p (sub32 c p)) q.queue k)
]

-- An ACK that is not behind the previous one removes exactly the entries above the previous ACK and up
-- to the new one, and leaves every other entry as it was.
pub acknowledge_range-exact :
    (q : RetransmitQueue) (prev cum n : ℕ)
    → IsValid q
    → prev ≤ cum
    → cum < prev + half
    → prev ≤ n
    → n < prev + 2 ^ 32
    → JsMap.get (acknowledge_range q (some (u32 prev)) (u32 cum)).1.queue (u32 n)
      ≡ (if ltb prev n && leb n cum then none else JsMap.get q.queue (u32 n))
unfolding acknowledge_range
acknowledge_range-exact q prev cum n v a b c d =
    let p : u32 (u32 prev) ≡ u32 prev = omega arith in
    let r : u32 (u32 cum) ≡ u32 cum = omega arith in
    rw (
      p,
      r,
      acknowledge_from_lem q (u32 prev) (u32 cum) (u32 n) v (omega arith),
      in_range-u32 prev cum n a b c d,
    )

-- The first ACK of a session. The smallest of a list of numbers.
abbrev pub least : ℕ → List ℕ → ℕ
least a [] = a
least a (n ∷ ns) = least (min a n) ns

abbrev pub Within : ℕ → ℕ → Type 0
Within base n = (base ≤ n) × (n < base + half)

oldest_outstanding-least :
    (base a : ℕ) (ns : List ℕ)
    → Within base a
    → All (Within base) ns
    → oldest_outstanding (some (u32 a)) (map u32 ns) ≡ some (u32 (least a ns))
unfolding oldest_outstanding
oldest_outstanding-least base a [] h i = refl
oldest_outstanding-least base a (n ∷ ns) h i =
    let e : (if ltb (sub32 (u32 a) (u32 (u32 n))) half then u32 (u32 n) else u32 a)
        ≡ u32 (min a n) =
      ground arith in
    ap (λ o. oldest_outstanding (some o) (map u32 ns)) e
    ∙ oldest_outstanding-least base (min a n) ns (omega arith) i.1

least-le : (a : ℕ) (ns : List ℕ) → least a ns ≤ a
least-le a [] = omega arith
least-le a (n ∷ ns) = omega (arith, least-le (min a n) ns)

least-Within :
    (base a : ℕ) (ns : List ℕ) → Within base a → All (Within base) ns → Within base (least a ns)
least-Within base a [] h i = h
least-Within base a (n ∷ ns) h i = least-Within base (min a n) ns (omega arith) i.1

-- No number below the least is on the list.
not-has_below_least :
    (base a n : ℕ) (ns : List ℕ)
    → All (Within base) ns
    → Within base n
    → n < least a ns
    → has (map u32 ns) (u32 n) ≡ false
unfolding has
not-has_below_least base a n [] i w l = refl
not-has_below_least base a n (m ∷ ns) i w l =
    ground
      (arith, u32-ne n m, least-le (min a m) ns, not-has_below_least base (min a m) n ns i.1 w l)

-- The test that `acknowledge` deletes by.
abbrev up_to : ℕ → ℕ → ℕ → Bool
up_to oldest to_end seq = leb (sub32 seq oldest) to_end

acknowledge_lem :
    (q : RetransmitQueue) (oldest c k : ℕ)
    → IsValid q
    → oldest_outstanding none (keys q.queue) ≡ some oldest
    → JsMap.get (acknowledge q c).1.queue k ≡ (
        if ltb (sub32 (u32 c) oldest) half && up_to oldest (sub32 (u32 c) oldest) k
        then none
        else JsMap.get q.queue k)
unfolding acknowledge
acknowledge_lem q oldest c k v e = elim (Bool-cases (leb half (sub32 (u32 c) oldest))) [
  | inl stale ↦
      let s : ltb (sub32 (u32 c) oldest) half ≡ false = ground arith in
      rw (e, acknowledge, stale, s)
  | inr live ↦
      let s : ltb (sub32 (u32 c) oldest) half ≡ true = ground arith in
      rw
        (
          e,
          acknowledge,
          live,
          s,
          (remove_where_lem (λ seq e. up_to oldest (sub32 (u32 c) oldest) seq) q v.distinct).0,
        )
        (Laws.get-reject (up_to oldest (sub32 (u32 c) oldest)) q.queue k)
]

up_to-u32 :
    (base t cum n : ℕ)
    → Within base t
    → Within base cum
    → Within base n
    → t ≤ n
    → (ltb (sub32 (u32 cum) (u32 t)) half && up_to (u32 t) (sub32 (u32 cum) (u32 t)) (u32 n))
      ≡ leb n cum
up_to-u32 base t cum n a b c l = elim (Bool-cases (ltb cum t)) [
  | inl early ↦
      let far : ltb (sub32 (u32 cum) (u32 t)) half ≡ false = ground arith in rw far (ground arith)
  | inr late ↦
      let p : sub32 (u32 cum) (u32 t) ≡ cum - t = sub32-u32 cum t (ground arith) (omega arith) in
      let r : sub32 (u32 n) (u32 t) ≡ n - t = sub32-u32 n t l (omega arith) in
      rw (p, r) (ground arith)
]

oldest_outstanding-keys :
    (base a : ℕ) (ns : List ℕ)
    → Within base a
    → All (Within base) ns
    → oldest_outstanding none (map u32 (a ∷ ns)) ≡ some (u32 (least a ns))
unfolding oldest_outstanding
oldest_outstanding-keys base a ns h i =
    let two : u32 (u32 a) ≡ u32 a = omega arith in
    ap (λ o. oldest_outstanding (some o) (map u32 ns)) two ∙ oldest_outstanding-least base a ns h i

get_below_least :
    (q : RetransmitQueue) (base a n : ℕ) (ns : List ℕ)
    → keys q.queue ≡ map u32 (a ∷ ns)
    → Within base a
    → All (Within base) ns
    → Within base n
    → n < least a ns
    → JsMap.get q.queue (u32 n) ≡ none
unfolding has
get_below_least q base a n ns k h i w l =
    Laws.get-none q.queue (u32 n)
      (rw k (ground (arith, u32-ne n a, least-le a ns, not-has_below_least base a n ns i w l)))

-- The first ACK of a session removes exactly the entries up to its number, in whatever order they
-- were enqueued, and leaves every other entry as it was: for outstanding numbers, an ACK and an entry
-- that all lie within one half of the number space.
pub acknowledge-exact :
    (q : RetransmitQueue) (base a cum n : ℕ) (ns : List ℕ)
    → IsValid q
    → keys q.queue ≡ map u32 (a ∷ ns)
    → Within base a
    → All (Within base) ns
    → Within base cum
    → Within base n
    → JsMap.get (acknowledge_range q none (u32 cum)).1.queue (u32 n)
      ≡ (if leb n cum then none else JsMap.get q.queue (u32 n))
unfolding acknowledge_range
acknowledge-exact q base a cum n ns v k h i c w =
    let t = least a ns in
    let wt = least-Within base a ns h i in
    let two : u32 (u32 (u32 cum)) ≡ u32 cum = omega arith in
    let o : oldest_outstanding none (keys q.queue) ≡ some (u32 t) =
      rw k (oldest_outstanding-keys base a ns h i) in
    rw (acknowledge_lem q (u32 t) (u32 (u32 cum)) (u32 n) v o, two)
      (elim (Bool-cases (ltb n t)) [
        | inl low ↦
            let g = get_below_least q base a n ns k h i w (ground arith) in rw g (ground arith)
        | inr high ↦ rw (up_to-u32 base t cum n wt c w (ground arith))
      ])
