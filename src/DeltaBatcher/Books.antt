-- ===== src/DeltaBatcher/Books.antt =====
-- Where the deltas of the buffer are (src/domain/delta-batcher.ts).
use signalk_edge_link.Prelude.{
  ℕ, ◌+◌, ◌≤◌, ◌≡◌, refl, sym, ap, ◌∙◌, Bool, true, false, not, ◌&&◌, some, List, [], ◌∷◌, ◌++◌,
  append_assoc, append-nil, leb, if◌then◌else◌, length, take, drop, length-append, length-drop,
  length-take, take-drop, take-append, arith,
}
use signalk_edge_link.Delta.{Delta}
use signalk_edge_link.DeltaBatcher.{
  Sending, Outcome, sent, given_up, overflowed, cleared, Batcher, max_deltas_buffer_size,
  takes_deltas, Event, delta, stopping, step,
}

abbrev pub contents : Outcome → List Delta
contents (sent ds) = ds
contents (given_up ds) = ds
contents (overflowed ds) = ds
contents (cleared ds) = ds

abbrev pub all_contents : List Outcome → List Delta
all_contents [] = []
all_contents (o ∷ os) = contents o ++ all_contents os

-- The losses after an outcome; a stop sets the counter back.
abbrev pub lost_after : ℕ → Outcome → ℕ
lost_after n (sent ds) = n
lost_after n (given_up ds) = n + length ds
lost_after n (overflowed ds) = n + length ds
lost_after n (cleared ds) = 0

abbrev pub lost_from : ℕ → List Outcome → ℕ
lost_from n [] = n
lost_from n (o ∷ os) = lost_from (lost_after n o) os

-- At most one send is awaited, for which the flag is set, and its batch is the front of the buffer.
abbrev pub InFlight : Bool → List Sending → List Delta → Type 0
InFlight flag [] ds = flag ≡ false
InFlight flag (s ∷ []) ds = (flag ≡ true) × (s.size ≤ length ds) × (take s.size ds ≡ s.batch)
InFlight flag (s ∷ t ∷ ss) ds = true ≡ false

-- Of the deltas `arrived` each is, in order, in an outcome or in the buffer; the losses are counted.
pub record Books (outcomes : List Outcome) (deltas : List Delta) (count : ℕ) (flag : Bool)
    (sending : List Sending) (arrived : List Delta) : Type 0 where
  pub ledger : all_contents outcomes ++ deltas ≡ arrived
  pub counted : lost_from 0 outcomes ≡ count
  pub capped : length deltas ≤ max_deltas_buffer_size
  pub in_flight : InFlight flag sending deltas

abbrev pub Accounted : Batcher → List Delta → Type 0
Accounted b arrived =
    Books b.outcomes b.deltas b.dropped_delta_count b.batch_send_in_flight b.sending arrived

-- While a batch is being sent no delta meets a full buffer, and nobody stops the connection.
abbrev pub spares_send : Batcher → Event → Bool
spares_send b (delta (some d)) =
    not (takes_deltas b && b.batch_send_in_flight && leb max_deltas_buffer_size (length b.deltas))
spares_send b stopping = not b.batch_send_in_flight
spares_send b other = true

unfoldable pub spares_sends : Batcher → List Event → Bool
spares_sends b [] = true
spares_sends b (e ∷ es) = spares_send b e && spares_sends (step b e) es

abbrev pub arrival : Batcher → Event → List Delta
arrival b (delta (some d)) = if takes_deltas b then d ∷ [] else []
arrival b other = []

unfoldable pub arrivals : Batcher → List Event → List Delta
arrivals b [] = []
arrivals b (e ∷ es) = arrival b e ++ arrivals (step b e) es

pub all_contents-snoc :
    (os : List Outcome) (o : Outcome)
    → all_contents (os ++ (o ∷ [])) ≡ all_contents os ++ contents o
all_contents-snoc [] o = append-nil (contents o)
all_contents-snoc (p ∷ os) o =
    ap (λ ds. contents p ++ ds) (all_contents-snoc os o)
    ∙ sym (append_assoc (contents p) (all_contents os) (contents o))

pub lost_from-snoc :
    (n : ℕ) (os : List Outcome) (o : Outcome)
    → lost_from n (os ++ (o ∷ [])) ≡ lost_after (lost_from n os) o
lost_from-snoc n [] o = refl
lost_from-snoc n (p ∷ os) o = lost_from-snoc (lost_after n p) os o

-- The front of the buffer moves to the outcomes.
pub moved :
    (os : List Outcome) (o : Outcome) (n : ℕ) (ds : List Delta)
    → take n ds ≡ contents o
    → all_contents (os ++ (o ∷ [])) ++ drop n ds ≡ all_contents os ++ ds
moved os o n ds front =
    ap (λ xs. xs ++ drop n ds) (all_contents-snoc os o)
    ∙ append_assoc (all_contents os) (contents o) (drop n ds)
    ∙ ap (λ xs. all_contents os ++ (xs ++ drop n ds)) (sym front)
    ∙ ap (λ xs. all_contents os ++ xs) (take-drop n ds)

-- The front leaves the buffer, and no send is awaited any more.
pub leave :
    (o : Outcome) (n count : ℕ) (os : List Outcome) (buffer : List Delta) (before : ℕ)
    (arrived : List Delta) (flag : Bool) (s : List Sending)
    → Books os buffer before flag s arrived
    → take n buffer ≡ contents o
    → count ≡ lost_after before o
    → Books (os ++ (o ∷ [])) (drop n buffer) count false [] arrived
leave o n count os buffer before arrived flag s a front counts = record {
  ledger = moved os o n buffer front ∙ a.ledger;
  counted = lost_from-snoc 0 os o ∙ ap (λ m. lost_after m o) a.counted ∙ sym counts;
  capped = omega (arith, length-drop n buffer, a.capped);
  in_flight = refl;
}

abbrev pub settled :
    {os : List Outcome} {buffer : List Delta} {count : ℕ} {flag : Bool} {s : List Sending}
    {arrived : List Delta}
    → Books os buffer count flag s arrived
    → Books os buffer count false [] arrived
settled a = record { ledger = a.ledger; counted = a.counted; capped = a.capped; in_flight = refl }

pub given_up-count :
    (n : ℕ) (buffer : List Delta) (count : ℕ)
    → n ≤ length buffer
    → count + n ≡ lost_after count (given_up (take n buffer))
given_up-count n buffer count fits = omega (arith, length-take n buffer)

pub first-InFlight :
    (flag : Bool) (ss : List Sending) (ds : List Delta) (s : Sending)
    → InFlight flag ss ds
    → flag ≡ false
    → s.size ≤ length ds
    → take s.size ds ≡ s.batch
    → InFlight true (ss ++ (s ∷ [])) ds
first-InFlight flag [] ds s f idle fits front = (refl, fits, front)
first-InFlight flag (t ∷ []) ds s f idle fits front = absurd (ground (arith, f.0))
first-InFlight flag (t ∷ u ∷ ss) ds s f idle fits front = absurd (ground arith)

pub idle-InFlight :
    (flag : Bool) (ss : List Sending) (ds es : List Delta)
    → InFlight flag ss ds
    → flag ≡ false
    → InFlight flag ss es
idle-InFlight flag [] ds es f idle = idle
idle-InFlight flag (t ∷ []) ds es f idle = absurd (ground (arith, f.0))
idle-InFlight flag (t ∷ u ∷ ss) ds es f idle = f

pub push-InFlight :
    (flag : Bool) (ss : List Sending) (ds es : List Delta)
    → InFlight flag ss ds
    → InFlight flag ss (ds ++ es)
push-InFlight flag [] ds es f = f
push-InFlight flag (s ∷ []) ds es (set, fits, front) =
    (set, omega (arith, length-append ds es), take-append s.size ds es fits ∙ front)
push-InFlight flag (t ∷ u ∷ ss) ds es f = f
