-- ===== src/Client/Fresh.antt =====
-- What a client keeps, and what its loops draw from the queue to send again
-- (src/transport/pipeline/reliable-client/reliability.ts).
use signalk_edge_link.Prelude.{
  ℕ, zero, suc, ◌^◌, ◌<◌, ◌≡◌, refl, Bool, true, not, ◌&&◌, ◌||◌, Option, none, some, List, [], ◌∷◌,
  ◌++◌, ltb, ◌==◌, if◌then◌else◌, if_either, arith, inl, inr, Bool-cases, Option-cases, All,
  take_out, with_first,
}
use signalk_edge_link.Serial.{is_ahead}
use signalk_edge_link.JsSet.{has}
use signalk_edge_link.JsMap.{keys}
use signalk_edge_link.JsMap.Laws as Laws
use signalk_edge_link.RetransmitQueue.{
  RetransmitQueue, RetransmitPacket, retransmit, expire_old, oldest_sequences, get_size, clear,
}
use signalk_edge_link.RetransmitQueue.Attempts.{IsResend, retransmit-IsResend}
use signalk_edge_link.Client.{
  Client, Loop, nak_loop, recovery_loop, Resend, effective_retransmit_age, prune_retransmit_queue,
  stop_recovery_burst, resend, resend_ends, resend_counted, loop_left, loop_done, loop_failed,
  has_packets, burst, run_recovery_burst, start_recovery_burst_if_needed, idle_since, is_none,
  nothing_pending,
}
use signalk_edge_link.Client.Kept.{AllAhead, Shrinks, retransmit-Shrinks, expire_old-Shrinks}
use signalk_edge_link.Client.First.{AllNear}

-- A number ahead of the last acknowledged one, if there is one.
abbrev pub IsFresh : ℕ × Option ℕ → Type 0
IsFresh (n, none) = Unit
IsFresh (n, some last) = is_ahead n last ≡ true

-- The queue holds only numbers ahead of the last acknowledged one; before the first ACK, of one half of
-- the number space.
abbrev pub Queued : ℕ → Option ℕ → RetransmitQueue → Type 0
Queued base none q = AllNear base (keys q.queue)
Queued base (some last) q = (last < 2 ^ 32) × AllAhead last q

abbrev pub AllFresh : Option ℕ → List RetransmitPacket → Type 0
AllFresh acked ps = All (λ p. IsFresh (p.sequence, acked)) ps

abbrev pub IsDrawn : Resend → Type 0
IsDrawn r = AllFresh r.acked r.packets

-- No number that is acknowledged is queued, and none was acknowledged when it was drawn to be sent again.
pub record IsAhead (base : ℕ) (c : Client) : Type 0 where
  pub queued : Queued base c.last_acked_seq c.retransmit_queue
  pub drawn : All IsDrawn c.resends
  pub resent : All IsFresh c.resent

Queued-Shrinks :
    (base : ℕ) (acked : Option ℕ) (q q' : RetransmitQueue)
    → Shrinks q q'
    → Queued base acked q
    → Queued base acked q'
Queued-Shrinks base none q q' h s = λ k g. s k (h k g)
Queued-Shrinks base (some last) q q' h (w, s) = (w, λ k g. s k (h k g))

-- Another client with the same ACK, loops and log, and a queue with no new number.
pub shrink :
    (base : ℕ) (c c' : Client)
    → c'.last_acked_seq ≡ c.last_acked_seq
    → c'.resends ≡ c.resends
    → c'.resent ≡ c.resent
    → Shrinks c.retransmit_queue c'.retransmit_queue
    → IsAhead base c
    → IsAhead base c'
shrink base c c' a d r q s = record {
  queued =
      rw a (Queued-Shrinks base c.last_acked_seq c.retransmit_queue c'.retransmit_queue q s.queued);
  drawn = rw d s.drawn;
  resent = rw r s.resent;
}

pub prune-IsAhead :
    (base : ℕ) (c : Client) (rtt_age : Option ℕ) (now : ℕ)
    → IsAhead base c
    → IsAhead base (prune_retransmit_queue c rtt_age now)
unfolding prune_retransmit_queue clear keys has
prune-IsAhead base c rtt_age now s =
    let age : ℕ = effective_retransmit_age c rtt_age now in
    let r = c.reliability in
    let e = expire_old-Shrinks c.retransmit_queue age now in
    elim (Bool-cases (
      r.force_drain_after_ack_idle
      && (idle_since c now r.force_drain_after && ltb 0 (get_size c.retransmit_queue)))) [
        | inl p ↦
            rw (prune_retransmit_queue, p)
              (shrink base c _ refl refl refl (λ k h. absurd (ground arith)) s)
        | inr p ↦ elim (Bool-cases (ltb 0 (expire_old c.retransmit_queue age now).0)) [
          | inl q ↦ rw (prune_retransmit_queue, p, q) (shrink base c _ refl refl refl e s)
          | inr q ↦ rw (prune_retransmit_queue, p, q) (shrink base c _ refl refl refl e s)
        ]
      ]

All-append {ℓ κ} :
    {A : Type ℓ} (P : A → Type κ) (xs : List A) (a : A) → All P xs → P a → All P (xs ++ (a ∷ []))
All-append P [] a h p = (p, tt)
All-append P (x ∷ xs) a h p = (h.0, All-append P xs a h.1 p)

pub fresh_packets :
    (base : ℕ) (acked : Option ℕ) (q : RetransmitQueue) (ps : List RetransmitPacket)
    → Queued base acked q
    → All (IsResend q) ps
    → AllFresh acked ps
fresh_packets base acked q [] s r = tt
fresh_packets base none q (p ∷ ps) s (d, r) = (tt, fresh_packets base none q ps s r)
fresh_packets base (some last) q (p ∷ ps) (w, s) (d, r) = (
  s p.sequence (Laws.has-keys_of_get q.queue p.sequence d.0 d.1),
  fresh_packets base (some last) q ps (w, s) r,
)

pub left-IsAhead :
    (base : ℕ) (l : Loop) (c : Client) → IsAhead base c → IsAhead base (loop_left l c)
left-IsAhead base nak_loop c s = s
left-IsAhead base recovery_loop c s = shrink base c _ refl refl refl (λ k h. h) s

done-IsAhead :
    (base : ℕ) (l : Loop) (any : Bool) (c : Client)
    → IsAhead base c
    → IsAhead base (loop_done l any c)
done-IsAhead base l any c s = left-IsAhead base l _ (shrink base c _ refl refl refl (λ k h. h) s)

failed-IsAhead :
    (base : ℕ) (l : Loop) (c : Client) → IsAhead base c → IsAhead base (loop_failed l c)
unfolding stop_recovery_burst
failed-IsAhead base nak_loop c s = s
failed-IsAhead base recovery_loop c s = shrink base c _ refl refl refl (λ k h. h) s

abbrev awaited : Loop → RetransmitPacket → List RetransmitPacket → Option ℕ → Client → Client
awaited l p ps acked c = record c {
  resends = c.resends ++ (record { loop = l; packets = ps; acked = acked } ∷ []);
  resent = c.resent ++ ((p.sequence, acked) ∷ []);
}

awaited-IsAhead :
    (base : ℕ) (l : Loop) (p : RetransmitPacket) (ps : List RetransmitPacket) (acked : Option ℕ)
    (c : Client)
    → IsFresh (p.sequence, acked)
    → AllFresh acked ps
    → IsAhead base c
    → IsAhead base (awaited l p ps acked c)
awaited-IsAhead base l p ps acked c f fs s = record {
  queued = s.queued;
  drawn =
      All-append IsDrawn c.resends (record { loop = l; packets = ps; acked = acked }) s.drawn fs;
  resent = All-append IsFresh c.resent (p.sequence, acked) s.resent f;
}

pub resend-IsAhead :
    (base : ℕ) (l : Loop) (ps : List RetransmitPacket) (any : Bool) (acked : Option ℕ) (c : Client)
    → AllFresh acked ps
    → IsAhead base c
    → IsAhead base (resend l ps any acked c)
unfolding resend stop_recovery_burst
resend-IsAhead base l [] any acked c f s = done-IsAhead base l any c s
resend-IsAhead base nak_loop (p ∷ ps) any acked c (f, fs) s =
    if_either (IsAhead base) c.socket (awaited nak_loop p ps acked c) c
      (λ h. awaited-IsAhead base nak_loop p ps acked c f fs s) (λ h. s)
resend-IsAhead base recovery_loop (p ∷ ps) any acked c (f, fs) s =
    if_either (IsAhead base) c.socket (awaited recovery_loop p ps acked c)
      (loop_done recovery_loop true (stop_recovery_burst c))
      (λ h. awaited-IsAhead base recovery_loop p ps acked c f fs s)
      (λ h. shrink base c _ refl refl refl (λ k g. g) s)

abbrev Taken {ℓ κ} : {A : Type ℓ} → (A → Type κ) → Option (A × List A) → Type κ
Taken P none = Unit
Taken P (some (a, others)) = P a × All P others

with_first-Taken {ℓ κ} :
    {A : Type ℓ} (P : A → Type κ) (x : A) (o : Option (A × List A))
    → P x
    → Taken P o
    → Taken P (with_first x o)
with_first-Taken P x none p t = tt
with_first-Taken P x (some (a, others)) p (q, h) = (q, (p, h))

take_out-Taken {ℓ κ} :
    {A : Type ℓ} (P : A → Type κ) (i : ℕ) (xs : List A) → All P xs → Taken P (take_out i xs)
take_out-Taken P i [] h = tt
take_out-Taken P zero (x ∷ xs) h = h
take_out-Taken P (suc i) (x ∷ xs) (p, h) =
    with_first-Taken P x (take_out i xs) p (take_out-Taken P i xs h)

pub ends-IsAhead :
    (base : ℕ) (i : ℕ) (success : Bool) (c : Client)
    → IsAhead base c
    → IsAhead base (resend_ends i success c)
unfolding resend_ends
ends-IsAhead base i success c s = elim (Option-cases (take_out i c.resends)) [
  | inl p ↦ rw (resend_ends, p) s
  | inr (taken, p) ↦
      let (drawn, others) = rw p at (take_out-Taken IsDrawn i c.resends s.drawn) in
      let c' : Client = record c { resends = taken.1 } in
      let s' : IsAhead base c' = record { queued = s.queued; drawn = others; resent = s.resent } in
      rw (resend_ends, p)
        (if_either (IsAhead base) success
          (resend taken.0.loop taken.0.packets true taken.0.acked (resend_counted c'))
          (loop_failed taken.0.loop c')
          (λ h.
            resend-IsAhead base taken.0.loop taken.0.packets true taken.0.acked (resend_counted c')
              drawn (shrink base c' _ refl refl refl (λ k g. g) s'))
          (λ h. failed-IsAhead base taken.0.loop c' s'))
]

-- A client whose queue has handed out the packets of some numbers, and resends them.
pub draws-IsAhead :
    (base : ℕ) (l : Loop) (c c' : Client) (seqs : List ℕ) (now : ℕ) (any : Bool)
    → c'.last_acked_seq ≡ c.last_acked_seq
    → c'.resends ≡ c.resends
    → c'.resent ≡ c.resent
    → c'.retransmit_queue ≡ (retransmit c.retransmit_queue seqs now).1
    → IsAhead base c
    → IsAhead base (resend l (retransmit c.retransmit_queue seqs now).0 any c.last_acked_seq c')
draws-IsAhead base l c c' seqs now any a d r q s =
    resend-IsAhead base l (retransmit c.retransmit_queue seqs now).0 any c.last_acked_seq c'
      (fresh_packets base c.last_acked_seq c.retransmit_queue
        (retransmit c.retransmit_queue seqs now).0 s.queued
        (retransmit-IsResend c.retransmit_queue seqs now))
      (shrink base c c' a d r (rw q (retransmit-Shrinks c.retransmit_queue seqs now)) s)

pub run_burst-IsAhead :
    (base : ℕ) (c : Client) (now : ℕ) → IsAhead base c → IsAhead base (run_recovery_burst c now)
unfolding run_recovery_burst stop_recovery_burst burst
run_burst-IsAhead base c now s =
    let pending : List ℕ =
      oldest_sequences c.retransmit_queue c.reliability.recovery_burst_size
        c.reliability.recovery_burst_interval now in
    let any : Bool = has_packets (retransmit c.retransmit_queue pending now).0 in
    let c' : Client = record c {
      retransmit_queue = (retransmit c.retransmit_queue pending now).1;
      recovery_drain_in_flight = true;
    } in
    if_either (IsAhead base) (c.recovery_drain_in_flight || is_none c.last_ack_rinfo) c
      (if nothing_pending pending || not c.socket
        then stop_recovery_burst c
        else burst c pending now)
      (λ h. s)
      (λ h.
        if_either (IsAhead base) (nothing_pending pending || not c.socket) (stop_recovery_burst c)
          (burst c pending now) (λ g. shrink base c _ refl refl refl (λ k t. t) s)
          (λ g. draws-IsAhead base recovery_loop c c' pending now any refl refl refl refl s))

pub start_burst-IsAhead :
    (base : ℕ) (c : Client) (late : Bool) (rinfo now : ℕ)
    → IsAhead base c
    → IsAhead base (start_recovery_burst_if_needed c late rinfo now)
unfolding start_recovery_burst_if_needed
start_burst-IsAhead base c late rinfo now s =
    let c' : Client = record c { last_ack_rinfo = some rinfo; recovery_drain_timer = true } in
    if_either (IsAhead base)
      (not c.reliability.recovery_burst_enabled || (not late || get_size c.retransmit_queue == 0)) c
      (run_recovery_burst c' now) (λ h. s)
      (λ h. run_burst-IsAhead base c' now (shrink base c c' refl refl refl (λ k g. g) s))
