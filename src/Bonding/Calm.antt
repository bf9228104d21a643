-- ===== src/Bonding/Calm.antt =====
-- When the active link changes (src/transport/bonding.ts).
use signalk_edge_link.Prelude.{
  ℕ, ◌+◌, ◌≤◌, ◌≡◌, ◌≢◌, refl, sym, ◌∙◌, Bool, true, false, not, ◌&&◌, Option, none, some, List, [],
  ◌∷◌, ltb, if◌then◌else◌, arith, inl, inr, ◌⊎◌, Bool-cases, Option-cases, All, if_either,
}
use signalk_edge_link.JsMap
use signalk_edge_link.CircularBuffer.{CircularBuffer}
use signalk_edge_link.Bonding.{
  LinkName, primary_link, backup_link, LinkStatus, unknown_status, active_status, standby_status,
  down_status, is_down, LinkState, FailoverThresholds, Switches, BondingManager, is_primary,
  initialize, measure_link_health, maybe_mark_link_down, compute_loss_ratio,
  handle_heartbeat_response, record_heartbeat_rtt, should_failover, should_failback, failover,
  failback, check_health, socket_error, recreate_link_socket, Input, health_tick, heartbeat, Ratio,
  with_loss, expire_pending_heartbeats, link_error, link_recreated, forced, step, run,
}

-- The link that the last switch went to, and when; before the first, the primary.
abbrev head_link : Switches → LinkName
head_link [] = primary_link
head_link ((at, to) ∷ ss) = to

abbrev head_time : Switches → ℕ
head_time [] = 0
head_time ((at, to) ∷ ss) = at

-- Every switch goes to the other link, and back to the primary no sooner than the delay.
abbrev pub Calm : ℕ → Switches → Type 0
Calm delay [] = Unit
Calm delay ((at, to) ∷ ss) =
    (to ≢ head_link ss) × ((to ≡ backup_link) ⊎ (head_time ss + delay ≤ at)) × Calm delay ss

-- A link with the status "active" is the active one.
abbrev Owned : LinkState → Bool → Type 0
Owned l active = l.status ≡ active_status → active ≡ true

pub record Steady (b : BondingManager) : Type 0 where
  calm : Calm b.failover_thresholds.failback_delay b.switches
  pub current : head_link b.switches ≡ b.active_link
  pub since : (b.active_link ≡ primary_link) ⊎ (head_time b.switches ≡ b.last_failover_time)
  primary_owned : Owned b.primary (is_primary b.active_link)
  backup_owned : Owned b.backup (not (is_primary b.active_link))

mark-Owned :
    (l : LinkState) (active : Bool) (now timeout : ℕ)
    → Owned l active
    → Owned (maybe_mark_link_down l now timeout) active
unfolding maybe_mark_link_down
mark-Owned l active now timeout o =
    elim (Bool-cases (ltb 3 l.heartbeats_sent && ltb (l.last_heartbeat_response + timeout) now)) [
      | inl p ↦ rw (maybe_mark_link_down, p) (λ h. absurd cc)
      | inr p ↦ rw (maybe_mark_link_down, p) o
    ]

with_loss-Owned :
    (l : LinkState) (active : Bool) (r : Option Ratio)
    → Owned l active
    → Owned (with_loss l r) active
with_loss-Owned l active none o = o
with_loss-Owned l active (some r) o = o

measure-Owned :
    (l : LinkState) (active : Bool) (now timeout : ℕ)
    → Owned l active
    → Owned (measure_link_health l now timeout) active
unfolding measure_link_health
measure-Owned l active now timeout o =
    let pending : List (ℕ × ℕ) = JsMap.set l.pending_heartbeats l.heartbeat_seq now in
    let gone : List (ℕ × ℕ) × CircularBuffer Bool =
      expire_pending_heartbeats pending l.loss_samples now timeout in
    let probed : LinkState = record l {
      heartbeat_seq = l.heartbeat_seq + 1;
      heartbeats_sent = l.heartbeats_sent + 1;
      pending_heartbeats = gone.0;
      loss_samples = gone.1;
    } in
    let marked =
      mark-Owned (with_loss probed (compute_loss_ratio probed)) active now timeout
        (with_loss-Owned probed active (compute_loss_ratio probed) o) in
    if_either (λ x. Owned x active) l.socket _ l (λ p. marked) (λ p. o)

recovered-Owned :
    (status : LinkStatus) (active : Bool)
    → (status ≡ active_status → active ≡ true)
    → (if is_down status then (if active then active_status else standby_status) else status)
      ≡ active_status
    → active ≡ true
recovered-Owned status true o h = refl
recovered-Owned unknown_status false o h = o h
recovered-Owned active_status false o h = o h
recovered-Owned standby_status false o h = o h
recovered-Owned down_status false o h = absurd cc

heartbeat-Owned :
    (l : LinkState) (active : Bool) (seq now : ℕ)
    → Owned l active
    → Owned (handle_heartbeat_response l active seq now) active
unfolding handle_heartbeat_response record_heartbeat_rtt
heartbeat-Owned l active seq now o = elim (Option-cases (JsMap.get l.pending_heartbeats seq)) [
  | inl p ↦ rw (handle_heartbeat_response, p) o
  | inr (at, p) ↦ rw (handle_heartbeat_response, p) (recovered-Owned l.status active o)
]

recreate-Owned : (l : LinkState) (active bound : Bool) → Owned (recreate_link_socket l bound) active
unfolding recreate_link_socket
recreate-Owned l active true h = absurd cc
recreate-Owned l active false h = absurd cc

failed-Owned : (l : LinkState) (active : Bool) → Owned (socket_error l) active
unfolding socket_error
failed-Owned l active h = absurd cc

primary_name : (n : LinkName) → is_primary n ≡ true → n ≡ primary_link
primary_name primary_link h = refl
primary_name backup_link h = absurd cc

backup_name : (n : LinkName) → is_primary n ≡ false → n ≡ backup_link
backup_name primary_link h = absurd cc
backup_name backup_link h = refl

stays_away :
    (status : LinkStatus)
    → (if is_down status then down_status else standby_status) ≡ active_status
    → false ≡ true
stays_away unknown_status h = absurd cc
stays_away active_status h = absurd cc
stays_away standby_status h = absurd cc
stays_away down_status h = absurd cc

failover-Steady : (b : BondingManager) (now : ℕ) → Steady b → Steady (failover b now)
unfolding failover
failover-Steady b now s =
    if_either Steady (is_primary b.active_link) _ b
      (λ p. record {
        calm = (
          (λ h.
              let q : head_link b.switches ≡ primary_link =
                s.current ∙ primary_name b.active_link p in
              absurd (ground (arith, h ∙ q))),
          inl refl,
          s.calm,
        );
        current = refl;
        since = inr refl;
        primary_owned = stays_away b.primary.status;
        backup_owned = λ h. refl;
      })
      (λ p. s)

-- A failback that comes after the delay.
failback-Steady :
    (b : BondingManager) (now : ℕ)
    → (is_primary b.active_link ≡ true)
      ⊎ (b.last_failover_time + b.failover_thresholds.failback_delay ≤ now)
    → Steady b
    → Steady (failback b now)
unfolding failback
failback-Steady b now d s =
    if_either Steady (is_primary b.active_link) b _ (λ p. s)
      (λ p.
        let q = backup_name b.active_link p in
        let since : head_time b.switches ≡ b.last_failover_time = elim s.since [
          | inl x ↦ absurd (ground (arith, sym x ∙ q))
          | inr x ↦ x
        ] in
        let delay : b.last_failover_time + b.failover_thresholds.failback_delay ≤ now = elim d [
          | inl x ↦ absurd (ground arith)
          | inr x ↦ x
        ] in
        record {
          calm = (
            (λ h. absurd (ground (arith, h ∙ s.current ∙ q))),
            inr (omega (arith, since, delay)),
            s.calm,
          );
          current = refl;
          since = inl refl;
          primary_owned = λ h. refl;
          backup_owned = λ h. absurd cc;
        })

measured-Steady :
    (b : BondingManager) (p q : LinkState)
    → Owned p (is_primary b.active_link)
    → Owned q (not (is_primary b.active_link))
    → Steady b
    → Steady (record b { primary = p; backup = q })
measured-Steady b p q o r s = record {
  calm = s.calm;
  current = s.current;
  since = s.since;
  primary_owned = o;
  backup_owned = r;
}

should_failback-delay :
    (b : BondingManager) (now : ℕ)
    → should_failback b now ≡ true
    → b.last_failover_time + b.failover_thresholds.failback_delay ≤ now
unfolding should_failback
should_failback-delay b now h = ground arith

check_health-Steady : (b : BondingManager) (now : ℕ) → Steady b → Steady (check_health b now)
unfolding check_health
check_health-Steady b now s =
    let timeout : ℕ = b.failover_thresholds.heartbeat_timeout in
    let a : Bool = is_primary b.active_link in
    let m : BondingManager = record b {
      primary = measure_link_health b.primary now timeout;
      backup = measure_link_health b.backup now timeout;
    } in
    let v =
      measured-Steady b m.primary m.backup (measure-Owned b.primary a now timeout s.primary_owned)
        (measure-Owned b.backup (not a) now timeout s.backup_owned) s in
    if_either Steady (should_failover m now) (failover m now) _ (λ p. failover-Steady m now v)
      (λ p.
        if_either Steady (should_failback m now) (failback m now) m
          (λ q. failback-Steady m now (inr (should_failback-delay m now q)) v) (λ q. v))

-- Nobody asks for a switch by hand.
abbrev is_automatic : Input → Bool
is_automatic (health_tick now) = true
is_automatic (heartbeat name seq now) = true
is_automatic (link_error name) = true
is_automatic (link_recreated name bound) = true
is_automatic (forced now) = false

step-Steady :
    (b : BondingManager) (i : Input) → is_automatic i ≡ true → Steady b → Steady (step b i)
unfolding step
step-Steady b (health_tick now) a s = check_health-Steady b now s
step-Steady b (heartbeat primary_link seq now) a s =
    measured-Steady b _ b.backup
      (heartbeat-Owned b.primary (is_primary b.active_link) seq now s.primary_owned) s.backup_owned
      s
step-Steady b (heartbeat backup_link seq now) a s =
    measured-Steady b b.primary _ s.primary_owned
      (heartbeat-Owned b.backup (not (is_primary b.active_link)) seq now s.backup_owned) s
step-Steady b (link_error primary_link) a s =
    measured-Steady b _ b.backup (failed-Owned b.primary _) s.backup_owned s
step-Steady b (link_error backup_link) a s =
    measured-Steady b b.primary _ s.primary_owned (failed-Owned b.backup _) s
step-Steady b (link_recreated primary_link bound) a s =
    measured-Steady b _ b.backup (recreate-Owned b.primary _ bound) s.backup_owned s
step-Steady b (link_recreated backup_link bound) a s =
    measured-Steady b b.primary _ s.primary_owned (recreate-Owned b.backup _ bound) s
step-Steady b (forced now) a s = absurd cc

run-steps :
    (b : BondingManager) (is_ : List Input)
    → All (λ i. is_automatic i ≡ true) is_
    → Steady b
    → Steady (run b is_)
unfolding run
run-steps b [] a s = s
run-steps b (i ∷ is_) a s = run-steps (step b i) is_ a.1 (step-Steady b i a.0 s)

-- Whatever heartbeats, ticks, socket errors and recoveries two bonded links see after `initialize`, in any
-- order, and unless a switch is forced: every switch goes to the other link, one back to the primary
-- comes no sooner than `failbackDelay` after the switch away from it, and only the link that carries the
-- traffic has the status "active".
pub run-Steady :
    (thresholds : FailoverThresholds) (now : ℕ) (is_ : List Input)
    → All (λ i. is_automatic i ≡ true) is_
    → Steady (run (initialize thresholds now) is_)
unfolding initialize
run-Steady thresholds now is_ a = run-steps (initialize thresholds now) is_ a (record {
  calm = tt;
  current = refl;
  since = inl refl;
  primary_owned = λ h. refl;
  backup_owned = λ h. absurd cc;
})
