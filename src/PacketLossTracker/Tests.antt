-- ===== src/PacketLossTracker/Tests.antt =====
-- Packets over two intervals of five seconds.
use signalk_edge_link.Prelude.{◌≡◌, refl}
use signalk_edge_link.PacketLossTracker.{
  get_summary, lost_of, total_of, ensure_bucket, get_heatmap_data, record_packet, record_batch,
  count_packets, finalize, positive_or,
}
use signalk_edge_link.Prelude.{true, false, none, some, List, [], ◌∷◌}
use signalk_edge_link.PacketLossTracker.{create}
use signalk_edge_link.PacketLossTracker.Totals.{
  step, Event, packet, batch, heatmap, run, sent_by, Counts, run-create-Counts,
}

abbrev events : List Event
events =
    packet false 1000 ∷ packet true 1500 ∷ batch 10 2 7000 ∷ packet false 6500 ∷ heatmap 12000 ∷ []

run-create-Counts_example : Counts (run (create (some 1) none) events) (sent_by events)
run-create-Counts_example = run-create-Counts (some 1) none events

get_summary-events : get_summary (run (create (some 1) none) events) 12000 ≡ (11, 2, 1)
unfolding get_summary lost_of total_of ensure_bucket get_heatmap_data record_packet record_batch run
    create step count_packets finalize positive_or
get_summary-events = refl
