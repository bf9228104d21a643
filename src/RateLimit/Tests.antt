-- ===== src/RateLimit/Tests.antt =====
-- Three packets of a session, the last in a new window.
use signalk_edge_link.Prelude.{◌≤◌, [], ◌∷◌, arith}
use signalk_edge_link.JsSet.{has, Distinct}
use signalk_edge_link.JsMap.{keys}
use signalk_edge_link.RateLimit.{Counter, Counters}
use signalk_edge_link.RateLimit.PreAuth.{passed_of, pre_auth-budget}

abbrev busy : Counter
busy = record { count = 199; window_start = 100 }

abbrev addresses : Counters
addresses = (1, busy) ∷ (2, record { count = 7; window_start = 900 }) ∷ []

addresses-Distinct : Distinct (keys addresses)
unfolding keys has
addresses-Distinct = ground arith

pre_auth-budget_example : passed_of 1 addresses ((1, 1050) ∷ (2, 1060) ∷ (1, 1100) ∷ []) ≤ 400
pre_auth-budget_example =
    pre_auth-budget 1000 1 addresses ((1, 1050) ∷ (2, 1060) ∷ (1, 1100) ∷ []) addresses-Distinct
      (ground arith)
