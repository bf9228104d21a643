-- ===== src/ReplayWindow/Tests.antt =====
-- The replay window on concrete streams of datagrams.
use signalk_edge_link.Prelude.{ℕ, ◌≡◌, refl, true, List, [], ◌∷◌, arith}
use signalk_edge_link.JsSet.{Distinct, has, add}
use signalk_edge_link.ReplayWindow.{create, accept, accepted, verdicts}
use signalk_edge_link.ReplayWindow.Safety.{accepted-Distinct}
use signalk_edge_link.ReplayWindow.Exact.{observer, verdicts-exact}
use signalk_edge_link.ReplayWindow.{is_empty}

-- Across the wrap of the number space, with replays.
abbrev datagrams : List ℕ
datagrams = 0x100000001 ∷ 0x100000000 ∷ 0x100000001 ∷ 0xffffffff ∷ 0x100000009 ∷ 0x100000002 ∷ []

accepted-datagrams :
    accepted (create 4) (0xffffffff ∷ datagrams)
    ≡ 0xffffffff ∷ 0x100000001 ∷ 0x100000000 ∷ 0x100000009 ∷ []
unfolding accepted accept create add has
accepted-datagrams = refl

accepted-Distinct_example : Distinct (accepted (create 4) (0xffffffff ∷ datagrams))
accepted-Distinct_example = accepted-Distinct 4 0xffffffff datagrams (omega arith) (ground arith)

verdicts-exact_example :
    verdicts (create 4) (0xffffffff ∷ datagrams)
    ≡ true ∷ observer 4 0xffffffff (0xffffffff ∷ []) datagrams
verdicts-exact_example =
    verdicts-exact 0xf0000000 4 0xffffffff datagrams (omega arith) (omega arith) (ground arith)
      (ground arith) (ground arith)

is_empty-create : is_empty (create 4) ≡ true
unfolding is_empty create
is_empty-create = refl
