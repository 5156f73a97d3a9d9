-- ===== src/Events/Tests.antt =====
-- Two callbacks of one guild.
use dro_asms.Prelude.{◌≡◌, [], ◌∷◌, arith}
use dro_asms.Events.Defs.{publish}
use dro_asms.Events.Delivery.{joined, left, times, run, delivered}

delivered_example :
    times 7 (publish 1 (run (joined 1 7 ∷ joined 1 8 ∷ left 1 8 ∷ joined 1 7 ∷ []) [])) ≡ 1
unfolding publish
delivered_example =
    delivered (joined 1 7 ∷ joined 1 8 ∷ left 1 8 ∷ joined 1 7 ∷ []) 1 7 [] (λ g k. omega arith)
