-- ===== src/Examples/Checks.antt =====
-- Runs of the router, evaluated.
use computer_networking.Base.{◌≡◌, refl, length}
use computer_networking.Examples.Topology.{machine, forwarding, state_after}

forwarding_wire : length (state_after forwarding).wire ≡ 3
unfolding machine
forwarding_wire = refl
