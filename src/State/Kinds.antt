-- ===== src/State/Kinds.antt =====
-- How the three tests of a state are related.
use netrex_rak_net.Prelude.{◌≡◌, refl, ◌&&◌}
use netrex_rak_net.State.{ConnectionState, connecting, is_reliable, is_available, is_connected}

-- A state is available exactly where it is reliable, and every connected state is both.
pub state_tests :
    (s : ConnectionState)
    → (is_available s ≡ is_reliable s) × ((is_connected s && is_reliable s) ≡ is_connected s)
unfolding is_reliable is_available is_connected
state_tests connecting = (refl, refl)
state_tests _ = (refl, refl)
