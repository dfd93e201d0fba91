-- ===== src/Util/Clocks.antt =====
-- The clocks of src/util.cc go with the clock of the system.
use lt.Base.{ℕ, ◌+◌, ◌*◌, ◌/◌, ◌<◌, ◌≤◌, ◌≡◌, arith}
use lt.Util.{get_elapsed_ms, get_current_ms, get_current_us}

-- A later reading of the clock gives no earlier time.
pub get_elapsed_ms_monotone :
    (sec nsec sec' nsec' : ℕ)
    → nsec < 1000000000
    → nsec' < 1000000000
    → sec * 1000000000 + nsec ≤ sec' * 1000000000 + nsec'
    → get_elapsed_ms sec nsec ≤ get_elapsed_ms sec' nsec'
unfolding get_elapsed_ms
get_elapsed_ms_monotone sec nsec sec' nsec' p q h = omega arith

-- The two clocks of the day agree.
pub get_current_ms-get_current_us :
    (sec usec : ℕ) → get_current_ms sec usec ≡ get_current_us sec usec / 1000
unfolding get_current_ms get_current_us
get_current_ms-get_current_us sec usec = omega arith
