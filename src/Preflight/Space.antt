-- ===== src/Preflight/Space.antt =====
-- internal/app/preflight.go: how much free space a job needs.
use cuearr.Prelude.{ℕ, ◌+◌, ◌*◌, ◌≤◌, ◌≡◌, min, max, arith}
use cuearr.Preflight.{required_free_space, max_uint64, free_space_reserve}

-- For every image size of 64 bits, the required space is the greater of twice the size and the size
-- with the reserve, as exact sums cut off at the greatest 64-bit number: no sum wraps around.
pub required_free_space_lem :
    (size : ℕ)
    → size ≤ max_uint64
    → required_free_space size ≡ min (max (size * 2) (size + free_space_reserve)) max_uint64
unfolding required_free_space
required_free_space_lem size h = ground arith
