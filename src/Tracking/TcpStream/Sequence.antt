-- ===== src/Tracking/TcpStream/Sequence.antt =====
-- Comparison of sequence numbers across the wrap-around.
use network_listener.Prelude.{ℕ, ◌+◌, ◌≤◌, ◌<◌, ◌≡◌, ◌↔◌, true, arith, u32}
use network_listener.Tracking.TcpStream.{seq_less_equal}

-- Two positions at most 2^31 - 1 bytes from any starting point are compared as they stand in the
-- stream, wherever the 32-bit numbers wrap in between.
pub seq_less_equal-window :
    (start i j : ℕ)
    → i < 2147483648
    → j < 2147483648
    → (seq_less_equal (u32 (start + i)) (u32 (start + j)) ≡ true) ↔ (i ≤ j)
unfolding seq_less_equal
seq_less_equal-window start i j hi hj = (λ e. ground arith, λ h. ground arith)
