-- ===== src/Prelude/Word.antt =====
-- `uint64_t` and `size_t`: numbers below 2 ^ 64, with wrap-around written out.
use Prim.Native.Nat.{ℕ, ◌+◌, ◌-◌, ◌%◌, ◌^◌}

abbrev pub u64_mod : ℕ
u64_mod = 2 ^ 64

-- `n + 1` and `n - 1` on `uint64_t`.
abbrev pub incr64 : ℕ → ℕ
incr64 n = (n + 1) % u64_mod

abbrev pub decr64 : ℕ → ℕ
decr64 n = (n + u64_mod - 1) % u64_mod
