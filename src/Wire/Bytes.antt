-- ===== src/Wire/Bytes.antt =====
-- Sizes as four bytes, most significant first.
use ucl_tools.Base.{ℕ, ◌^◌, ◌<◌, ◌≡◌, refl, arith, length}
use ucl_tools.Wire.{put_uint32, uint32}

-- A size below 2^32 is read back from its four bytes.
pub uint32-put_uint32 : (n : ℕ) → n < 2 ^ 32 → uint32 (put_uint32 n) ≡ n
unfolding uint32 put_uint32
uint32-put_uint32 n h = omega arith

pub length-put_uint32 : (n : ℕ) → length (put_uint32 n) ≡ 4
unfolding put_uint32
length-put_uint32 n = refl
