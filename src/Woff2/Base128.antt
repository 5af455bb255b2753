-- ===== src/Woff2/Base128.antt =====
-- src/woff2.rs, `U32Base128`: a number of 32 bits in one to five groups of seven bits, most
-- significant first, the top bit set on every byte but the last.
pub mod Digits
pub mod RoundTrip
use allsorts.Base.{ℕ, zero, suc, ◌+◌, bit_and, bit_or, ◌==◌, ◌&&◌, not, if◌then◌else◌}
use allsorts.Binary.Read.{Reader, pure, fail, ◌>>=◌, read_u8, shl}
use allsorts.Error.{bad_value}

-- `for i in 0..5`, with the rounds that are left
unfoldable pub base128_loop : ℕ → ℕ → ℕ → Reader ℕ
base128_loop zero i accum = fail bad_value
base128_loop (suc left) i accum = do
  byte ← read_u8
  let accum' = bit_or (shl 32 accum 7) (bit_and byte 0x7f)
  let more = base128_loop left (i + 1) accum'
  if i == 0 && byte == 0x80
      then fail bad_value
      else if not (bit_and accum 0xfe000000 == 0)
      then fail bad_value
      else if bit_and byte 0x80 == 0
      then pure accum'
      else more

unfoldable pub read_base128 : Reader ℕ
unfolding base128_loop
read_base128 = base128_loop 5 0 0
