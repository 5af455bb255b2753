-- ===== src/Binary/Read/Results.antt =====
-- The results of the primitive reads on every valid context.
use allsorts.Base.{ℕ, ◌≡◌, length, take, leb, if◌then◌else◌}
use allsorts.Binary.Read.{
  ReadCtxt, IsValid, remaining, advance, read_u32be, read_slice, read_until_nibble,
}
use allsorts.Binary.Read.Values.{be_value}
use allsorts.Binary.Read.Fixed.{read_u32be-Fixed, read_slice-Fixed}
use allsorts.Binary.Read.Safety.{Follows, IsSafe-read_until_nibble}
use allsorts.Error.{ok, err, bad_eof, Ends}

-- On every valid context `read_u32be` gives the value of the next four bytes, most significant
-- first, with the position behind them, or an end of file where there are fewer.
read_u32be_lem :
    (c : ReadCtxt)
    → IsValid c
    → read_u32be c ≡ (
        if leb 4 (length (remaining c))
        then ok (be_value (take 4 (remaining c)), advance c 4)
        else err bad_eof)
read_u32be_lem c v = read_u32be-Fixed c v

-- On every valid context `read_slice` gives the next bytes in the length asked for, with the
-- position behind them, or an end of file where there are fewer.
read_slice_lem :
    (len : ℕ) (c : ReadCtxt)
    → IsValid c
    → read_slice len c ≡ (
        if leb len (length (remaining c))
        then ok (take len (remaining c), advance c len)
        else err bad_eof)
read_slice_lem len c v = read_slice-Fixed len c v

-- On every valid context and for every nibble, `read_until_nibble` ends in an error or in a slice
-- with a valid context in the same scope, no further back; it neither panics nor reads out of
-- bounds.
read_until_nibble-Ends :
    (nibble : ℕ) (c : ReadCtxt) → IsValid c → Ends (λ r. Follows c r.1) (read_until_nibble nibble c)
read_until_nibble-Ends nibble c v = IsSafe-read_until_nibble nibble c v
