-- ===== src/Binary.antt =====
-- src/binary.rs: alignment of lengths, and the modules that read and write binary data.
pub mod Scope
pub mod Read
pub mod Unchecked
pub mod Bytes
pub mod Array
pub mod Vector
pub mod Write
use allsorts.Base.{ℕ, ◌+◌, ◌*◌, ◌/◌, ◌%◌, ◌≤◌, ◌<◌, ◌≡◌, arith}

-- `(len + 3) / 4 * 4`
unfoldable pub long_align : ℕ → ℕ
long_align len = (len + 3) / 4 * 4

-- `(len + 1) / 2 * 2`
unfoldable pub word_align : ℕ → ℕ
word_align len = (len + 1) / 2 * 2

-- For every length and every multiple of four that is not below it, `long_align` is a multiple of
-- four between the two.
long_align_least :
    (len m : ℕ)
    → m % 4 ≡ 0
    → len ≤ m
    → (long_align len % 4 ≡ 0) × (len ≤ long_align len) × (long_align len ≤ m)
unfolding long_align
long_align_least len m h k = omega arith
