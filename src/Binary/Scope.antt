-- ===== src/Binary/Scope.antt =====
-- src/binary/read.rs: `ReadScope`, a window on the bytes of a file. A byte slice is a list of
-- numbers. `usize` has 64 bits, and a sum or product that no slice bounds wraps.
use allsorts.Base.{ℕ, ◌+◌, ◌*◌, ◌%◌, ◌^◌, ◌≤◌, ◌≡◌, ◌||◌, arith}
use allsorts.Base.{Option, none, some, List, []}
use allsorts.Base.{ltb, leb, ◌==◌, if◌then◌else◌, length, take, drop, get_elem?}
use allsorts.Base.{drop-eq-nil, length-drop}
use allsorts.Error.{Outcome, ok, err, panic, undefined, ParseError, bad_eof, bad_offset, ◌>>=◌}

abbrev pub usize_mod : ℕ
usize_mod = 2 ^ 64

abbrev pub usize_add : ℕ → ℕ → ℕ
usize_add a b = (a + b) % usize_mod

abbrev pub usize_mul : ℕ → ℕ → ℕ
usize_mul a b = a * b % usize_mod

-- `usize::checked_add`
abbrev pub checked_add : ℕ → ℕ → Option ℕ
checked_add a b = if ltb (a + b) usize_mod then some (a + b) else none

-- `slice.get(start..)`
abbrev pub get_from : ℕ → List ℕ → Option (List ℕ)
get_from start xs = if leb start (length xs) then some (drop start xs) else none

-- `&slice[start..]`
abbrev pub slice_from : ℕ → List ℕ → Outcome ParseError (List ℕ)
slice_from start xs = if leb start (length xs) then ok (drop start xs) else panic

-- `&slice[0..end]`
abbrev pub slice_to : ℕ → List ℕ → Outcome ParseError (List ℕ)
slice_to end xs = if leb end (length xs) then ok (take end xs) else panic

-- `slice.get_unchecked(i)`
abbrev pub get_unchecked : List ℕ → ℕ → Outcome ParseError ℕ
get_unchecked xs i = elim (get_elem? xs i) [ none ↦ undefined | some b ↦ ok b ]

abbrev pub unwrap_or_nil : Option (List ℕ) → List ℕ
unwrap_or_nil none = []
unwrap_or_nil (some xs) = xs

pub record ReadScope : Type 0 where
  pub base : ℕ
  pub bytes : List ℕ

-- `ReadScope::new`
abbrev pub new_scope : List ℕ → ReadScope
new_scope bytes = record { base = 0; bytes = bytes }

unfoldable pub offset : ReadScope → ℕ → ReadScope
offset s o = record { base = usize_add s.base o; bytes = unwrap_or_nil (get_from o s.bytes) }

unfoldable pub offset_length : ReadScope → ℕ → ℕ → Outcome ParseError ReadScope
offset_length s o len =
    if ltb o (length s.bytes) || len == 0
    then (do
      rest ← slice_from o s.bytes
      if leb len (length rest)
          then slice_to len rest
            >>= (λ part. ok (record { base = usize_add s.base o; bytes = part }))
          else err bad_eof)
    else err bad_offset

-- The window of `len` bytes from `o` on.
abbrev pub window : ReadScope → ℕ → ℕ → ReadScope
window s o len = record { base = usize_add s.base o; bytes = take len (drop o s.bytes) }

-- An offset past the end gives the empty scope.
pub offset_lem : (s : ReadScope) (o : ℕ) → (offset s o).bytes ≡ drop o s.bytes
unfolding offset
offset_lem s o = ground (arith, drop-eq-nil o s.bytes)

-- Within the scope, `offset_length` is the window.
pub offset_length-window :
    (s : ReadScope) (o len : ℕ)
    → o + len ≤ length s.bytes
    → offset_length s o len ≡ ok (window s o len)
unfolding offset_length
offset_length-window s o len h = ground (arith, length-drop o s.bytes)

-- For every scope, offset and length, `offset_length` is the window where it lies in the scope, an
-- end of file where it begins in the scope and ends past it, a panic where nothing is asked for
-- past the end, and a bad offset otherwise.
pub offset_length_lem :
    (s : ReadScope) (o len : ℕ)
    → offset_length s o len ≡ (
        if leb (o + len) (length s.bytes)
        then ok (window s o len)
        else if ltb o (length s.bytes)
        then err bad_eof
        else if len == 0
        then panic
        else err bad_offset)
unfolding offset_length
offset_length_lem s o len = ground (arith, length-drop o s.bytes)
