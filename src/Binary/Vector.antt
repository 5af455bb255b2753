-- ===== src/Binary/Vector.antt =====
-- src/binary/read.rs: an array that is read and collected at once, as most tables read theirs, and
-- the laws of the composite `ReadUnchecked` types.
use allsorts.Base.{ℕ, ◌*◌, ◌^◌, ◌≤◌, ◌<◌, ◌≡◌, refl, List, length, take, drop}
use allsorts.Base.{arith, leb, if◌then◌else◌, leb→le, Bool-cases, inl, inr, All-take}
use allsorts.Base.{length-take, drop-drop}
use allsorts.Binary.Scope.{window, usize_mul}
use allsorts.Binary.Read.{advance, ReadCtxt, Reader, IsByte, IsValid, remaining, lift, ◌>>=◌}
use allsorts.Binary.Read.Remaining.{Reads, length-remaining, remaining-octets}
use allsorts.Binary.Read.Values.{
  Exact, Fixed, Exact-map, Exact->>=, be_value, Exact-value, Exact-bind, read_unchecked_u16be-Exact,
}
use allsorts.Binary.Read.Fixed.{read_scope_lem, Fixed-Reads}
use allsorts.Binary.Read.Safety.{IsSafe, Fixed-IsSafe}
use allsorts.Binary.Unchecked.{ReadUnchecked, ReadArray, read_array, pair, triple, read_from, u16be}
use allsorts.Binary.Array.{to_vec}
use allsorts.Binary.Array.Items.{items}
use allsorts.Binary.Array.Laws.{IsArray, to_vec-elements}
use allsorts.Error.{ok, err, bad_eof}

-- `ctxt.read_array::<T>(len)?.iter().collect()`
unfoldable pub read_vec : {A : Type 0} → ReadUnchecked A → ℕ → Reader (List A)
unfolding read_array
read_vec t len = do array ← read_array t len; lift (to_vec t array)

module _ {A : Type 0} (t : ReadUnchecked A) where
  -- The array that `read_array` gives at a position is filled with what remains there.
  abbrev pub array_at : ReadCtxt → ℕ → ReadArray
  array_at c len = record { scope = window c.scope c.offset (len * t.size); length = len }

  pub array_at-IsArray :
      (c : ReadCtxt) (len : ℕ)
      → IsValid c
      → len * t.size ≤ length (remaining c)
      → IsArray t.size (array_at c len)
  array_at-IsArray c len v h = record {
    filled = omega (arith, length-take (len * t.size) (remaining c));
    fits = omega (arith, length-take (len * t.size) (remaining c), length-remaining c v, v.fits);
    octets = All-take IsByte (len * t.size) (remaining c) (remaining-octets c v);
  }

  -- `read_array` on every input.
  pub read_array_lem :
      (len : ℕ) (c : ReadCtxt)
      → len * t.size < 2 ^ 64
      → IsValid c
      → read_array t len c ≡ (
          if leb (len * t.size) (length (remaining c))
          then ok (array_at c len, advance c (len * t.size))
          else err bad_eof)
  unfolding read_array
  read_array_lem len c small v =
      let e : usize_mul len t.size ≡ len * t.size = omega arith in
      rw (e, read_scope_lem (len * t.size) c v)
        (elim (Bool-cases (leb (len * t.size) (length (remaining c)))) [
          | inl fits ↦ rw fits refl
          | inr short ↦ rw short refl
        ])

module _ {A : Type 0} (t : ReadUnchecked A) (value : List ℕ → A)
    (exact : Exact t.read_unchecked t.size value) where
  pub read_vec-Fixed :
      (len : ℕ)
      → len * t.size < 2 ^ 64
      → Fixed (read_vec t len) (len * t.size) (items t.size value len)
  unfolding read_vec
  read_vec-Fixed len small c v =
      let e : usize_mul len t.size ≡ len * t.size = omega arith in
      rw (e, read_scope_lem (len * t.size) c v)
        (elim (Bool-cases (leb (len * t.size) (length (remaining c)))) [
          | inl fits ↦ rw fits (
              rw (
                to_vec-elements t value exact (array_at t c len)
                  (array_at-IsArray t c len v (leb→le _ _ fits))))
          | inr short ↦ rw short refl
        ])

  -- For a type whose unchecked read takes its size in bytes, a valid context and a length whose
  -- bytes number fewer than 2 ^ 64, an array that is read and collected is the elements that the
  -- next bytes stand for, with the position behind them; where there are too few bytes the result
  -- is an end of file.
  pub read_vec_lem :
      (len : ℕ) (c : ReadCtxt)
      → len * t.size < 2 ^ 64
      → IsValid c
      → read_vec t len c ≡ (
          if leb (len * t.size) (length (remaining c))
          then ok
              (items t.size value len (take (len * t.size) (remaining c)), advance c (len * t.size))
          else err bad_eof)
  read_vec_lem len c small v = read_vec-Fixed len small c v

  -- The vector is read from the front of what remains, whatever follows it.
  pub read_vec-Reads :
      (len : ℕ) (bs : List ℕ)
      → length bs ≡ len * t.size
      → len * t.size < 2 ^ 64
      → Reads (read_vec t len) bs (items t.size value len bs)
  read_vec-Reads len bs e small =
      Fixed-Reads (read_vec t len) (items t.size value len) bs (rw e (read_vec-Fixed len small))

  pub read_vec-IsSafe : (len : ℕ) → len * t.size < 2 ^ 64 → IsSafe (read_vec t len)
  read_vec-IsSafe len small =
      Fixed-IsSafe (read_vec t len) (len * t.size) (items t.size value len)
        (read_vec-Fixed len small)

-- The composite types read their parts in order.
module _ {A B : Type 0} (s : ReadUnchecked A) (t : ReadUnchecked B) (value : List ℕ → A)
    (value' : List ℕ → B) (exact : Exact s.read_unchecked s.size value)
    (exact' : Exact t.read_unchecked t.size value') where
  pub pair-Exact :
      Exact
        (pair s t).read_unchecked
        (pair s t).size
        (λ bs. (value (take s.size bs), value' (drop s.size bs)))
  pair-Exact =
      Exact->>= s.read_unchecked t.read_unchecked (λ a b. (a, b)) s.size t.size value value' exact
        exact'

pub read_from-Exact :
    {A B : Type 0} (f : A → B) (t : ReadUnchecked A) (value : List ℕ → A)
    → Exact t.read_unchecked t.size value
    → Exact (read_from f t).read_unchecked (read_from f t).size (λ bs. f (value bs))
read_from-Exact f t value exact = Exact-map t.read_unchecked t.size value f exact

-- Three values of 16 bits, as the range records of the layout tables store them.
abbrev pub three_words : List ℕ → ℕ × ℕ × ℕ
three_words bs = (be_value (take 2 bs), be_value (take 2 (drop 2 bs)), be_value (drop 4 bs))

pub words-Exact : Exact (triple u16be u16be u16be).read_unchecked 6 three_words
words-Exact =
    Exact-value (triple u16be u16be u16be).read_unchecked 6 _ three_words
      (λ bs _ _.
        λ i. (be_value (take 2 bs), be_value (take 2 (drop 2 bs)), be_value (drop-drop 2 2 bs i)))
      (Exact-bind u16be.read_unchecked _ 2 4 be_value
        (λ a bs. (a, be_value (take 2 bs), be_value (drop 2 bs))) read_unchecked_u16be-Exact
        (λ a.
          Exact->>= u16be.read_unchecked u16be.read_unchecked (λ b c. (a, b, c)) 2 2 be_value
            be_value read_unchecked_u16be-Exact read_unchecked_u16be-Exact))
