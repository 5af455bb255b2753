-- ===== src/Binary/Read/Safety.antt =====
-- Where a reader can end when it starts at a valid position: the predicate on contexts and readers,
-- and the primitive reads and their sequences.
use allsorts.Base.{take, All, [], ◌∷◌, ◌<◌, ◌^◌}
use allsorts.Base.{ℕ, ◌+◌, ◌≤◌, ◌≡◌, refl, ◌∙◌, List, Bool, true, false, arith, leb}
use allsorts.Base.{length, le→leb, leb→le, inl, inr, Bool-cases, Option-cases, none, some}
use allsorts.Binary.Read.{
  ReadCtxt, Reader, IsValid, remaining, advance, pure, fail, ◌>>=◌, check, check_version,
  read_u16be, IsByte, read_slice, read_until_nibble, nibble_position, resume,
}
use allsorts.Binary.Read.Remaining.{advance-IsValid, remaining-octets}
use allsorts.Binary.Read.Values.{Fixed, be_value}
use allsorts.Binary.Read.Fixed.{read_slice-Fixed, read_u16be-Fixed}
use allsorts.Error.{Outcome, ok, err, panic, undefined, ParseError, bad_eof, Ends}

-- Where a reader may leave the context.
pub record Follows (c c' : ReadCtxt) : Type 0 where
  pub valid : IsValid c'
  pub same_scope : c'.scope ≡ c.scope
  pub onward : c.offset ≤ c'.offset

pub Follows-refl : (c : ReadCtxt) → IsValid c → Follows c c
Follows-refl c v = record { valid = v; same_scope = refl; onward = omega arith }

pub Follows-trans : (c d e : ReadCtxt) → Follows c d → Follows d e → Follows c e
Follows-trans c d e f g = record {
  valid = g.valid;
  same_scope = g.same_scope ∙ f.same_scope;
  onward = omega (arith, f.onward, g.onward);
}

abbrev pub IsSafe : {A : Type 0} → Reader A → Type 0
IsSafe m = (c : ReadCtxt) → IsValid c → Ends (λ r. Follows c r.1) (m c)

pub IsSafe-pure : {A : Type 0} (a : A) → IsSafe (pure a)
IsSafe-pure a c v = Follows-refl c v

pub IsSafe-fail : (A : Type 0) (e : ParseError) → IsSafe (fail {A = A} e)
IsSafe-fail A e c v = tt

widen :
    {A : Type 0} (c d : ReadCtxt) (o : Outcome ParseError (A × ReadCtxt))
    → Follows c d
    → Ends (λ r. Follows d r.1) o
    → Ends (λ r. Follows c r.1) o
widen c d (ok (a, e)) f h = Follows-trans c d e f h
widen c d (err e) f h = tt
widen c d panic f h = h
widen c d undefined f h = h

resume-Ends :
    {A B : Type 0} (c : ReadCtxt) (f : A → Reader B) (o : Outcome ParseError (A × ReadCtxt))
    → ((a : A) → IsSafe (f a))
    → Ends (λ r. Follows c r.1) o
    → Ends (λ r. Follows c r.1) (resume f o)
resume-Ends c f (ok (a, d)) hf h = widen c d (f a d) h (hf a d h.valid)
resume-Ends c f (err e) hf h = tt
resume-Ends c f panic hf h = h
resume-Ends c f undefined hf h = h

pub IsSafe->>= :
    {A B : Type 0} (m : Reader A) (f : A → Reader B)
    → IsSafe m
    → ((a : A) → IsSafe (f a))
    → IsSafe (m >>= f)
IsSafe->>= m f hm hf c v = resume-Ends c f (m c) hf (hm c v)

pub IsSafe-check : (b : Bool) → IsSafe (check b)
unfolding check
IsSafe-check true c v = Follows-refl c v
IsSafe-check false c v = tt

pub IsSafe-check_version : (b : Bool) → IsSafe (check_version b)
unfolding check_version
IsSafe-check_version true c v = Follows-refl c v
IsSafe-check_version false c v = tt

pub Follows-advance :
    (c : ReadCtxt) (n : ℕ) → IsValid c → n ≤ length (remaining c) → Follows c (advance c n)
Follows-advance c n v h = record {
  valid = advance-IsValid c n v h;
  same_scope = refl;
  onward = omega arith;
}

-- A read of a fixed size.
pub Fixed-IsSafe :
    {A : Type 0} (m : Reader A) (size : ℕ) (value : List ℕ → A) → Fixed m size value → IsSafe m
Fixed-IsSafe m size value h c v = rw (h c v) (elim (Bool-cases (leb size (length (remaining c)))) [
  | inl fits ↦ rw fits (Follows-advance c size v (leb→le size _ fits))
  | inr short ↦ rw short tt
])

pub IsSafe-read_slice : (len : ℕ) → IsSafe (read_slice len)
IsSafe-read_slice len = Fixed-IsSafe (read_slice len) len (λ bs. bs) (read_slice-Fixed len)

position_slice : ℕ → List ℕ → Reader (List ℕ)
position_slice nibble rest = elim (nibble_position nibble rest) [
  | none ↦ fail bad_eof
  | some end ↦ read_slice (end + 1)
]

position_slice-IsSafe : (nibble : ℕ) (rest : List ℕ) → IsSafe (position_slice nibble rest)
unfolding position_slice
position_slice-IsSafe nibble rest = elim (Option-cases (nibble_position nibble rest)) [
  | inl e ↦ rw (e, position_slice) (IsSafe-fail (List ℕ) bad_eof)
  | inr (i, e) ↦ rw (e, position_slice) (IsSafe-read_slice (i + 1))
]

-- The search for a nibble is safe too: the slice that it takes ends where the nibble stands.
pub IsSafe-read_until_nibble : (nibble : ℕ) → IsSafe (read_until_nibble nibble)
unfolding read_until_nibble position_slice
IsSafe-read_until_nibble nibble c v =
    rw (le→leb c.offset (length c.scope.bytes) v.bounded)
      (position_slice-IsSafe nibble (remaining c) c v)

pub word_bound : (r : List ℕ) → All IsByte r → 2 ≤ length r → be_value (take 2 r) < 2 ^ 16
word_bound [] o h = absurd (omega arith)
word_bound (x ∷ []) o h = absurd (omega arith)
word_bound (x ∷ y ∷ r) (a, (b, o)) h = omega arith

-- What follows a word may count on its size.
pub IsSafe-u16be :
    {B : Type 0} (f : ℕ → Reader B)
    → ((x : ℕ) → x < 2 ^ 16 → IsSafe (f x))
    → IsSafe (read_u16be >>= f)
IsSafe-u16be f hf c v =
    rw (read_u16be-Fixed c v) (elim (Bool-cases (leb 2 (length (remaining c)))) [
      | inl fits ↦ rw fits (
          let go = Follows-advance c 2 v (leb→le 2 _ fits) in
          let x = be_value (take 2 (remaining c)) in
          widen c (advance c 2) (f x (advance c 2)) go (
            hf x (word_bound (remaining c) (remaining-octets c v) (leb→le 2 _ fits)) (advance c 2)
              go.valid))
      | inr short ↦ rw short tt
    ])
