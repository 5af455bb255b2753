-- ===== src/Binary/Read/Gives.antt =====
-- Readers whose results satisfy a predicate, on top of what every reader keeps.
use allsorts.Base.{ℕ, ◌≡◌, refl, ◌<◌, ◌^◌, Bool, true, false}
use allsorts.Base.{leb, leb→le, length, take, Bool-cases, inl, inr}
use allsorts.Binary.Read.{
  ReadCtxt, Reader, IsValid, pure, fail, check, lift, ◌>>=◌, ◌>>◌, read_u16be, resume, remaining,
  advance,
}
use allsorts.Binary.Read.Values.{be_value}
use allsorts.Binary.Read.Fixed.{read_u16be-Fixed}
use allsorts.Binary.Read.Remaining.{remaining-octets}
use allsorts.Binary.Read.Safety.{
  Follows, Follows-refl, Follows-trans, Follows-advance, IsSafe, word_bound,
}
use allsorts.Error.{Outcome, ok, err, panic, undefined, ParseError, Ends}

-- Where the reader ends in a value, the value satisfies `P` and the context follows the first.
abbrev pub Gives : {A : Type 0} → (A → Type 0) → Reader A → Type 0
Gives P m = (c : ReadCtxt) → IsValid c → Ends (λ r. Follows c r.1 × P r.0) (m c)

module _ {A : Type 0} (P : A → Type 0) where
  pub Gives-pure : (a : A) → P a → Gives P (pure a)
  Gives-pure a h c v = (Follows-refl c v, h)

  pub Gives-fail : (e : ParseError) → Gives P (fail e)
  Gives-fail e c v = tt

  -- The same, seen from an earlier context.
  pub widen :
      (c d : ReadCtxt) (o : Outcome ParseError (A × ReadCtxt))
      → Follows c d
      → Ends (λ r. Follows d r.1 × P r.0) o
      → Ends (λ r. Follows c r.1 × P r.0) o
  widen c d (ok (a, e)) f h = (Follows-trans c d e f h.0, h.1)
  widen c d (err e) f h = tt
  widen c d panic f h = h
  widen c d undefined f h = h

  resume-Gives :
      {B : Type 0} (c : ReadCtxt) (f : B → Reader A) (o : Outcome ParseError (B × ReadCtxt))
      → ((b : B) → Gives P (f b))
      → Ends (λ r. Follows c r.1) o
      → Ends (λ r. Follows c r.1 × P r.0) (resume f o)
  resume-Gives c f (ok (b, d)) hf h = widen c d (f b d) h (hf b d h.valid)
  resume-Gives c f (err e) hf h = tt
  resume-Gives c f panic hf h = h
  resume-Gives c f undefined hf h = h

  pub Gives->>= :
      {B : Type 0} (m : Reader B) (f : B → Reader A)
      → IsSafe m
      → ((b : B) → Gives P (f b))
      → Gives P (m >>= f)
  Gives->>= m f hm hf c v = resume-Gives c f (m c) hf (hm c v)

  -- What follows a check may count on it.
  pub Gives-check : (b : Bool) (k : Reader A) → (b ≡ true → Gives P k) → Gives P (check b >> k)
  unfolding check
  Gives-check true k h c v = h refl c v
  Gives-check false k h c v = tt

  -- What follows a word may count on its size.
  pub Gives-u16be :
      (f : ℕ → Reader A) → ((x : ℕ) → x < 2 ^ 16 → Gives P (f x)) → Gives P (read_u16be >>= f)
  Gives-u16be f hf c v =
      rw (read_u16be-Fixed c v) (elim (Bool-cases (leb 2 (length (remaining c)))) [
        | inl fits ↦ rw fits (
            let go = Follows-advance c 2 v (leb→le 2 _ fits) in
            let x = be_value (take 2 (remaining c)) in
            widen c (advance c 2) (f x (advance c 2)) go (
              hf x (word_bound (remaining c) (remaining-octets c v) (leb→le 2 _ fits)) (advance c 2)
                go.valid))
        | inr short ↦ rw short tt
      ])

-- What follows a reader may count on what it gives.
module _ {A B : Type 0} (P : A → Type 0) (Q : B → Type 0) where
  resume-bound :
      (c : ReadCtxt) (f : A → Reader B) (o : Outcome ParseError (A × ReadCtxt))
      → ((a : A) → P a → Gives Q (f a))
      → Ends (λ r. Follows c r.1 × P r.0) o
      → Ends (λ r. Follows c r.1 × Q r.0) (resume f o)
  resume-bound c f (ok (a, d)) hf h = widen Q c d (f a d) h.0 (hf a h.1 d h.0.valid)
  resume-bound c f (err e) hf h = tt
  resume-bound c f panic hf h = h
  resume-bound c f undefined hf h = h

  pub Gives-bound :
      (m : Reader A) (f : A → Reader B)
      → Gives P m
      → ((a : A) → P a → Gives Q (f a))
      → Gives Q (m >>= f)
  Gives-bound m f hm hf c v = resume-bound c f (m c) hf (hm c v)

weaken_Ends :
    {A : Type 0} (P Q : A → Type 0) (c : ReadCtxt) (o : Outcome ParseError (A × ReadCtxt))
    → Ends (λ r. Follows c r.1 × P r.0) o
    → ((a : A) → P a → Q a)
    → Ends (λ r. Follows c r.1 × Q r.0) o
weaken_Ends P Q c (ok (a, d)) h k = (h.0, k a h.1)
weaken_Ends P Q c (err e) h k = tt
weaken_Ends P Q c panic h k = h
weaken_Ends P Q c undefined h k = h

pub Gives-weaken :
    {A : Type 0} (P Q : A → Type 0) (m : Reader A) → Gives P m → ((a : A) → P a → Q a) → Gives Q m
Gives-weaken P Q m h k c v = weaken_Ends P Q c (m c) (h c v) k

-- A result that is already there.
pub Gives-lift :
    {A B : Type 0} (Q : B → Type 0) (o : Outcome ParseError A) (f : A → Reader B) (a : A)
    → o ≡ ok a
    → Gives Q (f a)
    → Gives Q (lift o >>= f)
Gives-lift Q o f a e h = rw e h
