-- ===== src/Binary/Write/Fill.antt =====
-- Placeholders: what is reserved, filled in later, and left alone.
use allsorts.Base.{ℕ, ◌+◌, ◌≤◌, ◌≡◌, refl, sym, ap, ap₂, ◌∙◌, List, ◌++◌, arith, le→leb}
use allsorts.Base.{length, take, drop, replicate, length-append, length-take, length-drop}
use allsorts.Base.{length-replicate, take-append, drop-append, drop-eq-nil}
use allsorts.Binary.Write.{
  WriteContext, WriteBinary, WriteBuffer, buffer_context, slice_context, Placeholder, reserve,
  write_placeholder, write_slice_bytes,
}
use allsorts.Error.{ok, ◌>>=◌}
use mathlib.Core.List.{append_assoc, append-nil}

-- The writer is one call of `write_bytes`, as those of the primitive types are.
abbrev pub Emits : {A : Type 0} → WriteBinary A → (A → List ℕ) → Type 1
Emits {A} write f =
    (ctx : WriteContext) (x : A) (w : ctx.State) → write ctx x w ≡ ctx.write_bytes (f x) w

-- A slice takes bytes that fill it.
write_slice_full :
    (bs old : List ℕ)
    → length bs ≡ length old
    → write_slice_bytes bs (record { offset = 0; bytes = old })
      ≡ ok (record { offset = length bs; bytes = bs })
unfolding write_slice_bytes
write_slice_full bs old e =
    let k : 0 + length bs ≡ length bs = omega arith in
    rw
      (
        le→leb (length bs) (length old) (omega arith),
        k,
        le→leb (length bs) (length old) (omega arith),
        drop-eq-nil (length bs) old (omega arith),
        append-nil bs,
      )
      refl

module _ {A : Type 0} (write : WriteBinary A) (f : A → List ℕ) (emits : Emits write f) where
  -- For a writer whose write is one call of `write_bytes`, and a place inside a buffer that has the
  -- length of the value's bytes, `write_placeholder` puts those bytes into the place and leaves
  -- what stands before and behind it.
  write_placeholder_lem :
      (p : Placeholder) (x : A) (w : WriteBuffer)
      → p.offset + p.length ≤ length w.bytes
      → length (f x) ≡ p.length
      → write_placeholder write p x w
        ≡ ok (record {
          bytes = take p.offset w.bytes ++ (f x ++ drop (p.offset + p.length) w.bytes);
        })
  unfolding write_placeholder
  write_placeholder_lem p x w fits e =
      let old : List ℕ = take p.length (drop p.offset w.bytes) in
      let n : length (f x) ≡ length old =
        omega (arith, length-take p.length (drop p.offset w.bytes), length-drop p.offset w.bytes) in
      rw
        (
          le→leb _ _ fits,
          emits slice_context x (record { offset = 0; bytes = old }),
          write_slice_full (f x) old n,
        )
        refl

  -- For a writer whose write is one call of `write_bytes`, reserving a place in a buffer for a
  -- value, writing more bytes and then filling the place in appends the bytes of the value in front
  -- of the later bytes.
  pub reserve-fill :
      (x : A) (bs : List ℕ) (w : WriteBuffer)
      → (reserve buffer_context (length (f x)) w >>= λ r.
          buffer_context.write_bytes bs r.1 >>= write_placeholder write r.0 x)
        ≡ ok (record { bytes = w.bytes ++ (f x ++ bs) })
  unfolding reserve
  reserve-fill x bs w =
      write_placeholder_lem (record { offset = length w.bytes; length = length (f x) }) x
        (record { bytes = (w.bytes ++ zeros) ++ bs }) (omega (arith, total)) refl
      ∙ ap₂ (λ front back. ok (record { bytes = front ++ (f x ++ back) })) before behind
    where
      zeros : List ℕ
      zeros = replicate (length (f x)) 0

      zeros_fit : length zeros ≡ length (f x)
      zeros_fit = length-replicate (length (f x)) _

      before : take (length w.bytes) ((w.bytes ++ zeros) ++ bs) ≡ w.bytes
      before = rw (append_assoc w.bytes zeros bs) (take-append w.bytes (zeros ++ bs))

      behind : drop (length w.bytes + length (f x)) ((w.bytes ++ zeros) ++ bs) ≡ bs
      behind =
          ap (λ n. drop (length w.bytes + n) ((w.bytes ++ zeros) ++ bs)) (sym zeros_fit)
          ∙ ap (λ n. drop n ((w.bytes ++ zeros) ++ bs)) (sym (length-append w.bytes zeros))
          ∙ drop-append (w.bytes ++ zeros) bs

      total : length ((w.bytes ++ zeros) ++ bs) ≡ length w.bytes + length (f x) + length bs
      total =
          omega (arith, length-append (w.bytes ++ zeros) bs, length-append w.bytes zeros, zeros_fit)
