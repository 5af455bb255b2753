-- ===== src/Binary/Write/Count.antt =====
-- `WriteCounter` beside `WriteBuffer`: the length of what a writer emits.
use allsorts.Base.{ℕ, ◌+◌, ◌%◌, ◌^◌, ◌<◌, ◌≡◌, ap, ◌∙◌, List, [], ◌∷◌, ◌++◌, arith}
use allsorts.Base.{length, length-append}
use allsorts.Binary.Write.{WriteBinary, WriteBuffer, buffer_context, counter_context, write_vec}
use allsorts.Binary.Write.Fill.{Emits}
use allsorts.Error.{ok}
use mathlib.Core.List.{append_assoc, append-nil}

-- The bytes of the elements, one after the other.
abbrev pub concat : {A : Type 0} → (A → List ℕ) → List A → List ℕ
concat f [] = []
concat f (x ∷ xs) = f x ++ concat f xs

module _ {A : Type 0} (write : WriteBinary A) (f : A → List ℕ) (emits : Emits write f) where
  pub write_vec-concat :
      (xs : List A) (w : WriteBuffer)
      → write_vec write buffer_context xs w ≡ ok (record { bytes = w.bytes ++ concat f xs })
  unfolding write_vec
  write_vec-concat [] w = rw (append-nil w.bytes)
  write_vec-concat (x ∷ xs) w = rw (emits buffer_context x w) (
      write_vec-concat xs (record { bytes = w.bytes ++ f x })
      ∙ rw (append_assoc w.bytes (f x) (concat f xs)))

  -- For a writer whose write is one call of `write_bytes`, `write_vec` on a counter below 2 ^ 64
  -- adds the number of bytes of all elements, modulo 2 ^ 64.
  write_vec-count :
      (xs : List A) (k : ℕ)
      → k < 2 ^ 64
      → write_vec write counter_context xs (record { count = k })
        ≡ ok (record { count = (k + length (concat f xs)) % 2 ^ 64 })
  unfolding write_vec
  write_vec-count [] k h = let e : (k + 0) % 2 ^ 64 ≡ k = omega arith in rw e
  write_vec-count (x ∷ xs) k h =
      let e : ((k + length (f x)) % 2 ^ 64 + length (concat f xs)) % 2 ^ 64
          ≡ (k + length (f x ++ concat f xs)) % 2 ^ 64 =
        omega (arith, length-append (f x) (concat f xs)) in
      rw (emits counter_context x (record { count = k })) (
        write_vec-count xs ((k + length (f x)) % 2 ^ 64) (omega arith)
        ∙ ap (λ n. ok (record { count = n })) e)
