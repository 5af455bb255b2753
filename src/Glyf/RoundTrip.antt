-- ===== src/Glyf/RoundTrip.antt =====
-- src/tables/glyf.rs: a simple glyph that is written and read again.
use allsorts.Base.{
  ℕ, bit_and, ◌^◌, ◌<◌, ◌≡◌, refl, sym, ap, subst, ◌∙◌, ==_iff, lt→ltb, List, [], ◌∷◌, ◌++◌, map,
  length,
}
use allsorts.Base.Int.{ℤ, pos}
use allsorts.Binary.Read.{ReadCtxt, IsValid, remaining, advance}
use allsorts.Binary.Write.{WriteBuffer, buffer_context, be_bytes, write_vec, write_u16be, try_from}
use allsorts.Binary.Write.Count.{concat}
use allsorts.Binary.Write.Adds.{Adds, Adds->>=, Adds-ok, Adds-u8, Adds-u16be, Adds-i16be, Adds-vec}
use allsorts.Error.{ok}
use allsorts.Layout.Words.{words_bytes}
use allsorts.Glyf.{Point, SimpleGlyph, sub_i16}
use allsorts.Glyf.Read.{read_simple_glyph}
use allsorts.Glyf.Stored.{IsSimple, simple_bytes, simple_Reads, masked, shorts_bytes, deltas}
use allsorts.Glyf.Write.{write_simple_glyph, write_outline, write_flag, write_deltas}

words_concat : (xs : List ℕ) → concat (be_bytes 2) xs ≡ words_bytes xs
words_concat [] = refl
words_concat (x ∷ xs) = ap (λ bs. be_bytes 2 x ++ bs) (words_concat xs)

flags_concat : (flags : List ℕ) → concat (λ f. bit_and f 1 ∷ []) flags ≡ masked flags
flags_concat [] = refl
flags_concat (f ∷ flags) = ap (λ bs. bit_and f 1 ∷ bs) (flags_concat flags)

Adds-flag : (f : ℕ) → Adds (write_flag buffer_context f) (bit_and f 1 ∷ [])
unfolding write_flag
Adds-flag f = Adds-u8 (bit_and f 1)

Adds-deltas :
    (axis : Point → ℤ) (points : List Point) (prev : ℤ)
    → Adds
        (write_deltas buffer_context axis prev points)
        (shorts_bytes (deltas prev (map axis points)))
unfolding write_deltas
Adds-deltas axis [] prev = Adds-ok
Adds-deltas axis (p ∷ points) prev =
    Adds->>= _ (write_deltas buffer_context axis (axis p) points) _ _
      (Adds-i16be (sub_i16 (axis p) prev)) (Adds-deltas axis points (axis p))

outline_Adds :
    (g : SimpleGlyph)
    → length g.instructions < 2 ^ 16
    → Adds (write_outline buffer_context g) (simple_bytes g)
unfolding write_outline try_from
outline_Adds g h = rw (lt→ltb (length g.instructions) (2 ^ 16) h) (
    Adds->>= (write_vec write_u16be buffer_context g.end_pts_of_contours) _
      (words_bytes g.end_pts_of_contours) _
      (subst (Adds (write_vec write_u16be buffer_context g.end_pts_of_contours))
        (words_concat g.end_pts_of_contours)
        (Adds-vec write_u16be (be_bytes 2) Adds-u16be g.end_pts_of_contours))
      (Adds->>= (write_u16be buffer_context (length g.instructions)) _
        (be_bytes 2 (length g.instructions)) _ (Adds-u16be (length g.instructions))
        (Adds->>= (buffer_context.write_bytes g.instructions) _ g.instructions _ (λ w. refl)
          (Adds->>= (write_vec write_flag buffer_context g.flags) _ (masked g.flags) _
            (subst (Adds (write_vec write_flag buffer_context g.flags)) (flags_concat g.flags)
              (Adds-vec write_flag (λ f. bit_and f 1 ∷ []) Adds-flag g.flags))
            (Adds->>= (write_deltas buffer_context (λ p. p.x) (pos 0) g.coordinates) _ _ _
              (Adds-deltas (λ p. p.x) g.coordinates (pos 0))
              (Adds-deltas (λ p. p.y) g.coordinates (pos 0)))))))

-- For a simple glyph with a flag and a point of 16 bits for each point of its contours, fewer than
-- 2 ^ 15 contours and fewer than 2 ^ 16 bytes of instructions, `write_simple_glyph` appends the
-- bytes of its parts to any buffer, and `read_simple_glyph` on a valid context that begins with
-- those bytes gives the glyph, the flags cut down to the bit that says whether the point is on the
-- curve, and stops behind them; differences of coordinates that do not fit 16 bits wrap and wrap
-- back.
pub read_simple_glyph-write_simple_glyph :
    (g : SimpleGlyph) (w : WriteBuffer) (c : ReadCtxt) (rest : List ℕ)
    → IsSimple g
    → IsValid c
    → remaining c ≡ simple_bytes g ++ rest
    → (write_simple_glyph buffer_context g w ≡ ok (record { bytes = w.bytes ++ simple_bytes g }))
      × (read_simple_glyph (length g.end_pts_of_contours) c
          ≡ ok (record g { flags = masked g.flags }, advance c (length (simple_bytes g))))
unfolding write_simple_glyph
read_simple_glyph-write_simple_glyph g w c rest h v e =
    let same : length g.flags ≡ length g.coordinates = h.flagged ∙ sym h.pointed in
    (rw ((==_iff _ _).1 same) (outline_Adds g h.few_instructions w), simple_Reads g h c rest v e)
