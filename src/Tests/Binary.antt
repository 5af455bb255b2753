-- ===== src/Tests/Binary.antt =====
-- src/binary.rs, src/binary/read.rs and src/binary/write.rs on concrete inputs.
use allsorts.Base.{ℕ, ◌≡◌, refl, arith, List, [], ◌∷◌, ◌++◌, length}
use allsorts.Base.{leb, ltb, ◌+◌, ◌==◌, if◌then◌else◌}
use allsorts.Binary.{word_align}
use allsorts.Binary.Scope.{new_scope, window, offset_length, offset_length_lem}
use allsorts.Binary.Read.{IsValid}
use allsorts.Binary.Unchecked.{ReadArray}
use allsorts.Binary.Array.Laws.{IsArray}
use allsorts.Binary.Write.{
  WriteBuffer, buffer_context, be_bytes, write_u16be, reserve, write_placeholder,
}
use allsorts.Binary.Write.Fill.{Emits, reserve-fill}
use allsorts.Error.{ok, err, panic, bad_eof, bad_offset, ◌>>=◌}
use allsorts.Tests.{ctxt_of, all_bytes-octets, ctxt_of-IsValid}

abbrev seven : List ℕ
seven = 0 ∷ 1 ∷ 0x12 ∷ 0x34 ∷ 0xff ∷ 0xfe ∷ 9 ∷ []

seven-IsValid : IsValid (ctxt_of seven)
seven-IsValid = ctxt_of-IsValid seven refl (omega arith)

abbrev buffer : WriteBuffer
buffer = record { bytes = 1 ∷ 2 ∷ 3 ∷ 4 ∷ [] }

offset_length_lem_example : offset_length (new_scope seven) 8 0 ≡ (
    if leb (8 + 0) (length (new_scope seven).bytes)
    then ok (window (new_scope seven) 8 0)
    else if ltb 8 (length (new_scope seven).bytes)
    then err bad_eof
    else if 0 == 0
    then panic
    else err bad_offset)
offset_length_lem_example = offset_length_lem (new_scope seven) 8 0

past_the_end : offset_length (new_scope seven) 8 0 ≡ panic
unfolding offset_length
past_the_end = refl

abbrev minus_two : List ℕ
minus_two = 0xff ∷ 0xfe ∷ 9 ∷ []

abbrev minus_one : List ℕ
minus_one = 255 ∷ 255 ∷ 255 ∷ 255 ∷ 255 ∷ 255 ∷ 255 ∷ 255 ∷ []

abbrev three_words : ReadArray
three_words = record { scope = new_scope seven; length = 3 }

three_words-IsArray : IsArray 2 three_words
three_words-IsArray = record {
  filled = omega arith;
  fits = omega arith;
  octets = all_bytes-octets seven refl;
}

write_u16be-Emits : Emits write_u16be (be_bytes 2)
unfolding write_u16be
write_u16be-Emits ctx x w = refl

reserve-fill_example :
    (reserve buffer_context (length (be_bytes 2 0x0708)) buffer >>= λ r.
    buffer_context.write_bytes (9 ∷ []) r.1 >>= write_placeholder write_u16be r.0 0x0708)
    ≡ ok (record { bytes = buffer.bytes ++ (be_bytes 2 0x0708 ++ 9 ∷ []) })
reserve-fill_example =
    reserve-fill write_u16be (be_bytes 2) write_u16be-Emits 0x0708 (9 ∷ []) buffer

word_align_rounds_up : word_align 5 ≡ 6
unfolding word_align
word_align_rounds_up = refl
