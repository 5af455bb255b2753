-- ===== src/Macroman/Inverse.antt =====
-- The two tables of Mac OS Roman against each other.
use allsorts.Base.{
  ℕ, ◌<◌, ◌≡◌, ◌≢◌, refl, sym, ◌∙◌, arith, Bool, true, false, ◌&&◌, ◌||◌, Bool-cases, inl, inr,
}
use allsorts.Base.{List, [], ◌∷◌, Option, none, some, ltb, ◌==◌, if◌then◌else◌, ltb→lt, ==_iff, ap}
use allsorts.Base.Bits.{every_below, every_below-lt}
use allsorts.Macroman.{find_arm, char_arms, char_to_macroman, macroman_to_char}

holds : Option ℕ → ℕ → Bool
holds none n = false
holds (some m) n = m == n

holds_sound : (o : Option ℕ) (n : ℕ) → holds o n ≡ true → o ≡ some n
unfolding holds
holds_sound none n h = cc
holds_sound (some m) n h = ap some ((==_iff m n).0 h)

and_left : (a b : Bool) → (a && b) ≡ true → a ≡ true
and_left true b h = refl
and_left false b h = h

and_right : (a b : Bool) → (a && b) ≡ true → b ≡ true
and_right true b h = h
and_right false b h = cc

-- The branch of a conditional.
if_true : (b : Bool) (x y : Option ℕ) → b ≡ true → x ≡ (if b then x else y)
if_true true x y h = refl
if_true false x y h = cc

if_false : (b : Bool) (x y : Option ℕ) → b ≡ false → y ≡ (if b then x else y)
if_false false x y h = refl
if_false true x y h = cc

-- Every arm is undone by the decoder.
arms_undone : List (ℕ × ℕ) → Bool
arms_undone [] = true
arms_undone ((key, value) ∷ arms) = holds (macroman_to_char value) key && arms_undone arms

find_arm_undone :
    (arms : List (ℕ × ℕ)) (k v : ℕ)
    → arms_undone arms ≡ true
    → find_arm arms k ≡ some v
    → macroman_to_char v ≡ some k
unfolding arms_undone find_arm
find_arm_undone [] k v h e = cc
find_arm_undone ((key, value) ∷ arms) k v h e = elim (Bool-cases (k == key)) [
  | inl same ↦
      let v' : some value ≡ some v = if_true (k == key) (some value) (find_arm arms k) same ∙ e in
      let k' : key ≡ k = sym ((==_iff k key).0 same) in
      cc (v', k', holds_sound (macroman_to_char value) key (and_left _ _ h))
  | inr other ↦
      find_arm_undone arms k v (and_right _ _ h)
        (if_false (k == key) (some value) (find_arm arms k) other ∙ e)
]

char_arms_undone : arms_undone char_arms ≡ true
unfolding arms_undone holds char_arms macroman_to_char
char_arms_undone = refl

ascii : (chr : ℕ) {byte : ℕ} → chr < 0x7f → some chr ≡ some byte → macroman_to_char byte ≡ some chr
unfolding macroman_to_char
ascii chr h e = ground arith

-- When `char_to_macroman` gives a byte for a character, `macroman_to_char` gives that character for
-- the byte.
pub macroman_to_char-char_to_macroman :
    (chr byte : ℕ) → char_to_macroman chr ≡ some byte → macroman_to_char byte ≡ some chr
unfolding char_to_macroman
macroman_to_char-char_to_macroman chr byte e = elim (Bool-cases (ltb chr 0x7f)) [
  | inl low ↦
      let same : some chr ≡ some byte =
        if_true (ltb chr 0x7f) (some chr) (find_arm char_arms chr) low ∙ e in
      ascii chr (ltb→lt chr 0x7f low) same
  | inr high ↦
      find_arm_undone char_arms chr byte char_arms_undone
        (if_false (ltb chr 0x7f) (some chr) (find_arm char_arms chr) high ∙ e)
]

is_encoded : Option ℕ → ℕ → Bool
is_encoded none byte = true
is_encoded (some chr) byte = holds (char_to_macroman chr) byte

is_undone : ℕ → Bool
is_undone byte = byte == 127 || byte == 246 || is_encoded (macroman_to_char byte) byte

all_undone : every_below is_undone 256 ≡ true
unfolding every_below is_undone is_encoded holds char_to_macroman macroman_to_char
all_undone = refl

differs : (a b : ℕ) → a ≢ b → (a == b) ≡ false
differs a b h = ground arith

last_of : (a b c : Bool) → a ≡ false → b ≡ false → (a || b || c) ≡ true → c ≡ true
last_of false false c h k t = t
last_of true b c h k t = cc
last_of false true c h k t = cc

-- When `macroman_to_char` gives a character for a byte other than 127 and 246, `char_to_macroman`
-- gives that byte for the character.
pub char_to_macroman-macroman_to_char :
    (byte chr : ℕ)
    → byte < 256
    → byte ≢ 127
    → byte ≢ 246
    → macroman_to_char byte ≡ some chr
    → char_to_macroman chr ≡ some byte
unfolding is_undone is_encoded
char_to_macroman-macroman_to_char byte chr h a b e =
    let t = every_below-lt is_undone 256 all_undone byte h in
    let k : is_encoded (macroman_to_char byte) byte ≡ true =
      last_of (byte == 127) (byte == 246) _ (differs byte 127 a) (differs byte 246 b) t in
    holds_sound (char_to_macroman chr) byte (ap (λ o. is_encoded o byte) (sym e) ∙ k)
