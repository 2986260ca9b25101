-- ===== src/Utf8.antt =====
-- `str::from_utf8` of the standard library, as path_string.rs uses it: whether bytes are UTF-8, and
-- if not, how far they are (`valid_up_to`) and how long the first ill-formed sequence is
-- (`error_len`, `none` when the input ends inside a sequence).
pub mod Steps
pub mod Chunks
use file_peeker.Base.{
  ℕ, zero, suc, ◌+◌, ◌-◌, Bool, List, [], ◌∷◌, Option, none, some, ltb, within, if◌then◌else◌, ◌==◌,
}

abbrev pub Bytes : Type 0
Bytes = List ℕ

-- What the bytes at one position are: a character of so many bytes, an ill-formed sequence of so
-- many bytes, or the beginning of a character that the input cuts off.
pub data CharStep : Type 0 where
  valid : ℕ → CharStep
  ill : ℕ → CharStep
  short : CharStep

abbrev is_continuation : ℕ → Bool
is_continuation = within 0x80 0xBF

-- The second byte of a character of three bytes, by its first.
abbrev second_of_three : ℕ → ℕ → Bool
second_of_three b c =
    if b == 0xE0
    then within 0xA0 0xBF c
    else if b == 0xED
    then within 0x80 0x9F c
    else within 0x80 0xBF c

-- The second byte of a character of four bytes, by its first.
abbrev second_of_four : ℕ → ℕ → Bool
second_of_four b c =
    if b == 0xF0
    then within 0x90 0xBF c
    else if b == 0xF4
    then within 0x80 0x8F c
    else within 0x80 0xBF c

-- The last byte of a character of `w` bytes.
last_byte : ℕ → Bytes → CharStep
last_byte w [] = short
last_byte w (c ∷ r) = if is_continuation c then valid w else ill (w - 1)

third_of_four : Bytes → CharStep
unfolding last_byte
third_of_four [] = short
third_of_four (c ∷ r) = if is_continuation c then last_byte 4 r else ill 2

after_three : ℕ → Bytes → CharStep
unfolding last_byte
after_three b [] = short
after_three b (c ∷ r) = if second_of_three b c then last_byte 3 r else ill 1

after_four : ℕ → Bytes → CharStep
unfolding third_of_four
after_four b [] = short
after_four b (c ∷ r) = if second_of_four b c then third_of_four r else ill 1

unfoldable pub char_step : ℕ → Bytes → CharStep
unfolding last_byte after_three after_four
char_step b r =
    if ltb b 0x80
    then valid 1
    else if within 0xC2 0xDF b
    then last_byte 2 r
    else if within 0xE0 0xEF b
    then after_three b r
    else if within 0xF0 0xF4 b
    then after_four b r
    else ill 1

-- `Result<(), Utf8Error>`.
pub data Utf8 : Type 0 where
  utf8 : Utf8
  utf8_error : (valid_up_to : ℕ) (error_len : Option ℕ) → Utf8

-- `skip` bytes of the current character are still to come, and `i` bytes lie behind.
unfoldable pub scan : Bytes → ℕ → ℕ → Utf8
scan [] skip i = utf8
scan (b ∷ r) (suc k) i = scan r k (i + 1)
scan (b ∷ r) zero i = elim (char_step b r) [
  | valid w ↦ scan r (w - 1) (i + 1)
  | ill n ↦ utf8_error i (some n)
  | short ↦ utf8_error i none
]

unfoldable pub from_utf8 : Bytes → Utf8
from_utf8 bs = scan bs 0 0
