-- ===== src/PathString/Tests.antt =====
-- Escaped names of src/path_string.rs at concrete inputs.
use file_peeker.Base.{◌≡◌, ◌≢◌, refl, true, [], ◌∷◌, ◌++◌, arith, ok}
use file_peeker.Utf8.{Bytes, from_utf8, utf8, scan, char_step}
use file_peeker.PathString.{
  escape, unescape, push_valid, split, push_hex, decodable_or_empty, decode_digits, from_bytes,
  join, slash,
}
use file_peeker.PathString.Render.{doubled, hexed}
use file_peeker.PathString.RoundTrip.{unescape-escape}
use file_peeker.PathString.Wellformed.{from_utf8-escape}
use file_peeker.PathString.Join.{join-from_bytes}
use file_peeker.PathString.Spelling.{escape-utf8, two_spellings, count, count-unescape}
use file_peeker.PathString.Name.{is_name, is_name-proper, is_name_trailing_slash}

-- `%`, a byte that no character starts with, and `a`.
abbrev mixed : Bytes
mixed = 37 ∷ 0xff ∷ 97 ∷ []

abbrev e_acute : Bytes
e_acute = 0xc3 ∷ 0xa9 ∷ []

escape-mixed : escape mixed ≡ 37 ∷ 37 ∷ 37 ∷ b'F' ∷ b'F' ∷ 97 ∷ []
unfolding escape from_utf8 scan char_step push_valid split push_hex decodable_or_empty
escape-mixed = refl

unescape-escape_example : unescape (escape mixed) ≡ ok mixed
unescape-escape_example = unescape-escape mixed (omega arith, (omega arith, (omega arith, tt)))

from_utf8-escape_example : from_utf8 (escape mixed) ≡ utf8
from_utf8-escape_example = from_utf8-escape mixed (omega arith, (omega arith, (omega arith, tt)))

join-from_bytes_example :
    (join (from_bytes []) (from_bytes mixed) ≡ from_bytes mixed)
    × (join (from_bytes (e_acute ++ 47 ∷ [])) (from_bytes mixed)
        ≡ from_bytes (e_acute ++ 47 ∷ mixed))
    × (join (from_bytes (e_acute ++ 0xff ∷ [])) (from_bytes mixed)
        ≡ from_bytes (e_acute ++ 0xff ∷ 47 ∷ mixed))
join-from_bytes_example = join-from_bytes e_acute mixed 0xff (omega arith)

escape-utf8_example : escape (37 ∷ e_acute) ≡ doubled (37 ∷ e_acute)
unfolding from_utf8 scan char_step
escape-utf8_example = escape-utf8 (37 ∷ e_acute) refl

two_spellings_example : (unescape (hexed e_acute) ≡ ok e_acute) × (escape e_acute ≢ hexed e_acute)
unfolding from_utf8 scan char_step
two_spellings_example =
    two_spellings e_acute (λ e. ground arith) refl (ground arith, (ground arith, tt))
      (ground arith, (ground arith, tt))

count-unescape_example :
    count slash (97 ∷ slash ∷ 0xff ∷ []) ≡ count slash (97 ∷ slash ∷ 37 ∷ b'F' ∷ b'F' ∷ [])
unfolding unescape decode_digits
count-unescape_example =
    count-unescape slash (97 ∷ slash ∷ 37 ∷ b'F' ∷ b'F' ∷ []) (97 ∷ slash ∷ 0xff ∷ [])
      (record { ascii = omega arith; no_marker = λ e. omega arith; no_digit = refl }) refl

is_name-proper_example : is_name (from_bytes e_acute) ≡ true
is_name-proper_example =
    is_name-proper e_acute (omega arith, (omega arith, tt))
      (λ e. omega arith, (λ e. omega arith, tt))

is_name_trailing_slash_example : is_name (from_bytes (e_acute ++ slash ∷ [])) ≡ true
is_name_trailing_slash_example =
    is_name_trailing_slash e_acute (omega arith, (omega arith, (omega arith, tt)))
      (λ e. omega arith, (λ e. omega arith, tt)) refl
