-- ===== src/PathString/Wellformed.antt =====
-- The text that `escape` in src/path_string.rs writes, as UTF-8.
use file_peeker.Base.{
  ℕ, ◌/◌, ◌%◌, ◌<◌, ◌≡◌, refl, [], ◌∷◌, ◌++◌, arith, inl, inr, All, All-front, All-back, Bool-cases,
  ◌==◌,
}
use file_peeker.Utf8.{Bytes, utf8, from_utf8}
use file_peeker.Utf8.Steps.{IsHigh}
use file_peeker.Utf8.Chunks.{
  Chunks, done, char, broken, IsChar, chunks, ascii_IsChar, utf8_char, from_utf8-nil,
}
use file_peeker.PathString.{marker, hex_digit, escape}
use file_peeker.PathString.Render.{doubled, hexed, render}
use file_peeker.PathString.Loop.{escape-render}
use file_peeker.PathString.RoundTrip.{IsByte}

utf8_ascii : (b : ℕ) (r : Bytes) → b < 0x80 → from_utf8 r ≡ utf8 → from_utf8 (b ∷ r) ≡ utf8
utf8_ascii b r lt u = utf8_char b [] r (ascii_IsChar b lt) u

hex_digit-ascii : (d : ℕ) → d < 16 → hex_digit d < 0x80
hex_digit-ascii d h = ground arith

utf8-hexed : (c r : Bytes) → All IsByte c → from_utf8 r ≡ utf8 → from_utf8 (hexed c ++ r) ≡ utf8
unfolding hexed
utf8-hexed [] r _ u = u
utf8-hexed (b ∷ c) r (lt, lts) u = utf8_ascii marker _ (omega arith) (
    utf8_ascii (hex_digit (b / 16)) _ (hex_digit-ascii (b / 16) (omega arith)) (
      utf8_ascii (hex_digit (b % 16)) _ (hex_digit-ascii (b % 16) (omega arith))
        (utf8-hexed c r lts u)))

pub doubled-high : (c : Bytes) → All IsHigh c → doubled c ≡ c
unfolding doubled
doubled-high [] h = refl
doubled-high (b ∷ c) (hb, h) = ground (arith, doubled-high c h)

utf8-doubled :
    (b : ℕ) (c r : Bytes)
    → IsChar b c
    → from_utf8 r ≡ utf8
    → from_utf8 (doubled (b ∷ c) ++ r) ≡ utf8
utf8-doubled b c r h u = elim h.ascii_or_high [
  | inl (lt, nothing) ↦ rw nothing (one_ascii lt)
  | inr high ↦ rw (doubled-high (b ∷ c) high) (utf8_char b c r h u)
]
  where
    one_ascii : b < 0x80 → from_utf8 (doubled (b ∷ []) ++ r) ≡ utf8
    one_ascii lt =
        unfold doubled in
        elim (Bool-cases (b == marker)) [
          | inl e ↦ rw e (utf8_ascii marker _ (omega arith) (utf8_ascii marker r (omega arith) u))
          | inr e ↦ rw e (utf8_ascii b r lt u)
        ]

render-utf8 : {bs : Bytes} (ch : Chunks bs) → All IsByte bs → from_utf8 (render ch) ≡ utf8
unfolding render
render-utf8 done h = from_utf8-nil
render-utf8 (char b c r is_char eq rest) h =
    utf8-doubled b c (render rest) is_char
      (render-utf8 rest (All-back IsByte (b ∷ c) r (rw eq at h)))
render-utf8 (broken b c r is_broken eq rest) h =
    utf8-hexed (b ∷ c) (render rest) (All-front IsByte (b ∷ c) r (rw eq at h))
      (render-utf8 rest (All-back IsByte (b ∷ c) r (rw eq at h)))

-- Whatever the bytes of a name, its escaped form is well-formed UTF-8.
pub from_utf8-escape : (bytes : Bytes) → All IsByte bytes → from_utf8 (escape bytes) ≡ utf8
from_utf8-escape bytes h = rw (escape-render (chunks bytes)) (render-utf8 (chunks bytes) h)
