-- ===== src/PathString/RoundTrip.antt =====
-- `unescape` after `escape`, src/path_string.rs.
use file_peeker.Base.{
  ℕ, ◌/◌, ◌%◌, ◌<◌, ◌≡◌, refl, sym, ap, ◌∙◌, [], ◌∷◌, ◌++◌, some, arith, append_assoc, append-nil,
  inl, inr, ok, All, All-front, All-back, false, ◌==◌, Bool-cases, ==_iff,
}
use file_peeker.Utf8.{Bytes}
use file_peeker.Utf8.Steps.{IsHigh}
use file_peeker.Utf8.Chunks.{Chunks, done, char, broken, chunks}
use file_peeker.PathString.{
  marker, hex_digit, hex_value, decode_digits, unescape_loop, unescape, escape,
}
use file_peeker.PathString.Render.{doubled, hexed, render}
use file_peeker.PathString.Loop.{escape-render}

abbrev pub IsByte : ℕ → Type 0
IsByte b = b < 256

hex_value-hex_digit : (d : ℕ) → d < 16 → hex_value (hex_digit d) ≡ some d
hex_value-hex_digit d h = ground arith

decode_digits-hex_digit :
    (b : ℕ) → IsHigh b → IsByte b → decode_digits (hex_digit (b / 16)) (hex_digit (b % 16)) ≡ ok b
unfolding decode_digits
decode_digits-hex_digit b hi lt =
    rw (hex_value-hex_digit (b / 16) (omega arith), hex_value-hex_digit (b % 16) (omega arith))
      (ground arith)

hex_digit-ne-marker : (d : ℕ) → d < 16 → (hex_digit d == marker) ≡ false
hex_digit-ne-marker d h = ground arith

-- One step of the loop of `unescape`, at each of the three forms that `escape` writes.
unescape_copied :
    (c : ℕ) (s out : Bytes)
    → (c == marker) ≡ false
    → unescape_loop (c ∷ s) out ≡ unescape_loop s (out ++ c ∷ [])
unfolding unescape_loop
unescape_copied c [] out h = rw h
unescape_copied c (d ∷ []) out h = rw h
unescape_copied c (d ∷ e ∷ s) out h = rw h

unescape_doubled :
    (s out : Bytes) → unescape_loop (marker ∷ marker ∷ s) out ≡ unescape_loop s (out ++ marker ∷ [])
unfolding unescape_loop
unescape_doubled [] out = refl
unescape_doubled (d ∷ s) out = refl

unescape_decoded :
    (b : ℕ) (s out : Bytes)
    → IsHigh b
    → IsByte b
    → unescape_loop (marker ∷ hex_digit (b / 16) ∷ hex_digit (b % 16) ∷ s) out
      ≡ unescape_loop s (out ++ b ∷ [])
unfolding unescape_loop
unescape_decoded b s out hi lt =
    rw (hex_digit-ne-marker (b / 16) (omega arith), decode_digits-hex_digit b hi lt)

unescape_loop-doubled :
    (c s out : Bytes) → unescape_loop (doubled c ++ s) out ≡ unescape_loop s (out ++ c)
unfolding doubled
unescape_loop-doubled [] s out = rw append-nil
unescape_loop-doubled (b ∷ c) s out = elim (Bool-cases (b == marker)) [
  | inl e ↦ rw e (
      unescape_doubled (doubled c ++ s) out
      ∙ unescape_loop-doubled c s (out ++ marker ∷ [])
      ∙ ap (unescape_loop s)
          (append_assoc out (marker ∷ []) c ∙ ap (λ m. out ++ m ∷ c) (sym ((==_iff b marker).0 e))))
  | inr e ↦ rw e (
      unescape_copied b (doubled c ++ s) out e
      ∙ unescape_loop-doubled c s (out ++ b ∷ [])
      ∙ ap (unescape_loop s) (append_assoc out (b ∷ []) c))
]

pub unescape_loop-hexed :
    (c s out : Bytes)
    → All IsHigh c
    → All IsByte c
    → unescape_loop (hexed c ++ s) out ≡ unescape_loop s (out ++ c)
unfolding hexed
unescape_loop-hexed [] s out _ _ = rw append-nil
unescape_loop-hexed (b ∷ c) s out (hi, his) (lt, lts) =
    unescape_decoded b (hexed c ++ s) out hi lt
    ∙ unescape_loop-hexed c s (out ++ b ∷ []) his lts
    ∙ ap (unescape_loop s) (append_assoc out (b ∷ []) c)

unescape_loop-render :
    {bs : Bytes} (ch : Chunks bs) (out : Bytes)
    → All IsByte bs
    → unescape_loop (render ch) out ≡ ok (out ++ bs)
unfolding render
unescape_loop-render done out h = unfold unescape_loop in rw append-nil
unescape_loop-render (char b c r is_char eq rest) out h =
    unescape_loop-doubled (b ∷ c) (render rest) out
    ∙ unescape_loop-render rest (out ++ b ∷ c) (All-back IsByte (b ∷ c) r (rw eq at h))
    ∙ ap ok (append_assoc out (b ∷ c) r ∙ ap (◌++◌ out) (sym eq))
unescape_loop-render (broken b c r is_broken eq rest) out h =
    unescape_loop-hexed (b ∷ c) (render rest) out (is_broken.high, is_broken.rest_high)
      (All-front IsByte (b ∷ c) r (rw eq at h))
    ∙ unescape_loop-render rest (out ++ b ∷ c) (All-back IsByte (b ∷ c) r (rw eq at h))
    ∙ ap ok (append_assoc out (b ∷ c) r ∙ ap (◌++◌ out) (sym eq))

-- Decoding an escaped name gives back its bytes, whatever bytes they are.
pub unescape-escape : (bytes : Bytes) → All IsByte bytes → unescape (escape bytes) ≡ ok bytes
unfolding unescape
unescape-escape bytes h =
    rw (escape-render (chunks bytes)) (unescape_loop-render (chunks bytes) [] h)
