-- ===== src/PathString/Spelling.antt =====
-- Which texts stand for which bytes in src/path_string.rs: literals, separators and other spellings.
use file_peeker.Base.{
  ℕ, ◌+◌, ◌<◌, ◌≡◌, ◌≢◌, refl, sym, ap, ◌∙◌, [], ◌∷◌, ◌++◌, arith, length, append-nil, All, ◌==◌,
  ==_iff, Bool-cases, inl, inr, >>=-eq-ok, if◌then◌else◌, none, ok,
}
use file_peeker.Utf8.{Bytes, utf8, from_utf8}
use file_peeker.Utf8.Steps.{IsHigh}
use file_peeker.PathString.{
  marker, hex_value, checked, decode_digits, unescape_loop, unescape, escape, or_empty,
}
use file_peeker.PathString.Render.{doubled, hexed, escape_loop-utf8}
use file_peeker.PathString.RoundTrip.{IsByte, unescape_loop-hexed}
use file_peeker.PathString.Wellformed.{doubled-high}

-- Text that is UTF-8 is escaped by doubling its markers, and by nothing else.
pub escape-utf8 : (text : Bytes) → from_utf8 text ≡ utf8 → escape text ≡ doubled text
unfolding escape or_empty
escape-utf8 text h = rw (escape_loop-utf8 (length text) text [] h)

high-ne-hexed : (t : Bytes) → t ≢ [] → All IsHigh t → t ≢ hexed t
unfolding hexed
high-ne-hexed [] ne h e = ne refl
high-ne-hexed (b ∷ t) ne (hb, h) e = ground arith

-- A text of characters outside ASCII has a second spelling: `unescape` also accepts each of its
-- bytes as an escape sequence, which is not what `escape` writes for them.
pub two_spellings :
    (text : Bytes)
    → text ≢ []
    → from_utf8 text ≡ utf8
    → All IsHigh text
    → All IsByte text
    → (unescape (hexed text) ≡ ok text) × (escape text ≢ hexed text)
unfolding unescape
two_spellings text ne u high bytes = (
  rw (← append-nil (hexed text)) (unescape_loop-hexed text [] [] high bytes),
  λ same. high-ne-hexed text ne high (sym (escape-utf8 text u ∙ doubled-high text high) ∙ same),
)

hit : ℕ → ℕ → ℕ
hit x c = if c == x then 1 else 0

-- How often a byte stands in a text.
pub count : ℕ → Bytes → ℕ
count x [] = 0
count x (c ∷ s) = hit x c + count x s

count-snoc : (x : ℕ) (s : Bytes) (c : ℕ) → count x (s ++ c ∷ []) ≡ count x s + hit x c
unfolding count
count-snoc x [] c = ground arith
count-snoc x (a ∷ s) c = ground (arith, count-snoc x s c)

-- A byte that no escape sequence is written with.
pub record IsPlain (x : ℕ) : Type 0 where
  pub ascii : x < 0x80
  pub no_marker : x ≢ marker
  pub no_digit : hex_value x ≡ none

hit-marker : (x : ℕ) → IsPlain x → hit x marker ≡ 0
unfolding hit
hit-marker x p = ground arith

hit-decode_digits :
    (x d e b : ℕ)
    → IsPlain x
    → decode_digits d e ≡ ok b
    → (hit x d ≡ 0) × (hit x e ≡ 0) × (hit x b ≡ 0)
unfolding decode_digits checked hit
hit-decode_digits x d e b p h = ground arith

module _ (x : ℕ) (p : IsPlain x) where
  -- The two ways in which the loop takes a marker.
  after_marker :
      (next low : ℕ) (rest out bytes : Bytes)
      → ((out' : Bytes)
          → unescape_loop (low ∷ rest) out' ≡ ok bytes
          → count x bytes ≡ count x out' + count x (low ∷ rest))
      → ((out' : Bytes)
          → unescape_loop rest out' ≡ ok bytes
          → count x bytes ≡ count x out' + count x rest)
      → unescape_loop (marker ∷ next ∷ low ∷ rest) out ≡ ok bytes
      → count x bytes ≡ count x out + count x (marker ∷ next ∷ low ∷ rest)
  unfolding unescape_loop count
  after_marker next low rest out bytes ih ih' h = elim (Bool-cases (next == marker)) [
    | inl e ↦ omega (
      arith,
      ih (out ++ marker ∷ []) (rw e at h),
      count-snoc x out marker,
      hit-marker x p,
      ap (hit x) ((==_iff next marker).0 e),
    )
    | inr e ↦
        let (b, digits, h') = >>=-eq-ok (decode_digits next low) _ (rw e at h) in
        omega (
          arith,
          ih' (out ++ b ∷ []) h',
          count-snoc x out b,
          hit-marker x p,
          hit-decode_digits x next low b p digits,
        )
  ]

  count-unescape_loop :
      (s out bytes : Bytes)
      → unescape_loop s out ≡ ok bytes
      → count x bytes ≡ count x out + count x s
  unfolding unescape_loop count
  count-unescape_loop [] out bytes h = ground arith
  count-unescape_loop (c ∷ []) out bytes h = ground (arith, count-snoc x out c)
  count-unescape_loop (c ∷ next ∷ []) out bytes h = ground (
    arith,
    count-snoc x out marker,
    count-snoc x out c,
    hit-marker x p,
    count-unescape_loop (next ∷ []) (out ++ c ∷ []) bytes,
  )
  count-unescape_loop (c ∷ next ∷ low ∷ rest) out bytes h = elim (Bool-cases (c == marker)) [
    | inl e ↦ rw ((==_iff c marker).0 e) (
        after_marker next low rest out bytes (λ out'. count-unescape_loop (low ∷ rest) out' bytes)
          (λ out'. count-unescape_loop rest out' bytes) (rw ((==_iff c marker).0 e) at h))
    | inr e ↦ omega (
      arith,
      count-unescape_loop (next ∷ low ∷ rest) (out ++ c ∷ []) bytes (rw e at h),
      count-snoc x out c,
    )
  ]

-- Decoding brings in no separator and no NUL, and loses none: a decoded text has as many of them as
-- the escaped one.
pub count-unescape :
    (x : ℕ) (escaped bytes : Bytes)
    → IsPlain x
    → unescape escaped ≡ ok bytes
    → count x bytes ≡ count x escaped
unfolding unescape count
count-unescape x escaped bytes p h = omega (arith, count-unescape_loop x p escaped [] bytes h)
