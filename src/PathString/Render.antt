-- ===== src/PathString/Render.antt =====
-- What the loop of `escape` writes: each character with its markers doubled, and each byte of an
-- ill-formed sequence as two hexadecimal digits.
use file_peeker.Base.{
  ℕ, zero, suc, ◌+◌, ◌/◌, ◌%◌, ◌≡◌, ◌≢◌, refl, sym, ap, List, [], ◌∷◌, ◌++◌, Option, some, arith,
  length, take, drop, append_assoc, append-nil, inl, inr, if◌then◌else◌, ◌==◌, Bool-cases,
}
use file_peeker.Utf8.{Bytes, utf8, utf8_error, from_utf8}
use file_peeker.Utf8.Chunks.{
  Chunks, done, char, broken, IsChar, IsBroken, chunks, shift, from_utf8-char, from_utf8-broken,
  from_utf8-nil, Utf8-cases,
}
use file_peeker.PathString.{
  marker, hex_digit, cons_first, split, push_runs, push_split, push_valid, push_hex,
  decodable_or_empty, invalid_len, escape_loop,
}

-- The text with every marker doubled.
unfoldable pub doubled : Bytes → Bytes
doubled [] = []
doubled (c ∷ s) = if c == marker then marker ∷ marker ∷ doubled s else c ∷ doubled s

-- Every byte as an escape sequence.
unfoldable pub hexed : Bytes → Bytes
hexed [] = []
hexed (b ∷ s) = marker ∷ hex_digit (b / 16) ∷ hex_digit (b % 16) ∷ hexed s

unfoldable pub render : {bs : Bytes} → Chunks bs → Bytes
render done = []
render (char b c r _ _ rest) = doubled (b ∷ c) ++ render rest
render (broken b c r _ _ rest) = hexed (b ∷ c) ++ render rest

split-ne-nil : (s : Bytes) (sep : ℕ) → split s sep ≢ []
unfolding split
split-ne-nil [] sep = λ e. cc
split-ne-nil (c ∷ s) sep = ground arith

push_split-cons_first :
    (out : Bytes) (c : ℕ) (runs : List Bytes)
    → runs ≢ []
    → push_split out (cons_first c runs) ≡ push_split (out ++ c ∷ []) runs
unfolding push_split cons_first
push_split-cons_first out c [] h = absurd (h refl)
push_split-cons_first out c (run ∷ runs) h = rw append_assoc

push_runs-split :
    (out : Bytes) (runs : List Bytes)
    → runs ≢ []
    → push_runs out runs ≡ push_split (out ++ marker ∷ marker ∷ []) runs
unfolding push_split
push_runs-split out [] h = absurd (h refl)
push_runs-split out (run ∷ runs) h = rw append_assoc

push_split-doubled : (out s : Bytes) → push_split out (split s marker) ≡ out ++ doubled s
unfolding split doubled
push_split-doubled out [] = unfold push_split in refl
push_split-doubled out (c ∷ s) = elim (Bool-cases (c == marker)) [
  | inl e ↦
      rw (e, append-nil-first, push_split-doubled (out ++ marker ∷ marker ∷ []) s, append_assoc)
  | inr e ↦ rw (
    e,
    push_split-cons_first out c _ (split-ne-nil s marker),
    push_split-doubled (out ++ c ∷ []) s,
    append_assoc,
  )
]
  where
    append-nil-first :
        push_split out ([] ∷ split s marker)
        ≡ push_split (out ++ marker ∷ marker ∷ []) (split s marker)
    append-nil-first =
        unfold push_split in
        rw (append-nil out) (push_runs-split out (split s marker) (split-ne-nil s marker))

push_valid-doubled : (out valid : Bytes) → push_valid out valid ≡ out ++ doubled valid
unfolding push_valid
push_valid-doubled = push_split-doubled

push_hex-hexed : (out invalid : Bytes) → push_hex out invalid ≡ out ++ hexed invalid
unfolding push_hex hexed
push_hex-hexed out [] = sym (append-nil out)
push_hex-hexed out (b ∷ s) =
    simp (
      push_hex-hexed (out ++ marker ∷ hex_digit (b / 16) ∷ hex_digit (b % 16) ∷ []) s,
      append_assoc,
    )

pub doubled-append : (x y : Bytes) → doubled (x ++ y) ≡ doubled x ++ doubled y
unfolding doubled
doubled-append [] y = refl
doubled-append (c ∷ x) y = ground (arith, doubled-append x y)

pub take-append : (n v : ℕ) (c r : Bytes) → n ≡ length c + v → take n (c ++ r) ≡ c ++ take v r
take-append n v [] r e = ground arith
take-append zero v (b ∷ c) r e = absurd (omega arith)
take-append (suc n) v (b ∷ c) r e = ap (◌∷◌ b) (take-append n v c r (omega arith))

pub drop-append : (n v : ℕ) (c r : Bytes) → n ≡ length c + v → drop n (c ++ r) ≡ drop v r
drop-append n v [] r e = ground arith
drop-append zero v (b ∷ c) r e = absurd (omega arith)
drop-append (suc n) v (b ∷ c) r e = drop-append n v c r (omega arith)

take-char :
    (b n v : ℕ) (c r : Bytes) → n ≡ suc (length c) + v → take n (b ∷ (c ++ r)) ≡ b ∷ (c ++ take v r)
take-char b n v c r e = take-append n v (b ∷ c) r e

module _ (b : ℕ) (c r : Bytes) (is_char : IsChar b c) where
  error_behind :
      (v v' : ℕ) (e e' : Option ℕ)
      → from_utf8 (b ∷ (c ++ r)) ≡ utf8_error v e
      → from_utf8 r ≡ utf8_error v' e'
      → (v ≡ suc (length c) + v') × (e ≡ e')
  unfolding shift
  error_behind v v' e e' h u = ground (arith, from_utf8-char b c r is_char)

  not_utf8_behind :
      (v : ℕ) (e : Option ℕ) → from_utf8 (b ∷ (c ++ r)) ≡ utf8_error v e → from_utf8 r ≢ utf8
  unfolding shift
  not_utf8_behind v e h u = ground (arith, from_utf8-char b c r is_char)

  utf8_before : (v : ℕ) → from_utf8 (take v r) ≡ utf8 → from_utf8 (b ∷ (c ++ take v r)) ≡ utf8
  unfolding shift
  utf8_before v h = rw (from_utf8-char b c (take v r) is_char, h, shift)

  char_valid_up_to :
      (v : ℕ) (e : Option ℕ)
      → ((v' : ℕ) (e' : Option ℕ) → from_utf8 r ≡ utf8_error v' e' → from_utf8 (take v' r) ≡ utf8)
      → from_utf8 (b ∷ (c ++ r)) ≡ utf8_error v e
      → from_utf8 (take v (b ∷ (c ++ r))) ≡ utf8
  char_valid_up_to v e ih h = elim (Utf8-cases (from_utf8 r)) [
    | inl u ↦ absurd (not_utf8_behind v e h u)
    | inr (v', e', u) ↦
        rw (take-char b v v' c r (error_behind v v' e e' h u).0) (utf8_before v' (ih v' e' u))
  ]

broken_at_zero :
    (b v : ℕ) (c r : Bytes) (e : Option ℕ)
    → IsBroken b c r
    → from_utf8 (b ∷ (c ++ r)) ≡ utf8_error v e
    → v ≡ 0
broken_at_zero b v c r e h u = elim (from_utf8-broken b c r h) [
  | inl k ↦ ground arith
  | inr (k, _) ↦ ground arith
]

-- The bytes before the error are well-formed.
from_utf8-valid_up_to :
    {r : Bytes} (ch : Chunks r) (v : ℕ) (e : Option ℕ)
    → from_utf8 r ≡ utf8_error v e
    → from_utf8 (take v r) ≡ utf8
from_utf8-valid_up_to done v e h = cc from_utf8-nil
from_utf8-valid_up_to (char b c r is_char eq rest) v e h =
    rw eq (char_valid_up_to b c r is_char v e (from_utf8-valid_up_to rest) (rw eq at h))
from_utf8-valid_up_to (broken b c r is_broken eq rest) v e h =
    rw (broken_at_zero b v c r e is_broken (rw eq at h)) from_utf8-nil

decodable_or_empty_lem : (s : Bytes) → from_utf8 s ≡ utf8 → decodable_or_empty s ≡ s
unfolding decodable_or_empty
decodable_or_empty_lem s h = rw (h, decodable_or_empty)

module _ (fuel : ℕ) (rest out : Bytes) where
  pub escape_loop-utf8 :
      from_utf8 rest ≡ utf8 → escape_loop (suc fuel) rest out ≡ some (out ++ doubled rest)
  unfolding escape_loop
  escape_loop-utf8 h = rw (h, escape_loop, push_valid-doubled)

  pub escape_loop-error :
      (v : ℕ) (e : Option ℕ)
      → from_utf8 rest ≡ utf8_error v e
      → let n = invalid_len e (drop v rest) in
        escape_loop (suc fuel) rest out
        ≡ escape_loop fuel
            (drop n (drop v rest))
            ((out ++ doubled (take v rest)) ++ hexed (take n (drop v rest)))
  unfolding escape_loop
  escape_loop-error v e h = rw (
    h,
    escape_loop,
    decodable_or_empty_lem _ (from_utf8-valid_up_to (chunks rest) v e h),
    push_valid-doubled,
    push_hex-hexed,
  )
