-- ===== src/Utf8/Chunks.antt =====
-- Every byte string is a row of characters and ill-formed sequences, and `from_utf8` in these terms.
use file_peeker.Base.{
  length-take, ℕ, Option, zero, suc, ◌+◌, ◌-◌, ◌≤◌, ◌<◌, ◌≡◌, refl, sym, [], ◌∷◌, ◌++◌, arith,
  length, take, drop, append-nil, All, ◌⊎◌, inl, inr, none, some, take-append-drop, ap,
}
use native.Mathlib.Nat.{add_assoc}
use file_peeker.Utf8.{
  Bytes, CharStep, valid, ill, short, char_step, scan, from_utf8, Utf8, utf8, utf8_error,
}
use file_peeker.Utf8.Steps.{IsHigh, Bounded, char_step_bounds, char_step_cut}

-- `b ∷ c` is one character.
pub record IsChar (b : ℕ) (c : Bytes) : Type 0 where
  pub ascii_or_high : ((b < 0x80) × (c ≡ [])) ⊎ (IsHigh b × All IsHigh c)
  pub whole : (y : Bytes) → char_step b (c ++ y) ≡ valid (suc (length c))

-- `b ∷ c` is one ill-formed sequence in front of `r`, or is cut off by the end of the input.
pub record IsBroken (b : ℕ) (c r : Bytes) : Type 0 where
  pub high : IsHigh b
  pub rest_high : All IsHigh c
  pub cause :
      (char_step b (c ++ r) ≡ ill (suc (length c))) ⊎ ((char_step b (c ++ r) ≡ short) × (r ≡ []))

pub data Chunks : Bytes → Type 0 where
  done : Chunks []
  char : (b : ℕ) (c r : Bytes) {bs : Bytes} → IsChar b c → bs ≡ b ∷ (c ++ r) → Chunks r → Chunks bs
  broken :
      (b : ℕ) (c r : Bytes) {bs : Bytes} → IsBroken b c r → bs ≡ b ∷ (c ++ r) → Chunks r → Chunks bs

length-drop_le : (n : ℕ) (xs : Bytes) → length (drop n xs) ≤ length xs
length-drop_le zero xs = omega arith
length-drop_le (suc n) [] = omega arith
length-drop_le (suc n) (x ∷ xs) = omega (arith, length-drop_le n xs)

split_at : (n : ℕ) (b : ℕ) (r : Bytes) → b ∷ r ≡ b ∷ (take n r ++ drop n r)
split_at n b r = ap (◌∷◌ b) (sym (take-append-drop n r))

whole-IsChar :
    (b : ℕ) (r : Bytes) (w : ℕ)
    → char_step b r ≡ valid w
    → Bounded b r (valid w)
    → IsChar b (take (w - 1) r)
whole-IsChar b r w e (inl (lt, one)) = record {
  ascii_or_high = inl (lt, ground arith);
  whole = λ y. ground (arith, char_step_cut b r y w e);
}
whole-IsChar b r w e (inr (hb, lo, hi, hs)) = record {
  ascii_or_high = inr (hb, hs);
  whole = λ y. ground (arith, char_step_cut b r y w e, length-take (w - 1) r (omega arith));
}

ill_IsBroken :
    (b : ℕ) (r : Bytes) (n : ℕ)
    → char_step b r ≡ ill n
    → Bounded b r (ill n)
    → IsBroken b (take (n - 1) r) (drop (n - 1) r)
ill_IsBroken b r n e (lo, hi, hb, hs) = record {
  high = hb;
  rest_high = hs;
  cause = inl (ground (arith, take-append-drop (n - 1) r, length-take (n - 1) r (omega arith)));
}

short-IsBroken : (b : ℕ) (r : Bytes) → char_step b r ≡ short → Bounded b r short → IsBroken b r []
short-IsBroken b r e (hb, hs) = record {
  high = hb;
  rest_high = hs;
  cause = inr (rw (append-nil r) e, refl);
}

module _ (b : ℕ) (r : Bytes) (rest : (k : ℕ) → Chunks (drop k r)) where
  split_off : (s : CharStep) → char_step b r ≡ s → Bounded b r s → Chunks (b ∷ r)
  split_off (valid w) e h =
      char b (take (w - 1) r) (drop (w - 1) r) (whole-IsChar b r w e h) (split_at (w - 1) b r)
        (rest (w - 1))
  split_off (ill n) e h =
      broken b (take (n - 1) r) (drop (n - 1) r) (ill_IsBroken b r n e h) (split_at (n - 1) b r)
        (rest (n - 1))
  split_off short e h =
      broken b r [] (short-IsBroken b r e h) (ap (◌∷◌ b) (sym (append-nil r))) done

-- By strong induction on the length, with `n` above it.
chunks_below : (n : ℕ) (bs : Bytes) → length bs < n → Chunks bs
chunks_below zero bs h = absurd (omega arith)
chunks_below (suc n) [] h = done
chunks_below (suc n) (b ∷ r) h =
    split_off b r (λ k. chunks_below n (drop k r) (omega (arith, length-drop_le k r)))
      (char_step b r) refl (char_step_bounds b r)

pub chunks : (bs : Bytes) → Chunks bs
chunks bs = chunks_below (suc (length bs)) bs (omega arith)

unfoldable pub shift : ℕ → Utf8 → Utf8
shift n utf8 = utf8
shift n (utf8_error v e) = utf8_error (n + v) e

scan-shift : (bs : Bytes) (skip i j : ℕ) → scan bs skip (i + j) ≡ shift i (scan bs skip j)
unfolding scan shift
scan-shift [] skip i j = refl
scan-shift (b ∷ r) (suc k) i j = rw (add_assoc i j 1) (scan-shift r k i (j + 1))
scan-shift (b ∷ r) zero i j =
    elim (char_step b r) as (λ s. step_scan s (i + j) ≡ shift i (step_scan s j)) [
      | valid w ↦ rw (add_assoc i j 1) (scan-shift r (w - 1) i (j + 1))
      | ill n ↦ refl
      | short ↦ refl
    ]
  where
    step_scan : CharStep → ℕ → Utf8
    step_scan s i = elim s [
      | valid w ↦ scan r (w - 1) (i + 1)
      | ill n ↦ utf8_error i (some n)
      | short ↦ utf8_error i none
    ]

scan_skip : (c r : Bytes) (i : ℕ) → scan (c ++ r) (length c) i ≡ scan r 0 (i + length c)
unfolding scan
scan_skip [] r i = ground arith
scan_skip (b ∷ c) r i = ground (arith, scan_skip c r (i + 1))

module _ (b : ℕ) (c r : Bytes) where
  -- A character in front moves the error back.
  pub from_utf8-char : IsChar b c → from_utf8 (b ∷ (c ++ r)) ≡ shift (suc (length c)) (from_utf8 r)
  unfolding from_utf8 scan
  from_utf8-char h = ground (arith, h.whole r, scan_skip c r 1, scan-shift r 0 (suc (length c)) 0)

  -- An ill-formed sequence in front is the error.
  pub from_utf8-broken :
      IsBroken b c r
      → (from_utf8 (b ∷ (c ++ r)) ≡ utf8_error 0 (some (suc (length c))))
        ⊎ ((from_utf8 (b ∷ (c ++ r)) ≡ utf8_error 0 none) × (r ≡ []))
  unfolding from_utf8 scan
  from_utf8-broken h = elim h.cause [
    | inl e ↦ inl (rw (from_utf8, scan, e))
    | inr (e, nothing) ↦ inr (rw (from_utf8, scan, e), nothing)
  ]

-- An ASCII byte is a character.
pub ascii_IsChar : (b : ℕ) → b < 0x80 → IsChar b []
unfolding char_step
ascii_IsChar b lt = record { ascii_or_high = inl (lt, refl); whole = λ y. ground arith }

-- A character in front of well-formed bytes leaves them well-formed.
pub utf8_char :
    (b : ℕ) (c r : Bytes) → IsChar b c → from_utf8 r ≡ utf8 → from_utf8 (b ∷ (c ++ r)) ≡ utf8
unfolding shift
utf8_char b c r h u = rw (from_utf8-char b c r h, u, shift)

pub from_utf8-nil : from_utf8 [] ≡ utf8
unfolding from_utf8 scan
from_utf8-nil = refl

pub Utf8-cases : (u : Utf8) → (u ≡ utf8) ⊎ ((v : ℕ) × (e : Option ℕ) × (u ≡ utf8_error v e))
Utf8-cases utf8 = inl refl
Utf8-cases (utf8_error v e) = inr (v, e, refl)
