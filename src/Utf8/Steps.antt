-- ===== src/Utf8/Steps.antt =====
-- What one character, or one ill-formed sequence, tells of the bytes that it takes up.
use file_peeker.Base.{ℕ, suc, ◌-◌, ◌≤◌, ◌<◌, ◌≡◌, [], ◌∷◌, ◌++◌, arith, length, take, All, ◌⊎◌}
use file_peeker.Utf8.{Bytes, CharStep, valid, ill, short, char_step}

abbrev pub IsHigh : ℕ → Type 0
IsHigh b = 0x80 ≤ b

-- The bytes of a character are one ASCII byte or no ASCII byte; those of an ill-formed sequence, or
-- of one that the input cuts off, are no ASCII bytes.
abbrev pub Bounded : ℕ → Bytes → CharStep → Type 0
Bounded b r (valid w) =
    ((b < 0x80) × (w ≡ 1))
    ⊎ (IsHigh b × (1 ≤ w) × (w ≤ suc (length r)) × All IsHigh (take (w - 1) r))
Bounded b r (ill n) = (1 ≤ n) × (n ≤ suc (length r)) × IsHigh b × All IsHigh (take (n - 1) r)
Bounded b r short = IsHigh b × All IsHigh r

pub char_step_bounds : (b : ℕ) (r : Bytes) → Bounded b r (char_step b r)
unfolding char_step
char_step_bounds b [] = ground arith
char_step_bounds b (c ∷ []) = ground arith
char_step_bounds b (c ∷ d ∷ []) = ground arith
char_step_bounds b (c ∷ d ∷ e ∷ r) = ground arith

-- What follows a character does not change it.
pub char_step_cut :
    (b : ℕ) (r y : Bytes) (w : ℕ)
    → char_step b r ≡ valid w
    → char_step b (take (w - 1) r ++ y) ≡ valid w
unfolding char_step
char_step_cut b [] y w h = ground arith
char_step_cut b (c ∷ []) y w h = ground arith
char_step_cut b (c ∷ d ∷ []) y w h = ground arith
char_step_cut b (c ∷ d ∷ e ∷ r) y w h = ground arith

-- What is not cut off by the end of the input is not changed by more input.
pub char_step_extend :
    (b : ℕ) (r y : Bytes) (n : ℕ) → char_step b r ≡ ill n → char_step b (r ++ y) ≡ ill n
unfolding char_step
char_step_extend b [] y n h = ground arith
char_step_extend b (c ∷ []) y n h = ground arith
char_step_extend b (c ∷ d ∷ []) y n h = ground arith
char_step_extend b (c ∷ d ∷ e ∷ r) y n h = ground arith

-- An ASCII byte behind a sequence that was cut off makes all of the sequence ill-formed.
pub char_step_ascii :
    (b : ℕ) (r y : Bytes) (s : ℕ)
    → char_step b r ≡ short
    → s < 0x80
    → char_step b (r ++ s ∷ y) ≡ ill (suc (length r))
unfolding char_step
char_step_ascii b [] y s h lt = ground arith
char_step_ascii b (c ∷ []) y s h lt = ground arith
char_step_ascii b (c ∷ d ∷ []) y s h lt = ground arith
char_step_ascii b (c ∷ d ∷ e ∷ r) y s h lt = ground arith
