-- ===== src/Client/Quote.antt =====
-- `quote` of src/client/ssh.rs, over the bytes of its argument, and how a POSIX shell reads a word.
use file_peeker.Base.{
  ℕ, ◌≡◌, ◌≢◌, refl, sym, ap, ◌∙◌, Bool, true, false, ◌&&◌, ◌||◌, not, Option, none, some, [], ◌∷◌,
  ◌++◌, if◌then◌else◌, leb, ◌==◌, arith, inl, inr, Bool-cases,
}
use file_peeker.Utf8.{Bytes}

abbrev pub apostrophe : ℕ
apostrophe = 39

abbrev pub quotation : ℕ
quotation = 34

abbrev pub between : ℕ → ℕ → ℕ → Bool
between low high b = leb low b && leb b high

abbrev pub is_alphanumeric : ℕ → Bool
is_alphanumeric b = between 48 57 b || (between 65 90 b || between 97 122 b)

abbrev pub is_one_of : ℕ → Bytes → Bool
is_one_of b [] = false
is_one_of b (c ∷ bytes) = b == c || is_one_of b bytes

-- Alphanumeric or one of `-_./=:@%+,`.
abbrev pub is_safe : ℕ → Bool
is_safe b = is_alphanumeric b || is_one_of b (45 ∷ 95 ∷ 46 ∷ 47 ∷ 61 ∷ 58 ∷ 64 ∷ 37 ∷ 43 ∷ 44 ∷ [])

abbrev pub all_safe : Bytes → Bool
all_safe [] = true
all_safe (b ∷ bytes) = is_safe b && all_safe bytes

abbrev pub is_empty : Bytes → Bool
is_empty [] = true
is_empty (b ∷ bytes) = false

-- `replace('\'', r#"'"'"'"#)`.
unfoldable pub replaced : Bytes → Bytes
replaced [] = []
replaced (b ∷ bytes) =
    let rest = replaced bytes in
    if b == apostrophe
    then apostrophe ∷ quotation ∷ apostrophe ∷ quotation ∷ apostrophe ∷ rest
    else b ∷ rest

unfoldable pub quote : Bytes → Bytes
unfolding replaced
quote argument =
    if not (is_empty argument) && all_safe argument
    then argument
    else apostrophe ∷ (replaced argument ++ (apostrophe ∷ []))

-- Where a shell is in a word.
pub data Quoting : Type 0 where
  bare single double : Quoting

-- One byte in front of the rest of the word.
abbrev pub before : ℕ → Option Bytes → Option Bytes
before b none = none
before b (some word) = some (b ∷ word)

abbrev pub is_expanded : ℕ → Bool
is_expanded b = is_one_of b (36 ∷ 96 ∷ 92 ∷ [])

-- What POSIX has a shell read as more than itself outside quotes: tab, newline, space and ``!"#$&'()*;<>?[\]^`{|}~``,
-- some of them only in front of a word. `=` has a meaning only in front of a command's name and `%` only for job
-- control, and what is quoted is an argument.
abbrev pub is_special : ℕ → Bool
is_special b = is_one_of b (
    9 ∷ 10 ∷ 32 ∷ 33 ∷ 34 ∷ 35 ∷ 36 ∷ 38 ∷ 39 ∷ 40 ∷ 41 ∷ 42 ∷ 59 ∷ 60 ∷ 62 ∷ 63 ∷ 91 ∷ 92 ∷ 93 ∷ 94
    ∷ 96 ∷ 123 ∷ 124 ∷ 125 ∷ 126 ∷ [])

-- The one word that a shell reads. Outside quotes it takes apostrophes, quotation marks and the bytes that are not
-- special; between apostrophes, every byte; between quotation marks, all but `$`, a backquote and a backslash.
unfoldable pub read_word : Quoting → Bytes → Option Bytes
read_word bare [] = some []
read_word single [] = none
read_word double [] = none
read_word bare (b ∷ bytes) =
    let literal = before b (read_word bare bytes) in
    let quoted = read_word single bytes in
    let marked = read_word double bytes in
    if b == apostrophe
    then quoted
    else if b == quotation
    then marked
    else if is_special b
    then none
    else literal
read_word single (b ∷ bytes) =
    let literal = before b (read_word single bytes) in
    let left = read_word bare bytes in if b == apostrophe then left else literal
read_word double (b ∷ bytes) =
    let literal = before b (read_word double bytes) in
    let left = read_word bare bytes in
    if b == quotation then left else if is_expanded b then none else literal

all_hold : (ℕ → Bool) → Bytes → Bool
all_hold p [] = true
all_hold p (b ∷ bytes) = p b && all_hold p bytes

one_of_all :
    (p : ℕ → Bool) (b : ℕ) (bytes : Bytes)
    → all_hold p bytes ≡ true
    → is_one_of b bytes ≡ true
    → p b ≡ true
unfolding all_hold
one_of_all p b [] h o = absurd (ground arith)
one_of_all p b (c ∷ bytes) h o = elim (Bool-cases (b == c)) [
  | inl u ↦ let same : b ≡ c = ground arith in ap p same ∙ ground arith
  | inr u ↦ one_of_all p b bytes (ground arith) (ground arith)
]

safe_not_special : (b : ℕ) → is_safe b ≡ true → is_special b ≡ false
unfolding all_hold
safe_not_special b h = elim (Bool-cases (is_special b)) [
  | inl u ↦
      let no_safe =
        one_of_all (λ c. not (is_safe c)) b
          (9 ∷ 10 ∷ 32 ∷ 33 ∷ 34 ∷ 35 ∷ 36 ∷ 38 ∷ 39 ∷ 40 ∷ 41 ∷ 42 ∷ 59 ∷ 60 ∷ 62 ∷ 63 ∷ 91 ∷ 92
            ∷ 93 ∷ 94 ∷ 96 ∷ 123 ∷ 124 ∷ 125 ∷ 126 ∷ [])
          refl u in
      absurd (ground (arith, no_safe))
  | inr u ↦ u
]

bare_step :
    (b : ℕ) (bytes : Bytes)
    → (b == apostrophe) ≡ false
    → (b == quotation) ≡ false
    → is_special b ≡ false
    → read_word bare (b ∷ bytes) ≡ before b (read_word bare bytes)
unfolding read_word
bare_step b bytes plain unmarked free =
    let literal = before b (read_word bare bytes) in
    ap
      (λ t.
        if t
        then read_word single bytes
        else if b == quotation
        then read_word double bytes
        else if is_special b
        then none
        else literal)
      plain
    ∙ ap (λ t. if t then read_word double bytes else if is_special b then none else literal)
        unmarked
    ∙ ap (λ t. if t then none else literal) free

read_word-safe : (bytes : Bytes) → all_safe bytes ≡ true → read_word bare bytes ≡ some bytes
unfolding read_word
read_word-safe [] h = refl
read_word-safe (b ∷ bytes) h =
    let rest = read_word-safe bytes (ground (arith, h)) in
    bare_step b bytes (ground (arith, h)) (ground (arith, h))
      (safe_not_special b (ground (arith, h)))
    ∙ ap (before b) rest

read_word-replaced :
    (bytes : Bytes) → read_word single (replaced bytes ++ (apostrophe ∷ [])) ≡ some bytes
unfolding read_word replaced
read_word-replaced [] = refl
read_word-replaced (b ∷ bytes) = elim (Bool-cases (b == apostrophe)) [
  | inl u ↦
      let same : b ≡ apostrophe = ground arith in
      rw (u)
        (ap (before apostrophe) (read_word-replaced bytes) ∙ ap (λ c. some (c ∷ bytes)) (sym same))
  | inr u ↦ rw (u, u, read_word-replaced bytes) refl
]

-- Whatever its bytes, an argument that is quoted is one word of the remote shell, and that word is the argument:
-- nothing in it ends the word, opens another or is expanded. An empty argument is a word too.
pub read_word-quote :
    (argument : Bytes) → (read_word bare (quote argument) ≡ some argument) × (quote argument ≢ [])
unfolding quote read_word
read_word-quote argument = elim (Bool-cases (not (is_empty argument) && all_safe argument)) [
  | inl u ↦ rw (u) (read_word-safe argument (ground arith), filled argument u)
  | inr u ↦ rw (u) (quoted argument, λ e. cc)
]
  where
    filled : (bytes : Bytes) → (not (is_empty bytes) && all_safe bytes) ≡ true → bytes ≢ []
    filled [] h e = absurd (ground arith)
    filled (b ∷ bytes) h e = cc

    quoted :
        (bytes : Bytes)
        → read_word bare (apostrophe ∷ (replaced bytes ++ (apostrophe ∷ []))) ≡ some bytes
    quoted bytes = read_word-replaced bytes
