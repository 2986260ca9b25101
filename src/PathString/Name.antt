-- ===== src/PathString/Name.antt =====
-- `PathString::is_name` of src/path_string.rs, over the components that the standard library's `Path`
-- gives, on unix.
use file_peeker.Base.{
  ℕ, ◌≡◌, ◌≢◌, refl, Bool, true, false, List, [], ◌∷◌, ◌++◌, arith, All, ◌==◌, if◌then◌else◌, ok,
  err, ◌&&◌,
}
use file_peeker.Utf8.{Bytes}
use file_peeker.PathString.{slash, cons_first, split, PathString, from_bytes, to_bytes}
use file_peeker.PathString.RoundTrip.{IsByte, unescape-escape}

abbrev dot : ℕ
dot = b'.'

pub data Component : Type 0 where
  root_dir cur_dir parent_dir : Component
  normal : Bytes → Component

abbrev is_dot : Bytes → Bool
is_dot [] = false
is_dot (c ∷ []) = c == dot
is_dot (c ∷ d ∷ s) = false

abbrev is_dot_dot : Bytes → Bool
is_dot_dot [] = false
is_dot_dot (c ∷ []) = false
is_dot_dot (c ∷ d ∷ []) = (c == dot) && (d == dot)
is_dot_dot (c ∷ d ∷ e ∷ s) = false

-- A part between separators: an empty one and `.` give no component.
unfoldable pub part : Bytes → List Component
part [] = []
part (c ∷ s) =
    if is_dot (c ∷ s)
    then []
    else if is_dot_dot (c ∷ s)
    then parent_dir ∷ []
    else normal (c ∷ s) ∷ []

unfoldable pub parts : List Bytes → List Component
parts [] = []
parts (p ∷ ps) = part p ++ parts ps

-- The first part is empty before a leading separator, and a leading `.` counts.
unfoldable pub first_part : List Bytes → List Component
unfolding part parts
first_part [] = []
first_part ([] ∷ []) = []
first_part ([] ∷ p ∷ ps) = root_dir ∷ parts (p ∷ ps)
first_part ((c ∷ s) ∷ ps) = if is_dot (c ∷ s) then cur_dir ∷ parts ps else part (c ∷ s) ++ parts ps

unfoldable pub components : Bytes → List Component
unfolding first_part
components path = first_part (split path slash)

unfoldable pub is_one_normal : List Component → Bool
is_one_normal [] = false
is_one_normal (normal _ ∷ []) = true
is_one_normal (normal _ ∷ _ ∷ _) = false
is_one_normal (_ ∷ _) = false

unfoldable pub is_name : PathString → Bool
unfolding is_one_normal
is_name p = elim (to_bytes p) [ err _ ↦ false | ok path ↦ is_one_normal (components path) ]

abbrev pub Lacks : ℕ → Bytes → Type 0
Lacks b = All (λ c. c ≢ b)

split-Lacks : (s : Bytes) → Lacks slash s → split s slash ≡ s ∷ []
unfolding split cons_first
split-Lacks [] h = refl
split-Lacks (c ∷ s) (hc, h) = ground (arith, split-Lacks s h)

split-Lacks_snoc : (s : Bytes) → Lacks slash s → split (s ++ slash ∷ []) slash ≡ s ∷ [] ∷ []
unfolding split cons_first
split-Lacks_snoc [] h = refl
split-Lacks_snoc (c ∷ s) (hc, h) = ground (arith, split-Lacks_snoc s h)

is_name_lem :
    (path : Bytes) → All IsByte path → is_name (from_bytes path) ≡ is_one_normal (components path)
unfolding is_name
is_name_lem path h = rw (unescape-escape path h, is_name)

-- The names that a directory entry can have.
abbrev pub proper : Bytes → Bool
proper s = if is_dot s then false else if is_dot_dot s then false else not_empty s
  where
    not_empty : Bytes → Bool
    not_empty [] = false
    not_empty (c ∷ t) = true

one_part : (s : Bytes) → is_one_normal (first_part (s ∷ [])) ≡ proper s
unfolding is_one_normal first_part
one_part [] = refl
one_part (c ∷ []) = ground arith
one_part (c ∷ d ∷ s) = ground arith

two_parts : (s : Bytes) → proper s ≡ true → is_one_normal (first_part (s ∷ [] ∷ [])) ≡ true
unfolding is_one_normal first_part
two_parts [] h = cc
two_parts (c ∷ []) h = ground arith
two_parts (c ∷ d ∷ s) h = ground arith

-- Of the texts without a separator, exactly those that are not empty, `.` or `..` are names.
pub is_name-proper : (s : Bytes) → All IsByte s → Lacks slash s → is_name (from_bytes s) ≡ proper s
unfolding components
is_name-proper s bytes h = rw (is_name_lem s bytes, components, split-Lacks s h) (one_part s)

-- A name with a separator behind it is taken for a name as well: `components` does not show it.
pub is_name_trailing_slash :
    (s : Bytes)
    → All IsByte (s ++ slash ∷ [])
    → Lacks slash s
    → proper s ≡ true
    → is_name (from_bytes (s ++ slash ∷ [])) ≡ true
unfolding components
is_name_trailing_slash s bytes h p =
    rw (is_name_lem (s ++ slash ∷ []) bytes, components, split-Lacks_snoc s h) (two_parts s p)
