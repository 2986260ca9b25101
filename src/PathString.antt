-- ===== src/PathString.antt =====
-- path_string.rs (src/path_string.rs in the repository): names and paths of any bytes, held as
-- UTF-8 text. Text is its UTF-8 bytes. `escape` takes as fuel one more than the input is long: each
-- round of its loop takes at least one byte.
pub mod Tests
pub mod Render
pub mod Loop
pub mod RoundTrip
pub mod Wellformed
pub mod Join
pub mod Spelling
pub mod Name
use file_peeker.Base.{
  ℕ, zero, suc, ◌+◌, ◌-◌, ◌*◌, ◌/◌, ◌%◌, Bool, false, List, [], ◌∷◌, ◌++◌, Option, none, some,
  Result, ok, err, ok_or, ◌>>=◌, ltb, within, ◌==◌, if◌then◌else◌, length, take, drop,
}
use file_peeker.Utf8.{Bytes, utf8, utf8_error, from_utf8}

abbrev pub marker : ℕ
marker = b'%'

abbrev pub lowest_escapable_byte : ℕ
lowest_escapable_byte = 0x80

abbrev pub slash : ℕ
slash = b'/'

-- `HEX_DIGITS[d]`.
abbrev pub hex_digit : ℕ → ℕ
hex_digit d = if ltb d 10 then b'0' + d else b'A' + (d - 10)

pub data EscapeError : Type 0 where
  truncated : EscapeError
  not_uppercase_hex : EscapeError
  not_escapable : ℕ → EscapeError

-- `str::split` at one character: always at least one run.
pub cons_first : ℕ → List Bytes → List Bytes
cons_first c [] = (c ∷ []) ∷ []
cons_first c (run ∷ runs) = (c ∷ run) ∷ runs

unfoldable pub split : Bytes → ℕ → List Bytes
unfolding cons_first
split [] sep = [] ∷ []
split (c ∷ s) sep = let rest = split s sep in if c == sep then [] ∷ rest else cons_first c rest

push_runs : Bytes → List Bytes → Bytes
push_runs escaped [] = escaped
push_runs escaped (run ∷ runs) = push_runs (escaped ++ marker ∷ marker ∷ run) runs

push_split : Bytes → List Bytes → Bytes
unfolding push_runs
push_split escaped [] = escaped
push_split escaped (first ∷ runs) = push_runs (escaped ++ first) runs

-- Copies a decodable run through, doubling every marker in it.
pub push_valid : Bytes → Bytes → Bytes
unfolding push_split
push_valid escaped valid = push_split escaped (split valid marker)

-- `byte >> 4` and `byte & 0x0f`.
pub push_hex : Bytes → Bytes → Bytes
push_hex escaped [] = escaped
push_hex escaped (byte ∷ invalid) =
    push_hex (escaped ++ marker ∷ hex_digit (byte / 16) ∷ hex_digit (byte % 16) ∷ []) invalid

-- `str::from_utf8(valid).unwrap_or_default()`.
pub decodable_or_empty : Bytes → Bytes
decodable_or_empty valid = elim (from_utf8 valid) [ utf8 ↦ valid | utf8_error _ _ ↦ [] ]

-- `error_len().unwrap_or(invalid.len())`.
abbrev pub invalid_len : Option ℕ → Bytes → ℕ
invalid_len none invalid = length invalid
invalid_len (some n) invalid = n

pub escape_loop : ℕ → Bytes → Bytes → Option Bytes
escape_loop zero rest escaped = none
escape_loop (suc fuel) rest escaped = elim (from_utf8 rest) [
  | utf8 ↦ some (push_valid escaped rest)
  | utf8_error valid_up_to error_len ↦
      let valid = take valid_up_to rest in
      let invalid = drop valid_up_to rest in
      let n = invalid_len error_len invalid in
      escape_loop fuel (drop n invalid)
        (push_hex (push_valid escaped (decodable_or_empty valid)) (take n invalid))
]

or_empty : Option Bytes → Bytes
or_empty none = []
or_empty (some s) = s

-- Escapes bytes into valid UTF-8.
pub escape : Bytes → Bytes
unfolding escape_loop or_empty
escape bytes = or_empty (escape_loop (suc (length bytes)) bytes [])

abbrev pub hex_value : ℕ → Option ℕ
hex_value digit =
    if within b'0' b'9' digit
    then some (digit - b'0')
    else if within b'A' b'F' digit
    then some (digit - b'A' + 10)
    else none

checked : ℕ → Result EscapeError ℕ
checked byte = if ltb byte lowest_escapable_byte then err (not_escapable byte) else ok byte

-- The byte that the two digits behind a marker carry.
unfoldable pub decode_digits : ℕ → ℕ → Result EscapeError ℕ
unfolding checked
decode_digits d e = do
  high ← ok_or (hex_value d) not_uppercase_hex
  low ← ok_or (hex_value e) not_uppercase_hex
  let byte = high * 16 + low
  checked byte

-- The loop of `unescape`, over the bytes from `index` on. A `?` in it leaves the loop.
unfoldable pub unescape_loop : Bytes → Bytes → Result EscapeError Bytes
unescape_loop [] bytes = ok bytes
unescape_loop (c ∷ []) bytes = if c == marker then err truncated else ok (bytes ++ c ∷ [])
unescape_loop (c ∷ next ∷ []) bytes =
    let copied = unescape_loop (next ∷ []) (bytes ++ c ∷ []) in
    if c == marker
    then (if next == marker then ok (bytes ++ marker ∷ []) else err truncated)
    else copied
unescape_loop (c ∷ next ∷ low ∷ rest) bytes =
    let copied = unescape_loop (next ∷ low ∷ rest) (bytes ++ c ∷ []) in
    let doubled = unescape_loop (low ∷ rest) (bytes ++ marker ∷ []) in
    let decoded = decode_digits next low >>= λ byte. unescape_loop rest (bytes ++ byte ∷ []) in
    if c == marker then (if next == marker then doubled else decoded) else copied

unfoldable pub unescape : Bytes → Result EscapeError Bytes
unfolding unescape_loop
unescape escaped = unescape_loop escaped []

pub record PathString : Type 0 where
  pub text : Bytes

-- `PathString::escape`, `from_os_str` and `from_path` are this on a name's or a path's bytes.
abbrev pub from_bytes : Bytes → PathString
from_bytes bytes = record { text = escape bytes }

-- From text a person typed: `escape(text.as_bytes())`.
abbrev pub from_literal : Bytes → PathString
from_literal text = record { text = escape text }

pub from_escaped : Bytes → Result EscapeError PathString
from_escaped escaped = unescape escaped >>= λ _. ok (record { text = escaped })

abbrev pub to_bytes : PathString → Result EscapeError Bytes
to_bytes p = unescape p.text

abbrev pub ends_with_slash : Bytes → Bool
ends_with_slash [] = false
ends_with_slash (c ∷ []) = c == slash
ends_with_slash (c ∷ d ∷ s) = ends_with_slash (d ∷ s)

abbrev join_text : Bytes → Bytes → Bytes
join_text [] name = name
join_text (c ∷ p) name =
    if ends_with_slash (c ∷ p) then (c ∷ p) ++ name else (c ∷ p) ++ slash ∷ name

-- Appends one name.
pub join : PathString → PathString → PathString
join p name = record { text = join_text p.text name.text }
