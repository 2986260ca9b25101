-- ===== src/Fs.antt =====
-- The file system operations' shared parts: src/fs/error.rs and src/fs/absolute.rs, and regular files as
-- a map from paths to contents. The wording of an error's message is not modelled.
pub mod Tests
pub mod Write
pub mod Entry
pub mod Walk
use file_peeker.Base.{
  ℕ, ◌≡◌, ◌≢◌, ◌↔◌, refl, Bool, true, false, ◌&&◌, Option, none, some, List, [], ◌∷◌, ◌++◌, arith,
  if◌then◌else◌, ◌==◌, Result, ok, err,
}
use file_peeker.Task.{
  ErrorKind, not_found, already_exists, permission_denied, not_a_directory, is_a_directory,
  not_connected, interrupted, other, IoError,
}
use file_peeker.Utf8.{Bytes}
use file_peeker.PathString.{PathString, to_bytes, slash, ends_with_slash}

pub data FsErrorKind : Type 0 where
  invalid_argument exists_already was_not_found was_denied not_directory not_file internal :
      FsErrorKind

pub record FsError : Type 0 where
  pub kind : FsErrorKind

unfoldable pub kind_of : ErrorKind → FsErrorKind
kind_of already_exists = exists_already
kind_of not_found = was_not_found
kind_of permission_denied = was_denied
kind_of not_a_directory = not_directory
kind_of is_a_directory = not_file
kind_of _ = internal

-- `FsError::from_io` and `FsError::at`.
abbrev pub from_io : IoError → FsError
unfolding kind_of
from_io error = record { kind = kind_of error.kind }

abbrev pub fs_error : FsErrorKind → FsError
fs_error kind = record { kind = kind }

abbrev is_absolute : Bytes → Bool
is_absolute [] = false
is_absolute (c ∷ path) = c == slash

abbrev pub absolute : PathString → Result FsError Bytes
absolute path = elim (to_bytes path) [
  | err e ↦ err (fs_error invalid_argument)
  | ok real ↦ if is_absolute real then ok real else err (fs_error invalid_argument)
]

-- `Path::join` for one name.
abbrev pub path_join : Bytes → Bytes → Bytes
path_join directory name =
    if is_absolute name
    then name
    else if ends_with_slash directory
    then directory ++ name
    else directory ++ slash ∷ name

-- The regular files.
abbrev pub Disk : Type 0
Disk = Bytes → Option Bytes

abbrev pub same : Bytes → Bytes → Bool
same [] [] = true
same (b ∷ bs) (c ∷ cs) = (b == c) && same bs cs
same _ _ = false

pub same_iff : (p q : Bytes) → (same p q ≡ true) ↔ (p ≡ q)
same_iff [] [] = ground arith
same_iff [] (c ∷ q) = ground arith
same_iff (b ∷ p) [] = ground arith
same_iff (b ∷ p) (c ∷ q) = ground (arith, same_iff p q)

abbrev pub at_path : Bytes → Option Bytes → Disk → Disk
at_path p content disk q = if same p q then content else disk q
