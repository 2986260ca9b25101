-- ===== src/Fs/Entry.antt =====
-- Directory entries and `inspect`, src/fs/entry.rs. The message of a defect is the system's.
use Prim.Native.String.{String}
use file_peeker.Base.{
  ℕ, ◌≡◌, refl, Bool, true, false, Option, none, some, ℤ, Result, ok, err, arith,
}
use file_peeker.Utf8.{Bytes}
use file_peeker.PathString.{PathString, from_bytes}
use file_peeker.Task.{IoError}

pub data EntryKind : Type 0 where
  file directory symlink other_kind : EntryKind

pub record EntryMetadata : Type 0 where
  pub size : ℕ
  pub modified : Option ℤ
  pub mode : ℕ
  pub symlink_target : Option PathString

pub record DirectoryEntry : Type 0 where
  pub name : PathString
  pub kind : EntryKind
  pub navigable : Bool
  pub metadata : Option EntryMetadata
  pub defect : Option String

-- The path, which is the one that the system gave, is left out.
pub record Inspected : Type 0 where
  pub entry : DirectoryEntry
  pub descend : Bool

-- The system's `FileType`.
pub data FileType : Type 0 where
  is_dir is_file is_symlink is_other : FileType

unfoldable pub kind_of_type : FileType → EntryKind
kind_of_type is_dir = directory
kind_of_type is_file = file
kind_of_type is_symlink = symlink
kind_of_type is_other = other_kind

pub record Stat : Type 0 where
  pub file_type : FileType
  pub size : ℕ
  pub modified : Option ℤ
  pub mode : ℕ

-- What the system answers of one entry: its name, `lstat`, the type that `read_dir` carries, whether a stat that follows
-- links finds a directory, and `readlink`.
pub record Answers : Type 0 where
  pub file_name : Bytes
  pub lstat : Result IoError Stat
  pub carried : Option FileType
  pub target_is_dir : Bool
  pub read_link : Option Bytes

abbrev pub carried_kind : Option FileType → EntryKind
unfolding kind_of_type
carried_kind none = other_kind
carried_kind (some file_type) = kind_of_type file_type

abbrev pub is_navigable : EntryKind → Bool → Bool
is_navigable directory target_is_dir = true
is_navigable symlink target_is_dir = target_is_dir
is_navigable file target_is_dir = false
is_navigable other_kind target_is_dir = false

abbrev pub escaped : Option Bytes → Option PathString
escaped none = none
escaped (some bytes) = some (from_bytes bytes)

abbrev pub target_of : EntryKind → Option Bytes → Option PathString
target_of symlink target = escaped target
target_of directory target = none
target_of file target = none
target_of other_kind target = none

abbrev pub goes_into : FileType → Bool
goes_into is_dir = true
goes_into is_file = false
goes_into is_symlink = false
goes_into is_other = false

unfoldable pub inspect_stat : Answers → Result IoError Stat → Inspected
unfolding carried_kind kind_of_type
inspect_stat a (err error) = record {
  entry = record {
    name = from_bytes a.file_name;
    kind = carried_kind a.carried;
    navigable = false;
    metadata = none;
    defect = some error.message;
  };
  descend = false;
}
inspect_stat a (ok stat) =
    let kind = kind_of_type stat.file_type in
    record {
      entry = record {
        name = from_bytes a.file_name;
        kind = kind;
        navigable = is_navigable kind a.target_is_dir;
        metadata = some (record {
          size = stat.size;
          modified = stat.modified;
          mode = stat.mode;
          symlink_target = target_of kind a.read_link;
        });
        defect = none;
      };
      descend = goes_into stat.file_type;
    }

unfoldable pub inspect : Answers → Inspected
unfolding inspect_stat
inspect a = inspect_stat a a.lstat

abbrev pub is_degraded : DirectoryEntry → Bool
is_degraded entry = elim entry.metadata [ none ↦ true | some metadata ↦ false ]

stat-descend :
    (a : Answers) (r : Result IoError Stat)
    → (inspect_stat a r).descend ≡ true
    → ((inspect_stat a r).entry.kind ≡ directory)
      × ((inspect_stat a r).entry.navigable ≡ true)
      × (is_degraded (inspect_stat a r).entry ≡ false)
      × ((inspect_stat a r).entry.defect ≡ none)
unfolding inspect_stat kind_of_type
stat-descend a (err error) h = absurd (ground arith)
stat-descend a (ok stat) h = by_type stat.file_type h
  where
    by_type :
        (f : FileType)
        → goes_into f ≡ true
        → (kind_of_type f ≡ directory)
          × (is_navigable (kind_of_type f) a.target_is_dir ≡ true)
          × (false ≡ false)
          × (◌≡◌ {A = Option String} none none)
    by_type is_dir h = (refl, refl, refl, refl)
    by_type is_file h = absurd (ground arith)
    by_type is_symlink h = absurd (ground arith)
    by_type is_other h = absurd (ground arith)

-- A walk goes into directories alone: whatever the system answers of an entry, one that `inspect` would have gone into
-- is a directory and not a symlink to one, can be listed, and was described in full, without a defect.
pub inspect-descend :
    (a : Answers)
    → (inspect a).descend ≡ true
    → ((inspect a).entry.kind ≡ directory)
      × ((inspect a).entry.navigable ≡ true)
      × (is_degraded (inspect a).entry ≡ false)
      × ((inspect a).entry.defect ≡ none)
unfolding inspect
inspect-descend a h = stat-descend a a.lstat h
