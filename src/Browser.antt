-- ===== src/Browser.antt =====
-- The file browser's model of one root, old/src/browser: the entries that a listing gives
-- (old/src/fs/directory/mod.rs) and the rows made of them. `HostPath` of old/src/host_path.rs has the code
-- of src/path_string.rs, so `PathString` stands for it. A depth is a `u16`.
pub mod Tree
pub mod Events
pub mod Window
pub mod Context
pub mod Tests
use Prim.Native.String.{String}
use file_peeker.Base.{ℕ, suc, min, Bool, Option, none, some, ℤ}
use file_peeker.PathString.{PathString, join}

pub data EntryKind : Type 0 where
  file directory symlink other_kind : EntryKind

pub record EntryMetadata : Type 0 where
  pub size : ℕ
  pub modified : Option ℤ
  pub unix_mode : Option ℕ
  pub symlink_target : Option PathString

pub record DirectoryEntry : Type 0 where
  pub name : PathString
  pub kind : EntryKind
  pub navigable : Bool
  pub metadata : Option EntryMetadata
  pub defect : Option String

pub data Status : Type 0 where
  loading_root complete : Status
  failed_root : String → Status

pub data Expansion : Type 0 where
  collapsed : Expansion
  loading expanded : (request_id : ℕ) → Expansion
  failed : (request_id : ℕ) (error : String) → Expansion

abbrev pub request_id : Expansion → Option ℕ
request_id collapsed = none
request_id (loading id) = some id
request_id (expanded id) = some id
request_id (failed id error) = some id

pub record Row : Type 0 where
  pub path : PathString
  pub depth : ℕ
  pub entry : DirectoryEntry
  pub expansion : Expansion

-- `Row::new`.
abbrev pub new_row : PathString → ℕ → DirectoryEntry → Row
new_row path depth entry = record {
  path = path;
  depth = depth;
  entry = entry;
  expansion = collapsed;
}

abbrev pub child_path : PathString → PathString → PathString
child_path parent name = join parent name

abbrev pub max_depth : ℕ
max_depth = 65535

-- `depth.saturating_add(1)`.
abbrev pub deeper : ℕ → ℕ
deeper depth = min (suc depth) max_depth
