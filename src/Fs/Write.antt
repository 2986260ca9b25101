-- ===== src/Fs/Write.antt =====
-- Writing a file, src/fs/write.rs. What the system calls answer is a parameter, and so are the await at which the
-- write's future is dropped, whether a partial file can be removed, and a file that another process makes at the
-- destination while the write is under way.
pub mod Partial
pub mod Published
pub mod Publication
pub mod Creation
pub mod Destination
pub mod Whole
pub mod Success
use file_peeker.Base.{
  ℕ, zero, suc, ◌+◌, Bool, true, false, not, Option, none, some, List, [], ◌∷◌, ◌++◌, if◌then◌else◌,
  Result, ok, err, length, take,
}
use file_peeker.Task.{ErrorKind, not_found, already_exists, IoError}
use file_peeker.Utf8.{Bytes}
use file_peeker.PathString.{EscapeError, PathString, to_bytes, from_bytes}
use file_peeker.PathString.Name.{is_name}
use file_peeker.Fs.{
  FsError, invalid_argument, exists_already, was_not_found, not_directory, internal, from_io,
  fs_error, absolute, path_join, Disk, at_path,
}

pub data WriteConflict : Type 0 where
  fail_if_exists replace : WriteConflict

pub record Written : Type 0 where
  pub path : PathString
  pub bytes : ℕ

-- What the source gives next; in `abandoned`, the write's future is dropped instead.
pub data Next : Type 0 where
  chunk : Bytes → Next
  failing : FsError → Next
  abandoned : Next

pub data Outcome : Type 0 where
  written : Written → Outcome
  refused : FsError → Outcome
  dropped : Outcome

-- What comes of a call in place of success: an error, or the future is dropped at the call's await, and then the
-- system carries the call out all the same (`stopped_late`) or not.
pub data Fault : Type 0 where
  faulty : IoError → Fault
  stopped stopped_late : Fault

abbrev pub outcome_of : Fault → Outcome
outcome_of (faulty e) = refused (from_io e)
outcome_of stopped = dropped
outcome_of stopped_late = dropped

-- What the system answers: whether the destination's directory is one, the faults of each call, how much of a chunk
-- reaches the partial file where its write does not succeed, and whether the partial file can be removed.
pub record Os : Type 0 where
  pub is_dir : Result Fault Bool
  pub inspect_fault : Option Fault
  pub create_fault : ℕ → Option Fault
  pub write_fault : ℕ → Option Fault
  pub reached : ℕ → ℕ
  pub flush_fault : Option Fault
  pub publish_fault : Option Fault
  pub removes : Bool
  pub appeared : Option Bytes

-- The end of the guard `Partial`, whose `remove_file` may fail.
abbrev pub guard_end : Bool → Bytes → Disk → Disk
guard_end removes partial disk = if removes then at_path partial none disk else disk

-- What another process has put at a path.
abbrev pub interfered : Option Bytes → Bytes → Disk → Disk
interfered none p disk = disk
interfered (some content) p disk = at_path p (some content) disk

-- The loop over the source: the bytes written, or the outcome that ends the write, with the disk.
abbrev pub after_chunk : Option Fault → Disk → Result Outcome ℕ × Disk → Result Outcome ℕ × Disk
after_chunk (some e) disk rest = (err (outcome_of e), disk)
after_chunk none disk rest = rest

unfoldable pub write_loop : Os → List Next → Bytes → Bytes → ℕ → Disk → Result Outcome ℕ × Disk
write_loop os [] partial content bytes disk = (ok bytes, disk)
write_loop os (chunk c ∷ source) partial content bytes disk =
    let rest =
      write_loop os source partial (content ++ c) (bytes + length c)
        (at_path partial (some (content ++ c)) disk) in
    after_chunk (os.write_fault bytes)
      (at_path partial (some (content ++ take (os.reached bytes) c)) disk) rest
write_loop os (failing e ∷ source) partial content bytes disk = (err (refused e), disk)
write_loop os (abandoned ∷ source) partial content bytes disk = (err dropped, disk)

abbrev done : Bytes → ℕ → Outcome
done destination bytes = written (record { path = from_bytes destination; bytes = bytes })

-- `fs::rename` of the partial file, and the guard's end, which is none once the file is published.
unfoldable pub rename : Bool → Bytes → Bytes → ℕ → Disk → Option Bytes → Outcome × Disk
rename removes partial destination bytes disk none =
    (refused (fs_error was_not_found), guard_end removes partial disk)
rename removes partial destination bytes disk (some content) =
    (done destination bytes, at_path partial none (at_path destination (some content) disk))

-- `fs::hard_link`, and the guard's end, which removes the partial name.
unfoldable pub hard_link :
    Bool → Bytes → Bytes → ℕ → Disk → Option Bytes → Option Bytes → Outcome × Disk
hard_link removes partial destination bytes disk (some there) content =
    (refused (fs_error exists_already), guard_end removes partial disk)
hard_link removes partial destination bytes disk none none =
    (refused (fs_error was_not_found), guard_end removes partial disk)
hard_link removes partial destination bytes disk none (some content) =
    (done destination bytes, guard_end removes partial (at_path destination (some content) disk))

unfoldable pub publish_now : WriteConflict → Bool → Bytes → Bytes → ℕ → Disk → Outcome × Disk
unfolding rename hard_link
publish_now replace removes partial destination bytes disk =
    rename removes partial destination bytes disk (disk partial)
publish_now fail_if_exists removes partial destination bytes disk =
    hard_link removes partial destination bytes disk (disk destination) (disk partial)

-- A publication that is dropped late is carried out, and the guard's end finds nothing or removes the partial name.
unfoldable pub publish :
    WriteConflict → Bool → Option Fault → Bytes → Bytes → ℕ → Disk → Outcome × Disk
unfolding publish_now
publish conflict removes (some (faulty e)) partial destination bytes disk =
    (refused (from_io e), guard_end removes partial disk)
publish conflict removes (some stopped) partial destination bytes disk =
    (dropped, guard_end removes partial disk)
publish conflict removes (some stopped_late) partial destination bytes disk =
    (dropped, (publish_now conflict removes partial destination bytes disk).1)
publish conflict removes none partial destination bytes disk =
    publish_now conflict removes partial destination bytes disk

-- What follows the loop: a flush, and publication.
unfoldable pub flush_and_publish :
    Option Fault → Os → WriteConflict → Bytes → Bytes → ℕ → Disk → Outcome × Disk
unfolding publish
flush_and_publish (some e) os conflict partial destination bytes disk =
    (outcome_of e, guard_end os.removes partial disk)
flush_and_publish none os conflict partial destination bytes disk =
    publish conflict os.removes os.publish_fault partial destination bytes
      (interfered os.appeared destination disk)

unfoldable pub finish :
    Os → WriteConflict → Bytes → Bytes → Result Outcome ℕ → Disk → Outcome × Disk
unfolding flush_and_publish
finish os conflict partial destination (err outcome) disk =
    (outcome, guard_end os.removes partial disk)
finish os conflict partial destination (ok bytes) disk =
    flush_and_publish os.flush_fault os conflict partial destination bytes disk

-- The write from the new partial file on.
unfoldable pub write_partial :
    Os → WriteConflict → Bytes → Bytes → List Next → Disk → Outcome × Disk
unfolding write_loop finish
write_partial os conflict partial destination source disk =
    let r = write_loop os source partial [] 0 (at_path partial (some []) disk) in
    finish os conflict partial destination r.0 r.1

-- A name for a partial file; `suffix` writes `.fpk-<process>-<id>.partial`.
abbrev pub partial_path : (ℕ → Bytes) → Bytes → Bytes → ℕ → Bytes
partial_path suffix directory name id = path_join directory (b'.' ∷ name ++ suffix id)

abbrev pub is_taken : ErrorKind → Bool
is_taken already_exists = true
is_taken _ = false

-- How the search for a partial file ends: with one and its guard, without one, or dropped in `open` with the file made
-- and no guard yet.
pub data Created : Type 0 where
  guarded : Bytes → Created
  not_made : Outcome → Created
  unguarded : Bytes → Created

abbrev is_stopped : Option Fault → Bool
is_stopped (some stopped) = true
is_stopped (some stopped_late) = true
is_stopped _ = false

-- `create_new`: another name is tried where a file of this one is there.
unfoldable pub opened :
    (there : Option Bytes) → Option Fault → (path : Bytes) → (id : ℕ) → Created × ℕ → Created × ℕ
opened (some content) fault path id rest =
    if is_stopped fault then (not_made dropped, suc id) else rest
opened none none path id rest = (guarded path, suc id)
opened none (some (faulty e)) path id rest =
    if is_taken e.kind then rest else (not_made (refused (from_io e)), suc id)
opened none (some stopped) path id rest = (not_made dropped, suc id)
opened none (some stopped_late) path id rest = (unguarded path, suc id)

-- `create_partial`: at most `tries` names, from the next id on. The result has the partial file's path.
unfoldable pub create_partial : (ℕ → Bytes) → Os → Bytes → Bytes → ℕ → ℕ → Disk → Created × ℕ
unfolding opened
create_partial suffix os directory name zero id disk = (not_made (refused (fs_error internal)), id)
create_partial suffix os directory name (suc k) id disk =
    let rest = create_partial suffix os directory name k (suc id) disk in
    let path = partial_path suffix directory name id in
    opened (disk path) (os.create_fault id) path id rest

abbrev pub tries : ℕ
tries = 128

unfoldable pub after_create :
    Os → WriteConflict → Bytes → List Next → Disk → Created × ℕ → Outcome × Disk × ℕ
unfolding write_partial
after_create os conflict destination source disk (not_made outcome, next) = (outcome, disk, next)
after_create os conflict destination source disk (unguarded partial, next) =
    (dropped, at_path partial (some []) disk, next)
after_create os conflict destination source disk (guarded partial, next) =
    let result = write_partial os conflict partial destination source disk in
    (result.0, result.1, next)

-- What the first look at the destination ends the write with.
abbrev pub error_in_way : ErrorKind → IoError → Option Outcome
error_in_way not_found e = none
error_in_way kind e = some (refused (from_io e))

abbrev pub fault_in_way : Fault → Option Outcome
fault_in_way (faulty e) = error_in_way e.kind e
fault_in_way stopped = some dropped
fault_in_way stopped_late = some dropped

abbrev pub found_in_way : Option Bytes → Option Outcome
found_in_way none = none
found_in_way (some content) = some (refused (fs_error exists_already))

abbrev pub in_way : WriteConflict → Option Fault → Option Bytes → Option Outcome
in_way replace fault there = none
in_way fail_if_exists (some e) there = fault_in_way e
in_way fail_if_exists none there = found_in_way there

-- The write once its directory is known to be one.
unfoldable pub write_checked :
    (ℕ → Bytes)
    → Os
    → WriteConflict
    → Bytes
    → Bytes
    → List Next
    → Disk
    → ℕ
    → Option Outcome
    → Outcome × Disk × ℕ
unfolding create_partial after_create
write_checked suffix os conflict directory name source disk next (some outcome) =
    (outcome, disk, next)
write_checked suffix os conflict directory name source disk next none =
    after_create os conflict (path_join directory name) source disk
      (create_partial suffix os directory name tries next disk)

unfoldable pub write_into :
    (ℕ → Bytes)
    → Os
    → WriteConflict
    → Bytes
    → Bytes
    → List Next
    → Disk
    → ℕ
    → Result Fault Bool
    → Outcome × Disk × ℕ
unfolding write_checked
write_into suffix os conflict directory name source disk next (err e) = (outcome_of e, disk, next)
write_into suffix os conflict directory name source disk next (ok false) =
    (refused (fs_error not_directory), disk, next)
write_into suffix os conflict directory name source disk next (ok true) =
    write_checked suffix os conflict directory name source disk next
      (in_way conflict os.inspect_fault (disk (path_join directory name)))

-- The two paths that the arguments decode to.
unfoldable pub write_paths :
    (ℕ → Bytes)
    → Os
    → WriteConflict
    → List Next
    → Disk
    → ℕ
    → Result FsError Bytes
    → Result EscapeError Bytes
    → Outcome × Disk × ℕ
unfolding write_into
write_paths suffix os conflict source disk next (err e) name = (refused e, disk, next)
write_paths suffix os conflict source disk next (ok directory) (err e) =
    (refused (fs_error invalid_argument), disk, next)
write_paths suffix os conflict source disk next (ok directory) (ok name) =
    write_into suffix os conflict directory name source disk next os.is_dir

-- `write_file`, with the counter of partial files.
unfoldable pub write_file :
    (ℕ → Bytes)
    → Os
    → PathString
    → PathString
    → WriteConflict
    → List Next
    → Disk
    → ℕ
    → Outcome × Disk × ℕ
unfolding write_paths
write_file suffix os directory name conflict source disk next =
    if not (is_name name)
    then (refused (fs_error invalid_argument), disk, next)
    else write_paths suffix os conflict source disk next (absolute directory) (to_bytes name)
