-- ===== src/Fs/Write/Success.antt =====
-- A write of src/fs/write.rs that nothing stands in the way of.
use file_peeker.Base.{
  ℕ, ◌+◌, ◌++◌, ◌≡◌, refl, ap, ◌∙◌, Bool, true, none, some, List, [], ◌∷◌, length, length-append,
  arith, ok, suc, Result,
}
use file_peeker.Utf8.{Bytes}
use file_peeker.PathString.{PathString, to_bytes, from_bytes}
use file_peeker.PathString.Name.{is_name}
use file_peeker.Fs.{Disk, absolute, path_join, at_path, same_iff}
use file_peeker.Fs.Write.{
  Fault, guarded, publish_now, Os, Next, chunk, failing, abandoned, written, replace, write_loop,
  finish, write_partial, write_file, write_paths, write_into, Outcome, after_create, write_checked,
  flush_and_publish, publish, rename, create_partial, partial_path, opened,
}
use file_peeker.Fs.Write.Partial.{joined, write_loop-content}

-- The source ends without an error.
unfoldable pub IsWhole : List Next → Type 0
IsWhole [] = Unit
IsWhole (chunk c ∷ source) = IsWhole source
IsWhole (failing e ∷ source) = ⊥
IsWhole (abandoned ∷ source) = ⊥

-- The system carries out every call.
pub record Willing (os : Os) : Type 0 where
  pub directory : os.is_dir ≡ ok true
  pub creates : (id : ℕ) → os.create_fault id ≡ none
  pub writes : (n : ℕ) → os.write_fault n ≡ none
  pub flushes : os.flush_fault ≡ none
  pub publishes : os.publish_fault ≡ none
  pub alone : os.appeared ≡ none

write_loop-ok :
    (os : Os) (source : List Next) (partial content : Bytes) (n : ℕ) (disk : Disk)
    → Willing os
    → IsWhole source
    → (write_loop os source partial content n disk).0 ≡ ok (n + length (joined source))
unfolding write_loop IsWhole joined
write_loop-ok os [] partial content n disk w h = ap ok (omega arith)
write_loop-ok os (chunk c ∷ source) partial content n disk w h =
    rw
      (
        w.writes n,
        write_loop-ok os source partial (content ++ c) (n + length c)
            (at_path partial (some (content ++ c)) disk) w h,
      )
      (ap ok (omega (arith, length-append c (joined source))))
write_loop-ok os (failing e ∷ source) partial content n disk w h = absurd h
write_loop-ok os (abandoned ∷ source) partial content n disk w h = absurd h

finish-ok :
    (os : Os) (partial destination content : Bytes) (n : ℕ) (r : Result Outcome ℕ) (disk : Disk)
    → Willing os
    → r ≡ ok n
    → disk partial ≡ some content
    → (finish os replace partial destination r disk).0
      ≡ written (record { path = from_bytes destination; bytes = n })
unfolding finish flush_and_publish publish publish_now rename
finish-ok os partial destination content n r disk w e c =
    rw (e, w.flushes, w.publishes, w.alone, c) refl

write_partial-ok :
    (os : Os) (partial destination : Bytes) (source : List Next) (disk : Disk)
    → Willing os
    → IsWhole source
    → (write_partial os replace partial destination source disk).0
      ≡ written (record { path = from_bytes destination; bytes = length (joined source) })
unfolding write_partial
write_partial-ok os partial destination source disk w h =
    let start = at_path partial (some []) disk in
    let r = write_loop os source partial [] 0 start in
    let self = (same_iff partial partial).1 refl in
    let ends : r.0 ≡ ok (length (joined source)) =
      write_loop-ok os source partial [] 0 start w h ∙ ap ok (omega arith) in
    let content =
      write_loop-content os source partial [] 0 start (length (joined source)) self (rw (self) refl)
        ends in
    finish-ok os partial destination (joined source) (length (joined source)) r.0 r.1 w ends
      content.0

create_partial-first :
    (suffix : ℕ → Bytes) (os : Os) (directory name : Bytes) (k id : ℕ) (disk : Disk)
    → Willing os
    → disk (partial_path suffix directory name id) ≡ none
    → create_partial suffix os directory name (suc k) id disk
      ≡ (guarded (partial_path suffix directory name id), suc id)
unfolding create_partial opened
create_partial-first suffix os directory name k id disk w n = rw (n, w.creates id) refl

write_into-ok :
    (suffix : ℕ → Bytes) (os : Os) (dir file : Bytes) (source : List Next) (disk : Disk) (next : ℕ)
    (is_dir : Result Fault Bool)
    → disk (partial_path suffix dir file next) ≡ none
    → is_dir ≡ ok true
    → Willing os
    → IsWhole source
    → (write_into suffix os replace dir file source disk next is_dir).0
      ≡ written (record { path = from_bytes (path_join dir file); bytes = length (joined source) })
unfolding write_into write_checked after_create
write_into-ok suffix os dir file source disk next is_dir n d w h =
    rw (d, create_partial-first suffix os dir file 127 next disk w n)
      (write_partial-ok os (partial_path suffix dir file next) (path_join dir file) source disk w h)

-- A replacing write succeeds, with the count of the bytes of its source, if the name is one, the arguments decode, the directory is
-- absolute, the first partial name is free, the system carries out every call, no other process is at the destination and the source
-- ends without an error.
pub write_file-succeeds :
    (suffix : ℕ → Bytes) (os : Os) (directory name : PathString) (dir file : Bytes)
    (source : List Next) (disk : Disk) (next : ℕ)
    → is_name name ≡ true
    → absolute directory ≡ ok dir
    → to_bytes name ≡ ok file
    → disk (partial_path suffix dir file next) ≡ none
    → Willing os
    → IsWhole source
    → (write_file suffix os directory name replace source disk next).0
      ≡ written (record { path = from_bytes (path_join dir file); bytes = length (joined source) })
unfolding write_file write_paths
write_file-succeeds suffix os directory name dir file source disk next p d f n w h =
    rw (p, d, f) (write_into-ok suffix os dir file source disk next os.is_dir n w.directory w h)
