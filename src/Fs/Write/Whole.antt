-- ===== src/Fs/Write/Whole.antt =====
-- Writing a file as a whole: `write_file` of src/fs/write.rs.
use file_peeker.Base.{
  ◌⊎◌, ◌≢◌, [], ℕ, zero, suc, ◌≡◌, refl, sym, ap, ◌∙◌, Bool, true, false, Option, none, some, List,
  arith, Result, ok, err, inl, inr, Bool-cases, not, if◌then◌else◌,
}
use file_peeker.Utf8.{Bytes}
use file_peeker.PathString.{PathString, EscapeError, to_bytes}
use file_peeker.PathString.Name.{is_name}
use file_peeker.Fs.{Disk, same, same_iff, FsError, at_path, absolute, path_join}
use file_peeker.Fs.Write.{
  Fault, Created, guarded, not_made, unguarded, outcome_of, in_way, written, refused, dropped,
  Written, Os, Next, Outcome, WriteConflict, create_partial, partial_path, after_create,
  write_checked, write_into, write_paths, write_file, tries, opened,
}
use file_peeker.Fs.Write.Published.{Spared, write_partial-other}
use file_peeker.Fs.Write.Publication.{Left}
use file_peeker.Fs.Write.Destination.{write_partial-Left}
use file_peeker.Fs.Write.Partial.{joined}
use file_peeker.Fs.Write.Creation.{Makes, IsOpenDropped, NewAt, create_partial-NewAt}

module _ (os : Os) (suffix : ℕ → Bytes) (directory name : Bytes) (disk : Disk) where
  -- What was there is there; else the path is a partial file's of this write that nothing was at, and it could not be
  -- removed, or its `open` was dropped while it made it.
  SparedAt : Bytes → Option Bytes → Type 0
  SparedAt q found =
      (found ≡ disk q)
      ⊎ ((disk q ≡ none)
          × ((id : ℕ) × (q ≡ partial_path suffix directory name id)
              × ((os.removes ≡ false) ⊎ IsOpenDropped os id)))

  -- What a write promises of every path but the destination, and of the destination.
  pub Kept : WriteConflict → List Next → Outcome × Disk × ℕ → Type 0
  unfolding SparedAt
  Kept conflict source (outcome, disk', next) =
      ((q : Bytes) → same (path_join directory name) q ≡ false → SparedAt q (disk' q))
      × Left os.publish_fault conflict os.appeared (disk (path_join directory name)) (joined source)
          (path_join directory name) outcome disk'

  -- An end that touches nothing.
  nothing_done :
      (conflict : WriteConflict) (source : List Next) (outcome : Outcome) (next : ℕ)
      → ((w : Written) → outcome ≢ written w)
      → Kept conflict source (outcome, disk, next)
  unfolding Kept SparedAt
  nothing_done conflict source (written w) next h = absurd (h w refl)
  nothing_done conflict source (refused e) next h = (λ q d. inl refl, inl refl)
  nothing_done conflict source dropped next h = (λ q d. inl refl, inl (inl refl))

  create_partial-ends :
      (k id : ℕ) (w : Written)
      → (create_partial suffix os directory name k id disk).0 ≢ not_made (written w)
  unfolding create_partial opened
  create_partial-ends zero id w e = absurd (ground arith)
  create_partial-ends (suc k) id w e = absurd (ground (arith, create_partial-ends k (suc id) w))

  spared :
      (created : Created) (p q : Bytes) (found : Option Bytes)
      → NewAt os suffix directory name disk created p
      → Spared os.removes p disk q found
      → SparedAt q found
  unfolding SparedAt
  spared created p q found new (inl e) = inl e
  spared created p q found new (inr (r, e)) =
      inr (ap disk (sym e) ∙ new.0.0, (new.1.0, sym e ∙ new.1.1, inl r))

  unguarded_spared :
      (p q : Bytes)
      → NewAt os suffix directory name disk (unguarded p) p
      → SparedAt q (at_path p (some []) disk q)
  unfolding SparedAt
  unguarded_spared p q new = elim (Bool-cases (same p q)) [
    | inl u ↦
        let e = (same_iff p q).0 u in
        inr (ap disk (sym e) ∙ new.0.0, (new.1.0, sym e ∙ new.1.1, inr (new.1.2 refl)))
    | inr u ↦ inl (rw (u) refl)
  ]

  after_create-Kept :
      (conflict : WriteConflict) (source : List Next) (created : Created) (next : ℕ)
      → ((p : Bytes) → Makes created p → NewAt os suffix directory name disk created p)
      → ((w : Written) → created ≢ not_made (written w))
      → Kept conflict source
          (after_create os conflict (path_join directory name) source disk (created, next))
  unfolding after_create Kept
  after_create-Kept conflict source (not_made outcome) next h ends =
      nothing_done conflict source outcome next (λ w e. ends w (ap not_made e))
  after_create-Kept conflict source (unguarded p) next h ends =
      let new = h p (inr refl) in (λ q d. unguarded_spared p q new, inl (inl (rw (new.0.1) refl)))
  after_create-Kept conflict source (guarded p) next h ends =
      let new = h p (inl refl) in
      (
        λ q d.
            spared (guarded p) p q _ new (
              write_partial-other os conflict p (path_join directory name) source disk q new.0.0 d),
        write_partial-Left os conflict p (path_join directory name) source disk new.0.1,
      )

  write_checked-Kept :
      (conflict : WriteConflict) (source : List Next) (next : ℕ) (stop : Option Outcome)
      → ((w : Written) → stop ≢ some (written w))
      → Kept conflict source (write_checked suffix os conflict directory name source disk next stop)
  unfolding write_checked
  write_checked-Kept conflict source next (some outcome) h =
      nothing_done conflict source outcome next (λ w e. h w (ap some e))
  write_checked-Kept conflict source next none h =
      let r = create_partial suffix os directory name tries next disk in
      after_create-Kept conflict source r.0 r.1
        (create_partial-NewAt os suffix directory name disk tries next)
        (create_partial-ends tries next)

  in_way-ends :
      (conflict : WriteConflict) (fault : Option Fault) (there : Option Bytes) (w : Written)
      → in_way conflict fault there ≢ some (written w)
  in_way-ends conflict fault there w e = absurd (ground arith)

  write_into-Kept :
      (conflict : WriteConflict) (source : List Next) (next : ℕ) (dir : Result Fault Bool)
      → Kept conflict source (write_into suffix os conflict directory name source disk next dir)
  unfolding write_into
  write_into-Kept conflict source next (err e) =
      nothing_done conflict source (outcome_of e) next (λ w e. absurd (ground arith))
  write_into-Kept conflict source next (ok false) =
      nothing_done conflict source _ next (λ w e. absurd (ground arith))
  write_into-Kept conflict source next (ok true) =
      write_checked-Kept conflict source next _
        (in_way-ends conflict os.inspect_fault (disk (path_join directory name)))

  write_paths-Kept :
      (conflict : WriteConflict) (source : List Next) (next : ℕ) (a : Result FsError Bytes)
      (b : Result EscapeError Bytes)
      → a ≡ ok directory
      → b ≡ ok name
      → Kept conflict source (write_paths suffix os conflict source disk next a b)
  unfolding write_paths
  write_paths-Kept conflict source next a b d f =
      rw (d, f) (write_into-Kept conflict source next os.is_dir)

  Kept-either :
      (conflict : WriteConflict) (source : List Next) (b : Bool) (x y : Outcome × Disk × ℕ)
      → Kept conflict source x
      → Kept conflict source y
      → Kept conflict source (if b then x else y)
  Kept-either conflict source true x y h k = h
  Kept-either conflict source false x y h k = k

-- However a write ends, in success, with any failure, or dropped at any of its awaits, every path but the destination
-- is as it was, except that a partial file of this write, at a path where nothing was, is left where removing it
-- fails or where its `open` was dropped while it made it. The destination has the whole source if the write succeeds,
-- which under `fail_if_exists` it only does where no file was or appeared; else it has what was there or what
-- another process put there, or, where the write was dropped while the system published it, the whole source on
-- the same terms. The two arguments are to decode, and the directory to be absolute.
pub write_file-Kept :
    (suffix : ℕ → Bytes) (os : Os) (directory name : PathString) (dir file : Bytes)
    (conflict : WriteConflict) (source : List Next) (disk : Disk) (next : ℕ)
    → absolute directory ≡ ok dir
    → to_bytes name ≡ ok file
    → Kept os suffix dir file disk conflict source
        (write_file suffix os directory name conflict source disk next)
unfolding write_file
write_file-Kept suffix os directory name dir file conflict source disk next d f =
    Kept-either os suffix dir file disk conflict source (not (is_name name)) _ _
      (nothing_done os suffix dir file disk conflict source _ next (λ w e. absurd (ground arith)))
      (write_paths-Kept os suffix dir file disk conflict source next (absolute directory)
        (to_bytes name) d f)
