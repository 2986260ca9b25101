-- ===== src/Fs/Write/Destination.antt =====
-- What a write of src/fs/write.rs leaves at its destination, however it ends.
use file_peeker.Base.{
  take, Bool, ℕ, ◌+◌, ◌++◌, ◌≢◌, ◌≡◌, refl, sym, ◌∙◌, true, false, Option, none, some, List, [],
  ◌∷◌, length, arith, Result, ok, err, inl, inr, Bool-cases,
}
use mathlib.Core.Path.{subst}
use mathlib.Core.Bool.{false≢true}
use file_peeker.Utf8.{Bytes}
use file_peeker.Fs.{Disk, same, same_iff, at_path}
use file_peeker.Fs.Write.{
  Fault, faulty, stopped, stopped_late, guard_end, Os, Next, Outcome, written, refused, dropped,
  Written, WriteConflict, write_loop, chunk, failing, abandoned, after_chunk, flush_and_publish,
  finish, write_partial, interfered, outcome_of,
}
use file_peeker.Fs.Write.Partial.{joined, write_loop-other, write_loop-content}
use file_peeker.Fs.Write.Publication.{Left, Was, guard_end-at, publish-Left}

interfered-Was :
    (appeared : Option Bytes) (destination : Bytes) (disk : Disk)
    → same destination destination ≡ true
    → Was appeared (disk destination) destination (interfered appeared destination disk)
interfered-Was none destination disk s = inl refl
interfered-Was (some c) destination disk s = inr (rw (s) refl)

interfered-free :
    (appeared : Option Bytes) (destination : Bytes) (disk : Disk)
    → same destination destination ≡ true
    → interfered appeared destination disk destination ≡ none
    → (disk destination ≡ none) × (appeared ≡ none)
interfered-free none destination disk s h = (h, refl)
interfered-free (some c) destination disk s h = absurd (ground arith)

interfered-partial :
    (appeared : Option Bytes) (destination partial : Bytes) (disk : Disk)
    → same destination partial ≡ false
    → interfered appeared destination disk partial ≡ disk partial
interfered-partial none destination partial disk h = refl
interfered-partial (some c) destination partial disk h = rw (h) refl

-- An end before the publication.
unpublished-Left :
    (late : Option Fault) (removes : Bool) (conflict : WriteConflict) (fault : Fault)
    (partial destination content : Bytes) (disk : Disk) (appeared : Option Bytes)
    → same partial destination ≡ false
    → Left late conflict appeared
        (disk destination)
        content
        destination
        (outcome_of fault)
        (guard_end removes partial disk)
unpublished-Left late removes conflict (faulty e) partial destination content disk appeared h =
    inl (guard_end-at removes partial destination disk h)
unpublished-Left late removes conflict stopped partial destination content disk appeared h =
    inl (inl (guard_end-at removes partial destination disk h))
unpublished-Left late removes conflict stopped_late partial destination content disk appeared h =
    inl (inl (guard_end-at removes partial destination disk h))

flush-Left :
    (fault : Option Fault) (os : Os) (conflict : WriteConflict)
    (partial destination content : Bytes) (n : ℕ) (disk : Disk)
    → same partial destination ≡ false
    → same destination partial ≡ false
    → same destination destination ≡ true
    → disk partial ≡ some content
    → n ≡ length content
    → Left os.publish_fault conflict os.appeared
        (disk destination)
        content
        destination
        (flush_and_publish fault os conflict partial destination n disk).0
        (flush_and_publish fault os conflict partial destination n disk).1
unfolding flush_and_publish
flush-Left (some e) os conflict partial destination content n disk h g s c l =
    unpublished-Left os.publish_fault os.removes conflict e partial destination content disk
      os.appeared h
flush-Left none os conflict partial destination content n disk h g s c l =
    let app = os.appeared in
    publish-Left conflict os.removes os.publish_fault partial destination content n
      (interfered app destination disk) app (disk destination) h s
      (interfered-partial app destination partial disk g ∙ c) l
      (interfered-Was app destination disk s) (interfered-free app destination disk s)

same-flip : (p q : Bytes) → same p q ≡ false → same q p ≡ false
same-flip p q h = elim (Bool-cases (same q p)) [
  | inl e ↦ absurd (false≢true (sym h ∙ (same_iff p q).1 (sym ((same_iff q p).0 e))))
  | inr e ↦ e
]

same_refl : (p : Bytes) → same p p ≡ true
same_refl p = (same_iff p p).1 refl

finish-Left :
    (os : Os) (conflict : WriteConflict) (partial destination content : Bytes)
    (r : Result Outcome ℕ) (disk : Disk)
    → same partial destination ≡ false
    → ((n : ℕ) → r ≡ ok n → (disk partial ≡ some content) × (n ≡ length content))
    → ((w : Written) → r ≢ err (written w))
    → Left os.publish_fault conflict os.appeared
        (disk destination)
        content
        destination
        (finish os conflict partial destination r disk).0
        (finish os conflict partial destination r disk).1
unfolding finish
finish-Left os conflict partial destination content (err (written w)) disk h g never =
    absurd (never w refl)
finish-Left os conflict partial destination content (err (refused e)) disk h g never =
    inl (guard_end-at os.removes partial destination disk h)
finish-Left os conflict partial destination content (err dropped) disk h g never =
    inl (inl (guard_end-at os.removes partial destination disk h))
finish-Left os conflict partial destination content (ok n) disk h g never =
    let c = g n refl in
    flush-Left os.flush_fault os conflict partial destination content n disk h
      (same-flip partial destination h) (same_refl destination) c.0 c.1

after_chunk-stops :
    (fault : Option Fault) (disk : Disk) (rest : Result Outcome ℕ × Disk) (w : Written)
    → rest.0 ≢ err (written w)
    → (after_chunk fault disk rest).0 ≢ err (written w)
after_chunk-stops none disk rest w h k = h k
after_chunk-stops (some (faulty e)) disk rest w h k = ground arith
after_chunk-stops (some stopped) disk rest w h k = ground arith
after_chunk-stops (some stopped_late) disk rest w h k = ground arith

write_loop-stops :
    (os : Os) (source : List Next) (partial content : Bytes) (n : ℕ) (disk : Disk) (w : Written)
    → (write_loop os source partial content n disk).0 ≢ err (written w)
unfolding write_loop
write_loop-stops os [] partial content n disk w k = ground arith
write_loop-stops os (chunk c ∷ source) partial content n disk w k =
    let disk' = at_path partial (some (content ++ c)) disk in
    after_chunk-stops (os.write_fault n)
      (at_path partial (some (content ++ take (os.reached n) c)) disk) _ w
      (write_loop-stops os source partial (content ++ c) (n + length c) disk' w) k
write_loop-stops os (failing e ∷ source) partial content n disk w k = ground arith
write_loop-stops os (abandoned ∷ source) partial content n disk w k = ground arith

-- However a write ends, its destination holds the whole source, or what was there, or what another
-- process put there.
pub write_partial-Left :
    (os : Os) (conflict : WriteConflict) (partial destination : Bytes) (source : List Next)
    (disk : Disk)
    → same partial destination ≡ false
    → Left os.publish_fault conflict os.appeared
        (disk destination)
        (joined source)
        destination
        (write_partial os conflict partial destination source disk).0
        (write_partial os conflict partial destination source disk).1
unfolding write_partial
write_partial-Left os conflict partial destination source disk h =
    let start = at_path partial (some []) disk in
    let r = write_loop os source partial [] 0 start in
    let kept : r.1 destination ≡ disk destination =
      write_loop-other os source partial [] 0 start destination h ∙ rw (h) refl in
    subst
      (λ there.
        Left os.publish_fault conflict os.appeared there (joined source) destination
          (finish os conflict partial destination r.0 r.1).0
          (finish os conflict partial destination r.0 r.1).1)
      kept
      (finish-Left os conflict partial destination (joined source) r.0 r.1 h
        (λ n e.
          let c =
            write_loop-content os source partial [] 0 start n (same_refl partial)
              (rw (same_refl partial) refl) e in
          (c.0, omega (arith, c.1)))
        (λ w. write_loop-stops os source partial [] 0 start w))
