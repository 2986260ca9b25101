-- ===== src/Fs/Write/Partial.antt =====
-- The partial file of src/fs/write.rs: what it holds when the source has ended, and what is left of it.
use file_peeker.Base.{
  ℕ, ◌+◌, ◌≡◌, refl, sym, ap, ◌∙◌, true, false, Option, none, some, List, [], ◌∷◌, ◌++◌,
  append_assoc, append-nil, length, length-append, arith, Result, ok, take,
}
use file_peeker.Utf8.{Bytes}
use file_peeker.Fs.{Disk, same, at_path}
use file_peeker.Fs.Write.{
  Fault, Os, Next, chunk, failing, abandoned, Outcome, write_loop, after_chunk,
}

-- All that a source gives.
unfoldable pub joined : List Next → Bytes
joined [] = []
joined (chunk c ∷ source) = c ++ joined source
joined (_ ∷ source) = joined source

after_chunk-other :
    (fault : Option Fault) (disk : Disk) (rest : Result Outcome ℕ × Disk) (q : Bytes)
    (v : Option Bytes)
    → disk q ≡ v
    → rest.1 q ≡ v
    → (after_chunk fault disk rest).1 q ≡ v
after_chunk-other none disk rest q v d h = h
after_chunk-other (some e) disk rest q v d h = d

pub write_loop-other :
    (os : Os) (source : List Next) (partial content : Bytes) (bytes : ℕ) (disk : Disk) (q : Bytes)
    → same partial q ≡ false
    → (write_loop os source partial content bytes disk).1 q ≡ disk q
unfolding write_loop
write_loop-other os [] partial content bytes disk q h = refl
write_loop-other os (chunk c ∷ source) partial content bytes disk q h =
    let disk' = at_path partial (some (content ++ c)) disk in
    after_chunk-other (os.write_fault bytes)
      (at_path partial (some (content ++ take (os.reached bytes) c)) disk) _ q (disk q)
      (rw (h) refl)
      (write_loop-other os source partial (content ++ c) (bytes + length c) disk' q h ∙ rw (h) refl)
write_loop-other os (failing e ∷ source) partial content bytes disk q h = refl
write_loop-other os (abandoned ∷ source) partial content bytes disk q h = refl

after_chunk-ok :
    (fault : Option Fault) (disk : Disk) (rest : Result Outcome ℕ × Disk) (n : ℕ)
    → (after_chunk fault disk rest).0 ≡ ok n
    → after_chunk fault disk rest ≡ rest
after_chunk-ok none disk rest n h = refl
after_chunk-ok (some e) disk rest n h = absurd (ground arith)

pub write_loop-content :
    (os : Os) (source : List Next) (partial content : Bytes) (bytes : ℕ) (disk : Disk) (n : ℕ)
    → same partial partial ≡ true
    → disk partial ≡ some content
    → (write_loop os source partial content bytes disk).0 ≡ ok n
    → ((write_loop os source partial content bytes disk).1 partial
        ≡ some (content ++ joined source))
      × (n ≡ bytes + length (joined source))
unfolding write_loop joined
write_loop-content os [] partial content bytes disk n s h e =
    (rw (append-nil content) h, ground arith)
write_loop-content os (chunk c ∷ source) partial content bytes disk n s h e =
    let disk' = at_path partial (some (content ++ c)) disk in
    let rest = write_loop os source partial (content ++ c) (bytes + length c) disk' in
    let failing_disk = at_path partial (some (content ++ take (os.reached bytes) c)) disk in
    let same_rest = after_chunk-ok (os.write_fault bytes) failing_disk rest n e in
    let step =
      write_loop-content os source partial (content ++ c) (bytes + length c) disk' n s (rw (s) refl)
        (sym (ap (λ r. r.0) same_rest) ∙ e) in
    (
      ap (λ r. r.1 partial) same_rest ∙ step.0 ∙ ap some (append_assoc content c (joined source)),
      omega (arith, step.1, length-append c (joined source)),
    )
write_loop-content os (failing f ∷ source) partial content bytes disk n s h e =
    absurd (ground arith)
write_loop-content os (abandoned ∷ source) partial content bytes disk n s h e =
    absurd (ground arith)
