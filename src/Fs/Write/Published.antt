-- ===== src/Fs/Write/Published.antt =====
-- The end of a write in src/fs/write.rs: what it leaves at the destination and elsewhere, however it ends.
use file_peeker.Base.{
  ℕ, ◌≡◌, refl, sym, ap, ◌∙◌, Bool, true, false, ◌⊎◌, Option, none, some, List, [], Result, ok, err,
  inl, inr, Bool-cases,
}
use file_peeker.Utf8.{Bytes}
use file_peeker.Fs.{Disk, same, same_iff, at_path}
use file_peeker.Fs.Write.{
  Fault, faulty, stopped, stopped_late, guard_end, publish_now, Os, Next, Outcome, WriteConflict,
  replace, fail_if_exists, write_loop, rename, hard_link, publish, flush_and_publish, finish,
  write_partial, interfered,
}
use file_peeker.Fs.Write.Partial.{write_loop-other}

-- What the end of a write leaves at a path: nothing at the partial file's, and what the disk has elsewhere, or, where
-- the partial file cannot be removed, what the disk has there too.
abbrev pub Ends : Bool → Bytes → Disk → Bytes → Option Bytes → Type 0
Ends removes partial disk q found =
    (found ≡ at_path partial none disk q) ⊎ ((removes ≡ false) × (found ≡ disk q))

guard_end-Ends :
    (removes : Bool) (partial : Bytes) (disk : Disk) (q : Bytes)
    → Ends removes partial disk q (guard_end removes partial disk q)
guard_end-Ends true partial disk q = inl refl
guard_end-Ends false partial disk q = inr (refl, refl)

-- A change at another path is not seen.
Ends-agrees :
    (removes : Bool) (partial : Bytes) (disk disk' : Disk) (q : Bytes) (found : Option Bytes)
    → disk' q ≡ disk q
    → Ends removes partial disk' q found
    → Ends removes partial disk q found
Ends-agrees removes partial disk disk' q found e (inl h) = inl (h ∙ rw e refl)
Ends-agrees removes partial disk disk' q found e (inr (r, h)) = inr (r, h ∙ e)

rename-other :
    (removes : Bool) (partial destination : Bytes) (n : ℕ) (disk : Disk) (content : Option Bytes)
    (q : Bytes)
    → same destination q ≡ false
    → Ends removes partial disk q ((rename removes partial destination n disk content).1 q)
unfolding rename
rename-other removes partial destination n disk none q h = guard_end-Ends removes partial disk q
rename-other removes partial destination n disk (some content) q h = inl (rw (h) refl)

hard_link-other :
    (removes : Bool) (partial destination : Bytes) (n : ℕ) (disk : Disk)
    (there content : Option Bytes) (q : Bytes)
    → same destination q ≡ false
    → Ends removes partial disk q ((hard_link removes partial destination n disk there content).1 q)
unfolding hard_link
hard_link-other removes partial destination n disk (some there) content q h =
    guard_end-Ends removes partial disk q
hard_link-other removes partial destination n disk none none q h =
    guard_end-Ends removes partial disk q
hard_link-other removes partial destination n disk none (some content) q h =
    let linked = at_path destination (some content) disk in
    Ends-agrees removes partial disk linked q (guard_end removes partial linked q) (rw (h) refl)
      (guard_end-Ends removes partial linked q)

publish_now-other :
    (conflict : WriteConflict) (removes : Bool) (partial destination : Bytes) (n : ℕ) (disk : Disk)
    (q : Bytes)
    → same destination q ≡ false
    → Ends removes partial disk q ((publish_now conflict removes partial destination n disk).1 q)
unfolding publish_now
publish_now-other replace removes partial destination n disk q h =
    rename-other removes partial destination n disk (disk partial) q h
publish_now-other fail_if_exists removes partial destination n disk q h =
    hard_link-other removes partial destination n disk (disk destination) (disk partial) q h

publish-other :
    (conflict : WriteConflict) (removes : Bool) (fault : Option Fault) (partial destination : Bytes)
    (n : ℕ) (disk : Disk) (q : Bytes)
    → same destination q ≡ false
    → Ends removes partial disk q ((publish conflict removes fault partial destination n disk).1 q)
unfolding publish
publish-other conflict removes (some (faulty e)) partial destination n disk q h =
    guard_end-Ends removes partial disk q
publish-other conflict removes (some stopped) partial destination n disk q h =
    guard_end-Ends removes partial disk q
publish-other conflict removes (some stopped_late) partial destination n disk q h =
    publish_now-other conflict removes partial destination n disk q h
publish-other conflict removes none partial destination n disk q h =
    publish_now-other conflict removes partial destination n disk q h

interfered-other :
    (appeared : Option Bytes) (destination : Bytes) (disk : Disk) (q : Bytes)
    → same destination q ≡ false
    → interfered appeared destination disk q ≡ disk q
interfered-other none destination disk q h = refl
interfered-other (some c) destination disk q h = rw (h) refl

flush-other :
    (fault : Option Fault) (os : Os) (conflict : WriteConflict) (partial destination : Bytes)
    (n : ℕ) (disk : Disk) (q : Bytes)
    → same destination q ≡ false
    → Ends os.removes partial disk q
        ((flush_and_publish fault os conflict partial destination n disk).1 q)
unfolding flush_and_publish
flush-other (some e) os conflict partial destination n disk q h =
    guard_end-Ends os.removes partial disk q
flush-other none os conflict partial destination n disk q h =
    let now = interfered os.appeared destination disk in
    Ends-agrees os.removes partial disk now q _ (interfered-other os.appeared destination disk q h)
      (publish-other conflict os.removes os.publish_fault partial destination n now q h)

finish-other :
    (os : Os) (conflict : WriteConflict) (partial destination : Bytes) (r : Result Outcome ℕ)
    (disk : Disk) (q : Bytes)
    → same destination q ≡ false
    → Ends os.removes partial disk q ((finish os conflict partial destination r disk).1 q)
unfolding finish
finish-other os conflict partial destination (err outcome) disk q h =
    guard_end-Ends os.removes partial disk q
finish-other os conflict partial destination (ok n) disk q h =
    flush-other os.flush_fault os conflict partial destination n disk q h

-- What was there is there, or the path is the partial file's, which is left where it cannot be removed.
abbrev pub Spared : Bool → Bytes → Disk → Bytes → Option Bytes → Type 0
Spared removes partial disk q found = (found ≡ disk q) ⊎ ((removes ≡ false) × (partial ≡ q))

Ends-Spared :
    (removes : Bool) (p q : Bytes) (a b : Disk) (found : Option Bytes)
    → a p ≡ none
    → (same p q ≡ false → b q ≡ a q)
    → Ends removes p b q found
    → Spared removes p a q found
Ends-Spared removes p q a b found n h (inl e) = elim (Bool-cases (same p q)) [
  | inl u ↦ inl (e ∙ rw (u) (sym n ∙ ap a ((same_iff p q).0 u)))
  | inr u ↦ inl (e ∙ rw (u) (h u))
]
Ends-Spared removes p q a b found n h (inr (r, e)) = elim (Bool-cases (same p q)) [
  | inl u ↦ inr (r, (same_iff p q).0 u)
  | inr u ↦ inl (e ∙ h u)
]

-- At every path but the destination, a write leaves what was there, if its partial file is new and can be removed.
pub write_partial-other :
    (os : Os) (conflict : WriteConflict) (partial destination : Bytes) (source : List Next)
    (disk : Disk) (q : Bytes)
    → disk partial ≡ none
    → same destination q ≡ false
    → Spared os.removes partial disk q
        ((write_partial os conflict partial destination source disk).1 q)
unfolding write_partial
write_partial-other os conflict partial destination source disk q n h =
    let start = at_path partial (some []) disk in
    let r = write_loop os source partial [] 0 start in
    Ends-Spared os.removes partial q disk r.1 _ n
      (λ d. write_loop-other os source partial [] 0 start q d ∙ rw (d) refl)
      (finish-other os conflict partial destination r.0 r.1 q h)
