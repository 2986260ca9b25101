-- ===== src/Fs/Write/Publication.antt =====
-- What the publication of a partial file in src/fs/write.rs leaves at the destination.
use file_peeker.Base.{
  Bool, ℕ, ◌≡◌, refl, ◌∙◌, true, false, Option, none, some, length, arith, inl, inr, ◌⊎◌,
}
use file_peeker.Utf8.{Bytes}
use file_peeker.PathString.{from_bytes}
use file_peeker.Fs.{Disk, same, at_path}
use file_peeker.Fs.Write.{
  Fault, faulty, stopped, stopped_late, guard_end, publish_now, Outcome, written, refused, dropped,
  WriteConflict, replace, fail_if_exists, rename, hard_link, publish,
}

-- Nothing was at the destination, if it may not be replaced.
abbrev pub Free : WriteConflict → (appeared there : Option Bytes) → Type 0
Free replace appeared there = Unit
Free fail_if_exists appeared there = (there ≡ none) × (appeared ≡ none)

-- How a write ends at its destination: with the whole content there, or with what was there before or
-- what another process put there. A write that is dropped while its file is published may end in each way.
abbrev pub Left :
    (late : Option Fault)
    → WriteConflict
    → (appeared there : Option Bytes) → (content destination : Bytes) → Outcome
    → Disk
    → Type 0
Left late conflict appeared there content destination (written w) disk =
    (disk destination ≡ some content)
    × (w.bytes ≡ length content)
    × (w.path ≡ from_bytes destination)
    × Free conflict appeared there
Left late conflict appeared there content destination (refused e) disk =
    (disk destination ≡ there) ⊎ (disk destination ≡ appeared)
Left late conflict appeared there content destination dropped disk =
    ((disk destination ≡ there) ⊎ (disk destination ≡ appeared))
    ⊎ ((late ≡ some stopped_late)
        × (disk destination ≡ some content)
        × Free conflict appeared there)

-- The removal of the partial file is not seen at the destination.
abbrev pub Was : (appeared there : Option Bytes) → (destination : Bytes) → Disk → Type 0
Was appeared there destination disk = (disk destination ≡ there) ⊎ (disk destination ≡ appeared)

pub guard_end-at :
    (removes : Bool) (partial q : Bytes) (disk : Disk)
    → same partial q ≡ false
    → guard_end removes partial disk q ≡ disk q
guard_end-at true partial q disk h = rw (h) refl
guard_end-at false partial q disk h = refl

removed-Was :
    (removes : Bool) (partial destination : Bytes) (disk : Disk) (appeared there : Option Bytes)
    → same partial destination ≡ false
    → Was appeared there destination disk
    → Was appeared there destination (guard_end removes partial disk)
removed-Was removes partial destination disk appeared there h w =
    rw (guard_end-at removes partial destination disk h) w

-- What is left by a call that was carried out though the future was dropped.
Left-dropped :
    (late : Option Fault) (conflict : WriteConflict) (appeared there : Option Bytes)
    (content destination : Bytes) (outcome : Outcome) (disk : Disk)
    → late ≡ some stopped_late
    → Left late conflict appeared there content destination outcome disk
    → Left late conflict appeared there content destination dropped disk
Left-dropped late conflict appeared there content destination (written w) disk e h =
    inr (e, h.0, h.3)
Left-dropped late conflict appeared there content destination (refused f) disk e h = inl h
Left-dropped late conflict appeared there content destination dropped disk e h = h

rename-Left :
    (late : Option Fault) (removes : Bool) (partial destination content : Bytes) (n : ℕ)
    (disk : Disk) (o appeared there : Option Bytes)
    → same partial destination ≡ false
    → same destination destination ≡ true
    → o ≡ some content
    → n ≡ length content
    → Left late replace appeared there content destination
        (rename removes partial destination n disk o).0
        (rename removes partial destination n disk o).1
unfolding rename
rename-Left late removes partial destination content n disk none appeared there h s c l =
    absurd (ground arith)
rename-Left late removes partial destination content n disk (some v) appeared there h s c l =
    (rw (h, s) c, l, refl, tt)

hard_link-Left :
    (late : Option Fault) (removes : Bool) (partial destination content : Bytes) (n : ℕ)
    (disk : Disk) (now o appeared there : Option Bytes)
    → same partial destination ≡ false
    → same destination destination ≡ true
    → o ≡ some content
    → n ≡ length content
    → Was appeared there destination disk
    → (now ≡ none → (there ≡ none) × (appeared ≡ none))
    → Left late fail_if_exists appeared there content destination
        (hard_link removes partial destination n disk now o).0
        (hard_link removes partial destination n disk now o).1
unfolding hard_link
hard_link-Left late removes partial destination content n disk (some v) o appeared there h s c l was
      free =
    removed-Was removes partial destination disk appeared there h was
hard_link-Left late removes partial destination content n disk none none appeared there h s c l was
      free =
    absurd (ground arith)
hard_link-Left late removes partial destination content n disk none (some v) appeared there h s c l
      was free =
    (
      guard_end-at removes partial destination (at_path destination (some v) disk) h ∙ rw (s) c,
      l,
      refl,
      free refl,
    )

publish_now-Left :
    (late : Option Fault) (conflict : WriteConflict) (removes : Bool)
    (partial destination content : Bytes) (n : ℕ) (disk : Disk) (appeared there : Option Bytes)
    → same partial destination ≡ false
    → same destination destination ≡ true
    → disk partial ≡ some content
    → n ≡ length content
    → Was appeared there destination disk
    → (disk destination ≡ none → (there ≡ none) × (appeared ≡ none))
    → Left late conflict appeared there content destination
        (publish_now conflict removes partial destination n disk).0
        (publish_now conflict removes partial destination n disk).1
unfolding publish_now
publish_now-Left late replace removes partial destination content n disk appeared there h s c l was
      free =
    rename-Left late removes partial destination content n disk (disk partial) appeared there h s c
      l
publish_now-Left late fail_if_exists removes partial destination content n disk appeared there h s c
      l was free =
    hard_link-Left late removes partial destination content n disk (disk destination) (disk partial)
      appeared there h s c l was free

pub publish-Left :
    (conflict : WriteConflict) (removes : Bool) (fault : Option Fault)
    (partial destination content : Bytes) (n : ℕ) (disk : Disk) (appeared there : Option Bytes)
    → same partial destination ≡ false
    → same destination destination ≡ true
    → disk partial ≡ some content
    → n ≡ length content
    → Was appeared there destination disk
    → (disk destination ≡ none → (there ≡ none) × (appeared ≡ none))
    → Left fault conflict appeared there content destination
        (publish conflict removes fault partial destination n disk).0
        (publish conflict removes fault partial destination n disk).1
unfolding publish
publish-Left conflict removes (some (faulty e)) partial destination content n disk appeared there h
      s c l was free =
    removed-Was removes partial destination disk appeared there h was
publish-Left conflict removes (some stopped) partial destination content n disk appeared there h s c
      l was free =
    inl (removed-Was removes partial destination disk appeared there h was)
publish-Left conflict removes (some stopped_late) partial destination content n disk appeared there
      h s c l was free =
    Left-dropped (some stopped_late) conflict appeared there content destination
      (publish_now conflict removes partial destination n disk).0
      (publish_now conflict removes partial destination n disk).1 refl
      (publish_now-Left (some stopped_late) conflict removes partial destination content n disk
        appeared there h s c l was free)
publish-Left conflict removes none partial destination content n disk appeared there h s c l was
      free =
    publish_now-Left none conflict removes partial destination content n disk appeared there h s c l
      was free
