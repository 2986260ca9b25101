-- ===== src/Fs/Walk.antt =====
-- Walks, src/fs/walk.rs: the stack of open directories, and the items of the
-- stream. What the system answers is a tree: a directory refuses to be opened or has entries, whose iteration can
-- break, and behind each entry is what opening it answers.
pub mod Preorder
use Prim.Native.String.{String}
use file_peeker.Base.{
  ℕ, zero, suc, Bool, Option, none, some, List, [], ◌∷◌, if◌then◌else◌, ℤ, Result, ok, err,
}
use file_peeker.PathString.{PathString, from_literal, join}
use file_peeker.Task.{IoError}
use file_peeker.Utf8.{Bytes}
use file_peeker.Fs.{FsError, from_io, absolute}
use file_peeker.Fs.Entry.{DirectoryEntry, Inspected}

mutual
  -- `read_dir` of a path.
  pub data Opened : Type 0 where
    refused : (error : IoError) → Opened
    readable : (entries : Entries) → Opened

  -- The answers of `next_entry`, one after the other.
  pub data Entries : Type 0 where
    at_end : Entries
    broken : (error : IoError) → Entries
    next_entry : (inspected : Inspected) (below : Opened) (entries : Entries) → Entries

pub record WalkEntry : Type 0 where
  pub relative_path : PathString
  pub entry : DirectoryEntry
  pub depth : ℕ

pub record Frame : Type 0 where
  pub entries : Entries
  pub relative_dir : PathString
  pub child_depth : ℕ

-- A directory that was just emitted: what opening it answers, its path from the root, the depth of its children.
pub record Pending : Type 0 where
  pub directory : Opened
  pub relative_dir : PathString
  pub child_depth : ℕ

pub record Walk : Type 0 where
  pub stack : List Frame
  pub descend_into : Option Pending

abbrev pub Item : Type 0
Item = Result FsError WalkEntry

-- An entry of a frame, and the walk behind it.
unfoldable pub emit : Frame → Inspected → Opened → Entries → List Frame → Item × Walk
emit frame inspected below rest stack =
    let relative_path = join frame.relative_dir inspected.entry.name in
    (
      ok (record {
        relative_path = relative_path;
        entry = inspected.entry;
        depth = frame.child_depth;
      }),
      record {
        stack = record frame { entries = rest } ∷ stack;
        descend_into =
            if inspected.descend
            then some (record {
              directory = below;
              relative_dir = relative_path;
              child_depth = suc frame.child_depth;
            })
            else none;
      },
    )

abbrev pub go_on : Item × Walk → Option (Item × Option Walk)
go_on (item, walk) = some (item, some walk)

unfoldable pub stop_with : IoError → Option (Item × Option Walk)
unfolding from_io
stop_with error = some (err (from_io error), none)

-- The loop over the stack; `none` ends the stream, and an item without a walk is its last.
unfoldable pub advance : List Frame → Option (Item × Option Walk)
unfolding emit stop_with
advance [] = none
advance (frame ∷ stack) =
    let popped = advance stack in
    elim frame.entries [
      | at_end ↦ popped
      | broken error ↦ stop_with error
      | next_entry inspected below rest ↦ go_on (emit frame inspected below rest stack)
    ]

unfoldable pub descended : Opened → PathString → ℕ → List Frame → Option (Item × Option Walk)
unfolding advance stop_with
descended (refused error) relative_dir child_depth stack = stop_with error
descended (readable entries) relative_dir child_depth stack =
    advance
      (record { entries = entries; relative_dir = relative_dir; child_depth = child_depth } ∷ stack)

unfoldable pub polled : List Frame → Option Pending → Option (Item × Option Walk)
unfolding descended advance
polled stack none = advance stack
polled stack (some pending) =
    descended pending.directory pending.relative_dir pending.child_depth stack

-- The closure of `unfold`.
unfoldable pub poll : Walk → Option (Item × Option Walk)
unfolding polled
poll walk = polled walk.stack walk.descend_into

unfoldable pub walk_opened : Opened → Result FsError Walk
unfolding from_io
walk_opened (refused error) = err (from_io error)
walk_opened (readable entries) = ok (record {
  stack = record { entries = entries; relative_dir = from_literal []; child_depth = 1 } ∷ [];
  descend_into = none;
})

unfoldable pub walk_absolute : Result FsError Bytes → Opened → Result FsError Walk
unfolding walk_opened
walk_absolute (err error) opened = err error
walk_absolute (ok root) opened = walk_opened opened

-- `opened` is what opening the root answers.
unfoldable pub walk_dir : PathString → Opened → Result FsError Walk
unfolding walk_absolute
walk_dir path opened = walk_absolute (absolute path) opened

abbrev pub cons_items : Item → Option (List Item) → Option (List Item)
cons_items item none = none
cons_items item (some items) = some (item ∷ items)

-- The items of the stream, where so many polls are enough.
unfoldable pub collect : ℕ → Walk → Option (List Item)
unfolding poll
collect zero walk = none
collect (suc polls) walk = elim (poll walk) [
  | none ↦ some []
  | some (item, none) ↦ some (item ∷ [])
  | some (item, some next) ↦ cons_items item (collect polls next)
]
