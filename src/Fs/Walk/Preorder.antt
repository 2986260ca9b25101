-- ===== src/Fs/Walk/Preorder.antt =====
-- What a walk of src/fs/walk.rs lists: the directories' entries by recursion on the tree, without a stack.
use file_peeker.Base.{
  ℕ, zero, suc, ◌<◌, ◌≡◌, refl, sym, ap, ◌∙◌, Bool, true, false, Option, none, some, List, [], ◌∷◌,
  ◌++◌, append_assoc, append-nil, length, if◌then◌else◌, ok, err, arith,
}
use mathlib.Core.Path.{subst}
use file_peeker.PathString.{PathString, from_literal, join}
use file_peeker.Utf8.{Bytes}
use file_peeker.Fs.{from_io, absolute}
use file_peeker.Fs.Entry.{Inspected}
use file_peeker.Fs.Walk.{
  Opened, refused, readable, Entries, at_end, broken, next_entry, Frame, Pending, Walk, Item, emit,
  go_on, stop_with, advance, descended, polled, poll, walk_dir, walk_absolute, walk_opened,
  cons_items, collect,
}

-- Items, and whether an error ended them.
abbrev pub Listed : Type 0
Listed = List Item × Bool

-- What follows items that no error ended.
unfoldable pub then_list : Listed → Listed → Listed
then_list (items, true) more = (items, true)
then_list (items, false) more = (items ++ more.0, more.1)

-- A directory in pre-order, an entry before what is below it, up to the first error.
unfoldable mutual
  unfolding then_list from_io

  pub list_opened : Opened → PathString → ℕ → Listed
  list_opened (refused error) relative_dir depth = (err (from_io error) ∷ [], true)
  list_opened (readable entries) relative_dir depth = list_entries entries relative_dir depth

  pub list_entries : Entries → PathString → ℕ → Listed
  list_entries at_end relative_dir depth = ([], false)
  list_entries (broken error) relative_dir depth = (err (from_io error) ∷ [], true)
  list_entries (next_entry inspected below rest) relative_dir depth =
      let relative_path = join relative_dir inspected.entry.name in
      let inside = list_opened below relative_path (suc depth) in
      let others = list_entries rest relative_dir depth in
      then_list
        (
          ok (record { relative_path = relative_path; entry = inspected.entry; depth = depth })
              ∷ [],
          false,
        )
        (then_list (if inspected.descend then inside else ([], false)) others)

then_list_assoc : (a b c : Listed) → then_list (then_list a b) c ≡ then_list a (then_list b c)
unfolding then_list
then_list_assoc (items, true) b c = refl
then_list_assoc (items, false) (more, true) c = refl
then_list_assoc (items, false) (more, false) c = ap (λ xs. (xs, c.1)) (append_assoc items more c.0)

-- What is still to come of a walk.
unfoldable list_stack : List Frame → Listed
list_stack [] = ([], false)
list_stack (frame ∷ stack) =
    then_list (list_entries frame.entries frame.relative_dir frame.child_depth) (list_stack stack)

abbrev list_pending : Option Pending → Listed
list_pending none = ([], false)
list_pending (some pending) = list_opened pending.directory pending.relative_dir pending.child_depth

unfoldable list_walk : Walk → List Item
unfolding list_stack then_list
list_walk walk = (then_list (list_pending walk.descend_into) (list_stack walk.stack)).0

-- What one poll makes of the items to come.
data Polled : List Item → Option (Item × Option Walk) → Type 0 where
  ended : Polled [] none
  last : (item : Item) → Polled (item ∷ []) (some (item, none))
  one : (item : Item) (walk : Walk) → Polled (item ∷ list_walk walk) (some (item, some walk))

pending_if :
    (b : Bool) (pending : Pending)
    → list_pending (if b then some pending else none) ≡ (
        if b
        then list_opened pending.directory pending.relative_dir pending.child_depth
        else ([], false))
pending_if true pending = refl
pending_if false pending = refl

-- The items from an entry on are the entry and those of the walk behind it.
emit-list_walk :
    (inspected : Inspected) (below : Opened) (rest : Entries) (frame : Frame) (stack : List Frame)
    → (then_list
        (list_entries (next_entry inspected below rest) frame.relative_dir frame.child_depth)
        (list_stack stack)).0
      ≡ (emit frame inspected below rest stack).0
        ∷ list_walk (emit frame inspected below rest stack).1
unfolding list_entries emit list_walk list_stack then_list
emit-list_walk inspected below rest frame stack =
    let path : PathString = join frame.relative_dir inspected.entry.name in
    let pending : Pending = record {
      directory = below;
      relative_dir = path;
      child_depth = suc frame.child_depth;
    } in
    let inside : Listed =
      if inspected.descend then list_opened below path (suc frame.child_depth) else ([], false) in
    let others : Listed = list_entries rest frame.relative_dir frame.child_depth in
    let item : Item =
      ok (record { relative_path = path; entry = inspected.entry; depth = frame.child_depth }) in
    ap (λ l. l.0) (then_list_assoc (item ∷ [], false) (then_list inside others) (list_stack stack))
    ∙ ap (λ l. item ∷ l.0) (then_list_assoc inside others (list_stack stack))
    ∙ ap (λ l. item ∷ (then_list l (then_list others (list_stack stack))).0)
        (sym (pending_if inspected.descend pending))

frame-Polled :
    (entries : Entries) (frame : Frame) (stack : List Frame)
    → frame.entries ≡ entries
    → Polled (list_stack stack).0 (advance stack)
    → Polled
        (then_list (list_entries entries frame.relative_dir frame.child_depth) (list_stack stack)).0
        (elim entries as (λ x. Option (Item × Option Walk)) [
          | at_end ↦ advance stack
          | broken error ↦ stop_with error
          | next_entry inspected below rest ↦ go_on (emit frame inspected below rest stack)
        ])
unfolding list_entries then_list stop_with
frame-Polled at_end frame stack e p = p
frame-Polled (broken error) frame stack e p = last (err (from_io error))
frame-Polled (next_entry inspected below rest) frame stack e p =
    subst (λ items. Polled items (go_on (emit frame inspected below rest stack)))
      (sym (emit-list_walk inspected below rest frame stack))
      (one (emit frame inspected below rest stack).0 (emit frame inspected below rest stack).1)

advance-Polled : (stack : List Frame) → Polled (list_stack stack).0 (advance stack)
unfolding list_stack advance
advance-Polled [] = ended
advance-Polled (frame ∷ stack) = frame-Polled frame.entries frame stack refl (advance-Polled stack)

descended-Polled :
    (directory : Opened) (dir : PathString) (depth : ℕ) (stack : List Frame)
    → Polled
        (then_list (list_opened directory dir depth) (list_stack stack)).0
        (descended directory dir depth stack)
unfolding descended list_opened then_list stop_with list_stack
descended-Polled (refused error) dir depth stack = last (err (from_io error))
descended-Polled (readable entries) dir depth stack =
    advance-Polled (record { entries = entries; relative_dir = dir; child_depth = depth } ∷ stack)

polled-Polled :
    (stack : List Frame) (pending : Option Pending)
    → Polled (then_list (list_pending pending) (list_stack stack)).0 (polled stack pending)
unfolding polled then_list
polled-Polled stack none = advance-Polled stack
polled-Polled stack (some pending) =
    descended-Polled pending.directory pending.relative_dir pending.child_depth stack

-- The stream of a walk is what is still to come of it, in as many polls and one more.
collect-Polled :
    (n : ℕ) (items : List Item) (o : Option (Item × Option Walk))
    → Polled items o
    → ((walk : Walk) → length (list_walk walk) < n → collect n walk ≡ some (list_walk walk))
    → length items < suc n
    → elim o as (λ x. Option (List Item)) [
      | none ↦ some []
      | some (item, none) ↦ some (item ∷ [])
      | some (item, some next) ↦ cons_items item (collect n next)
    ]
      ≡ some items
collect-Polled n items o ended f h = refl
collect-Polled n items o (last item) f h = refl
collect-Polled n items o (one item walk) f h = ap (cons_items item) (f walk (omega arith))

collect-list_walk :
    (n : ℕ) (walk : Walk) → length (list_walk walk) < n → collect n walk ≡ some (list_walk walk)
unfolding collect poll list_walk
collect-list_walk zero walk h = absurd (omega arith)
collect-list_walk (suc n) walk h =
    collect-Polled n (list_walk walk) (polled walk.stack walk.descend_into)
      (polled-Polled walk.stack walk.descend_into) (collect-list_walk n) h

then_list-nil : (a : Listed) → then_list a ([], false) ≡ a
unfolding then_list
then_list-nil (items, true) = refl
then_list-nil (items, false) = ap (λ xs. (xs, false)) (append-nil items)

abbrev opened_walk : Entries → Walk
opened_walk entries = record {
  stack = record { entries = entries; relative_dir = from_literal []; child_depth = 1 } ∷ [];
  descend_into = none;
}

opened-list_walk :
    (entries : Entries)
    → list_walk (opened_walk entries) ≡ (list_entries entries (from_literal []) 1).0
unfolding list_walk list_stack then_list
opened-list_walk entries = ap (λ l. l.0) (then_list-nil (list_entries entries (from_literal []) 1))

-- A walk of a directory that an absolute path names and that opens lists the tree below it in pre-order: its stream ends, at the latest one poll after
-- its items, and they are each directory's entries in the system's order, an entry before all that is below it, with the
-- paths from the root and the depths, gone into where `inspect` says so, up to the first error of opening or iterating
-- a directory, which is the last item.
pub walk_dir-preorder :
    (path : PathString) (root : Bytes) (entries : Entries) (polls : ℕ)
    → absolute path ≡ ok root
    → length (list_entries entries (from_literal []) 1).0 < polls
    → (walk : Walk) × (walk_dir path (readable entries) ≡ ok walk)
      × (collect polls walk ≡ some (list_entries entries (from_literal []) 1).0)
unfolding walk_dir walk_absolute walk_opened
walk_dir-preorder path root entries polls a h =
    let same = opened-list_walk entries in
    (
      opened_walk entries,
      ap (λ r. walk_absolute r (readable entries)) a,
      collect-list_walk polls (opened_walk entries) (omega (arith, ap length same, h))
          ∙ ap some same,
    )
