-- ===== src/Fs/Tests.antt =====
-- A write of src/fs/write.rs that the system carries out, and one that is dropped midway.
use file_peeker.Base.{◌≡◌, refl, length, ℕ, List, [], ◌∷◌}
use file_peeker.Base.{ok, none, true, some, Bool, false, if◌then◌else◌, arith}
use file_peeker.Task.{not_a_directory, permission_denied}
use file_peeker.Fs.Walk.{Entries, next_entry, at_end, refused, readable, Walk, walk_dir, collect}
use file_peeker.Fs.Entry.{
  Inspected, file, directory as a_directory, Answers, inspect, inspect_stat, is_dir, is_degraded,
  inspect-descend,
}
use file_peeker.Fs.Walk.Preorder.{list_entries, list_opened, then_list, walk_dir-preorder}
use file_peeker.PathString.{from_literal}
use file_peeker.Utf8.{Bytes}
use file_peeker.PathString.{PathString, from_bytes, slash, unescape, unescape_loop, split}
use file_peeker.Fs.{Disk, path_join}
use file_peeker.Fs.Write.{Os, Next, chunk, abandoned, replace, write_file, written}
use file_peeker.Fs.Write.Partial.{joined}
use file_peeker.Fs.Write.Success.{IsWhole, write_file-succeeds}
use file_peeker.PathString.Name.{is_name, components, is_one_normal, first_part, parts, part}
use file_peeker.Fs.Write.Whole.{Kept, write_file-Kept}

abbrev willing : Os
willing = record {
  is_dir = ok true;
  inspect_fault = none;
  create_fault = λ id. none;
  write_fault = λ n. none;
  reached = λ n. 0;
  flush_fault = none;
  publish_fault = none;
  removes = true;
  appeared = none;
}

abbrev directory : Bytes
directory = slash ∷ 97 ∷ []

abbrev name : Bytes
name = 98 ∷ []

abbrev two_chunks : List Next
two_chunks = chunk (1 ∷ 2 ∷ []) ∷ chunk (3 ∷ []) ∷ []

abbrev dropped_midway : List Next
dropped_midway = chunk (1 ∷ 2 ∷ []) ∷ abandoned ∷ []

abbrev suffix : ℕ → Bytes
suffix id = id ∷ []

abbrev bare : Disk
bare path = none

abbrev at_text : Bytes → PathString
at_text text = record { text = text }

write_file-Kept_example :
    Kept willing suffix directory name bare replace dropped_midway
      (write_file suffix willing (at_text directory) (at_text name) replace dropped_midway bare 0)
unfolding unescape unescape_loop
write_file-Kept_example =
    write_file-Kept suffix willing (at_text directory) (at_text name) directory name replace
      dropped_midway bare 0 refl refl

write_file-succeeds_example :
    (write_file suffix willing (at_text directory) (at_text name) replace two_chunks bare 0).0
    ≡ written (record {
      path = from_bytes (path_join directory name);
      bytes = length (joined two_chunks);
    })
unfolding unescape unescape_loop IsWhole is_name components is_one_normal first_part parts part
    split
write_file-succeeds_example =
    write_file-succeeds suffix willing (at_text directory) (at_text name) directory name two_chunks
      bare 0 refl refl refl refl
      (record {
        directory = refl;
        creates = λ id. refl;
        writes = λ n. refl;
        flushes = refl;
        publishes = refl;
        alone = refl;
      })
      tt

abbrev described : ℕ → Bool → Inspected
described letter descend = record {
  entry = record {
    name = record { text = letter ∷ [] };
    kind = if descend then a_directory else file;
    navigable = descend;
    metadata = none;
    defect = none;
  };
  descend = descend;
}

-- A file; a directory with one file in it; a directory that cannot be opened; a file that is not reached.
abbrev listing : Entries
listing =
    next_entry (described 97 false) (refused (record { kind = not_a_directory; message = "" })) (
      next_entry (described 98 true)
        (readable (
          next_entry (described 99 false)
            (refused (record { kind = not_a_directory; message = "" })) at_end))
        (next_entry (described 100 true)
          (refused (record { kind = permission_denied; message = "" }))
          (next_entry (described 101 false)
            (refused (record { kind = not_a_directory; message = "" })) at_end)))

walk_dir-preorder_example :
    (walk : Walk) × (walk_dir (at_text directory) (readable listing) ≡ ok walk)
    × (collect 9 walk ≡ some (list_entries listing (from_literal []) 1).0)
unfolding list_entries list_opened then_list unescape unescape_loop
walk_dir-preorder_example =
    walk_dir-preorder (at_text directory) directory listing 9 refl (omega arith)

abbrev answered : Answers
answered = record {
  file_name = 98 ∷ [];
  lstat = ok (record { file_type = is_dir; size = 64; modified = none; mode = 16877 });
  carried = some is_dir;
  target_is_dir = true;
  read_link = none;
}

inspect-descend_example :
    ((inspect answered).entry.kind ≡ a_directory)
    × ((inspect answered).entry.navigable ≡ true)
    × (is_degraded (inspect answered).entry ≡ false)
    × ((inspect answered).entry.defect ≡ none)
unfolding inspect inspect_stat
inspect-descend_example = inspect-descend answered refl
