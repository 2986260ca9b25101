-- ===== src/Fs/Write/Creation.antt =====
-- The partial files that `create_partial` of src/fs/write.rs makes.
use file_peeker.Base.{
  ◌⊎◌, ℕ, zero, suc, ◌<◌, ◌++◌, ◌≡◌, refl, sym, ap, ◌∙◌, Bool, true, false, Option, none, some, ◌∷◌,
  length, arith, inl, inr, Bool-cases, length-append, if◌then◌else◌,
}
use file_peeker.Utf8.{Bytes}
use file_peeker.Fs.{Disk, same, same_iff, from_io, path_join}
use file_peeker.Fs.Write.{
  Fault, faulty, stopped, stopped_late, Created, guarded, not_made, unguarded, is_taken, refused,
  Os, create_partial, partial_path, opened,
}

-- A new partial file is not the destination.
abbrev pub IsNew : Disk → Bytes → Bytes → Type 0
IsNew disk destination path = (disk path ≡ none) × (same path destination ≡ false)

length-path_join :
    (directory name s : Bytes)
    → length (path_join directory name) < length (path_join directory (b'.' ∷ name ++ s))
length-path_join directory name s = ground (
  arith,
  length-append name s,
  length-append directory name,
  length-append directory (b'/' ∷ name),
  length-append directory (b'.' ∷ name ++ s),
  length-append directory (b'/' ∷ b'.' ∷ name ++ s),
)

longer_differs : (p q : Bytes) → length q < length p → same p q ≡ false
longer_differs p q h = elim (Bool-cases (same p q)) [
  | inl e ↦ absurd (omega (arith, ap length ((same_iff p q).0 e)))
  | inr e ↦ e
]

-- The two ways in which a partial file is made.
abbrev pub Makes : Created → Bytes → Type 0
Makes created p = (created ≡ guarded p) ⊎ (created ≡ unguarded p)

-- The `open` of the partial file with this id was dropped with the file made.
abbrev pub IsOpenDropped : Os → ℕ → Type 0
IsOpenDropped os id = os.create_fault id ≡ some stopped_late

module _ (os : Os) (suffix : ℕ → Bytes) (directory name : Bytes) (disk : Disk) where
  -- A partial file is new, has a partial file's name, and is without its guard only if its `open` was dropped.
  abbrev pub NewAt : Created → Bytes → Type 0
  NewAt created p =
      IsNew disk (path_join directory name) p
      × ((id : ℕ) × (p ≡ partial_path suffix directory name id)
          × (created ≡ unguarded p → IsOpenDropped os id))

  new_path :
      (id : ℕ) (p : Bytes) {created : Created}
      → disk (partial_path suffix directory name id) ≡ none
      → partial_path suffix directory name id ≡ p
      → (created ≡ unguarded p → IsOpenDropped os id)
      → NewAt created p
  new_path id p d q u =
      let path = partial_path suffix directory name id in
      let own =
        longer_differs path (path_join directory name)
          (length-path_join directory name (suffix id)) in
      (
        (ap disk (sym q) ∙ d, ap (λ x. same x (path_join directory name)) (sym q) ∙ own),
        (id, sym q, u),
      )

  opened-NewAt :
      (there : Option Bytes) (fault : Option Fault) (id : ℕ) (rest : Created × ℕ) (p : Bytes)
      → disk (partial_path suffix directory name id) ≡ there
      → os.create_fault id ≡ fault
      → (Makes rest.0 p → NewAt rest.0 p)
      → Makes (opened there fault (partial_path suffix directory name id) id rest).0 p
      → NewAt (opened there fault (partial_path suffix directory name id) id rest).0 p
  unfolding opened
  opened-NewAt (some c) none id rest p d f h m = h m
  opened-NewAt (some c) (some (faulty e)) id rest p d f h m = h m
  opened-NewAt (some c) (some stopped) id rest p d f h (inl e) = absurd (ground arith)
  opened-NewAt (some c) (some stopped) id rest p d f h (inr e) = absurd (ground arith)
  opened-NewAt (some c) (some stopped_late) id rest p d f h (inl e) = absurd (ground arith)
  opened-NewAt (some c) (some stopped_late) id rest p d f h (inr e) = absurd (ground arith)
  opened-NewAt none none id rest p d f h (inr e) = absurd (ground arith)
  opened-NewAt none none id rest p d f h (inl e) =
      let q : partial_path suffix directory name id ≡ p = ground arith in
      new_path id p d q (λ u. absurd (ground arith))
  opened-NewAt none (some (faulty e)) id rest p d f h m = another (is_taken e.kind) h m
    where
      another :
          (b : Bool)
          → (Makes rest.0 p → NewAt rest.0 p)
          → Makes (if b then rest else (not_made (refused (from_io e)), suc id)).0 p
          → NewAt (if b then rest else (not_made (refused (from_io e)), suc id)).0 p
      another true h m = h m
      another false h (inl x) = absurd (ground arith)
      another false h (inr x) = absurd (ground arith)
  opened-NewAt none (some stopped) id rest p d f h (inl e) = absurd (ground arith)
  opened-NewAt none (some stopped) id rest p d f h (inr e) = absurd (ground arith)
  opened-NewAt none (some stopped_late) id rest p d f h (inl e) = absurd (ground arith)
  opened-NewAt none (some stopped_late) id rest p d f h (inr e) =
      let q : partial_path suffix directory name id ≡ p = ground arith in new_path id p d q (λ u. f)

  pub create_partial-NewAt :
      (k id : ℕ) (p : Bytes)
      → Makes (create_partial suffix os directory name k id disk).0 p
      → NewAt (create_partial suffix os directory name k id disk).0 p
  unfolding create_partial
  create_partial-NewAt zero id p (inl e) = absurd (ground arith)
  create_partial-NewAt zero id p (inr e) = absurd (ground arith)
  create_partial-NewAt (suc k) id p m =
      let path = partial_path suffix directory name id in
      opened-NewAt (disk path) (os.create_fault id) id
        (create_partial suffix os directory name k (suc id) disk) p refl refl
        (create_partial-NewAt k (suc id) p) m
