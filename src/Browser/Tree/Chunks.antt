-- ===== src/Browser/Tree/Chunks.antt =====
-- Groups of one listing of old/src/browser/tree.rs.
use file_peeker.Base.{
  ℕ, ◌+◌, ◌≤◌, ◌<◌, ◌≡◌, refl, sym, ap, ◌∙◌, false, Option, none, some, List, [], ◌∷◌, ◌++◌, arith,
  ltb, ◌==◌, inl, inr, Bool-cases, length, get_elem?, take, drop, lookup, append_assoc,
  length-append, length-take,
}
use file_peeker.PathString.{PathString}
use file_peeker.Browser.{Row, new_row, child_path, DirectoryEntry}
use file_peeker.Browser.Tree.{
  Tree, Placement, extend_child, extend_placed, place, splice, group, map_values, after_insertion,
  shifted,
}
use file_peeker.Browser.Tree.Rows.{
  get_elem?-splice_front, length-splice, length-group, depth_at, expansion_at,
}
use file_peeker.Browser.Tree.Shape.{IsPlaced}
use file_peeker.Browser.Tree.Invariant.{IsTree}
use file_peeker.Browser.Tree.Operations.{loading_row}

group-append :
    (parent : PathString) (d : ℕ) (es fs : List DirectoryEntry)
    → group parent d (es ++ fs) ≡ group parent d es ++ group parent d fs
group-append parent d [] fs = refl
group-append parent d (e ∷ es) fs =
    ap (λ rows. new_row (child_path parent e.name) d e ∷ rows) (group-append parent d es fs)

take-append : (a b : List Row) → take (length a) (a ++ b) ≡ a
take-append [] b = refl
take-append (x ∷ a) b = ap (λ rows. x ∷ rows) (take-append a b)

drop-append : (a b : List Row) → drop (length a) (a ++ b) ≡ b
drop-append [] b = refl
drop-append (x ∷ a) b = drop-append a b

-- Two splices one behind the other.
splice-splice :
    (i : ℕ) (new more rows : List Row)
    → i ≤ length rows
    → splice (i + length new) more (splice i new rows) ≡ splice i (new ++ more) rows
unfolding splice
splice-splice i new more rows h =
    let front = take i rows ++ new in
    let size : i + length new ≡ length front =
      omega (arith, length-append (take i rows) new, length-take i rows h) in
    let shape : take i rows ++ (new ++ drop i rows) ≡ front ++ drop i rows =
      sym (append_assoc (take i rows) new (drop i rows)) in
    ap
      (λ k.
        take k (take i rows ++ (new ++ drop i rows))
        ++ (more ++ drop k (take i rows ++ (new ++ drop i rows))))
      size
    ∙ ap (λ rs. take (length front) rs ++ (more ++ drop (length front) rs)) shape
    ∙ ap (λ rs. rs ++ (more ++ drop (length front) (front ++ drop i rows)))
        (take-append front (drop i rows))
    ∙ ap (λ rs. front ++ (more ++ rs)) (drop-append front (drop i rows))
    ∙ append_assoc (take i rows) new (more ++ drop i rows)
    ∙ ap (λ rs. take i rows ++ rs) (sym (append_assoc new more (drop i rows)))

shifted-shifted :
    (o : Option ℕ) (i a b : ℕ) → shifted (shifted o i a) (i + a) b ≡ shifted o i (a + b)
unfolding shifted
shifted-shifted none i a b = refl
shifted-shifted (some k) i a b = ground arith

after_insertion-twice :
    (i a b d : ℕ) (p : Placement)
    → after_insertion (i + a) b d (after_insertion i a d p) ≡ after_insertion i (a + b) d p
unfolding after_insertion
after_insertion-twice i a b d p = ground arith

map_values-twice :
    (i a b d : ℕ) (m : List (ℕ × Placement))
    → map_values (after_insertion (i + a) b d) (map_values (after_insertion i a d) m)
      ≡ map_values (after_insertion i (a + b) d) m
map_values-twice i a b d [] = refl
map_values-twice i a b d ((k, p) ∷ m) =
    ap
      (λ q.
        (k, q) ∷ map_values (after_insertion (i + a) b d) (map_values (after_insertion i a d) m))
      (after_insertion-twice i a b d p)
    ∙ ap (λ n. (k, after_insertion i (a + b) d p) ∷ n) (map_values-twice i a b d m)

unfoldable pub extend_again : Option Tree → ℕ → List DirectoryEntry → Option Tree
extend_again none id fs = none
extend_again (some t) id fs = extend_child t id fs

lookup-mapped :
    (f : Placement → Placement) (id : ℕ) (m : List (ℕ × Placement)) (p : Placement)
    → lookup id m ≡ some p
    → lookup id (map_values f m) ≡ some (f p)
lookup-mapped f id [] p h = absurd (ground arith)
lookup-mapped f id ((k, q) ∷ m) p h = elim (Bool-cases (k == id)) [
  | inl u ↦ rw (u) (let same : q ≡ p = ground arith in ap (λ z. some (f z)) same)
  | inr u ↦ rw (u) (lookup-mapped f id m p (ground arith))
]

own_insertion :
    (c : ℕ) (p : Placement)
    → p.parent < p.insertion
    → after_insertion p.insertion c p.depth p ≡ record p { insertion = p.insertion + c }
unfolding after_insertion
own_insertion c p h = ground arith

module _ (t : Tree) (id : ℕ) (es fs : List DirectoryEntry) (p : Placement) (row : Row)
    (v : IsPlaced (length t.rows) (depth_at t.rows) (expansion_at t.rows) id p)
    (l : lookup id t.placements ≡ some p) (h : get_elem? t.rows p.parent ≡ some row) where
  first : Tree
  first = record t {
    rows = splice p.insertion (group row.path p.depth es) t.rows;
    placements = map_values (after_insertion p.insertion (length es) p.depth) t.placements;
    selected_index = shifted t.selected_index p.insertion (length es);
  }

  placed_first :
      lookup id first.placements ≡ some (record p { insertion = p.insertion + length es })
  unfolding first
  placed_first =
      lookup-mapped (after_insertion p.insertion (length es) p.depth) id t.placements p l
      ∙ ap some (own_insertion (length es) p v.after)

  row_first : get_elem? first.rows p.parent ≡ some row
  unfolding first
  row_first =
      get_elem?-splice_front p.insertion (group row.path p.depth es) t.rows v.within p.parent
        v.after
      ∙ h

  both_rows :
      splice (p.insertion + length es) (group row.path p.depth fs) first.rows
      ≡ splice p.insertion (group row.path p.depth (es ++ fs)) t.rows
  unfolding first
  both_rows =
      ap
        (λ n.
          splice (p.insertion + n) (group row.path p.depth fs)
            (splice p.insertion (group row.path p.depth es) t.rows))
        (sym (length-group row.path p.depth es))
      ∙ splice-splice p.insertion (group row.path p.depth es) (group row.path p.depth fs) t.rows
          v.within
      ∙ ap (λ new. splice p.insertion new t.rows) (sym (group-append row.path p.depth es fs))

  place-first : place t p es (some row) ≡ some first
  unfolding place first
  place-first =
      let fits : ltb (length t.rows) p.insertion ≡ false = ground (arith, v.within) in
      rw (fits) refl

  place_both :
      place first (record p { insertion = p.insertion + length es }) fs (some row)
      ≡ place t p (es ++ fs) (some row)
  unfolding place first
  place_both =
      let fits : ltb (length t.rows) p.insertion ≡ false = ground (arith, v.within) in
      let fits_first : ltb (length first.rows) (p.insertion + length es) ≡ false = ground (
        arith,
        v.within,
        length-splice p.insertion (group row.path p.depth es) t.rows v.within,
        length-group row.path p.depth es,
      ) in
      let sum : length (es ++ fs) ≡ length es + length fs = length-append es fs in
      rw
        (
          fits,
          fits_first,
          both_rows,
          map_values-twice p.insertion (length es) (length fs) p.depth t.placements,
          shifted-shifted t.selected_index p.insertion (length es) (length fs),
          sum,
        )
        refl

extend_placed_twice :
    (t : Tree) (id : ℕ) (es fs : List DirectoryEntry) (o : Option Placement)
    → IsTree t
    → lookup id t.placements ≡ o
    → extend_again (extend_placed t o es) id fs ≡ extend_placed t o (es ++ fs)
unfolding extend_placed extend_again extend_child
extend_placed_twice t id es fs none v l = rw (l) refl
extend_placed_twice t id es fs (some p) v l =
    let w = v.placed id p l in
    let r = loading_row t.rows p.parent id w.is_loading in
    let next = record p { insertion = p.insertion + length es } in
    ap (λ o. extend_again (place t p es o) id fs) r.1
    ∙ ap (λ u. extend_again u id fs) (place-first t id es fs p r.0 w l r.1)
    ∙ ap (λ o. extend_placed (first t id es fs p r.0 w l r.1) o fs)
        (placed_first t id es fs p r.0 w l r.1)
    ∙ ap (place (first t id es fs p r.0 w l r.1) next fs) (row_first t id es fs p r.0 w l r.1)
    ∙ place_both t id es fs p r.0 w l r.1
    ∙ ap (place t p (es ++ fs)) (sym r.1)

-- In a tree whose requests in flight are in place, two groups of a request that arrive one after the other leave what
-- the one group of all their entries would: the rows, the selection, and where every request goes on.
pub groups_join :
    (t : Tree) (id : ℕ) (es fs : List DirectoryEntry)
    → IsTree t
    → extend_again (extend_child t id es) id fs ≡ extend_child t id (es ++ fs)
unfolding extend_child
groups_join t id es fs v = extend_placed_twice t id es fs (lookup id t.placements) v refl
