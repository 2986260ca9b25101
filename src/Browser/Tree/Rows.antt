-- ===== src/Browser/Tree/Rows.antt =====
-- Rows of old/src/browser/tree.rs by their index: what a splice, a drain and a written expansion make of
-- their depths and expansions.
use file_peeker.Base.{
  ℕ, zero, suc, ◌+◌, ◌-◌, ◌≤◌, ◌<◌, ◌≡◌, ◌≢◌, refl, sym, ap, ◌∙◌, false, Option, none, some, List,
  [], ◌∷◌, ◌++◌, arith, ltb, leb, ◌==◌, inl, inr, Bool-cases, length, get_elem?, set, take, drop,
  length-append, length-take, length-drop, get_elem?-append_back, get_elem?-append_before,
  get_elem?-take, get_elem?-drop, get_elem?-past, get_elem?-set_self, get_elem?-set_ne,
}
use file_peeker.Browser.{Row, Expansion, collapsed, DirectoryEntry}
use file_peeker.PathString.{PathString}
use file_peeker.Browser.Tree.{splice, group, position, subtree_end, end_at}
use file_peeker.Browser.Tree.Shape.{Inserted}
use file_peeker.Browser.Tree.Removal.{IsSubtree}

abbrev pub depth_of : Option Row → ℕ
depth_of none = 0
depth_of (some row) = row.depth

abbrev pub expansion_of : Option Row → Expansion
expansion_of none = collapsed
expansion_of (some row) = row.expansion

abbrev pub depth_at : List Row → ℕ → ℕ
depth_at rows k = depth_of (get_elem? rows k)

abbrev pub expansion_at : List Row → ℕ → Expansion
expansion_at rows k = expansion_of (get_elem? rows k)

-- A row of the list at each index of a splice.
module _ (i : ℕ) (new rows : List Row) (h : i ≤ length rows) where
  pub get_elem?-splice_front : (k : ℕ) → k < i → get_elem? (splice i new rows) k ≡ get_elem? rows k
  unfolding splice
  get_elem?-splice_front k b =
      get_elem?-append_before (take i rows) (new ++ drop i rows) k
        (omega (arith, length-take i rows h))
      ∙ get_elem?-take i rows k b

  get_elem?-splice_new :
      (k : ℕ) → i ≤ k → k < i + length new → get_elem? (splice i new rows) k ≡ get_elem? new (k - i)
  unfolding splice
  get_elem?-splice_new k a b =
      let e : k ≡ length (take i rows) + (k - i) = omega (arith, length-take i rows h) in
      ap (get_elem? (take i rows ++ (new ++ drop i rows))) e
      ∙ get_elem?-append_back (take i rows) (new ++ drop i rows) (k - i)
      ∙ get_elem?-append_before new (drop i rows) (k - i) (omega arith)

  get_elem?-splice_back :
      (k : ℕ) → i ≤ k → get_elem? (splice i new rows) (k + length new) ≡ get_elem? rows k
  unfolding splice
  get_elem?-splice_back k a =
      let e : k + length new ≡ length (take i rows) + (length new + (k - i)) =
        omega (arith, length-take i rows h) in
      let f : i + (k - i) ≡ k = omega arith in
      ap (get_elem? (take i rows ++ (new ++ drop i rows))) e
      ∙ get_elem?-append_back (take i rows) (new ++ drop i rows) (length new + (k - i))
      ∙ get_elem?-append_back new (drop i rows) (k - i)
      ∙ get_elem?-drop i rows (k - i)
      ∙ ap (get_elem? rows) f

  pub length-splice : length (splice i new rows) ≡ length rows + length new
  unfolding splice
  length-splice = omega (
    arith,
    length-append (take i rows) (new ++ drop i rows),
    length-append new (drop i rows),
    length-take i rows h,
    length-drop i rows,
  )

pub length-group :
    (parent : PathString) (e : ℕ) (es : List DirectoryEntry)
    → length (group parent e es) ≡ length es
length-group parent e [] = refl
length-group parent e (x ∷ es) = ap suc (length-group parent e es)

depth-group :
    (parent : PathString) (e : ℕ) (es : List DirectoryEntry) (k : ℕ)
    → k < length es
    → (depth_at (group parent e es) k ≡ e) × (expansion_at (group parent e es) k ≡ collapsed)
depth-group parent e [] k h = absurd (omega arith)
depth-group parent e (x ∷ es) zero h = (refl, refl)
depth-group parent e (x ∷ es) (suc k) h = depth-group parent e es k (omega arith)

-- A splice of a group inserts rows of its depth, not expanded.
module _ (i e : ℕ) (parent : PathString) (es : List DirectoryEntry) (rows : List Row)
    (h : i ≤ length rows) where
  at_new :
      (k : ℕ)
      → i ≤ k
      → k < i + length es
      → get_elem? (splice i (group parent e es) rows) k ≡ get_elem? (group parent e es) (k - i)
  at_new k a b =
      get_elem?-splice_new i (group parent e es) rows h k a
        (omega (arith, length-group parent e es))

  at_back :
      (k : ℕ)
      → i ≤ k
      → get_elem? (splice i (group parent e es) rows) (k + length es) ≡ get_elem? rows k
  at_back k a =
      ap (λ c. get_elem? (splice i (group parent e es) rows) (k + c))
        (sym (length-group parent e es))
      ∙ get_elem?-splice_back i (group parent e es) rows h k a

  pub splice-Inserted :
      Inserted i
        (length es)
        e
        (depth_at rows)
        (depth_at (splice i (group parent e es) rows))
        (expansion_at rows)
        (expansion_at (splice i (group parent e es) rows))
  splice-Inserted = record {
    front = λ k b. ap depth_of (get_elem?-splice_front i (group parent e es) rows h k b);
    new = λ k a b. ap depth_of (at_new k a b) ∙ (depth-group parent e es (k - i) (omega arith)).0;
    back = λ k a. ap depth_of (at_back k a);
    x_front = λ k b. ap expansion_of (get_elem?-splice_front i (group parent e es) rows h k b);
    x_back = λ k a. ap expansion_of (at_back k a);
  }

-- The rows before `s` and from `t` on.
module _ (s t : ℕ) (rows : List Row) (h : s ≤ length rows) (g : s ≤ t) where
  pub get_elem?-drain_front :
      (k : ℕ) → k < s → get_elem? (take s rows ++ drop t rows) k ≡ get_elem? rows k
  get_elem?-drain_front k b =
      get_elem?-append_before (take s rows) (drop t rows) k (omega (arith, length-take s rows h))
      ∙ get_elem?-take s rows k b

  pub get_elem?-drain_back :
      (k : ℕ) → t ≤ k → get_elem? (take s rows ++ drop t rows) (k - (t - s)) ≡ get_elem? rows k
  get_elem?-drain_back k b =
      let e : k - (t - s) ≡ length (take s rows) + (k - t) = omega (arith, length-take s rows h) in
      let f : t + (k - t) ≡ k = omega arith in
      ap (get_elem? (take s rows ++ drop t rows)) e
      ∙ get_elem?-append_back (take s rows) (drop t rows) (k - t)
      ∙ get_elem?-drop t rows (k - t)
      ∙ ap (get_elem? rows) f

  pub length-drain : t ≤ length rows → length (take s rows ++ drop t rows) ≡ length rows - (t - s)
  length-drain b =
      omega
        (arith, length-append (take s rows) (drop t rows), length-take s rows h, length-drop t rows)

-- `position` finds the first row that is not deeper.
position-found :
    (d : ℕ) (rows : List Row) (o : ℕ)
    → position d rows ≡ some o
    → ((k : ℕ) → k < o → d < depth_at rows k) × (depth_at rows o ≤ d) × (o < length rows)
unfolding position
position-found d [] o h = cc
position-found d (row ∷ rows) zero h = (λ k b. absurd (omega arith), ground arith, omega arith)
position-found d (row ∷ rows) (suc o) h =
    let deep : leb row.depth d ≡ false = ground arith in
    let r = position-found d rows o (ground arith) in
    (λ k b. deep_from k b deep r.0, r.1, omega (arith, r.2))
  where
    deep_from :
        (k : ℕ)
        → k < suc o
        → leb row.depth d ≡ false
        → ((j : ℕ) → j < o → d < depth_at rows j)
        → d < depth_at (row ∷ rows) k
    deep_from zero b e f = ground arith
    deep_from (suc k) b e f = f k (omega arith)

position-none :
    (d : ℕ) (rows : List Row)
    → position d rows ≡ none
    → (k : ℕ) → k < length rows
    → d < depth_at rows k
unfolding position
position-none d [] h k b = absurd (omega arith)
position-none d (row ∷ rows) h zero b = ground arith
position-none d (row ∷ rows) h (suc k) b = position-none d rows (ground arith) k (omega arith)

pub get_elem?-below :
    (rows : List Row) (k : ℕ) (row : Row) → get_elem? rows k ≡ some row → k < length rows
get_elem?-below [] k row h = cc
get_elem?-below (x ∷ rows) zero row h = omega arith
get_elem?-below (x ∷ rows) (suc k) row h = omega (arith, get_elem?-below rows k row h)

module _ (rows : List Row) (index : ℕ) (row : Row) (h : get_elem? rows index ≡ some row) where
  own_depth : row.depth ≡ depth_at rows index
  own_depth = sym (ap depth_of h)

  dropped_depth :
      (k : ℕ) → index < k → depth_at (drop (suc index) rows) (k - suc index) ≡ depth_at rows k
  dropped_depth k a =
      let e : suc index + (k - suc index) ≡ k = omega arith in
      ap depth_of (get_elem?-drop (suc index) rows (k - suc index)) ∙ ap (depth_at rows) e

  end_at-IsSubtree :
      (o : Option ℕ)
      → position row.depth (drop (suc index) rows) ≡ o
      → IsSubtree (length rows) (depth_at rows) index (end_at rows index o)
  end_at-IsSubtree none e = record {
    after = get_elem?-below rows index row h;
    within = omega arith;
    inside = λ k a b. omega (
      arith,
      own_depth,
      dropped_depth k a,
      position-none row.depth (drop (suc index) rows) e (k - suc index)
          (omega (arith, length-drop (suc index) rows)),
    );
    stop = omega (arith, ap depth_of (get_elem?-past rows (length rows) (omega arith)));
  }
  end_at-IsSubtree (some o) e =
      let f = position-found row.depth (drop (suc index) rows) o e in
      let back : (suc index + o) - suc index ≡ o = omega arith in
      record {
        after = omega arith;
        within = omega (arith, f.2, length-drop (suc index) rows);
        inside =
            λ k a b. omega (arith, own_depth, dropped_depth k a, f.0 (k - suc index) (omega arith));
        stop = omega (
          arith,
          own_depth,
          dropped_depth (suc index + o) (omega arith),
          ap (depth_at (drop (suc index) rows)) back,
          f.1,
        );
      }

  -- `subtree_end` is the end of a row's subtree.
  pub subtree_end-IsSubtree :
      IsSubtree (length rows) (depth_at rows) index (subtree_end rows index row.depth)
  unfolding subtree_end
  subtree_end-IsSubtree = end_at-IsSubtree (position row.depth (drop (suc index) rows)) refl

-- Two ends of one subtree are one.
pub IsSubtree-unique :
    (n m : ℕ) (d : ℕ → ℕ) (index a b : ℕ) → IsSubtree n d index a → IsSubtree m d index b → a ≡ b
IsSubtree-unique n m d index a b s t = elim (Bool-cases (ltb a b)) [
  | inl u ↦ absurd (omega (arith, t.inside a s.after (ground arith), s.stop))
  | inr u ↦ elim (Bool-cases (ltb b a)) [
    | inl w ↦ absurd (omega (arith, s.inside b t.after (ground arith), t.stop))
    | inr w ↦ ground arith
  ]
]

-- A written expansion leaves the depths, and the other rows.
module _ (rows : List Row) (index : ℕ) (row : Row) (e : Expansion)
    (h : get_elem? rows index ≡ some row) where
  pub set-depth_at :
      (k : ℕ) → depth_at (set rows index (record row { expansion = e })) k ≡ depth_at rows k
  set-depth_at k = elim (Bool-cases (index == k)) [
    | inl u ↦
        let same : index ≡ k = ground arith in
        ap (depth_at (set rows index (record row { expansion = e }))) (sym same)
        ∙ ap depth_of (get_elem?-set_self rows index _ row h)
        ∙ sym (ap depth_of h)
        ∙ ap (depth_at rows) same
    | inr u ↦ ap depth_of (get_elem?-set_ne rows index k _ (ground arith))
  ]

  pub set-expansion_self : expansion_at (set rows index (record row { expansion = e })) index ≡ e
  set-expansion_self = ap expansion_of (get_elem?-set_self rows index _ row h)

  pub set-expansion_ne :
      (k : ℕ)
      → index ≢ k
      → expansion_at (set rows index (record row { expansion = e })) k ≡ expansion_at rows k
  set-expansion_ne k ne = ap expansion_of (get_elem?-set_ne rows index k _ ne)
