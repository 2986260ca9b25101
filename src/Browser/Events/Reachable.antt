-- ===== src/Browser/Events/Reachable.antt =====
-- The trees that old/src/gui/app.rs reaches.
use file_peeker.Base.{
  ℕ, suc, ◌+◌, ◌≤◌, ◌<◌, ◌≡◌, refl, sym, ap, ◌∙◌, Option, none, some, List, [], ◌∷◌, arith, length,
  get_elem?, inl, inr, Bool-cases, lookup,
}
use mathlib.Core.Path.{subst}
use file_peeker.PathString.{PathString}
use file_peeker.Browser.{Row, Expansion, collapsed, loading, expanded, failed, max_depth}
use file_peeker.Browser.Tree.{
  Tree, Placement, new, finish_root, begin_expansion, reroot, subtree_end, restart,
}
use file_peeker.Browser.Tree.Invariant.{IsTree}
use file_peeker.Browser.Tree.Depths.{
  IsShallow, weaken, shallow_row, rows_of, extend_root-IsShallow, extend_child-IsShallow,
  finish_child-IsShallow,
}
use file_peeker.Browser.Tree.Operations.{
  new-IsTree, extend_root-IsTree, finish_root-IsTree, extend_child-IsTree, restart-IsTree,
  loading_row,
}
use file_peeker.Browser.Tree.Endings.{finish_child-IsTree}
use file_peeker.Browser.Tree.Begin.{begin_expansion-IsTree}
use file_peeker.Browser.Tree.Collapse.{collapse-IsTree}
use file_peeker.Browser.Tree.Rows.{
  depth_at, depth_of, expansion_of, subtree_end-IsSubtree, IsSubtree-unique,
}
use file_peeker.Browser.Events.{
  root, child, Event, entries, finished, toggled, entered, opened, reopened, closed, toggle_as,
  toggle_row, toggle, tree_of, apply, run,
}

-- The placements of a tree are in place, and its rows at most as deep as the events before it are many.
abbrev pub IsSound : ℕ → Tree → Type 0
IsSound n t = IsTree t × IsShallow n t.rows

later : (n : ℕ) (t : Tree) → IsSound n t → IsSound (suc n) t
later n t v = (v.0, weaken n (suc n) t.rows (omega arith) v.1)

opened-IsSound :
    (n : ℕ) (t : Tree) (index request : ℕ) (row : Row)
    → IsSound n t
    → get_elem? t.rows index ≡ some row
    → row.expansion ≡ collapsed
    → n < max_depth
    → (t' : Tree) × (tree_of (opened (begin_expansion t index request)) ≡ some t') × IsSound n t'
unfolding tree_of opened
opened-IsSound n t index request row v h c b =
    let shallow = shallow_row n t.rows index row h v.1 in
    let r = begin_expansion-IsTree t index request row v.0 h c (omega arith) in
    (r.0, ap (λ o. tree_of (opened o)) r.1, (r.2, r.3 n v.1))

toggle_as-IsSound :
    (n : ℕ) (t : Tree) (index request : ℕ) (row : Row) (e : Expansion)
    → IsSound n t
    → get_elem? t.rows index ≡ some row
    → row.expansion ≡ e
    → n < max_depth
    → (t' : Tree) × (tree_of (toggle_as t index request e) ≡ some t') × IsSound n t'
unfolding toggle_as tree_of reopened closed
toggle_as-IsSound n t index request row collapsed v h c b =
    opened-IsSound n t index request row v h c b
toggle_as-IsSound n t index request row (failed id error) v h c b =
    let r = collapse-IsTree t index row v.0 h in
    let s =
      opened-IsSound n r.0 index request (record row { expansion = collapsed }) (r.3, r.5 n v.1) r.4
        refl b in
    (s.0, ap (λ o. tree_of (reopened o index request)) r.2 ∙ s.1, s.2)
toggle_as-IsSound n t index request row (loading id) v h c b =
    let r = collapse-IsTree t index row v.0 h in
    (r.0, ap (λ o. tree_of (closed o)) r.2, (r.3, r.5 n v.1))
toggle_as-IsSound n t index request row (expanded id) v h c b =
    let r = collapse-IsTree t index row v.0 h in
    (r.0, ap (λ o. tree_of (closed o)) r.2, (r.3, r.5 n v.1))

toggle_row-IsSound :
    (n : ℕ) (t : Tree) (index request : ℕ) (o : Option Row)
    → IsSound n t
    → get_elem? t.rows index ≡ o
    → n < max_depth
    → (t' : Tree) × (tree_of (toggle_row t index request o) ≡ some t') × IsSound n t'
unfolding toggle_row tree_of
toggle_row-IsSound n t index request none v h b = (t, refl, v)
toggle_row-IsSound n t index request (some row) v h b = elim (Bool-cases row.entry.navigable) [
  | inl u ↦ rw (u) (toggle_as-IsSound n t index request row row.expansion v h refl b)
  | inr u ↦ rw (u) (t, refl, v)
]

pub apply-IsSound :
    (n : ℕ) (t : Tree) (event : Event)
    → IsSound n t
    → n < max_depth
    → (t' : Tree) × (apply t event ≡ some t') × IsSound (suc n) t'
unfolding apply toggle reroot restart finish_root
apply-IsSound n t (entries root group) v b = (
  _,
  refl,
  (
    extend_root-IsTree t group v.0,
    weaken n (suc n) _ (omega arith) (extend_root-IsShallow n t group v.1),
  ),
)
apply-IsSound n t (entries (child id) group) v b =
    let r = extend_child-IsTree t id group v.0 in
    (
      r.0,
      r.1,
      (
        r.2,
        subst (λ o. IsShallow (suc n) (rows_of o)) r.1
            (extend_child-IsShallow n t id group v.0 v.1),
      ),
    )
apply-IsSound n t (finished root result) v b =
    (_, refl, (finish_root-IsTree t result v.0, weaken n (suc n) t.rows (omega arith) v.1))
apply-IsSound n t (finished (child id) result) v b =
    let r = finish_child-IsTree t id result v.0 in
    (
      r.0,
      r.1,
      later n r.0 (
        r.2,
        subst (λ o. IsShallow n (rows_of o)) r.1 (finish_child-IsShallow n t id result v.1),
      ),
    )
apply-IsSound n t (toggled row request) v b =
    let r = toggle_row-IsSound n t row request (get_elem? t.rows row) v refl b in
    (r.0, r.1, later n r.0 r.2)
apply-IsSound n t (entered path) v b =
    (_, refl, (restart-IsTree (record t { root_path = path; selected_index = none }), tt))

run-IsSound :
    (n : ℕ) (t : Tree) (events : List Event)
    → IsSound n t
    → n + length events ≤ max_depth
    → (t' : Tree) × (run t events ≡ some t') × IsSound (n + length events) t'
unfolding run
run-IsSound n t [] v b =
    let sum : n ≡ n + 0 = omega arith in (t, refl, subst (λ k. IsSound k t) sum v)
run-IsSound n t (event ∷ events) v b =
    let r = apply-IsSound n t event v (omega arith) in
    let rest = run-IsSound (suc n) r.0 events r.2 (omega arith) in
    let sum : suc n + length events ≡ n + suc (length events) = omega arith in
    rw (r.1, run) (rest.0, rest.1, subst (λ k. IsSound k rest.0) sum rest.2)

abbrev pub Reached : PathString → List Event → Type 0
Reached path events = (t : Tree) × (run (new path) events ≡ some t) × IsTree t

reached_sound :
    (path : PathString) (events : List Event)
    → length events ≤ max_depth
    → (t : Tree) × (run (new path) events ≡ some t) × IsSound (0 + length events) t
unfolding new
reached_sound path events b =
    run-IsSound 0 (new path) events (new-IsTree path, tt) (omega (arith, b))

-- No sequence of at most `u16::MAX` listings, toggles and changes of directory makes a new tree panic, whatever the
-- listings' requests are, and it leaves every collapsed row with nothing below it, and every
-- request in flight in place: its row loading, its insertion point at the end of that row's subtree, its
-- children one deeper.
pub tree_never_panics :
    (path : PathString) (events : List Event) → length events ≤ max_depth → Reached path events
tree_never_panics path events b = let r = reached_sound path events b in (r.0, r.1, r.2.0)

pub reached_tree :
    (path : PathString) (events : List Event) (t : Tree)
    → length events ≤ max_depth
    → run (new path) events ≡ some t
    → IsTree t
reached_tree path events t b h =
    let r = tree_never_panics path events b in
    let e : some r.0 ≡ some t = sym r.1 ∙ h in subst IsTree (some_injective e) r.2
  where
    some_injective : {t u : Tree} → some t ≡ some u → t ≡ u
    some_injective e = cc

-- The insertion point that is carried from group to group is the one that a search would find: in a tree that at most
-- `u16::MAX` events make of a new one, each request in flight has a row that is loading for it, its next
-- group lands where `subtree_end` ends that row's subtree, and one deeper than the row.
pub insertion_is_subtree_end :
    (path : PathString) (events : List Event) (t : Tree) (id : ℕ) (p : Placement)
    → length events ≤ max_depth
    → run (new path) events ≡ some t
    → lookup id t.placements ≡ some p
    → (row : Row) × (get_elem? t.rows p.parent ≡ some row)
      × (row.expansion ≡ loading id)
      × (p.insertion ≡ subtree_end t.rows p.parent row.depth)
      × (p.depth ≡ suc row.depth)
insertion_is_subtree_end path events t id p b h l =
    let v = (reached_tree path events t b h).placed id p l in
    let r = loading_row t.rows p.parent id v.is_loading in
    (
      r.0,
      r.1,
      sym (ap expansion_of r.1) ∙ v.is_loading,
      IsSubtree-unique (length t.rows) (length t.rows) (depth_at t.rows) p.parent p.insertion
          (subtree_end t.rows p.parent r.0.depth)
          (record { after = v.after; within = v.within; inside = v.inside; stop = v.stop })
          (subtree_end-IsSubtree t.rows p.parent r.0 r.1),
      v.child_depth ∙ ap suc (ap depth_of r.1),
    )
