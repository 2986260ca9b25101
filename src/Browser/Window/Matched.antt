-- ===== src/Browser/Window/Matched.antt =====
-- Which rows on screen of old/src/browser/window.rs are matches.
use file_peeker.Base.{
  not, ◌≢◌, ◌↔◌, ==_iff, ℕ, zero, suc, ◌+◌, ◌≤◌, ◌<◌, ◌≡◌, refl, sym, ap, ◌∙◌, Bool, true, false,
  ◌||◌, ◌&&◌, Option, none, some, List, [], ◌∷◌, ◌++◌, arith, if◌then◌else◌, ltb, ◌==◌, get_elem?,
  take, inl, inr, Bool-cases,
}
use mathlib.Core.Path.{subst}
use file_peeker.Utf8.{Bytes}
use file_peeker.PathString.{PathString}
use file_peeker.Browser.{Row}
use file_peeker.Browser.Tree.{Tree}
use file_peeker.Browser.Window.{
  Matching, window, window_by, needle_of, is_hit, is_entered, in_scope, matches_any, VisibleRow,
  start_of, matched, is_match, scan, unemitted, emitted, count_of, same_text, display,
  matches_needle,
}
use file_peeker.Browser.Window.Order.{Chain, Chain-le, take-Chain, next-Chain}

-- `matched` among filtered rows.
abbrev matched_in : List VisibleRow → ℕ → Bool
unfolding start_of
matched_in rows k = is_match (get_elem? rows (start_of rows k)) k

skip :
    (visible : VisibleRow) (rows : List VisibleRow) (k : ℕ)
    → visible.row < k
    → matched_in (visible ∷ rows) k ≡ matched_in rows k
unfolding matched_in start_of
skip visible rows k h = let before : ltb visible.row k ≡ true = ground arith in rw (before) refl

stop :
    (visible : VisibleRow) (rows : List VisibleRow) (k : ℕ)
    → k ≤ visible.row
    → matched_in (visible ∷ rows) k ≡ (visible.row == k && visible.matched)
unfolding matched_in start_of
stop visible rows k h = let here : ltb visible.row k ≡ false = ground arith in rw (here) refl

skip_unemitted :
    (from index k : ℕ) (chain : List (ℕ × Bool)) (rows : List VisibleRow)
    → Chain from index chain
    → index ≤ k
    → matched_in (unemitted chain ++ rows) k ≡ matched_in rows k
unfolding unemitted
skip_unemitted from index k [] rows c h = refl
skip_unemitted from index k ((a, true) ∷ chain) rows c h =
    skip_unemitted from index k chain rows c h
skip_unemitted from index k ((a, false) ∷ chain) rows c h =
    skip (record { row = a; matched = false }) (unemitted chain ++ rows) k
      (omega (arith, Chain-le (suc a) index chain c.1))
    ∙ skip_unemitted (suc a) index k chain rows c.1 h

not_before :
    (index k : ℕ) (b : Bool) (chain : List (ℕ × Bool)) (rows : List VisibleRow)
    → k < index
    → matched_in (unemitted chain ++ (record { row = index; matched = b } ∷ rows)) k ≡ false
unfolding unemitted
not_before index k b [] rows h =
    stop (record { row = index; matched = b }) rows k (omega arith) ∙ ground arith
not_before index k b ((a, true) ∷ chain) rows h = not_before index k b chain rows h
not_before index k b ((a, false) ∷ chain) rows h = elim (Bool-cases (ltb a k)) [
  | inl u ↦
      skip (record { row = a; matched = false })
        (unemitted chain ++ (record { row = index; matched = b } ∷ rows)) k (ground arith)
      ∙ not_before index k b chain rows h
  | inr u ↦
      stop (record { row = a; matched = false })
        (unemitted chain ++ (record { row = index; matched = b } ∷ rows)) k (ground arith)
      ∙ ground arith
]

pass :
    (shown b : Bool) (m index k : ℕ) (chain : List (ℕ × Bool)) (rest : List VisibleRow × ℕ)
    → k < index
    → matched_in rest.0 k ≡ false
    → matched_in
        (if shown
          then (unemitted chain ++ (record { row = index; matched = b } ∷ rest.0), m)
          else rest).0
        k
      ≡ false
pass true b m index k chain rest h f = not_before index k b chain rest.0 h
pass false b m index k chain rest h f = f

module _ (hit entered : Row → Bool) where
  -- No row before the ones passed over is matched by them.
  scan-before :
      (index k : ℕ) (ancestors : List (ℕ × Bool)) (rows : List Row)
      → k < index
      → matched_in (scan hit entered index ancestors rows).0 k ≡ false
  unfolding scan start_of
  scan-before index k ancestors [] h = refl
  scan-before index k ancestors (row ∷ rows) h =
      let chain = take row.depth ancestors in
      let shown = hit row || entered row in
      pass shown (hit row) _ index k chain _ h (
        scan-before (suc index) k
          ((if shown then emitted chain else chain) ++ ((index, shown) ∷ [])) rows (omega arith))

  own :
      (shown b : Bool) (m from index : ℕ) (chain : List (ℕ × Bool)) (rest : List VisibleRow × ℕ)
      → Chain from index chain
      → (shown ≡ false → b ≡ false)
      → matched_in rest.0 index ≡ false
      → matched_in
          (if shown
            then (unemitted chain ++ (record { row = index; matched = b } ∷ rest.0), m)
            else rest).0
          index
        ≡ b
  own true b m from index chain rest c f g =
      skip_unemitted from index index chain (record { row = index; matched = b } ∷ rest.0) c
        (omega arith)
      ∙ stop (record { row = index; matched = b }) rest.0 index (omega arith)
      ∙ ground arith
  own false b m from index chain rest c f g = g ∙ sym (f refl)

  behind :
      (shown b : Bool) (m from index k : ℕ) (chain : List (ℕ × Bool)) (rest : List VisibleRow × ℕ)
      → Chain from index chain
      → index < k
      → matched_in
          (if shown
            then (unemitted chain ++ (record { row = index; matched = b } ∷ rest.0), m)
            else rest).0
          k
        ≡ matched_in rest.0 k
  behind true b m from index k chain rest c h =
      skip_unemitted from index k chain (record { row = index; matched = b } ∷ rest.0) c
        (omega arith)
      ∙ skip (record { row = index; matched = b }) rest.0 k h
  behind false b m from index k chain rest c h = refl

  scan-matched :
      (from index j : ℕ) (ancestors : List (ℕ × Bool)) (rows : List Row) (row : Row)
      → Chain from index ancestors
      → get_elem? rows j ≡ some row
      → matched_in (scan hit entered index ancestors rows).0 (index + j) ≡ hit row
  unfolding scan
  scan-matched from index j ancestors [] row c h = absurd (ground arith)
  scan-matched from index zero ancestors (first ∷ rows) row c h =
      let chain = take first.depth ancestors in
      let shown = hit first || entered first in
      let same : first ≡ row = ground arith in
      let sum : index ≡ index + 0 = omega arith in
      let next = (if shown then emitted chain else chain) ++ ((index, shown) ∷ []) in
      subst (λ k. matched_in (scan hit entered index ancestors (first ∷ rows)).0 k ≡ hit row) sum
        (own shown (hit first) (count_of (hit first) + (scan hit entered (suc index) next rows).1)
            from index chain (scan hit entered (suc index) next rows)
            (take-Chain first.depth from index ancestors c) (λ e. ground arith)
            (scan-before (suc index) index next rows (omega arith))
          ∙ ap hit same)
  scan-matched from index (suc j) ancestors (first ∷ rows) row c h =
      let chain = take first.depth ancestors in
      let shown = hit first || entered first in
      let b = take-Chain first.depth from index ancestors c in
      let sum : suc index + j ≡ index + suc j = omega arith in
      let next = (if shown then emitted chain else chain) ++ ((index, shown) ∷ []) in
      behind shown (hit first) _ from index (index + suc j) chain
        (scan hit entered (suc index) next rows) b (omega arith)
      ∙ ap (matched_in (scan hit entered (suc index) next rows).0) (sym sum)
      ∙ scan-matched (if shown then suc index else from) (suc index) j next rows row
          (next-Chain shown from index chain b) h

scan_from_start :
    (hit entered : Row → Bool) (rows : List Row) (k : ℕ) (row : Row)
    → get_elem? rows k ≡ some row
    → matched_in (scan hit entered 0 [] rows).0 k ≡ hit row
scan_from_start hit entered rows k row h =
    let sum : 0 + k ≡ k = omega arith in
    subst (λ j. matched_in (scan hit entered 0 [] rows).0 j ≡ hit row) sum
      (scan-matched hit entered 0 0 k [] rows row (omega arith) h)

window_by-matched :
    (m : Matching) (t : Tree) (needle : Option Bytes) (scope : Option PathString) (k : ℕ)
    (row : Row)
    → get_elem? t.rows k ≡ some row
    → matched (window_by m t needle scope) k ≡ is_hit m needle scope row
unfolding window_by matched is_hit in_scope matches_any
window_by-matched m t none none k row h = refl
window_by-matched m t none (some s) k row h =
    scan_from_start (is_hit m none (some s)) (is_entered (some s)) t.rows k row h
window_by-matched m t (some needle) s k row h =
    scan_from_start (is_hit m (some needle) s) (is_entered s) t.rows k row h

-- Below the scope, and not the directory that it names.
abbrev pub IsBelow : Matching → Option PathString → Row → Type 0
IsBelow m none row = Unit {0}
IsBelow m (some scope) row =
    (scope.text ≢ row.path.text) × (m.starts_with row.path.text scope.text ≡ true)

-- The name as a person reads it has the query in it, both in lower case.
abbrev pub HasQuery : Matching → Bytes → Row → Type 0
HasQuery m [] row = Unit {0}
HasQuery m (c ∷ query) row =
    m.contains (m.lower (display m row.entry.name)) (m.lower (c ∷ query)) ≡ true

same_text_iff : (s t : Bytes) → (same_text s t ≡ true) ↔ (s ≡ t)
same_text_iff [] [] = (λ h. refl, λ h. refl)
same_text_iff [] (d ∷ t) = (λ h. absurd (ground arith), λ h. cc)
same_text_iff (c ∷ s) [] = (λ h. absurd (ground arith), λ h. cc)
same_text_iff (c ∷ s) (d ∷ t) = (
  λ h.
      let front : c ≡ d = ground arith in
      let rest : s ≡ t = (same_text_iff s t).0 (ground arith) in rw (front, rest) refl,
  λ h.
      let front : (c == d) ≡ true = (==_iff c d).1 (cc h) in
      let rest : same_text s t ≡ true = (same_text_iff s t).1 (cc h) in rw (front, rest) refl,
)

IsBelow-iff :
    (m : Matching) (scope : Option PathString) (row : Row)
    → ((not (is_entered scope row) && in_scope m row.path.text scope) ≡ true) ↔ IsBelow m scope row
unfolding in_scope
IsBelow-iff m none row = (λ h. tt, λ h. refl)
IsBelow-iff m (some scope) row = (
  λ h. (λ e. absurd (ground (arith, (same_text_iff scope.text row.path.text).1 e)), ground arith),
  λ (ne, s). elim (Bool-cases (same_text scope.text row.path.text)) [
    | inl u ↦ absurd (ne ((same_text_iff scope.text row.path.text).0 u))
    | inr u ↦ rw (u, s) refl
  ],
)

HasQuery-iff :
    (m : Matching) (query : Bytes) (row : Row)
    → (matches_any m (needle_of m query) row ≡ true) ↔ HasQuery m query row
unfolding matches_any matches_needle
HasQuery-iff m [] row = (λ h. tt, λ h. refl)
HasQuery-iff m (c ∷ query) row = (λ h. h, λ h. h)

is_hit_iff :
    (m : Matching) (query : Bytes) (scope : Option PathString) (row : Row)
    → (is_hit m (needle_of m query) scope row ≡ true) ↔ (IsBelow m scope row × HasQuery m query row)
unfolding is_hit
is_hit_iff m query scope row = (
  λ h. ((IsBelow-iff m scope row).0 (ground arith), (HasQuery-iff m query row).0 (ground arith)),
  λ (b, q). ground (arith, (IsBelow-iff m scope row).1 b, (HasQuery-iff m query row).1 q),
)

-- A row of the tree counts as matched on screen exactly when it is not the directory that the scope names, its path
-- starts with that directory's, and its name as a person reads it, in lower case, has the query in lower case in
-- it; no scope and an empty query ask for nothing. So no ancestor that is on screen for the sake of a match counts
-- unless it matches itself, and the directory of the scope never does.
pub matched_iff :
    (m : Matching) (t : Tree) (query : Bytes) (scope : Option PathString) (k : ℕ) (row : Row)
    → get_elem? t.rows k ≡ some row
    → (matched (window m t query scope) k ≡ true) ↔ (IsBelow m scope row × HasQuery m query row)
unfolding window
matched_iff m t query scope k row h =
    let same = window_by-matched m t (needle_of m query) scope k row h in
    let iff = is_hit_iff m query scope row in (λ e. iff.0 (sym same ∙ e), λ p. same ∙ iff.1 p)
