-- ===== src/PathString/Join.antt =====
-- `join` in src/path_string.rs, on escaped and on plain paths.
use file_peeker.Base.{
  ℕ, ◌/◌, ◌%◌, ◌<◌, ◌≡◌, ◌≢◌, refl, sym, ap, ◌∙◌, true, false, [], ◌∷◌, ◌++◌, arith, append_assoc,
  append-nil, inl, inr, All, Bool-cases, ◌==◌, ◌↔◌, ==_iff,
}
use file_peeker.Utf8.{Bytes}
use file_peeker.Utf8.Steps.{IsHigh, char_step_extend, char_step_ascii}
use file_peeker.Utf8.Chunks.{Chunks, done, char, broken, IsBroken, chunks, ascii_IsChar}
use file_peeker.PathString.{
  marker, slash, hex_digit, escape, ends_with_slash, join_text, join, from_bytes,
}
use file_peeker.PathString.Render.{doubled, hexed, render}
use file_peeker.PathString.Loop.{escape-render}

module _ (s : ℕ) (lt : s < 0x80) (y : Bytes) where
  -- An ASCII byte behind it leaves an ill-formed sequence what it was.
  IsBroken-before : (b : ℕ) (c r : Bytes) → IsBroken b c r → IsBroken b c (r ++ s ∷ y)
  IsBroken-before b c r h = record {
    high = h.high;
    rest_high = h.rest_high;
    cause = elim h.cause [
      | inl e ↦ inl (rw (← append_assoc c r (s ∷ y)) (char_step_extend b (c ++ r) (s ∷ y) _ e))
      | inr (e, nothing) ↦
          inl (rw nothing (char_step_ascii b c y s (rw (nothing, append-nil) at e) lt))
    ];
  }

  joined_eq :
      (b : ℕ) (c r : Bytes) {bs : Bytes} → bs ≡ b ∷ (c ++ r) → bs ++ s ∷ y ≡ b ∷ (c ++ (r ++ s ∷ y))
  joined_eq b c r e = ap (λ x. x ++ s ∷ y) e ∙ ap (◌∷◌ b) (append_assoc c r (s ∷ y))

  join_chunks :
      {bs : Bytes} (front : Chunks bs) (back : Chunks (s ∷ y))
      → (ch : Chunks (bs ++ s ∷ y)) × (render ch ≡ render front ++ render back)
  unfolding render
  join_chunks done back = (back, refl)
  join_chunks (char b c r is_char eq rest) back =
      let (ch, e) = join_chunks rest back in
      (
        char b c (r ++ s ∷ y) is_char (joined_eq b c r eq) ch,
        ap (◌++◌ (doubled (b ∷ c))) e
            ∙ sym (append_assoc (doubled (b ∷ c)) (render rest) (render back)),
      )
  join_chunks (broken b c r is_broken eq rest) back =
      let (ch, e) = join_chunks rest back in
      (
        broken b c (r ++ s ∷ y) (IsBroken-before b c r is_broken) (joined_eq b c r eq) ch,
        ap (◌++◌ (hexed (b ∷ c))) e
            ∙ sym (append_assoc (hexed (b ∷ c)) (render rest) (render back)),
      )

  escape-append-ascii : (a : Bytes) → escape (a ++ s ∷ y) ≡ escape a ++ escape (s ∷ y)
  escape-append-ascii a =
      let (ch, e) = join_chunks (chunks a) (chunks (s ∷ y)) in
      rw (escape-render ch, e, escape-render (chunks a), escape-render (chunks (s ∷ y)))

escape-slash : (y : Bytes) → escape (slash ∷ y) ≡ slash ∷ escape y
unfolding render
escape-slash y =
    rw
      (
        escape-render (char slash [] y (ascii_IsChar slash (omega arith)) refl (chunks y)),
        escape-render (chunks y),
      )
      (unfold doubled in refl)

-- A separator between two halves stays where it is, and each half is escaped for itself.
escape-append-slash : (a b : Bytes) → escape (a ++ slash ∷ b) ≡ escape a ++ slash ∷ escape b
escape-append-slash a b = rw (escape-append-ascii slash (omega arith) b a, escape-slash b)

ends-append :
    (x : Bytes) (d : ℕ) (y : Bytes) → ends_with_slash (x ++ d ∷ y) ≡ ends_with_slash (d ∷ y)
ends-append [] d y = refl
ends-append (a ∷ []) d y = refl
ends-append (a ∷ b ∷ x) d y = ends-append (b ∷ x) d y

ends-congr :
    (x x' y y' : Bytes)
    → ends_with_slash x ≡ ends_with_slash x'
    → ends_with_slash y ≡ ends_with_slash y'
    → (y ≡ []) ↔ (y' ≡ [])
    → ends_with_slash (x ++ y) ≡ ends_with_slash (x' ++ y')
ends-congr x x' [] [] ex ey n = rw (append-nil x, append-nil x') ex
ends-congr x x' [] (d ∷ y') ex ey n = cc (n.0 refl)
ends-congr x x' (d ∷ y) [] ex ey n = cc (n.1 refl)
ends-congr x x' (d ∷ y) (d' ∷ y') ex ey n = ends-append x d y ∙ ey ∙ sym (ends-append x' d' y')

doubled-nil : (c : Bytes) → (doubled c ≡ []) ↔ (c ≡ [])
unfolding doubled
doubled-nil [] = (λ e. refl, λ e. refl)
doubled-nil (b ∷ c) = (λ e. ground arith, λ e. cc)

ends-doubled : (c : Bytes) → ends_with_slash (doubled c) ≡ ends_with_slash c
unfolding doubled
ends-doubled [] = refl
ends-doubled (b ∷ c) = elim (Bool-cases (b == marker)) [
  | inl e ↦ rw e (
      ends-congr (marker ∷ marker ∷ []) (b ∷ []) (doubled c) c (rw ((==_iff b marker).0 e))
        (ends-doubled c) (doubled-nil c))
  | inr e ↦ rw e (ends-congr (b ∷ []) (b ∷ []) (doubled c) c refl (ends-doubled c) (doubled-nil c))
]

hexed-nil : (c : Bytes) → (hexed c ≡ []) ↔ (c ≡ [])
unfolding hexed
hexed-nil [] = (λ e. refl, λ e. refl)
hexed-nil (b ∷ c) = (λ e. cc, λ e. cc)

hex_digit-ne-slash : (d : ℕ) → (hex_digit d == slash) ≡ false
hex_digit-ne-slash d = ground arith

ends-hexed : (c : Bytes) → All IsHigh c → ends_with_slash (hexed c) ≡ ends_with_slash c
unfolding hexed
ends-hexed [] h = refl
ends-hexed (b ∷ c) (hb, h) =
    ends-congr (marker ∷ hex_digit (b / 16) ∷ hex_digit (b % 16) ∷ []) (b ∷ []) (hexed c) c
      (rw (hex_digit-ne-slash (b % 16)) (ground arith)) (ends-hexed c h) (hexed-nil c)

append-nil_front : (x y : Bytes) → x ++ y ≡ [] → x ≡ []
append-nil_front [] y h = refl
append-nil_front (a ∷ x) y h = cc

render-nil : {bs : Bytes} (ch : Chunks bs) → (render ch ≡ []) ↔ (bs ≡ [])
unfolding render
render-nil done = (λ e. refl, λ e. refl)
render-nil (char b c r is_char eq rest) = (
  λ e. cc ((doubled-nil (b ∷ c)).0 (append-nil_front (doubled (b ∷ c)) (render rest) e)),
  λ e. cc,
)
render-nil (broken b c r is_broken eq rest) = (λ e. unfold hexed in cc, λ e. cc)

ends-render : {bs : Bytes} (ch : Chunks bs) → ends_with_slash (render ch) ≡ ends_with_slash bs
unfolding render
ends-render done = refl
ends-render (char b c r is_char eq rest) = rw eq (
    ends-congr (doubled (b ∷ c)) (b ∷ c) (render rest) r (ends-doubled (b ∷ c)) (ends-render rest)
      (render-nil rest))
ends-render (broken b c r is_broken eq rest) = rw eq (
    ends-congr (hexed (b ∷ c)) (b ∷ c) (render rest) r
      (ends-hexed (b ∷ c) (is_broken.high, is_broken.rest_high)) (ends-render rest)
      (render-nil rest))

escape-nil : (bs : Bytes) → (escape bs ≡ []) ↔ (bs ≡ [])
escape-nil bs = rw (escape-render (chunks bs)) (render-nil (chunks bs))

ends-escape : (bs : Bytes) → ends_with_slash (escape bs) ≡ ends_with_slash bs
ends-escape bs = rw (escape-render (chunks bs)) (ends-render (chunks bs))

-- A text that ends in a separator is one with a separator behind it.
before_slash :
    (a : ℕ) (p : Bytes) → ends_with_slash (a ∷ p) ≡ true → (q : Bytes) × (a ∷ p ≡ q ++ slash ∷ [])
before_slash a [] h = ([], ground arith)
before_slash a (b ∷ p) h = let (q, e) = before_slash b p h in (a ∷ q, ap (◌∷◌ a) e)

join_text_slash : (p name : Bytes) → ends_with_slash p ≡ true → join_text p name ≡ p ++ name
join_text_slash [] name h = refl
join_text_slash (c ∷ p) name h = rw h

join_text_no_slash :
    (p name : Bytes) → p ≢ [] → ends_with_slash p ≡ false → join_text p name ≡ p ++ slash ∷ name
join_text_no_slash [] name ne h = absurd (ne refl)
join_text_no_slash (c ∷ p) name ne h = rw h

escape-append_after_slash :
    (q name : Bytes) → escape (q ++ slash ∷ []) ++ escape name ≡ escape ((q ++ slash ∷ []) ++ name)
escape-append_after_slash q name = rw (
  escape-append-slash q [],
  (escape-nil []).1 refl,
  append_assoc q (slash ∷ []) name,
  escape-append-slash q name,
  append_assoc (escape q) (slash ∷ []) (escape name),
)

escape-join_text : (p name : Bytes) → join_text (escape p) (escape name) ≡ escape (join_text p name)
escape-join_text [] name = rw ((escape-nil []).1 refl)
escape-join_text (c ∷ p) name = elim (Bool-cases (ends_with_slash (c ∷ p))) [
  | inl e ↦
      let (q, split) = before_slash c p e in
      join_text_slash (escape (c ∷ p)) (escape name) (ends-escape (c ∷ p) ∙ e)
      ∙ ap (λ x. escape x ++ escape name) split
      ∙ escape-append_after_slash q name
      ∙ ap (λ x. escape (x ++ name)) (sym split)
      ∙ ap escape (sym (join_text_slash (c ∷ p) name e))
  | inr e ↦
      join_text_no_slash (escape (c ∷ p)) (escape name) (λ n. cc ((escape-nil (c ∷ p)).0 n))
        (ends-escape (c ∷ p) ∙ e)
      ∙ sym (escape-append-slash (c ∷ p) name)
      ∙ ap escape (sym (join_text_no_slash (c ∷ p) name (λ n. cc) e))
]

append-cons-ne : (x : Bytes) (d : ℕ) (y : Bytes) → x ++ d ∷ y ≢ []
append-cons-ne [] d y e = cc
append-cons-ne (a ∷ x) d y e = cc

join-escaped :
    (p name : Bytes) → join (from_bytes p) (from_bytes name) ≡ from_bytes (join_text p name)
unfolding join
join-escaped p name = ap (λ t. record { text = t }) (escape-join_text p name)

-- Joining the escaped forms of a path and a name, whatever bytes the two hold: the empty path gives the name, a path
-- that ends in a separator gives the escaped form of the path with the name right behind it, and a path that
-- ends in another byte gives the escaped form of the path, one separator and the name.
pub join-from_bytes :
    (p name : Bytes) (last : ℕ)
    → last ≢ 47
    → (join (from_bytes []) (from_bytes name) ≡ from_bytes name)
      × (join (from_bytes (p ++ 47 ∷ [])) (from_bytes name) ≡ from_bytes (p ++ 47 ∷ name))
      × (join (from_bytes (p ++ last ∷ [])) (from_bytes name) ≡ from_bytes (p ++ last ∷ 47 ∷ name))
join-from_bytes p name last h = (
  join-escaped [] name,
  join-escaped (p ++ slash ∷ []) name
      ∙ ap from_bytes (
          join_text_slash (p ++ slash ∷ []) name (ends-append p slash [])
          ∙ append_assoc p (slash ∷ []) name),
  join-escaped (p ++ last ∷ []) name
      ∙ ap from_bytes (
          join_text_no_slash (p ++ last ∷ []) name (λ e. absurd (append-cons-ne p last [] e))
            (ends-append p last [] ∙ ground arith)
          ∙ append_assoc p (last ∷ []) (slash ∷ name)),
)
