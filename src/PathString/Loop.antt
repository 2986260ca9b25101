-- ===== src/PathString/Loop.antt =====
-- The loop of `escape` in src/path_string.rs, round by round.
use file_peeker.Base.{
  ℕ, suc, ◌+◌, ◌-◌, ◌≤◌, ◌<◌, ◌≡◌, refl, ap, ◌∙◌, [], ◌∷◌, ◌++◌, none, some, arith, length, take,
  append_assoc, append-nil, inl, inr, length-append,
}
use file_peeker.Utf8.{Bytes, from_utf8}
use file_peeker.Utf8.Chunks.{
  Chunks, done, char, broken, IsChar, IsBroken, shift, from_utf8-char, from_utf8-broken,
  from_utf8-nil, Utf8-cases,
}
use file_peeker.PathString.{escape_loop, or_empty, escape}
use file_peeker.PathString.Render.{
  doubled, hexed, render, doubled-append, take-append, drop-append, escape_loop-utf8,
  escape_loop-error,
}

module _ (b : ℕ) (c r out : Bytes) (fuel : ℕ) where
  -- The loop copies a character and goes on behind it.
  loop_char :
      IsChar b c
      → escape_loop (suc fuel) (b ∷ (c ++ r)) out
        ≡ escape_loop (suc fuel) r (out ++ doubled (b ∷ c))
  unfolding shift
  loop_char h = elim (Utf8-cases (from_utf8 r)) [
    | inl u ↦ rw (
      escape_loop-utf8 fuel (b ∷ (c ++ r)) out
          (from_utf8-char b c r h ∙ ap (shift (suc (length c))) u),
      escape_loop-utf8 fuel r (out ++ doubled (b ∷ c)) u,
      doubled-append (b ∷ c) r,
      append_assoc,
    )
    | inr (v, e, u) ↦
        rw
          (
            escape_loop-error fuel (b ∷ (c ++ r)) out (suc (length c) + v) e
                (from_utf8-char b c r h ∙ ap (shift (suc (length c))) u),
            escape_loop-error fuel r (out ++ doubled (b ∷ c)) v e u,
            drop-append (suc (length c) + v) v (b ∷ c) r refl,
            take-append (suc (length c) + v) v (b ∷ c) r refl,
            doubled-append (b ∷ c) (take v r),
          )
          (simp append_assoc)
  ]

  -- It writes an ill-formed sequence in hexadecimal and goes on behind it.
  loop_broken :
      IsBroken b c r
      → escape_loop (suc fuel) (b ∷ (c ++ r)) out ≡ escape_loop fuel r (out ++ hexed (b ∷ c))
  unfolding doubled
  loop_broken h = elim (from_utf8-broken b c r h) [
    | inl u ↦
        rw
          (
            escape_loop-error fuel (b ∷ (c ++ r)) out 0 (some (suc (length c))) u,
            drop-append (length c) 0 c r (omega arith),
            take-append (length c) 0 c r (omega arith),
          )
          (simp append-nil)
    | inr (u, nothing) ↦
        rw
          (
            escape_loop-error fuel (b ∷ (c ++ r)) out 0 none u,
            drop-append (length (c ++ r)) 0 c r
                (omega (arith, length-append c r, ap length nothing)),
            take-append (length (c ++ r)) 0 c r
                (omega (arith, length-append c r, ap length nothing)),
          )
          (simp append-nil)
  ]

shorter :
    (b : ℕ) (c r : Bytes) (fuel : ℕ) {bs : Bytes}
    → bs ≡ b ∷ (c ++ r)
    → length bs ≤ fuel
    → length r < fuel
shorter b c r fuel eq h = omega (arith, ap length eq, length-append c r)

one_round_left :
    (b : ℕ) (c r : Bytes) (fuel : ℕ) {bs : Bytes}
    → bs ≡ b ∷ (c ++ r)
    → length bs ≤ fuel
    → fuel ≡ suc (fuel - 1)
one_round_left b c r fuel eq h = omega (arith, ap length eq)

-- With more fuel than bytes the loop ends, and appends the rendering of the rest.
pub escape_loop-render :
    {bs : Bytes} (ch : Chunks bs) (fuel : ℕ) (out : Bytes)
    → length bs ≤ fuel
    → escape_loop (suc fuel) bs out ≡ some (out ++ render ch)
unfolding render
escape_loop-render done fuel out h = unfold doubled in escape_loop-utf8 fuel [] out from_utf8-nil
escape_loop-render (char b c r is_char eq rest) fuel out h =
    rw (eq, loop_char b c r out fuel is_char)
      (escape_loop-render rest fuel (out ++ doubled (b ∷ c))
          (omega (arith, shorter b c r fuel eq h))
        ∙ ap some (append_assoc out (doubled (b ∷ c)) (render rest)))
escape_loop-render (broken b c r is_broken eq rest) fuel out h =
    rw (eq, loop_broken b c r out fuel is_broken)
      (ap (λ f. escape_loop f r (out ++ hexed (b ∷ c))) (one_round_left b c r fuel eq h)
        ∙ escape_loop-render rest (fuel - 1) (out ++ hexed (b ∷ c))
            (omega (arith, shorter b c r fuel eq h))
        ∙ ap some (append_assoc out (hexed (b ∷ c)) (render rest)))

-- However the input is cut into characters and ill-formed sequences, `escape` writes that rendering.
pub escape-render : {bs : Bytes} (ch : Chunks bs) → escape bs ≡ render ch
unfolding escape or_empty
escape-render {bs} ch = rw (escape_loop-render ch (length bs) [] (omega arith))
