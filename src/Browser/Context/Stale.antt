-- ===== src/Browser/Context/Stale.antt =====
-- Listings of an earlier root in old/src/tui/browser_context.rs.
use file_peeker.Base.{ℕ, ◌^◌, ◌<◌, ◌≡◌, ◌≢◌, sym, ◌∙◌, some, arith, ◌==◌, inl, inr, Bool-cases}
use file_peeker.PathString.{PathString}
use file_peeker.Browser.Context.{Context}
use file_peeker.Browser.Context.Listing.{
  ContextEvent, apply, change_root_path, start_root_listing, refresh, cancel, abort_tree_listings,
  wrapping_next,
}

next_ne : (n : ℕ) → n < 2 ^ 64 → wrapping_next n ≢ n
next_ne n h e = omega arith

ignored :
    (c : Context) (event : ContextEvent) → event.generation ≢ c.generation → apply c event ≡ some c
unfolding apply
ignored c event ne = elim (Bool-cases (event.generation == c.generation)) [
  | inl u ↦ absurd (ground arith)
  | inr u ↦ ground arith
]

-- What was listed for a root that the browser has left, is refreshing or has closed changes nothing: an event of the
-- generation that was current before `change_root_path`, `refresh` or `cancel` is ignored after it.
pub stale_ignored :
    (c : Context) (path : PathString) (event : ContextEvent)
    → c.generation < 2 ^ 64
    → event.generation ≡ c.generation
    → (apply (change_root_path c path) event ≡ some (change_root_path c path))
      × (apply (refresh c) event ≡ some (refresh c))
      × (apply (cancel c) event ≡ some (cancel c))
unfolding change_root_path refresh cancel start_root_listing abort_tree_listings
stale_ignored c path event h e =
    let ne : event.generation ≢ wrapping_next c.generation =
      λ f. next_ne c.generation h (sym f ∙ e) in
    (
      ignored (change_root_path c path) event ne,
      ignored (refresh c) event ne,
      ignored (cancel c) event ne,
    )
