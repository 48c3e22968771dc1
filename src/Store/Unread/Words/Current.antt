-- ===== src/Store/Unread/Words/Current.antt =====
-- What a user's words hide once `AddIgnoreWord` or `RemoveIgnoreWord` has returned without an
-- error.
use feedla.Prelude.{ℕ, ◌≡◌, ◌↔◌, ◌⊎◌, String, Bool, true, false, List, ◌==◌}
use feedla.Store.Unread.{Entry, UserEntryState}
use feedla.Store.Unread.Words.Listed.{Listed, IsHidden}

module _ (like : String → String → Bool) where
  -- The row is another user's, or it is hidden exactly if its entry satisfies the predicate.
  abbrev pub IsCurrent : ℕ → (Entry → Type 0) → List Entry → UserEntryState → Type 0
  IsCurrent user p entries r =
      ((r.user_id == user) ≡ false) ⊎ ((r.ignored ≡ true) ↔ IsHidden like p entries r)
