-- ===== src/Leaderboard/Order.antt =====
-- The rows of the ranking do not depend on how ORDER BY orders shares of one time (web/lib/db.ts).
use mathlib.Core.Path.{fun_ext}
use solounlucky.Prelude.{ℕ, ◌≡◌, refl, sym, ap, ◌∙◌, List, Text, filter, length-filter}
use solounlucky.Sql.{OrderBy}
use solounlucky.Sql.Sorted.{sorted_unique}
use solounlucky.Store.{Share}
use solounlucky.Leaderboard.{
  in_session, session_start, of_address, times_of, session_shares, joined_row,
}
use solounlucky.Leaderboard.Rows.{times_of-IsSorted, length-filter-times_of}

module _ (db web : OrderBy) (a : Text) (shares : List Share) where
  times_of-any : times_of db a shares ≡ times_of web a shares
  times_of-any =
      sorted_unique _ _ (times_of-IsSorted db a shares) (times_of-IsSorted web a shares) λ p.
        sym (length-filter p (times_of db a shares))
        ∙ length-filter-times_of db a shares p
        ∙ sym (length-filter-times_of web a shares p)
        ∙ length-filter p (times_of web a shares)

  pub session_shares-any : session_shares db a shares ≡ session_shares web a shares
  unfolding session_shares
  session_shares-any =
      ap (λ ts. filter (λ s. in_session (session_start ts) s.submitted_at) (of_address a shares))
        times_of-any

  joined_row-at : (now : ℕ) → joined_row db now shares a ≡ joined_row web now shares a
  unfolding joined_row
  joined_row-at now = rw (session_shares-any, joined_row) refl

pub joined_row-any :
    (db web : OrderBy) (now : ℕ) (shares : List Share)
    → joined_row db now shares ≡ joined_row web now shares
joined_row-any db web now shares = fun_ext λ a. joined_row-at db web a shares now
