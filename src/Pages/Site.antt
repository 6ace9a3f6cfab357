-- ===== src/Pages/Site.antt =====
-- The links of web/app: the frame of every page (layout.tsx), the home page (page.tsx) and the rows of the
-- tables; and the pages that there are, by the folders of web/app.
use solounlucky.Prelude.{
  ℕ, ◌≡◌, refl, inl, inr, Bool, true, false, not, ◌&&◌, ◌||◌, List, [], ◌∷◌, ◌++◌, map, Text, codes,
  arith, any_by, text_eq, ◌==◌, All, Bool-cases, if◌then◌else◌,
}
use solounlucky.Js.{has_prefix}
use solounlucky.Db.Board.{LeaderboardEntry}
use solounlucky.Db.Blocks.{BlockSummary}
use solounlucky.Pages.Ranking.{entry_row}
use solounlucky.Pages.Tables.{block_row}

pub record NavLink : Type 0 where
  pub href : Text
  pub label : Text
  pub external : Bool

-- An `a` element: whether it opens another tab, and whether it has `rel="noopener noreferrer"`.
pub record Anchor : Type 0 where
  pub href : Text
  pub blank : Bool
  pub no_opener : Bool

abbrev inside : Text → Text → NavLink
inside href label = record { href = href; label = label; external = false }

abbrev pub nav_links : List NavLink
nav_links =
    inside (codes "/stats") (codes "Stats")
    ∷ inside (codes "/join") (codes "Join")
    ∷ inside (codes "/leaderboard") (codes "Leaderboard")
    ∷ inside (codes "/solo") (codes "BTC Solo")
    ∷ inside (codes "/reward-rules") (codes "Reward Rules")
    ∷ inside (codes "/miner") (codes "Miner")
    ∷ record {
      href = codes "https://triviumpools.com/";
      label = codes "Trivium Pools";
      external = true;
    }
    ∷ []

-- The attributes that are spread into an element of the navigation.
unfoldable pub nav_anchor : NavLink → Anchor
nav_anchor l = record { href = l.href; blank = l.external; no_opener = l.external }

abbrev plain_anchor : Text → Anchor
plain_anchor href = record { href = href; blank = false; no_opener = false }

abbrev new_tab : Text → Anchor
new_tab href = record { href = href; blank = true; no_opener = true }

unfoldable pub header_anchors : List Anchor
header_anchors =
    plain_anchor (codes "/") ∷ map nav_anchor nav_links
    ++ new_tab (codes "https://t.me/unlucky21solopool")
      ∷ new_tab (codes "https://x.com/unlucky21pool")
      ∷ []

unfoldable pub footer_anchors : List Anchor
footer_anchors =
    plain_anchor (codes "/disclaimer")
    ∷ new_tab (codes "https://triviumpools.com/")
    ∷ new_tab (codes "https://t.me/unlucky21solopool")
    ∷ new_tab (codes "https://x.com/unlucky21pool")
    ∷ plain_anchor (codes "/faq")
    ∷ plain_anchor (codes "/disclaimer")
    ∷ new_tab (codes "https://github.com/fitzkie/unlucky21")
    ∷ []

unfoldable pub hero_anchors : List Anchor
hero_anchors = plain_anchor (codes "/join") ∷ plain_anchor (codes "/leaderboard") ∷ []

-- The links in the text below.
unfoldable pub section_anchors : List Anchor
section_anchors =
    plain_anchor (codes "/stats")
    ∷ plain_anchor (codes "/miner")
    ∷ plain_anchor (codes "/join")
    ∷ []

unfoldable pub community_anchors : List Anchor
community_anchors =
    new_tab (codes "https://t.me/unlucky21solopool")
    ∷ new_tab (codes "https://x.com/unlucky21pool")
    ∷ []

-- The folders with a page.tsx, but for the page of a miner.
abbrev pub static_pages : List Text
static_pages =
    codes "/"
    ∷ codes "/blocks"
    ∷ codes "/connect"
    ∷ codes "/disclaimer"
    ∷ codes "/faq"
    ∷ codes "/join"
    ∷ codes "/leaderboard"
    ∷ codes "/miner"
    ∷ codes "/reward-rules"
    ∷ codes "/solo"
    ∷ codes "/stats"
    ∷ []

-- One segment of a path: `[address]`.
abbrev pub is_segment : Text → Bool
is_segment [] = false
is_segment (c ∷ s) = not (any_by (λ d. d == b'/') (c ∷ s))

abbrev pub after_miner : Text → Text
after_miner (_ ∷ _ ∷ _ ∷ _ ∷ _ ∷ _ ∷ _ ∷ s) = s
after_miner _ = []

unfoldable pub is_page : Text → Bool
is_page href =
    any_by (text_eq href) static_pages
    || (has_prefix (codes "/miner/") href && is_segment (after_miner href))

-- A link within the site leads to a page and stays in its tab; another opens a tab that cannot reach back.
unfoldable pub is_sound : Anchor → Bool
is_sound a =
    if has_prefix (codes "/") a.href then is_page a.href && not a.blank else a.blank && a.no_opener

-- The links of a row of the leaderboard and of a row of a table of blocks.
unfoldable pub row_anchors : (now : ℕ) → LeaderboardEntry → BlockSummary → List Anchor
row_anchors now e b = plain_anchor (entry_row [] e).link ∷ plain_anchor (block_row now b).link ∷ []

miner_link_sound :
    (a : Text) → is_segment a ≡ true → is_sound (plain_anchor (codes "/miner/" ++ a)) ≡ true
unfolding is_sound is_page has_prefix text_eq
miner_link_sound a h = rw h refl

row_anchors_sound :
    (now : ℕ) (e : LeaderboardEntry) (b : BlockSummary)
    → is_segment e.btc_address ≡ true
    → is_segment b.finder_address ≡ true
    → All (λ a. is_sound a ≡ true) (row_anchors now e b)
unfolding row_anchors entry_row block_row
row_anchors_sound now e b h k =
    (miner_link_sound e.btc_address h, (miner_link_sound b.finder_address k, tt))

none_unsound :
    (xs bs : List Anchor)
    → any_by (λ a. not (is_sound a)) xs ≡ false
    → All (λ a. is_sound a ≡ true) bs
    → All (λ a. is_sound a ≡ true) (xs ++ bs)
none_unsound [] bs h k = k
none_unsound (a ∷ xs) bs h k = elim (Bool-cases (is_sound a)) [
  | inl e ↦ (e, none_unsound xs bs (ground (arith, h, e)) k)
  | inr e ↦ absurd (ground (arith, h, e))
]

-- Each link of the frame, of the home page and, for addresses without a slash, of the rows of the tables
-- either leads to a page of the site and stays in its tab, or opens a tab that cannot reach back.
pub links_lead :
    (now : ℕ) (e : LeaderboardEntry) (b : BlockSummary)
    → is_segment e.btc_address ≡ true
    → is_segment b.finder_address ≡ true
    → All
        (λ a. is_sound a ≡ true)
        (header_anchors
          ++ (footer_anchors
              ++ (hero_anchors ++ (section_anchors ++ (community_anchors ++ row_anchors now e b)))))
unfolding header_anchors footer_anchors hero_anchors section_anchors community_anchors nav_anchor
    is_sound is_page has_prefix text_eq
links_lead now e b h k =
    let rows = row_anchors now e b in
    let home = hero_anchors ++ (section_anchors ++ (community_anchors ++ rows)) in
    none_unsound header_anchors (footer_anchors ++ home) refl (
      none_unsound footer_anchors home refl (
        none_unsound hero_anchors (section_anchors ++ (community_anchors ++ rows)) refl (
          none_unsound section_anchors (community_anchors ++ rows) refl
            (none_unsound community_anchors rows refl (row_anchors_sound now e b h k)))))
