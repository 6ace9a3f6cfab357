-- ===== src/Api/Paging.antt =====
-- The `page` parameter of web/app/api/blocks/route.ts.
use native.Mathlib.Nat.{mul-le-mul_right}
use solounlucky.Prelude.{
  ℕ, ◌-◌, ◌*◌, ◌^◌, ◌≤◌, ◌<◌, ◌≡◌, ap, false, map, some, none, Text, codes, take, drop, to_string,
  ltb, arith,
}
use solounlucky.Double.{scale, of_ℕ, mul}
use solounlucky.Double.Exact.{of_ℕ_whole, sub_whole, round_whole}
use solounlucky.Js.{Number, nan, finite, whole, parse_int}
use solounlucky.Js.Roundtrip.{parse_int-to_string}
use solounlucky.Sql.{OrderBy}
use solounlucky.Store.{Tables}
use solounlucky.Db.Outcome.{Outcome, returned, thrown}
use solounlucky.Db.Blocks.{get_blocks, summary_of}
use solounlucky.Db.Blocks.Pagination.{confirmed_rows, get_blocks_lem}
use solounlucky.Api.{ok, failed, max_one, offset_of, page_of, get_blocks_route}

whole-eq : (n : ℕ) → n < 2 ^ 53 → whole n ≡ finite false (n * scale)
unfolding whole of_ℕ
whole-eq n h = ap (finite false) (of_ℕ_whole n h)

mul_whole : (a b : ℕ) → a * b < 2 ^ 53 → mul (a * scale) (b * scale) ≡ a * b * scale
unfolding mul scale
mul_whole a b h = round_whole (a * scale * (b * scale)) scale (a * b) (omega arith) h (omega arith)

max_one-whole :
    (n : ℕ) → 0 < n → n < 2 ^ 53 → max_one (finite false (n * scale)) ≡ finite false (n * scale)
unfolding max_one
max_one-whole n pos h =
    let one : of_ℕ 1 ≡ 1 * scale = of_ℕ_whole 1 (omega arith) in
    let le : 1 * scale ≤ n * scale = mul-le-mul_right scale pos in
    let above : ltb (n * scale) (1 * scale) ≡ false = ground arith in rw (one, above)

page_of-to_string :
    (n : ℕ) → 0 < n → n < 2 ^ 53 → page_of (some (to_string n)) ≡ finite false (n * scale)
unfolding page_of
page_of-to_string n pos h = rw (parse_int-to_string n, whole-eq n h) (max_one-whole n pos h)

offset_of-whole :
    (n limit : ℕ)
    → 0 < n
    → n < 2 ^ 53
    → limit < 2 ^ 53
    → (n - 1) * limit < 2 ^ 53
    → offset_of (finite false (n * scale)) limit ≡ finite false ((n - 1) * limit * scale)
unfolding offset_of
offset_of-whole n limit pos h small fits = rw (
  of_ℕ_whole 1 (omega arith),
  of_ℕ_whole limit small,
  sub_whole n 1 pos h,
  mul_whole (n - 1) limit fits,
)

module _ (db : OrderBy) (quotient_text : ℕ → ℕ → Text) (to_bigint : Number → Outcome ℕ)
    (t : Tables) where
  -- `?page=n` for a number n from 1 to 2^48 answers with the 20 confirmed blocks, newest first, that
  -- follow the first 20 (n - 1), if the driver takes that whole number as it is.
  pub get_blocks_route_page :
      (n : ℕ)
      → 0 < n
      → n < 2 ^ 48
      → to_bigint (whole ((n - 1) * 20)) ≡ returned ((n - 1) * 20)
      → get_blocks_route db quotient_text to_bigint (returned t) (some (to_string n))
        ≡ ok record {
          blocks = map summary_of (take 20 (drop ((n - 1) * 20) (confirmed_rows db to_bigint t)));
          page = whole n;
        }
  unfolding get_blocks_route
  get_blocks_route_page n pos h accepts =
      let at : to_bigint (finite false ((n - 1) * 20 * scale)) ≡ returned ((n - 1) * 20) =
        rw⁻¹ (whole-eq ((n - 1) * 20) (omega arith)) accepts in
      rw (
        page_of-to_string n pos (omega arith),
        offset_of-whole n 20 pos (omega arith) (omega arith) (omega arith),
        get_blocks_lem db to_bigint t 20 ((n - 1) * 20) _ at,
        whole-eq n (omega arith),
      )

  -- A `page` parameter that `parseInt` cannot read makes the offset NaN: if the driver or the database
  -- refuses that as an OFFSET, the answer is status 500 with the fixed text.
  pub get_blocks_route_unreadable :
      (s error : Text)
      → parse_int s ≡ nan
      → to_bigint nan ≡ thrown error
      → get_blocks_route db quotient_text to_bigint (returned t) (some s)
        ≡ failed 500 (codes "Failed to load blocks") none
  unfolding get_blocks_route page_of max_one offset_of get_blocks
  get_blocks_route_unreadable s error h refused = rw (h, refused)
