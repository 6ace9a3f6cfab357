-- ===== src/Pages/Stats.antt =====
-- web/app/stats/page.tsx.
use solounlucky.Prelude.{
  ℕ, false, [], ◌∷◌, ◌++◌, Option, none, some, inl, inr, Text, codes, ◌==◌, if◌then◌else◌,
}
use solounlucky.Double.{literal, mul, div}
use solounlucky.Js.{Number, finite, is_positive, is_falsy}
use solounlucky.Format.{format_hashrate, format_duration, block_probability, format_best_share}
use solounlucky.External.{ExternalStats}
use solounlucky.Db.Stats.{ExtendedPoolStats}
use solounlucky.Pages.Ranking.{dash}

-- `poolHs > 0 && netDiff && netDiff > 0 ? netDiff * 2^32 / poolHs : null`, for finite figures; an
-- infinite one gives null here.
abbrev pub seconds_of : Number → Number → Option ℕ
seconds_of (finite false pool) (finite false difficulty) =
    if pool == 0
    then none
    else if difficulty == 0
    then none
    else some (div (mul difficulty (literal 4_294_967_296 1)) pool)
seconds_of _ _ = none

unfoldable pub expected_seconds : Number → Option Number → Option ℕ
expected_seconds pool_hs none = none
expected_seconds pool_hs (some difficulty) = seconds_of pool_hs difficulty

abbrev pub or_dash : (Number → Text) → Option Number → Text
or_dash show none = dash
or_dash show (some x) = if is_falsy x then dash else show x

pub record MinShareCard : Type 0 where
  pub value : Text
  pub sub : Text

abbrev pub few_miners : Text
few_miners = codes "fewer than 21 miners " ++ (0x2014 ∷ codes " join now!")

-- The empty text is falsy, as null is.
unfoldable pub min_share_card : Option Text → MinShareCard
min_share_card none = record { value = codes "Any share"; sub = few_miners }
min_share_card (some []) = record { value = codes "Any share"; sub = few_miners }
min_share_card (some (c ∷ s)) = record {
  value = format_best_share (inl (c ∷ s));
  sub = codes "current #21 threshold";
}

pub record Chances : Type 0 where
  pub expected : Text
  pub in_day : Text
  pub in_week : Text
  pub in_month : Text

pub record StatsView : Type 0 where
  pub blocks_found : Number
  pub active_miners : Number
  pub accepted_shares : Number
  pub best_share : Text
  pub min_share : MinShareCard
  pub pool_hashrate : Text
  pub network_hashrate : Text
  pub network_difficulty : Text
  pub chances : Option Chances

unfoldable pub chances_of : (ℕ → ℕ) → ℕ → Chances
chances_of exp_neg seconds = record {
  expected = format_duration seconds;
  in_day = block_probability exp_neg seconds (literal 86_400 1);
  in_week = block_probability exp_neg seconds (literal 604_800 1);
  in_month = block_probability exp_neg seconds (literal 2_592_000 1);
}

unfoldable pub stats_view : (ℕ → ℕ) → ExtendedPoolStats → ExternalStats → StatsView
stats_view exp_neg s ext = record {
  blocks_found = s.stats.total_blocks;
  active_miners = s.stats.active_miners_7d;
  accepted_shares = s.accepted_shares_total;
  best_share = format_best_share (inl s.best_share_ever);
  min_share = min_share_card s.min_top_21_share;
  pool_hashrate =
      if is_positive s.pool_hashrate_hs then format_hashrate s.pool_hashrate_hs else dash;
  network_hashrate = or_dash format_hashrate ext.network_hashrate_hs;
  network_difficulty = or_dash (λ x. format_best_share (inr x)) ext.network_difficulty;
  chances = elim (expected_seconds s.pool_hashrate_hs ext.network_difficulty) [
    | none ↦ none
    | some seconds ↦ if seconds == 0 then none else some (chances_of exp_neg seconds)
  ];
}
