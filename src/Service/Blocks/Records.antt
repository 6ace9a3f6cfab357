-- ===== src/Service/Blocks/Records.antt =====
-- What `RecordUnconfirmedBlock` (reward-service/internal/leaderboard/service.go) adds.
use mathlib.Core.Path.{subst}
use solounlucky.Prelude.{
  ℕ, ◌≡◌, refl, Bool, true, false, not, ◌&&◌, List, none, Text, codes, any_by, leb, length, text_eq,
}
use solounlucky.Sql.{OrderBy}
use solounlucky.Store.{Tables}
use solounlucky.Db.Outcome.{Outcome, returned, thrown, >>=-eq-returned, returned-injective}
use solounlucky.Service.Database.{
  Database, Faults, execute, outcome_of, select_top, insert_block, wrap, check, has_round,
}
use solounlucky.Service.Database.Laws.{wrap-eq-returned, check-eq-returned, settle-elim}
use solounlucky.Service.Ranking.{Entry, get_top_21}
use solounlucky.Service.Blocks.{
  BlockFound, block_added, build_snapshot, add_block, record_unconfirmed_block,
}

-- What `RecordUnconfirmedBlock` has done.
pub data Recording (db : OrderBy) (bf : BlockFound) (d : Database)
    : Outcome ℕ → Database → Type 0 where
  refused : (e : Text) → Recording db bf d (thrown e) d
  recorded :
      (entries : List Entry)
      → get_top_21 db (λ _. none) d.tables bf.round_id ≡ returned entries
      → any_by (λ b. text_eq bf.hash b.hash) d.tables.blocks ≡ false
      → has_round bf.round_id d.tables.rounds ≡ true
      → Recording db bf d
          (returned d.next_block)
          (block_added bf (build_snapshot entries bf.fees_sats) d)

get_top_21-eq-returned :
    (db : OrderBy) (faults : Faults) (t : Tables) (round : ℕ) {entries : List Entry}
    → get_top_21 db faults t round ≡ returned entries
    → get_top_21 db (λ _. none) t round ≡ returned entries
unfolding get_top_21 execute
get_top_21-eq-returned db faults t round h =
    let (_, _, h1) =
      >>=-eq-returned (wrap (codes "GetTop21 query") (outcome_of (faults select_top))) _ h in
    h1

not-eq-true : (b : Bool) → not b ≡ true → b ≡ false
not-eq-true true h = cc
not-eq-true false h = refl

-- `RecordUnconfirmedBlock` fails and leaves the database, or it adds one block, whose snapshot is
-- that of the 21 best of the round. It adds a block only under a hash that no block has, and for a
-- round that exists.
pub record_unconfirmed_block_lem :
    (db : OrderBy) (faults : Faults) (bf : BlockFound) (d : Database)
    → let (result, d') = record_unconfirmed_block db faults bf d in Recording db bf d result d'
unfolding record_unconfirmed_block add_block
record_unconfirmed_block_lem db faults bf d =
    settle-elim (Recording db bf d) d _ refused λ r written h.
      let (entries, e1, h1) =
        >>=-eq-returned
          (wrap (codes "RecordUnconfirmedBlock snapshot")
            (get_top_21 db faults d.tables bf.round_id))
          _ h in
      let (_, _, h2) =
        >>=-eq-returned (execute faults insert_block) _
          (wrap-eq-returned (codes "RecordUnconfirmedBlock insert") _ h1) in
      let (_, e3, h3) =
        >>=-eq-returned (check (not (any_by (λ b. text_eq bf.hash b.hash) d.tables.blocks)) _) _
          h2 in
      let (_, e4, h4) = >>=-eq-returned (check (has_round bf.round_id d.tables.rounds) _) _ h3 in
      let fitting =
        leb (length bf.hash) 64
        && leb (length bf.finder_address) 90
        && leb (length bf.coinbase_txid) 64 in
      let (_, _, h5) =
        >>=-eq-returned (check fitting (codes "value too long for type character varying")) _ h4 in
      subst (λ r. Recording db bf d (returned r.0) r.1) (returned-injective h5)
        (recorded entries
          (get_top_21-eq-returned db faults d.tables bf.round_id
            (wrap-eq-returned (codes "RecordUnconfirmedBlock snapshot") _ e1))
          (not-eq-true _ (check-eq-returned _ _ e3)) (check-eq-returned _ _ e4))
