-- ===== src/Service/Blocks/Sound.antt =====
-- The rounds (reward-service/internal/leaderboard/service.go) under the operations on blocks: one is
-- open at any time.
use solounlucky.Prelude.{
  ℕ, ◌<◌, ◌≡◌, refl, ◌∙◌, true, false, List, [], ◌∷◌, none, arith, All, All-mono, count_by,
  count_by-append, All-append,
}
use solounlucky.Sql.{OrderBy}
use solounlucky.Store.{Share, Round, SnapshotEntry}
use solounlucky.Leaderboard.{is_active}
use solounlucky.Db.Outcome.{Outcome, returned}
use solounlucky.Service.Database.{Database, Faults, has_round}
use solounlucky.Service.Blocks.{
  BlockFound, block_added, round_of, round_closed, confirm_row, end_round, next_round_opened,
  confirm_only, confirm_block, orphan_only, mark_as_orphaned, record_unconfirmed_block,
}
use solounlucky.Service.Blocks.Ends.{
  has_round-append, end_round-count, count_by-has_round, named_at, end_round-has_round,
  end_round-numbered,
}
use solounlucky.Service.Blocks.Rows.{
  IsStored, confirm_row-named, orphan_row-named, confirm_row-IsStored, orphan_row-IsStored,
}
use solounlucky.Service.Blocks.Rounds.{
  Confirmation, failed, ended, repeated, confirm_block_lem, Orphaning, kept, orphaned,
  mark_as_orphaned_lem,
}
use solounlucky.Service.Blocks.Records.{Recording, refused, recorded, record_unconfirmed_block_lem}

-- The share is not stale, and its round exists.
abbrev pub IsBooked : List Round → Share → Type 0
IsBooked rounds s = (s.is_stale ≡ false) × (has_round s.round_id rounds ≡ true)

-- One round is open, the rounds that blocks name exist, the sequence is past all rounds, each block has a
-- snapshot, and no share is stale or of a round that does not exist.
pub record IsSound (d : Database) : Type 0 where
  pub one_open : count_by is_active d.tables.rounds ≡ 1
  pub named : All (λ b. has_round b.round_id d.tables.rounds ≡ true) d.tables.blocks
  pub numbered : All (λ r. r.id < d.next_round) d.tables.rounds
  pub stored : All IsStored d.tables.blocks
  pub booked : All (IsBooked d.tables.rounds) d.tables.shares

-- The round that is ended is the only open one.
pub ended_rounds-none_open :
    (now block round : ℕ) (d : Database)
    → round_of block d.tables.blocks ≡ returned round
    → round_closed round d.tables.rounds ≡ false
    → IsSound d
    → count_by is_active (end_round now block round d.tables.rounds) ≡ 0
ended_rounds-none_open now block round d at opened sound =
    let left = end_round-count now block round d.tables.rounds opened in
    let there =
      count_by-has_round round d.tables.rounds
        (named_at d.tables.rounds block d.tables.blocks sound.named at) in
    let only = sound.one_open in omega arith

next_round_opened-IsSound :
    (block round : ℕ) (d : Database)
    → round_of block d.tables.blocks ≡ returned round
    → round_closed round d.tables.rounds ≡ false
    → IsSound d
    → IsSound (next_round_opened block round d)
unfolding next_round_opened
next_round_opened-IsSound block round d at opened sound =
    let rounds = d.tables.rounds in
    let ended_rounds = end_round d.tables.now block round rounds in
    let new : Round = record {
      id = d.next_round;
      started_at = d.tables.now;
      ended_at = none;
      block_id = none;
    } in
    let none_left = ended_rounds-none_open d.tables.now block round d at opened sound in
    record {
      one_open = rw (count_by-append is_active ended_rounds (new ∷ []), none_left) refl;
      named =
          All-mono _ _ (confirm_row block d.tables.blocks)
            (λ b n.
              has_round-append b.round_id ended_rounds new
                (end_round-has_round _ _ _ b.round_id rounds ∙ n))
            (confirm_row-named rounds block d.tables.blocks sound.named);
      numbered =
          All-append _ ended_rounds (new ∷ [])
            (end_round-numbered d.tables.now block round d.next_round rounds sound.numbered)
            (omega arith, tt);
      stored = confirm_row-IsStored block d.tables.blocks sound.stored;
      booked =
          All-mono _ _ d.tables.shares
            (λ s (fresh, known). (
              fresh,
              has_round-append s.round_id ended_rounds new
                  (end_round-has_round _ _ _ s.round_id rounds ∙ known),
            ))
            sound.booked;
    }

confirm_only-IsSound : (block : ℕ) (d : Database) → IsSound d → IsSound (confirm_only block d)
unfolding confirm_only
confirm_only-IsSound block d sound = record {
  one_open = sound.one_open;
  named = confirm_row-named d.tables.rounds block d.tables.blocks sound.named;
  numbered = sound.numbered;
  stored = confirm_row-IsStored block d.tables.blocks sound.stored;
  booked = sound.booked;
}

-- `ConfirmBlock` keeps the soundness of the database: one round is open before it and after it.
pub confirm_block-IsSound :
    (faults : Faults) (block : ℕ) (d : Database)
    → IsSound d
    → IsSound (confirm_block faults block d).1
confirm_block-IsSound faults block d sound = go (confirm_block_lem faults block d)
  where
    go : {result : Outcome ℕ} {d' : Database} → Confirmation block d result d' → IsSound d'
    go (failed e) = sound
    go (ended round at opened) = next_round_opened-IsSound block round d at opened sound
    go (repeated round at closed) = confirm_only-IsSound block d sound

-- `MarkOrphaned` keeps the soundness of the database.
pub mark_as_orphaned-IsSound :
    (faults : Faults) (block : ℕ) (d : Database)
    → IsSound d
    → IsSound (mark_as_orphaned faults block d).1
unfolding orphan_only
mark_as_orphaned-IsSound faults block d sound = go (mark_as_orphaned_lem faults block d)
  where
    go : {result : Outcome (Unit {0})} {d' : Database} → Orphaning block d result d' → IsSound d'
    go (kept e) = sound
    go orphaned = record {
      one_open = sound.one_open;
      named = orphan_row-named d.tables.rounds block d.tables.blocks sound.named;
      numbered = sound.numbered;
      stored = orphan_row-IsStored block d.tables.blocks sound.stored;
      booked = sound.booked;
    }

block_added-IsSound :
    (bf : BlockFound) (snapshot : List SnapshotEntry) (d : Database)
    → has_round bf.round_id d.tables.rounds ≡ true
    → IsSound d
    → IsSound (block_added bf snapshot d)
unfolding block_added
block_added-IsSound bf snapshot d known sound = record {
  one_open = sound.one_open;
  named = All-append _ d.tables.blocks _ sound.named (known, tt);
  numbered = sound.numbered;
  stored = All-append _ d.tables.blocks _ sound.stored ((snapshot, refl), tt);
  booked = sound.booked;
}

-- `RecordUnconfirmedBlock` keeps the soundness of the database, and does not end one.
pub record_unconfirmed_block-IsSound :
    (db : OrderBy) (faults : Faults) (bf : BlockFound) (d : Database)
    → IsSound d
    → IsSound (record_unconfirmed_block db faults bf d).1
record_unconfirmed_block-IsSound db faults bf d sound =
    go (record_unconfirmed_block_lem db faults bf d)
  where
    go : {result : Outcome ℕ} {d' : Database} → Recording db bf d result d' → IsSound d'
    go (refused e) = sound
    go (recorded entries ranked fresh known) = block_added-IsSound bf _ d known sound
