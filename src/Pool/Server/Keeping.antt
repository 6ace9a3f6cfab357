-- ===== src/Pool/Server/Keeping.antt =====
-- What a step of the server (reward-service/cmd/server/main.go) keeps of the database.
use mathlib.Core.Path.{subst}
use solounlucky.Prelude.{
  All, All-append, ℕ, ◌+◌, ◌≡◌, refl, sym, ap, ◌⊎◌, inl, inr, ℤ, pos, negsuc, true, List, [], ◌∷◌,
  Text, ltb, Bool-cases, Option-cases, count_by,
}
use solounlucky.Js.{Number}
use solounlucky.Sql.{OrderBy}
use solounlucky.Db.Outcome.{Outcome, returned, thrown, Outcome-cases}
use solounlucky.Service.Database.{Database, Faults}
use solounlucky.Store.{Tables, Share}
use solounlucky.Service.Shares.{flush_shares, PendingShare, set_string}
use solounlucky.Service.Shares.Flushing.{AreRows, flush_shares_atomic}
use solounlucky.Service.Ranking.{get_top_21}
use solounlucky.Service.Blocks.{
  record_unconfirmed_block, confirm_block, mark_as_orphaned, is_unconfirmed, UnconfirmedBlock,
  get_unconfirmed_blocks,
}
use solounlucky.Service.Blocks.Records.{Recording, refused, recorded, record_unconfirmed_block_lem}
use solounlucky.Service.Blocks.Sound.{
  IsBooked, IsSound, confirm_block-IsSound, mark_as_orphaned-IsSound,
  record_unconfirmed_block-IsSound,
}
use solounlucky.Socket.{ShareMessage, BlockMessage}
use solounlucky.Pool.{
  Pool, found_in, after_block, record_share, block_found, refresh_leaderboard, check_confirmations,
  check_block, check_blocks, confirm, orphan, after_confirm, after_orphan, by_confirmations,
}
use solounlucky.Pool.Server.{flush, advance}

abbrev pub waiting : Pool → ℕ
waiting p = count_by is_unconfirmed p.database.tables.blocks

-- A step that writes no block and no round.
pub record Keeps (p p' : Pool) : Type 0 where
  pub sound : IsSound p.database → IsSound p'.database
  pub blocks : p'.database.tables.blocks ≡ p.database.tables.blocks
  pub signal : p'.block_pending ≡ p.block_pending

Keeps-refl : (p : Pool) → Keeps p p
Keeps-refl p = record { sound = λ s. s; blocks = refl; signal = refl }

pub record_share-Keeps : (m : ShareMessage) (p : Pool) → Keeps p (record_share m p).1
unfolding record_share
record_share-Keeps m p = elim (Option-cases (set_string m.difficulty)) [
  | inl e ↦ rw (e, record_share) (Keeps-refl p)
  | inr (d, e) ↦ rw (e, record_share) record { sound = λ s. s; blocks = refl; signal = refl }
]

pub refresh_leaderboard-Keeps :
    (db : OrderBy) (faults : Faults) (p : Pool) → Keeps p (refresh_leaderboard db faults p)
unfolding refresh_leaderboard
refresh_leaderboard-Keeps db faults p =
    elim (Outcome-cases (get_top_21 db faults p.database.tables p.round_id)) [
      | inl (entries, e) ↦
          rw (e, refresh_leaderboard) record { sound = λ s. s; blocks = refl; signal = refl }
      | inr (m, e) ↦ rw (e, refresh_leaderboard) (Keeps-refl p)
    ]

AreRows-IsBooked :
    (numeric : Text → Outcome ℕ) (numeric_of_double : Number → Outcome ℕ) (t : Tables)
    (ps : List PendingShare) (rs : List Share)
    → AreRows numeric numeric_of_double t ps rs
    → All (IsBooked t.rounds) rs
AreRows-IsBooked numeric numeric_of_double t [] [] h = tt
AreRows-IsBooked numeric numeric_of_double t [] (r ∷ rs) h = absurd h
AreRows-IsBooked numeric numeric_of_double t (p ∷ ps) [] h = absurd h
AreRows-IsBooked numeric numeric_of_double t (p ∷ ps) (r ∷ rs) (h, a) =
    ((h.fresh, rw h.round h.known), AreRows-IsBooked numeric numeric_of_double t ps rs a)

pub flush-Keeps :
    (numeric : Text → Outcome ℕ) (numeric_of_double : Number → Outcome ℕ) (faults : Faults)
    (p : Pool)
    → Keeps p (flush numeric numeric_of_double faults p)
unfolding flush
flush-Keeps numeric numeric_of_double faults p =
    let d' = (flush_shares numeric numeric_of_double faults p.service p.database).2 in
    elim ((flush_shares_atomic numeric numeric_of_double faults p.service p.database).1) [
      | inl (e, w) ↦ record {
        sound = λ s. record {
          one_open = rw w.rounds s.one_open;
          named = rw (w.blocks, w.rounds) s.named;
          numbered = rw (w.rounds, w.numbers) s.numbered;
          stored = rw w.blocks s.stored;
          booked =
              subst (λ rounds. All (IsBooked rounds) d'.tables.shares) (sym w.rounds)
                (subst (All (IsBooked p.database.tables.rounds)) (sym w.shares) (
                  All-append _ p.database.tables.shares w.rows s.booked (
                    AreRows-IsBooked numeric numeric_of_double p.database.tables p.service.buffer
                      w.rows w.inserted)));
        };
        blocks = w.blocks;
        signal = refl;
      }
      | inr (m, e, same) ↦ record {
        sound = λ s. rw same s;
        blocks = ap (λ d. d.tables.blocks) same;
        signal = refl;
      }
    ]

pub advance-Keeps : (now : ℕ) (p : Pool) → Keeps p (advance now p)
unfolding advance
advance-Keeps now p = record {
  sound = λ s. record {
    one_open = s.one_open;
    named = s.named;
    numbered = s.numbered;
    stored = s.stored;
    booked = s.booked;
  };
  blocks = refl;
  signal = refl;
}

-- A step whose result decides nothing about the database that it leaves.
database_left :
    (p : Pool) (result : Outcome ℕ) (written : Database)
    → (after_block p result written).1.database ≡ written
database_left p (thrown e) written = refl
database_left p (returned id) written = refl

pub block_found-IsSound :
    (db : OrderBy) (faults : Faults) (m : BlockMessage) (p : Pool)
    → IsSound p.database
    → IsSound (block_found db faults m p).1.database
unfolding block_found
block_found-IsSound db faults m p sound =
    let (result, written) = record_unconfirmed_block db faults (found_in p.round_id m) p.database in
    subst IsSound (sym (database_left p result written))
      (record_unconfirmed_block-IsSound db faults (found_in p.round_id m) p.database sound)

-- A block that is added is signalled.
pub block_found-waiting :
    (db : OrderBy) (faults : Faults) (m : BlockMessage) (p : Pool)
    → let p' = (block_found db faults m p).1 in
      (p'.block_pending ≡ true) ⊎ ((p'.block_pending ≡ p.block_pending) × (waiting p' ≡ waiting p))
unfolding block_found
block_found-waiting db faults m p =
    go (record_unconfirmed_block_lem db faults (found_in p.round_id m) p.database)
  where
    go :
        {result : Outcome ℕ} {d' : Database}
        → Recording db (found_in p.round_id m) p.database result d'
        → let p' = (after_block p result d').1 in
          (p'.block_pending ≡ true)
          ⊎ ((p'.block_pending ≡ p.block_pending) × (waiting p' ≡ waiting p))
    go (refused e) = inr (refl, refl)
    go (recorded entries ranked fresh known) = inl refl

orphan-IsSound :
    (faults : Faults) (u : UnconfirmedBlock) (pending : ℕ) (p : Pool)
    → IsSound p.database
    → IsSound (orphan faults u pending p).1.database
unfolding orphan
orphan-IsSound faults u pending p sound =
    let (result, written) = mark_as_orphaned faults u.id p.database in
    go result written (mark_as_orphaned-IsSound faults u.id p.database sound)
  where
    go :
        (result : Outcome (Unit {0})) (written : Database)
        → IsSound written
        → IsSound (after_orphan pending p result written).1.database
    go (thrown e) written s = s
    go (returned tt) written s = s

confirm-IsSound :
    (faults : Faults) (u : UnconfirmedBlock) (pending : ℕ) (p : Pool)
    → IsSound p.database
    → IsSound (confirm faults u pending p).1.database
unfolding confirm
confirm-IsSound faults u pending p sound =
    let (result, written) = confirm_block faults u.id p.database in
    go result written (confirm_block-IsSound faults u.id p.database sound)
  where
    go :
        (result : Outcome ℕ) (written : Database)
        → IsSound written
        → IsSound (after_confirm pending p result written).1.database
    go (thrown e) written s = s
    go (returned round) written s = s

module _ (faults : Faults) (confirmations : Text → Outcome ℤ) where
  check_block-IsSound :
      (u : UnconfirmedBlock) (pending : ℕ) (p : Pool)
      → IsSound p.database
      → IsSound (check_block faults confirmations u pending p).1.database
  unfolding check_block
  check_block-IsSound u pending p sound = go (confirmations u.hash)
    where
      go :
          (o : Outcome ℤ)
          → IsSound
              (by_confirmations o
                (pending + 1, p)
                (orphan faults u pending p)
                (confirm faults u pending p)).1.database
      go (thrown e) = sound
      go (returned (negsuc n)) = orphan-IsSound faults u pending p sound
      go (returned (pos n)) = elim (Bool-cases (ltb n 2)) [
        | inl few ↦ rw few sound
        | inr more ↦ rw more (confirm-IsSound faults u pending p sound)
      ]

  check_blocks-IsSound :
      (us : List UnconfirmedBlock) (pending : ℕ) (p : Pool)
      → IsSound p.database
      → IsSound (check_blocks faults confirmations us pending p).1.database
  unfolding check_blocks
  check_blocks-IsSound [] pending p sound = sound
  check_blocks-IsSound (u ∷ us) pending p sound =
      let (pending', p') = check_block faults confirmations u pending p in
      check_blocks-IsSound us pending' p' (check_block-IsSound u pending p sound)

  pub check_confirmations-IsSound :
      (db : OrderBy) (p : Pool)
      → IsSound p.database
      → IsSound (check_confirmations faults confirmations db p).1.database
  unfolding check_confirmations
  check_confirmations-IsSound db p sound =
      elim (Outcome-cases (get_unconfirmed_blocks db faults p.database.tables)) [
        | inl (us, e) ↦ rw (e, check_confirmations) (check_blocks-IsSound us 0 p sound)
        | inr (m, e) ↦ rw (e, check_confirmations) sound
      ]
