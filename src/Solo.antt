-- ===== src/Solo.antt =====
-- The solo pool: reward-service/internal/solo/handler.go.
pub mod Payouts
pub mod Rows
pub mod Server
pub mod Ending
pub mod Confirmations
use solounlucky.Prelude.{
  ℕ, suc, ◌+◌, ◌-◌, ℤ, pos, negsuc, Bool, true, false, not, ◌&&◌, List, [], ◌∷◌, ◌++◌, map, Option,
  none, some, Text, codes, length, filter, any_by, text_eq, leb, ltb, ◌==◌, if◌then◌else◌,
}
use solounlucky.Double.{of_ℕ, literal, mul, floor}
use solounlucky.Store.{Tables, SoloBlockRow}
use solounlucky.Coinbase.{pool_fee_address}
use solounlucky.Db.Outcome.{Outcome, returned, thrown, ◌>>=◌, ◌>>◌}
use solounlucky.Service.Database.{
  Database, Faults, upsert_solo_workers, insert_solo, select_solo, orphan_solo, confirm_solo,
  read_solo, execute, wrap, check, settle,
}
use solounlucky.Service.Shares.{WorkerKey, seen_workers, upsert_all}
use solounlucky.Socket.{Handler, Output, ShareMessage, BlockMessage}

unfoldable pub solo_fee_percent : ℕ
solo_fee_percent = literal 1 100

abbrev pub subsidy_sats : ℕ
subsidy_sats = 312_500_000

-- The buffer of workers, whether the channel is full, and the database.
pub record Solo : Type 0 where
  pub pending : List WorkerKey
  pub block_pending : Bool
  pub database : Database

unfoldable pub solo_fee : (fees : ℕ) → ℕ
solo_fee fees = floor (mul (of_ℕ (subsidy_sats + fees)) solo_fee_percent)

unfoldable pub solo_payout : (fees : ℕ) → ℕ
solo_payout fees = subsidy_sats + fees - solo_fee fees

-- `GetCoinbaseOutputs`, which reads no state
unfoldable pub solo_outputs : (miner : Text) (fees : ℕ) → List Output
solo_outputs miner fees =
    record { address = miner; amount_sats = pos (solo_payout fees) }
    ∷ record { address = pool_fee_address; amount_sats = pos (solo_fee fees) }
    ∷ []

-- `RecordShare`
unfoldable pub record_worker : ShareMessage → Solo → Outcome (Unit {0}) × Solo
record_worker m s =
    (returned tt, record s { pending = s.pending ++ (m.btc_address, m.worker_name) ∷ [] })

unfoldable pub pending_worker_count : Solo → ℕ
pending_worker_count s = length s.pending

unfoldable pub write_workers : Faults → List WorkerKey → Database → Outcome (Unit {0} × Database)
write_workers faults pending d = do
  workers ← wrap (codes "solo FlushWorkers") (
      execute faults upsert_solo_workers >>= λ _.
      upsert_all d.tables.now (seen_workers pending) d.tables.workers)
  returned (tt, record d { tables = record d.tables { workers = workers } })

abbrev pub after_flush :
    List WorkerKey → Outcome (Unit {0}) × Database → Solo → Outcome (Unit {0}) × Solo
after_flush [] (result, written) s = (returned tt, record s { pending = [] })
after_flush (_ ∷ _) (result, written) s = (result, record s { pending = []; database = written })

-- `FlushWorkers`
unfoldable pub flush_workers : Faults → Solo → Outcome (Unit {0}) × Solo
flush_workers faults s =
    after_flush s.pending (settle s.database (write_workers faults s.pending s.database)) s

abbrev pub with_solo_block : BlockMessage → Database → Database
with_solo_block m d = record d {
  tables = record d.tables {
    solo_blocks =
        d.tables.solo_blocks
        ++ record {
          id = d.next_solo;
          height = m.height;
          hash = m.hash;
          found_at = d.tables.now;
          finder_address = m.finder_address;
          coinbase_txid = some m.coinbase_txid;
          fees_sats = m.fees_sats;
          payout_sats = solo_payout m.fees_sats;
          confirmed = false;
          is_orphaned = false;
        }
          ∷ [];
  };
  next_solo = suc d.next_solo;
}

-- `INSERT INTO solo_blocks … ON CONFLICT (hash) DO NOTHING`
unfoldable pub add_solo_block : BlockMessage → Database → Outcome Database
add_solo_block m d = do
  check
      (leb (length m.hash) 64
        && leb (length m.finder_address) 90
        && leb (length m.coinbase_txid) 64)
      (codes "value too long for type character varying")
  returned
      (if any_by (λ b. text_eq m.hash b.hash) d.tables.solo_blocks then d else with_solo_block m d)

-- `BlockFound`
unfoldable pub solo_block_found : Faults → BlockMessage → Solo → Outcome (Unit {0}) × Solo
solo_block_found faults m s =
    elim (wrap (codes "solo BlockFound insert")
      (execute faults insert_solo >>= λ _. add_solo_block m s.database)) [
        | thrown e ↦ (thrown e, s)
        | returned d ↦ (returned tt, record s { database = d; block_pending = true })
      ]

-- `Handler` as the socket server calls it.
unfoldable pub solo_handler : Faults → Handler Solo
solo_handler faults = record {
  get_coinbase_outputs = λ s miner fees. returned (solo_outputs miner fees);
  record_share = record_worker;
  on_block_found = solo_block_found faults;
}

abbrev pub is_waiting : SoloBlockRow → Bool
is_waiting b = not b.confirmed && not b.is_orphaned

unfoldable pub confirm_solo_row : ℕ → List SoloBlockRow → List SoloBlockRow
confirm_solo_row id = map (λ b. if b.id == id then record b { confirmed = true } else b)

unfoldable pub orphan_solo_row : ℕ → List SoloBlockRow → List SoloBlockRow
orphan_solo_row id = map (λ b. if b.id == id then record b { is_orphaned = true } else b)

abbrev pub with_solo_blocks : List SoloBlockRow → Solo → Solo
with_solo_blocks bs s = record s {
  database = record s.database { tables = record s.database.tables { solo_blocks = bs } };
}

-- What a check of a block comes to, by its confirmations: it still waits, is orphaned, or is confirmed.
abbrev pub solo_verdict : Outcome ℤ → (waits orphans confirms : ℕ × Solo) → ℕ × Solo
solo_verdict (thrown e) waits orphans confirms = waits
solo_verdict (returned (negsuc n)) waits orphans confirms = orphans
solo_verdict (returned (pos n)) waits orphans confirms = if ltb n 2 then waits else confirms

-- A statement's effect, unless it fails.
abbrev pub unless_failed : Option Text → (waits done : ℕ × Solo) → ℕ × Solo
unless_failed (some e) waits done = waits
unless_failed none waits done = done

-- Whether a row is read: one whose `Scan` fails is left out, and so are the rows that are not reached
-- when reading fails, since `rows.Err()` is not asked for.
unfoldable pub is_read : Faults → SoloBlockRow → Bool
is_read faults b = elim (faults (read_solo b.id)) [ none ↦ true | some e ↦ false ]

module _ (faults : Faults) (confirmations : Text → Outcome ℤ) where
  -- `checkConfirmations` for one block
  unfoldable pub check_solo_block : SoloBlockRow → (waiting : ℕ) → Solo → ℕ × Solo
  check_solo_block b waiting s =
      let blocks = s.database.tables.solo_blocks in
      solo_verdict (confirmations b.hash) (waiting + 1, s)
        (unless_failed (faults (orphan_solo b.id)) (waiting + 1, s)
          (waiting, with_solo_blocks (orphan_solo_row b.id blocks) s))
        (unless_failed (faults (confirm_solo b.id)) (waiting + 1, s)
          (waiting, with_solo_blocks (confirm_solo_row b.id blocks) s))

  unfoldable pub check_solo_blocks : List SoloBlockRow → (waiting : ℕ) → Solo → ℕ × Solo
  check_solo_blocks [] waiting s = (waiting, s)
  check_solo_blocks (b ∷ bs) waiting s =
      let (waiting', s') = check_solo_block b waiting s in check_solo_blocks bs waiting' s'

  -- `checkConfirmations`, with the blocks in the order of the table
  unfoldable pub check_solo_confirmations : Solo → ℕ × Solo
  check_solo_confirmations s = elim (faults select_solo) [
    | some e ↦ (1, s)
    | none ↦
        check_solo_blocks
          (filter (is_read faults) (filter is_waiting s.database.tables.solo_blocks)) 0 s
  ]
