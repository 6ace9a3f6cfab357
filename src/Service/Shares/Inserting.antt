-- ===== src/Service/Shares/Inserting.antt =====
-- When `FlushShares` (reward-service/internal/leaderboard/service.go) goes through.
use solounlucky.Prelude.{
  ℕ, ◌≡◌, refl, true, false, some, ◌++◌, not, List, [], ◌∷◌, map, none, Text, All, All-filter,
}
use solounlucky.Js.{Number}
use solounlucky.Store.{Tables, Share, Worker}
use solounlucky.Db.Outcome.{Outcome, returned}
use solounlucky.Service.Database.{
  Database, Faults, Statement, begin_flush, insert_shares, upsert_workers, commit_flush, execute,
  has_round,
}
use solounlucky.Service.Shares.{
  PendingShare, Service, WorkerKey, same_worker, seen_workers, fits, upsert_worker, upsert_all,
  share_row, share_rows, write_shares, flush_shares, string_of,
}

module _ (numeric : Text → Outcome ℕ) (numeric_of_double : Number → Outcome ℕ) where
  -- A share that the database takes.
  pub record IsInsertable (t : Tables) (p : PendingShare) : Type 0 where
    pub fitting : fits (p.btc_address, p.worker_name) ≡ true
    pub known : has_round p.round_id t.rounds ≡ true
    pub difficulty : ℕ
    pub numeral : numeric (string_of p.difficulty) ≡ returned difficulty
    pub true_difficulty : ℕ
    pub double : numeric_of_double p.true_diff ≡ returned true_difficulty

  share_row-returned :
      (t : Tables) (p : PendingShare)
      → IsInsertable t p
      → (r : Share) × (share_row numeric numeric_of_double t p ≡ returned r)
  unfolding share_row
  share_row-returned t p i =
      let row : Share = record {
        round_id = p.round_id;
        btc_address = p.btc_address;
        worker_name = p.worker_name;
        share_difficulty = i.difficulty;
        submitted_at = t.now;
        is_stale = false;
        true_difficulty = some i.true_difficulty;
        source_port = some p.source_port;
      } in
      (row, rw (i.numeral, i.double, i.fitting, i.known, share_row) refl)

  share_rows-returned :
      (t : Tables) (ps : List PendingShare)
      → All (IsInsertable t) ps
      → (rs : List Share) × (share_rows numeric numeric_of_double t ps ≡ returned rs)
  unfolding share_rows
  share_rows-returned t [] a = ([], refl)
  share_rows-returned t (p ∷ ps) (i, a) =
      let (r, e) = share_row-returned t p i in
      let (rs, f) = share_rows-returned t ps a in (r ∷ rs, rw (e, f, share_rows) refl)

  keys-fit :
      (t : Tables) (ps : List PendingShare)
      → All (IsInsertable t) ps
      → All (λ k. fits k ≡ true) (map (λ p. (p.btc_address, p.worker_name)) ps)
  keys-fit t [] a = tt
  keys-fit t (p ∷ ps) (i, a) = (i.fitting, keys-fit t ps a)

seen_workers-All :
    (P : WorkerKey → Type 0) (ks : List WorkerKey) → All P ks → All P (seen_workers ks)
unfolding seen_workers
seen_workers-All P [] a = tt
seen_workers-All P (k ∷ ks) (h, a) =
    (h, All-filter P (λ j. not (same_worker k j)) (seen_workers ks) (seen_workers-All P ks a))

upsert_all-returned :
    (now : ℕ) (ks : List WorkerKey) (ws : List Worker)
    → All (λ k. fits k ≡ true) ks
    → (ws' : List Worker) × (upsert_all now ks ws ≡ returned ws')
unfolding upsert_all
upsert_all-returned now [] ws a = (ws, refl)
upsert_all-returned now (k ∷ ks) ws (h, a) =
    let (ws', e) = upsert_all-returned now ks (upsert_worker now k ws) a in
    (ws', rw (h, e, upsert_all) refl)

module _ (numeric : Text → Outcome ℕ) (numeric_of_double : Number → Outcome ℕ) where
  write_shares-returned :
      (faults : Faults) (ps : List PendingShare) (d : Database)
      → ((statement : Statement) → faults statement ≡ none)
      → All (IsInsertable numeric numeric_of_double d.tables) ps
      → (d' : Database) × (write_shares numeric numeric_of_double faults ps d ≡ returned (tt, d'))
  unfolding write_shares execute
  write_shares-returned faults ps d ok a =
      let (rows, e) = share_rows-returned numeric numeric_of_double d.tables ps a in
      let (workers, f) =
        upsert_all-returned d.tables.now
          (seen_workers (map (λ p. (p.btc_address, p.worker_name)) ps)) d.tables.workers
          (seen_workers-All (λ k. fits k ≡ true) _
            (keys-fit numeric numeric_of_double d.tables ps a)) in
      let d' : Database = record d {
        tables = record d.tables { shares = d.tables.shares ++ rows; workers = workers };
      } in
      (
        d',
        rw
            (
              ok begin_flush,
              ok insert_shares,
              ok upsert_workers,
              ok commit_flush,
              e,
              f,
              write_shares,
            )
            refl,
      )

  -- If no statement fails and each buffered share fits its columns, names a round that exists and has
  -- difficulties that the database converts, then the flush succeeds.
  pub flush_shares-returned :
      (faults : Faults) (s : Service) (d : Database)
      → ((statement : Statement) → faults statement ≡ none)
      → All (IsInsertable numeric numeric_of_double d.tables) s.buffer
      → (flush_shares numeric numeric_of_double faults s d).0 ≡ returned tt
  unfolding flush_shares
  flush_shares-returned faults s d ok a = go s.buffer a
    where
      go :
          (ps : List PendingShare)
          → All (IsInsertable numeric numeric_of_double d.tables) ps
          → (flush_shares numeric numeric_of_double faults (record { buffer = ps }) d).0
            ≡ returned tt
      go [] a = refl
      go (p ∷ ps) a = let (d', e) = write_shares-returned faults (p ∷ ps) d ok a in rw e refl
