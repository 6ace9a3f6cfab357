-- ===== src/Service/Shares/Flushing.antt =====
-- What `FlushShares` (reward-service/internal/leaderboard/service.go) writes, and what it loses.
use mathlib.Core.Path.{subst}
use mathlib.Core.List.{append-nil}
use solounlucky.Prelude.{
  ℕ, ◌≤◌, ◌≡◌, refl, sym, ap, ◌⊎◌, inl, inr, true, false, ◌&&◌, List, [], ◌∷◌, ◌++◌, map, Text,
  codes, arith, length, leb,
}
use solounlucky.Js.{Number}
use solounlucky.Store.{Tables, Share}
use solounlucky.Db.Outcome.{
  Outcome, returned, thrown, ◌>>=◌, Outcome-cases, >>=-eq-returned, returned-injective,
}
use solounlucky.Service.Database.{
  Database, Faults, begin_flush, insert_shares, upsert_workers, commit_flush, execute, wrap, check,
  settle, has_round,
}
use solounlucky.Service.Database.Laws.{wrap-eq-returned, check-eq-returned}
use solounlucky.Service.Shares.{
  PendingShare, Service, fits, share_row, share_rows, write_shares, flush_shares, seen_workers,
  upsert_all, string_of,
}

module _ (numeric : Text → Outcome ℕ) (numeric_of_double : Number → Outcome ℕ) where
  -- The row that is inserted for a share.
  pub record IsRow (t : Tables) (p : PendingShare) (r : Share) : Type 0 where
    pub fitting : length p.btc_address ≤ 90
    pub address : r.btc_address ≡ p.btc_address
    pub round : r.round_id ≡ p.round_id
    pub time : r.submitted_at ≡ t.now
    pub fresh : r.is_stale ≡ false
    pub known : has_round p.round_id t.rounds ≡ true

  address_fits : (n m : ℕ) → leb n 90 && leb m 64 ≡ true → n ≤ 90
  address_fits n m h = ground arith

  share_row-IsRow :
      (t : Tables) (p : PendingShare) {r : Share}
      → share_row numeric numeric_of_double t p ≡ returned r
      → IsRow t p r
  unfolding share_row
  share_row-IsRow t p {r} h =
      let (difficulty, _, h1) = >>=-eq-returned (numeric (string_of p.difficulty)) _ h in
      let (true_difficulty, _, h2) = >>=-eq-returned (numeric_of_double p.true_diff) _ h1 in
      let (_, e3, h3) = >>=-eq-returned (check (fits (p.btc_address, p.worker_name)) _) _ h2 in
      let (_, e4, h4) = >>=-eq-returned (check (has_round p.round_id t.rounds) _) _ h3 in
      subst (IsRow t p) (returned-injective h4) record {
        fitting =
            address_fits (length p.btc_address) (length p.worker_name) (check-eq-returned _ _ e3);
        address = refl;
        round = refl;
        time = refl;
        fresh = refl;
        known = check-eq-returned _ _ e4;
      }

  abbrev pub AreRows : Tables → List PendingShare → List Share → Type 0
  AreRows t [] [] = Unit
  AreRows t [] (r ∷ rs) = ⊥
  AreRows t (p ∷ ps) [] = ⊥
  AreRows t (p ∷ ps) (r ∷ rs) = IsRow t p r × AreRows t ps rs

  share_rows-AreRows :
      (t : Tables) (ps : List PendingShare) {rs : List Share}
      → share_rows numeric numeric_of_double t ps ≡ returned rs
      → AreRows t ps rs
  unfolding share_rows
  share_rows-AreRows t [] h = subst (AreRows t []) (returned-injective h) tt
  share_rows-AreRows t (p ∷ ps) h =
      let (r, e1, h1) = >>=-eq-returned (share_row numeric numeric_of_double t p) _ h in
      let (rs, e2, h2) = >>=-eq-returned (share_rows numeric numeric_of_double t ps) _ h1 in
      subst (AreRows t (p ∷ ps)) (returned-injective h2)
        (share_row-IsRow t p e1, share_rows-AreRows t ps e2)

  -- A flush that has gone through.
  pub record Written (ps : List PendingShare) (d d' : Database) : Type 0 where
    pub rows : List Share
    pub shares : d'.tables.shares ≡ d.tables.shares ++ rows
    pub inserted : AreRows d.tables ps rows
    pub rounds : d'.tables.rounds ≡ d.tables.rounds
    pub blocks : d'.tables.blocks ≡ d.tables.blocks
    pub clock : d'.tables.now ≡ d.tables.now
    pub numbers : d'.next_round ≡ d.next_round

  write_shares-Written :
      (faults : Faults) (ps : List PendingShare) (d : Database) {u : Unit {0}} {d' : Database}
      → write_shares numeric numeric_of_double faults ps d ≡ returned (u, d')
      → Written ps d d'
  unfolding write_shares
  write_shares-Written faults ps d h =
      let inserted =
        execute faults insert_shares >>= λ _. share_rows numeric numeric_of_double d.tables ps in
      let upserted = execute faults upsert_workers >>= λ _.
      upsert_all d.tables.now (seen_workers (map (λ p. (p.btc_address, p.worker_name)) ps))
        d.tables.workers in
      let (_, _, h1) =
        >>=-eq-returned (wrap (codes "FlushShares begin tx") (execute faults begin_flush)) _ h in
      let (rows, e2, h2) =
        >>=-eq-returned (wrap (codes "FlushShares batch insert shares") inserted) _ h1 in
      let (workers, _, h3) =
        >>=-eq-returned (wrap (codes "FlushShares batch upsert workers") upserted) _ h2 in
      let (_, _, h4) =
        >>=-eq-returned (wrap (codes "FlushShares commit") (execute faults commit_flush)) _ h3 in
      let (_, _, found) =
        >>=-eq-returned (execute faults insert_shares) _
          (wrap-eq-returned (codes "FlushShares batch insert shares") inserted e2) in
      subst (Written ps d) (ap (λ r. r.1) (returned-injective h4)) record {
        rows = rows;
        shares = refl;
        inserted = share_rows-AreRows d.tables ps found;
        rounds = refl;
        blocks = refl;
        clock = refl;
        numbers = refl;
      }

  abbrev flushed : Faults → List PendingShare → Database → Outcome (Unit {0}) × Service × Database
  flushed faults ps d = flush_shares numeric numeric_of_double faults (record { buffer = ps }) d

  write_shares-cases :
      (faults : Faults) (ps : List PendingShare) (d : Database)
      → let (result, d') = settle d (write_shares numeric numeric_of_double faults ps d) in
        ((result ≡ returned tt) × Written ps d d') ⊎ ((e : Text) × (result ≡ thrown e) × (d' ≡ d))
  write_shares-cases faults ps d =
      elim (Outcome-cases (write_shares numeric numeric_of_double faults ps d)) [
        | inl ((u, d'), e) ↦ rw e (inl (refl, write_shares-Written faults ps d e))
        | inr (m, e) ↦ rw e (inr (m, refl, refl))
      ]

  -- `FlushShares` is all or nothing for the database: either it succeeds, each buffered share is a new
  -- row of the round that it was buffered for, not stale and of the time of the flush, and rounds
  -- and blocks are as before; or it fails and the database is as before. The buffer is empty
  -- afterwards in both cases: the shares of a failed flush are lost.
  pub flush_shares_atomic :
      (faults : Faults) (s : Service) (d : Database)
      → let (result, s', d') = flush_shares numeric numeric_of_double faults s d in
        (s'.buffer ≡ [])
        × (((result ≡ returned tt) × Written s.buffer d d')
            ⊎ ((e : Text) × (result ≡ thrown e) × (d' ≡ d)))
  unfolding flush_shares
  flush_shares_atomic faults s d = go s.buffer
    where
      go :
          (ps : List PendingShare)
          → let (result, s', d') = flushed faults ps d in
            (s'.buffer ≡ [])
            × (((result ≡ returned tt) × Written ps d d')
                ⊎ ((e : Text) × (result ≡ thrown e) × (d' ≡ d)))
      go [] =
          let none_written : Written [] d d = record {
            rows = [];
            shares = sym (append-nil d.tables.shares);
            inserted = tt;
            rounds = refl;
            blocks = refl;
            clock = refl;
            numbers = refl;
          } in
          (refl, inl (refl, none_written))
      go (p ∷ ps) = (refl, write_shares-cases faults (p ∷ ps) d)
