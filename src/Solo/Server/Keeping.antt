-- ===== src/Solo/Server/Keeping.antt =====
-- What a step of the solo pool's server (reward-service/internal/solo/handler.go) keeps of the
-- solo blocks.
use mathlib.Core.Path.{subst}
use solounlucky.Prelude.{
  ℕ, suc, ◌≡◌, ◌≢◌, refl, sym, ◌⊎◌, inl, inr, ℤ, true, false, ◌&&◌, List, [], ◌∷◌, Text, codes,
  arith, text_eq, text_eq_iff, any_by, leb, All, All-append, All-mono, Bool-cases, length,
  if◌then◌else◌,
}
use solounlucky.Store.{SoloBlockRow}
use solounlucky.Db.Outcome.{
  Outcome, returned, ◌>>=◌, Outcome-cases, returned-injective, >>=-eq-returned,
}
use solounlucky.Service.Database.{
  Database, Faults, insert_solo, upsert_solo_workers, execute, wrap, check, settle,
}
use solounlucky.Service.Database.Laws.{wrap-eq-returned}
use solounlucky.Solo.{
  Solo, record_worker, write_workers, after_flush, flush_workers, with_solo_block, add_solo_block,
  solo_block_found, check_solo_confirmations,
}
use solounlucky.Solo.Rows.{AreDistinct, IsKept, AreDistinct-append}
use solounlucky.Service.Shares.{WorkerKey, seen_workers, upsert_all}
use solounlucky.Solo.Confirmations.{check_solo_confirmations-IsKept}
use solounlucky.Socket.{ShareMessage, BlockMessage}
use solounlucky.Solo.Server.{advance_solo}

-- The solo blocks of a database: no two have a number or a hash in common, each number has been given
-- out, each payout is that of the fees, and no block is both confirmed and orphaned.
pub record IsSoloSound (d : Database) : Type 0 where
  pub distinct : AreDistinct d.tables.solo_blocks
  pub kept : All (IsKept d.next_solo) d.tables.solo_blocks

-- A step that writes no solo block.
pub record Keeps (s s' : Solo) : Type 0 where
  pub blocks : s'.database.tables.solo_blocks ≡ s.database.tables.solo_blocks
  pub numbers : s'.database.next_solo ≡ s.database.next_solo
  pub signal : s'.block_pending ≡ s.block_pending

pub Keeps-IsSoloSound :
    (s s' : Solo) → Keeps s s' → IsSoloSound s.database → IsSoloSound s'.database
Keeps-IsSoloSound s s' k sound = record {
  distinct = rw k.blocks sound.distinct;
  kept = rw (k.blocks, k.numbers) sound.kept;
}

pub record_worker-Keeps : (m : ShareMessage) (s : Solo) → Keeps s (record_worker m s).1
unfolding record_worker
record_worker-Keeps m s = record { blocks = refl; numbers = refl; signal = refl }

pub advance_solo-Keeps : (now : ℕ) (s : Solo) → Keeps s (advance_solo now s)
unfolding advance_solo
advance_solo-Keeps now s = record { blocks = refl; numbers = refl; signal = refl }

write_workers-blocks :
    (faults : Faults) (pending : List WorkerKey) (d : Database)
    → let d' = (settle d (write_workers faults pending d)).1 in
      (d'.tables.solo_blocks ≡ d.tables.solo_blocks) × (d'.next_solo ≡ d.next_solo)
unfolding write_workers
write_workers-blocks faults pending d =
    let written = wrap (codes "solo FlushWorkers") (
      execute faults upsert_solo_workers >>= λ _.
      upsert_all d.tables.now (seen_workers pending) d.tables.workers) in
    elim (Outcome-cases written) [
      | inl (workers, e) ↦ rw (e, write_workers) (refl, refl)
      | inr (m, e) ↦ rw (e, write_workers) (refl, refl)
    ]

pub flush_workers-Keeps : (faults : Faults) (s : Solo) → Keeps s (flush_workers faults s).1
unfolding flush_workers
flush_workers-Keeps faults s =
    go s.pending (settle s.database (write_workers faults s.pending s.database))
      (write_workers-blocks faults s.pending s.database)
  where
    go :
        (pending : List WorkerKey) (r : Outcome (Unit {0}) × Database)
        → (r.1.tables.solo_blocks ≡ s.database.tables.solo_blocks)
          × (r.1.next_solo ≡ s.database.next_solo)
        → Keeps s (after_flush pending r s).1
    go [] r h = record { blocks = refl; numbers = refl; signal = refl }
    go (_ ∷ _) r (b, n) = record { blocks = b; numbers = n; signal = refl }

unseen :
    (m : BlockMessage) (bs : List SoloBlockRow)
    → any_by (λ b. text_eq m.hash b.hash) bs ≡ false
    → All (λ b. b.hash ≢ m.hash) bs
unseen m [] h = tt
unseen m (b ∷ bs) h = elim (Bool-cases (text_eq m.hash b.hash)) [
  | inl e ↦ absurd (ground (arith, h, e))
  | inr e ↦ (
    λ same. let found = (text_eq_iff m.hash b.hash).1 (sym same) in cc,
    unseen m bs (ground (arith, h)),
  )
]

both :
    (next : ℕ) (m : BlockMessage) (bs : List SoloBlockRow)
    → All (IsKept next) bs
    → All (λ b. b.hash ≢ m.hash) bs
    → All (λ b. (b.id ≢ next) × (b.hash ≢ m.hash)) bs
both next m [] k h = tt
both next m (b ∷ bs) (k, a) (h, b') =
    let below = k.numbered in (((λ e. absurd (omega (arith, e))), h), both next m bs a b')

add_solo_block-kept :
    (m : BlockMessage) (d : Database) {d' : Database}
    → IsSoloSound d
    → add_solo_block m d ≡ returned d'
    → IsSoloSound d'
unfolding add_solo_block
add_solo_block-kept m d sound h =
    let (_, _, added) =
      >>=-eq-returned
        (check
          (leb (length m.hash) 64
            && leb (length m.finder_address) 90
            && leb (length m.coinbase_txid) 64)
          (codes "value too long for type character varying"))
        _ h in
    let kept : IsSoloSound (
        if any_by (λ b. text_eq m.hash b.hash) d.tables.solo_blocks
        then d
        else with_solo_block m d) =
      elim (Bool-cases (any_by (λ b. text_eq m.hash b.hash) d.tables.solo_blocks)) [
        | inl e ↦ rw e sound
        | inr e ↦ rw e record {
          distinct = AreDistinct-append d.tables.solo_blocks _ sound.distinct (
              both d.next_solo m d.tables.solo_blocks sound.kept (unseen m d.tables.solo_blocks e));
          kept =
              All-append _ d.tables.solo_blocks _
                (All-mono _ _ d.tables.solo_blocks (λ b k. later b k) sound.kept)
                (record { numbered = omega arith; priced = refl; decided = refl }, tt);
        }
      ] in
    subst IsSoloSound (returned-injective added) kept
  where
    later : (b : SoloBlockRow) → IsKept d.next_solo b → IsKept (suc d.next_solo) b
    later b k =
        let below = k.numbered in
        record { numbered = omega arith; priced = k.priced; decided = k.decided }

-- A block that is reported is signalled, or nothing has changed.
pub solo_block_found-cases :
    (faults : Faults) (m : BlockMessage) (s : Solo)
    → ((solo_block_found faults m s).1 ≡ s)
      ⊎ ((d : Database) × (add_solo_block m s.database ≡ returned d)
          × ((solo_block_found faults m s).1 ≡ record s { database = d; block_pending = true }))
unfolding solo_block_found
solo_block_found-cases faults m s =
    let inserted = execute faults insert_solo >>= λ _. add_solo_block m s.database in
    elim (Outcome-cases (wrap (codes "solo BlockFound insert") inserted)) [
      | inl (d, e) ↦
          let (_, _, added) =
            >>=-eq-returned (execute faults insert_solo) _
              (wrap-eq-returned (codes "solo BlockFound insert") inserted e) in
          inr (d, added, rw (e, solo_block_found) refl)
      | inr (msg, e) ↦ inl (rw (e, solo_block_found) refl)
    ]

pub solo_block_found-IsSoloSound :
    (faults : Faults) (m : BlockMessage) (s : Solo)
    → IsSoloSound s.database
    → IsSoloSound (solo_block_found faults m s).1.database
solo_block_found-IsSoloSound faults m s sound = elim (solo_block_found-cases faults m s) [
  | inl same ↦ rw same sound
  | inr (d, added, e) ↦ rw e (add_solo_block-kept m s.database sound added)
]

pub check_solo_confirmations-IsSoloSound :
    (faults : Faults) (confirmations : Text → Outcome ℤ) (s : Solo)
    → IsSoloSound s.database
    → IsSoloSound (check_solo_confirmations faults confirmations s).1.database
check_solo_confirmations-IsSoloSound faults confirmations s sound =
    let (d, k) = check_solo_confirmations-IsKept faults confirmations s sound.distinct sound.kept in
    record { distinct = d; kept = k }
