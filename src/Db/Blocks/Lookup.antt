-- ===== src/Db/Blocks/Lookup.antt =====
-- `getBlock` of web/lib/db.ts.
use mathlib.Core.Path.{subst}
use solounlucky.Prelude.{
  ℕ, ◌≡◌, refl, sym, ◌∙◌, ap, ◌⊎◌, inl, inr, Bool, true, false, List, [], ◌∷◌, none, some, All,
  filter, length, length-eq-count_by, Bool-cases, ◌==◌, ==_iff, if◌then◌else◌, arith,
}
use solounlucky.Js.{Number}
use solounlucky.Sql.{OrderBy}
use solounlucky.Store.{Tables, Block}
use solounlucky.Db.Outcome.{Outcome, returned}
use solounlucky.Db.Blocks.{BlockDetail, get_block, summary_of, snapshot_of}

filter-passes : (p : Block → Bool) (bs : List Block) → All (λ b. p b ≡ true) (filter p bs)
filter-passes p [] = tt
filter-passes p (b ∷ bs) = elim (Bool-cases (p b)) [
  | inl e ↦ rw e (e, filter-passes p bs)
  | inr e ↦ rw e (filter-passes p bs)
]

filter-none_passes :
    (p : Block → Bool) (bs : List Block) → length (filter p bs) ≡ 0 → All (λ b. p b ≡ false) bs
filter-none_passes p [] h = tt
filter-none_passes p (b ∷ bs) h = elim (Bool-cases (p b)) [
  | inl e ↦
      absurd
        (omega (arith, subst (λ c. length (if c then b ∷ filter p bs else filter p bs) ≡ 0) e h))
  | inr e ↦ (
    e,
    filter-none_passes p bs
        (subst (λ c. length (if c then b ∷ filter p bs else filter p bs) ≡ 0) e h),
  )
]

module _ (db : OrderBy) (to_bigint : Number → Outcome ℕ) (t : Tables) where
  abbrev matches : ℕ → Block → Bool
  matches height b = b.height == height

  abbrev found_rows : ℕ → List Block
  found_rows height = db.order_by Block (λ _ _. true) (filter (λ b. b.height == height) t.blocks)

  length-found_rows :
      (height : ℕ) → length (found_rows height) ≡ length (filter (matches height) t.blocks)
  length-found_rows height =
      length-eq-count_by (found_rows height)
      ∙ db.count_order_by Block (λ _ _. true) (λ _. true) (filter (matches height) t.blocks)
      ∙ sym (length-eq-count_by (filter (matches height) t.blocks))

  get_block-rows :
      (height : ℕ) (rows : List Block)
      → found_rows height ≡ rows
      → ((rows ≡ []) × (get_block db to_bigint (returned t) height ≡ returned none))
        ⊎ ((b : Block) × (more : List Block) × (rows ≡ b ∷ more)
            × (get_block db to_bigint (returned t) height
                ≡ returned (
                    some record {
                      summary = summary_of b;
                      hash = b.hash;
                      coinbase_txid = b.coinbase_txid;
                      top_21_snapshot = b.top_21_snapshot;
                    })))
  unfolding get_block
  get_block-rows height [] e = inl (refl, rw e)
  get_block-rows height (b ∷ more) e = inr (b, more, refl, rw e)

  -- `getBlock` gives null exactly if no block has the height; otherwise it gives a block of that height,
  -- and its number of slots is the length of its snapshot.
  pub get_block_finds :
      (height : ℕ)
      → ((get_block db to_bigint (returned t) height ≡ returned none)
          × All (λ b. (b.height == height) ≡ false) t.blocks)
        ⊎ ((d : BlockDetail) × (get_block db to_bigint (returned t) height ≡ returned (some d))
            × (d.summary.height ≡ height)
            × (d.summary.slots_filled ≡ length (snapshot_of d.top_21_snapshot)))
  unfolding summary_of
  get_block_finds height = elim (get_block-rows height (found_rows height) refl) [
    | inl (empty, e) ↦ inl (
      e,
      filter-none_passes (matches height) t.blocks
          (sym (length-found_rows height) ∙ ap length empty),
    )
    | inr (b, more, rows, e) ↦
        let all : All (λ c. matches height c ≡ true) (b ∷ more) =
          subst (All (λ c. matches height c ≡ true)) rows (
            db.All-order_by Block (λ _ _. true) (λ c. matches height c ≡ true)
              (filter (matches height) t.blocks) (filter-passes (matches height) t.blocks)) in
        inr (_, e, (==_iff b.height height).0 all.0, refl)
  ]
