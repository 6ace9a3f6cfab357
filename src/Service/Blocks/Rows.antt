-- ===== src/Service/Blocks/Rows.antt =====
-- What the updates of a block's row (reward-service/internal/leaderboard/service.go) leave.
use solounlucky.Prelude.{
  ℕ, ◌≡◌, Bool, true, false, List, [], ◌∷◌, some, arith, ◌==◌, if◌then◌else◌, All,
}
use solounlucky.Store.{Round, Block, SnapshotEntry}
use solounlucky.Service.Database.{has_round}
use solounlucky.Service.Blocks.{confirm_row, orphan_row}

pub confirm_row-named :
    (rounds : List Round) (block : ℕ) (bs : List Block)
    → All (λ b. has_round b.round_id rounds ≡ true) bs
    → All (λ b. has_round b.round_id rounds ≡ true) (confirm_row block bs)
unfolding confirm_row
confirm_row-named rounds block [] a = tt
confirm_row-named rounds block (b ∷ bs) (n, a) = (ground arith, confirm_row-named rounds block bs a)

pub orphan_row-named :
    (rounds : List Round) (block : ℕ) (bs : List Block)
    → All (λ b. has_round b.round_id rounds ≡ true) bs
    → All (λ b. has_round b.round_id rounds ≡ true) (orphan_row block bs)
unfolding orphan_row
orphan_row-named rounds block [] a = tt
orphan_row-named rounds block (b ∷ bs) (n, a) = (ground arith, orphan_row-named rounds block bs a)

-- The snapshot is a JSON array.
abbrev pub IsStored : Block → Type 0
IsStored b = (es : List SnapshotEntry) × (b.top_21_snapshot ≡ some es)

pub confirm_row-IsStored :
    (block : ℕ) (bs : List Block) → All IsStored bs → All IsStored (confirm_row block bs)
unfolding confirm_row
confirm_row-IsStored block [] a = tt
confirm_row-IsStored block (b ∷ bs) (p, a) = (go (b.id == block) p, confirm_row-IsStored block bs a)
  where
    go : (t : Bool) → IsStored b → IsStored (if t then record b { confirmed = true } else b)
    go true p = p
    go false p = p

pub orphan_row-IsStored :
    (block : ℕ) (bs : List Block) → All IsStored bs → All IsStored (orphan_row block bs)
unfolding orphan_row
orphan_row-IsStored block [] a = tt
orphan_row-IsStored block (b ∷ bs) (p, a) = (go (b.id == block) p, orphan_row-IsStored block bs a)
  where
    go : (t : Bool) → IsStored b → IsStored (if t then record b { is_orphaned = true } else b)
    go true p = p
    go false p = p
