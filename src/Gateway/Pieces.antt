-- ===== src/Gateway/Pieces.antt =====
-- The loop of reads (datum-gateway/src/datum_reward_socket.c) on a line that arrives in pieces.
use mathlib.Core.List.{append-nil, append_assoc, head-eq_of_cons-eq, tail-eq_of_cons-eq, cons≢nil}
use solounlucky.Prelude.{
  ℕ, zero, suc, ◌+◌, ◌-◌, ◌≤◌, ◌<◌, ◌≡◌, refl, sym, ap, ◌∙◌, ◌⊎◌, inl, inr, Bool, true, false, List,
  [], ◌∷◌, ◌++◌, map, some, Text, arith, length, take, any_by, leb, ◌==◌, All, length-append,
}
use solounlucky.Gateway.Response.{max_reply, Read, bytes, receive}
use solounlucky.Gateway.Scanning.{no}

abbrev pub concat : List Text → Text
concat [] = []
concat (s ∷ ss) = s ++ concat ss

abbrev pub IsFilled : Text → Type 0
IsFilled s = 0 < length s

abbrev has_newline : Text → Bool
has_newline = any_by (λ d. d == 10)

-- The front of a line is the whole line, or has no line feed and is shorter.
front-cases :
    (line a b : Text)
    → no 10 line ≡ true
    → a ++ b ≡ line ++ 10 ∷ []
    → (a ≡ line ++ 10 ∷ []) ⊎ ((has_newline a ≡ false) × (length a ≤ length line))
front-cases line [] b h e = inr (refl, omega arith)
front-cases [] (x ∷ []) b h e = inl (ap (λ y. y ∷ []) (head-eq_of_cons-eq e))
front-cases [] (x ∷ y ∷ a) b h e = absurd (cons≢nil (tail-eq_of_cons-eq e))
front-cases (l ∷ line) (x ∷ a) b h e =
    let other : (l == 10) ≡ false = ground (arith, h) in
    let rest : no 10 line ≡ true = ground (arith, h) in
    let same : x ≡ l = head-eq_of_cons-eq e in
    elim (front-cases line a b rest (tail-eq_of_cons-eq e)) [
      | inl whole ↦ inl (rw (same, whole) refl)
      | inr (clean, shorter) ↦ inr (rw (same, other) clean, omega arith)
    ]

has_newline-line : (line : Text) → has_newline (line ++ 10 ∷ []) ≡ true
has_newline-line [] = refl
has_newline-line (c ∷ line) = ground (arith, has_newline-line line)

pub take-all : (n : ℕ) (s : Text) → length s ≤ n → take n s ≡ s
take-all zero [] h = refl
take-all zero (c ∷ s) h = absurd (omega arith)
take-all (suc n) [] h = refl
take-all (suc n) (c ∷ s) h = ap (◌∷◌ c) (take-all n s (omega arith))

receive-whole :
    (got piece : Text) (more : List Read)
    → IsFilled piece
    → length got + length piece ≤ max_reply
    → has_newline (got ++ piece) ≡ true
    → receive got (bytes piece ∷ more) ≡ some (got ++ piece)
unfolding receive
receive-whole got [] more f h e = absurd (omega arith)
receive-whole got (c ∷ s) more f h e =
    rw (take-all (max_reply - length got) (c ∷ s) (omega arith), e, receive) refl

receive-part :
    (got piece : Text) (more : List Read)
    → IsFilled piece
    → length got + length piece < max_reply
    → has_newline (got ++ piece) ≡ false
    → receive got (bytes piece ∷ more) ≡ receive (got ++ piece) more
unfolding receive
receive-part got [] more f h e = absurd (omega arith)
receive-part got (c ∷ s) more f h e =
    let room : leb max_reply (length (got ++ (c ∷ s))) ≡ false =
      rw (length-append got (c ∷ s)) (ground arith) in
    rw (take-all (max_reply - length got) (c ∷ s) (omega arith), e, room, receive) refl

pub receive-pieces :
    (line got : Text) (pieces : List Text) (more : List Read)
    → no 10 line ≡ true
    → length line < max_reply
    → All IsFilled pieces
    → has_newline got ≡ false
    → got ++ concat pieces ≡ line ++ 10 ∷ []
    → receive got (map bytes pieces ++ more) ≡ some (line ++ 10 ∷ [])
receive-pieces line got [] more n short f clean e =
    let whole : got ≡ line ++ 10 ∷ [] = sym (append-nil got) ∙ e in
    let found = has_newline-line line in cc
receive-pieces line got (piece ∷ pieces) more n short (f, fs) clean e =
    let e' : (got ++ piece) ++ concat pieces ≡ line ++ 10 ∷ [] =
      append_assoc got piece (concat pieces) ∙ e in
    let size = length-append got piece in
    elim (front-cases line (got ++ piece) (concat pieces) n e') [
      | inl whole ↦
          let sizes : length got + length piece ≡ length line + 1 =
            sym size ∙ ap length whole ∙ length-append line (10 ∷ []) in
          receive-whole got piece (map bytes pieces ++ more) f (omega arith)
            (rw whole (has_newline-line line))
          ∙ ap some whole
      | inr (clean', shorter) ↦
          receive-part got piece (map bytes pieces ++ more) f (omega arith) clean'
          ∙ receive-pieces line (got ++ piece) pieces more n short fs clean' e'
    ]
