-- ===== src/Socket/Answers.antt =====
-- The answers on a connection (reward-service/internal/socket/server.go).
use solounlucky.Prelude.{
  ℕ, ◌+◌, ◌≡◌, refl, ap, ◌∙◌, List, [], ◌∷◌, ◌++◌, Option, none, some, length, length-append,
}
use mathlib.Core.Path.{ap₂}
use mathlib.Core.List.{append_assoc}
use solounlucky.Socket.{
  Handler, Message, coinbase, share, block_found, unknown, handle_line, handle_message, handle_conn,
}

-- The messages that want an answer.
abbrev pub wants_answer : Option Message → ℕ
wants_answer none = 0
wants_answer (some (coinbase miner fees)) = 1
wants_answer (some (share m)) = 0
wants_answer (some (block_found m)) = 1
wants_answer (some unknown) = 0

abbrev pub answers_wanted : List (Option Message) → ℕ
answers_wanted [] = 0
answers_wanted (l ∷ ls) = wants_answer l + answers_wanted ls

abbrev pub messages : List (Option Message) → List (Option Message)
messages [] = []
messages (none ∷ ls) = messages ls
messages (some m ∷ ls) = some m ∷ messages ls

module _ {S : Type 0} (handler : Handler S) where
  length-handle_line :
      (l : Option Message) (s : S) → length (handle_line handler l s).1 ≡ wants_answer l
  unfolding handle_line handle_message
  length-handle_line none s = refl
  length-handle_line (some (coinbase miner fees)) s = refl
  length-handle_line (some (share m)) s = refl
  length-handle_line (some (block_found m)) s = refl
  length-handle_line (some unknown) s = refl

  -- Each request for outputs and each block is answered by one line, whatever the handler returns, and
  -- nothing else is.
  pub length-handle_conn :
      (ls : List (Option Message)) (s : S) → length (handle_conn handler ls s).1 ≡ answers_wanted ls
  unfolding handle_conn
  length-handle_conn [] s = refl
  length-handle_conn (l ∷ ls) s =
      let s1 = (handle_line handler l s).0 in
      length-append (handle_line handler l s).1 (handle_conn handler ls s1).1
      ∙ ap₂ ◌+◌ (length-handle_line l s) (length-handle_conn ls s1)

  -- Lines that are no messages change nothing: neither the state, nor the answers, nor the shares.
  pub handle_conn-messages :
      (ls : List (Option Message)) (s : S)
      → handle_conn handler ls s ≡ handle_conn handler (messages ls) s
  unfolding handle_conn handle_line
  handle_conn-messages [] s = refl
  handle_conn-messages (none ∷ ls) s = handle_conn-messages ls s
  handle_conn-messages (some m ∷ ls) s =
      ap
        (λ r.
          let (s2, more, others) = r in
          (s2, (handle_message handler m s).1 ++ more, (handle_message handler m s).2 ++ others))
        (handle_conn-messages ls (handle_message handler m s).0)

  -- A connection may be cut in two after any line: the second part goes on from the state that the
  -- first leaves.
  pub handle_conn-append :
      (ls ms : List (Option Message)) (s : S)
      → let (s1, written, spawned) = handle_conn handler ls s in
        let (s2, more, others) = handle_conn handler ms s1 in
        handle_conn handler (ls ++ ms) s ≡ (s2, written ++ more, spawned ++ others)
  unfolding handle_conn
  handle_conn-append [] ms s = refl
  handle_conn-append (l ∷ ls) ms s =
      rw (handle_conn-append ls ms (handle_line handler l s).0, append_assoc, append_assoc)
