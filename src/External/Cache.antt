-- ===== src/External/Cache.antt =====
-- What callers of `getExternalStats` (web/lib/external.ts) can rely on, over every schedule of calls and
-- completions.
use mathlib.Core.Path.{subst}
use solounlucky.Prelude.{
  sym, lt→ltb, true, ℕ, ◌+◌, ◌≤◌, ◌<◌, ◌≡◌, refl, ap, ◌∙◌, ◌⊎◌, inl, inr, List, [], ◌∷◌, All,
  Option, none, some, arith, Bool-cases, ltb→lt, ltb→le, ltb,
}
use solounlucky.External.{
  fetched, ExternalStats, Settled, Flight, idle, fetching, settling, State, initial, Answer, cached,
  joined, started, get_external_stats, answer_stale, complete, clear, is_fresh,
}

pub data Event : Type 0 where
  call : (now : ℕ) → Event
  finish : (price hashrate : Settled) (now : ℕ) → Event
  settle : Event

abbrev pub next : Event → State → State
next (call now) s = (get_external_stats now s).0
next (finish price hashrate now) s = complete price hashrate now s
next settle s = clear s

-- The fetches that an event starts and ends.
abbrev pub starts : Event → State → ℕ
starts (call now) s = elim (get_external_stats now s).1 [ started ↦ 1 | _ ↦ 0 ]
starts _ s = 0

abbrev pub ends : Event → State → ℕ
ends (finish price hashrate now) s = elim s.inflight [ fetching ↦ 1 | _ ↦ 0 ]
ends _ s = 0

-- The state, the fetches started and the fetches ended after a schedule.
pub run : List Event → State → ℕ → ℕ → State × ℕ × ℕ
run [] s a b = (s, a, b)
run (e ∷ es) s a b = run es (next e s) (a + starts e s) (b + ends e s)

abbrev pub under_way : Flight → ℕ
under_way fetching = 1
under_way _ = 0

step_balance :
    (e : Event) (s : State) (a b : ℕ)
    → a ≡ b + under_way s.inflight
    → a + starts e s ≡ b + ends e s + under_way (next e s).inflight
unfolding get_external_stats complete clear
step_balance (call now) s a b h = ground arith
step_balance (finish price hashrate now) s a b h = ground arith
step_balance settle s a b h = ground arith

run_balance :
    (es : List Event) (s : State) (a b : ℕ)
    → a ≡ b + under_way s.inflight
    → let (t, started_count, ended_count) = run es s a b in
      started_count ≡ ended_count + under_way t.inflight
unfolding run
run_balance [] s a b h = h
run_balance (e ∷ es) s a b h =
    run_balance es (next e s) (a + starts e s) (b + ends e s) (step_balance e s a b h)

-- Whatever the order of calls, completions and `finally` callbacks, the fetches started exceed the
-- fetches ended by one while a fetch is under way and by none otherwise: two are never under way.
pub one_fetch :
    (es : List Event)
    → let (t, started_count, ended_count) = run es initial 0 0 in
      started_count ≡ ended_count + under_way t.inflight
one_fetch es = run_balance es initial 0 0 refl

abbrev pub Waits : State → Answer → Type 0
Waits s answer =
    ((answer ≡ started) × (s.inflight ≡ fetching))
    ⊎ ((answer ≡ joined) × (s.inflight ≡ fetching))
    ⊎ ((answer ≡ joined) × (s.inflight ≡ settling))

answer_stale-Waits :
    (c : Option ExternalStats) (f : Flight)
    → let (s1, answer) = answer_stale record { cache = c; inflight = f } in
      (s1.cache ≡ c) × Waits s1 answer
answer_stale-Waits c idle = (refl, inl (refl, refl))
answer_stale-Waits c fetching = (refl, inr (inl (refl, refl)))
answer_stale-Waits c settling = (refl, inr (inr (refl, refl)))

abbrev IsAnswered : ℕ → State → Type 0
IsAnswered now s =
    let (s1, answer) = get_external_stats now s in
    (s1.cache ≡ s.cache)
    × (((c : ExternalStats) × (s.cache ≡ some c)
          × (now < c.fetched_at + 60_000)
          × (answer ≡ cached c))
        ⊎ ((c : ExternalStats) × (s.cache ≡ some c)
            × (c.fetched_at + 60_000 ≤ now)
            × Waits s1 answer)
        ⊎ ((s.cache ≡ none) × Waits s1 answer))

fresh_answer :
    (now : ℕ) (c : Option ExternalStats) (f : Flight)
    → IsAnswered now record { cache = c; inflight = f }
unfolding get_external_stats
fresh_answer now none f =
    let (same, waits) = answer_stale-Waits none f in (same, inr (inr (refl, waits)))
fresh_answer now (some c) f = elim (Bool-cases (ltb now (c.fetched_at + 60_000))) [
  | inl young ↦
      rw (young, get_external_stats, is_fresh) (refl, inl (c, refl, ltb→lt _ _ young, refl))
  | inr old ↦
      let (same, waits) = answer_stale-Waits (some c) f in
      rw (old, get_external_stats, is_fresh) (same, inr (inl (c, refl, ltb→le _ _ old, waits)))
]

-- A caller is answered from the cache if that has a value younger than a minute. If the cache is
-- empty or its value is older, the caller waits for a fetch, the one under way or a new one. It
-- never changes the cache itself.
pub get_external_stats_fresh :
    (now : ℕ) (s : State)
    → let (s1, answer) = get_external_stats now s in
      (s1.cache ≡ s.cache)
      × (((c : ExternalStats) × (s.cache ≡ some c)
            × (now < c.fetched_at + 60_000)
            × (answer ≡ cached c))
          ⊎ ((c : ExternalStats) × (s.cache ≡ some c)
              × (c.fetched_at + 60_000 ≤ now)
              × Waits s1 answer)
          ⊎ ((s.cache ≡ none) × Waits s1 answer))
get_external_stats_fresh now s = fresh_answer now s.cache s.inflight

-- After a schedule.
unfoldable pub after_events : List Event → State → State
after_events [] s = s
after_events (e ∷ es) s = after_events es (next e s)

-- The calls come before a time.
abbrev pub IsBefore : ℕ → Event → Type 0
IsBefore end (call now) = now < end
IsBefore end (finish price hashrate now) = Unit
IsBefore end settle = Unit

-- The cache has this value, and no fetch is under way.
record Holds (c : ExternalStats) (s : State) : Type 0 where
  cache : s.cache ≡ some c
  landed : under_way s.inflight ≡ 0

call-Holds :
    (c : ExternalStats) (now : ℕ) (s : State)
    → now < c.fetched_at + 60_000
    → Holds c s
    → get_external_stats now s ≡ (s, cached c)
unfolding get_external_stats
call-Holds c now s h holds =
    let young : ltb now (c.fetched_at + 60_000) ≡ true = lt→ltb _ _ h in
    let fresh : is_fresh now s.cache ≡ some c = ap (is_fresh now) holds.cache ∙ rw young refl in
    ap
      (λ (o : Option ExternalStats). elim o as (λ _. State × Answer) [
        | some d ↦ (s, cached d)
        | none ↦ answer_stale s
      ])
      fresh

next-Holds :
    (c : ExternalStats) (e : Event) (s : State)
    → IsBefore (c.fetched_at + 60_000) e
    → Holds c s
    → Holds c (next e s)
unfolding complete clear
next-Holds c (call now) s h holds =
    subst (Holds c) (sym (ap (λ (r : State × Answer). r.0) (call-Holds c now s h holds))) holds
next-Holds c (finish price hashrate now) s h holds = go s.inflight holds.landed
  where
    go :
        (f : Flight)
        → under_way f ≡ 0
        → Holds c (complete price hashrate now record { cache = s.cache; inflight = f })
    go idle landed = record { cache = holds.cache; landed = refl }
    go settling landed = record { cache = holds.cache; landed = refl }
    go fetching landed = absurd (omega arith)
next-Holds c settle s h holds = go s.inflight holds.landed
  where
    go : (f : Flight) → under_way f ≡ 0 → Holds c (clear record { cache = s.cache; inflight = f })
    go idle landed = record { cache = holds.cache; landed = refl }
    go settling landed = record { cache = holds.cache; landed = refl }
    go fetching landed = absurd (omega arith)

after_events-Holds :
    (c : ExternalStats) (es : List Event) (s : State)
    → All (IsBefore (c.fetched_at + 60_000)) es
    → Holds c s
    → Holds c (after_events es s)
unfolding after_events
after_events-Holds c [] s a holds = holds
after_events-Holds c (e ∷ es) s (h, a) holds =
    after_events-Holds c es (next e s) a (next-Holds c e s h holds)

complete-Holds :
    (price hashrate : Settled) (now : ℕ) (s : State)
    → s.inflight ≡ fetching
    → Holds (fetched price hashrate now) (complete price hashrate now s)
unfolding complete
complete-Holds price hashrate now s e = rw (e, complete) record { cache = refl; landed = refl }

-- When the fetch under way ends at a time, whether its two requests succeeded or not, then over any
-- schedule of callbacks of `finally`, of other ends and of calls before a minute has passed, a call
-- before a minute has passed is answered with what the fetch brought, and starts no other.
pub get_external_stats-complete :
    (price hashrate : Settled) (now later : ℕ) (es : List Event) (s : State)
    → s.inflight ≡ fetching
    → All (IsBefore (now + 60_000)) es
    → later < now + 60_000
    → let s' = after_events es (complete price hashrate now s) in
      get_external_stats later s' ≡ (s', cached (fetched price hashrate now))
unfolding fetched
get_external_stats-complete price hashrate now later es s e a h =
    let c = fetched price hashrate now in
    let s' = after_events es (complete price hashrate now s) in
    call-Holds c later s' h (
      after_events-Holds c es (complete price hashrate now s) a
        (complete-Holds price hashrate now s e))
