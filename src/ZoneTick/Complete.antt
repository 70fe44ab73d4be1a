-- ===== src/ZoneTick/Complete.antt =====
-- A tick that ends: at once, or after conflicts that make it start over.
use mathlib.Core.List.{append_assoc}
use gyreplane.Prelude.{
  ℕ, suc, ◌+◌, ◌^◌, ◌<◌, ◌≡◌, refl, subst, Bool, true, false, some, List, [], ◌∷◌, ◌++◌, arith,
  ◌>>=◌, ◌==◌, All,
}
use gyreplane.Prelude.Int.{pos}
use gyreplane.Fdb.{Answer, Call, commit, on_error}
use gyreplane.Fdb.Submit.{accepted, IsAligned, submitted, submitted-IsAligned}
use gyreplane.ZoneTick.{TickCtx, on_range_read, State, Outcome, KeyValue, zonetick_run}
use gyreplane.ZoneTick.Update.{IsSafe, writes}
use gyreplane.ZoneTick.Handlers.{range_call, start_accepted}
use gyreplane.ZoneTick.Run.{opened, opened_ctx, opened-IsAligned, run_opened}
use gyreplane.ZoneTick.Tick.{
  turns, InTick, Ended, read_turn, commit_failed_turn, retry_turn, commit_turn,
}

abbrev pub taken_answer : Answer
taken_answer = record { future = true; malloc = true; set_callback = 0 }

-- What the three futures of a round hold: entities were read, the commit fails or not.
abbrev pub read_ok : List KeyValue → Outcome
read_ok kvs = record { error = 0; array_error = 0; kvs = kvs }

abbrev pub error_only : ℕ → Outcome
error_only err = record { error = err; array_error = 0; kvs = [] }

-- A round that fails at its commit: what was read, and the error of the commit less one.
abbrev pub Conflict : Type 0
Conflict = List KeyValue × ℕ

abbrev pub conflict_events : List Conflict → List (Outcome × Answer)
conflict_events [] = []
conflict_events (c ∷ cs) =
    (read_ok c.0, taken_answer)
    ∷ (error_only (suc c.1), taken_answer)
    ∷ (error_only 0, taken_answer)
    ∷ conflict_events cs

abbrev pub tick_events : List Conflict → List KeyValue → List (Outcome × Answer)
tick_events conflicts kvs =
    conflict_events conflicts ++ (read_ok kvs, taken_answer) ∷ (error_only 0, taken_answer) ∷ []

module _ (ctx : TickCtx) where
  -- The calls of a round up to its commit, and of a round whose commit fails up to the next read.
  abbrev pub round_calls : List KeyValue → List Call
  round_calls kvs = writes ctx kvs ++ commit ctx.tr ∷ []

  abbrev pub conflict_calls : List Conflict → List Call
  conflict_calls [] = []
  conflict_calls (c ∷ cs) =
      round_calls c.0 ++ on_error ctx.tr (suc c.1) ∷ range_call ctx ∷ conflict_calls cs

  abbrev pub AllSafe : List Conflict → Type 0
  AllSafe = All (λ c. All (IsSafe ctx.tick_count) c.0)

  conflicts_turns :
      (s : State) (conflicts : List Conflict) (kvs : List KeyValue) {made : List Call} {s' : State}
      → InTick ctx (on_range_read ctx) made s s'
      → (ctx.tr == 0) ≡ false
      → ctx.tick_count < 2 ^ 32
      → AllSafe conflicts
      → All (IsSafe ctx.tick_count) kvs
      → (s'' : State) × (turns (tick_events conflicts kvs) s' ≡ some s'')
        × Ended ctx s true (made ++ (conflict_calls conflicts ++ round_calls kvs)) s''
  unfolding turns
  conflicts_turns s [] kvs t named small _ safe =
      let (s1, ran1, t1) = read_turn ctx s (read_ok kvs) taken_answer t refl refl refl small safe in
      let (s2, ran2, ended) = commit_turn ctx s (error_only 0) taken_answer t1 named refl in
      (s2, rw (ran1, ran2) refl, ended)
  conflicts_turns s (c ∷ cs) kvs {made} t named small (safe_c, safe_cs) safe =
      let joined : made
            ++ round_calls c.0
            ++ on_error ctx.tr (suc c.1) ∷ []
            ++ range_call ctx ∷ []
            ++ (conflict_calls cs ++ round_calls kvs)
          ≡ made ++ (conflict_calls (c ∷ cs) ++ round_calls kvs) =
        simp (append_assoc) in
      let (s1, ran1, t1) =
        read_turn ctx s (read_ok c.0) taken_answer t refl refl refl small safe_c in
      let (s2, ran2, t2) =
        commit_failed_turn ctx s (error_only (suc c.1)) taken_answer t1 refl (ground arith) in
      let (s3, ran3, t3) = retry_turn ctx s (error_only 0) taken_answer t2 refl in
      let (s4, ran4, ended) = conflicts_turns s cs kvs t3 named small safe_cs safe in
      (s4, rw (ran1, ran2, ran3, ran4) refl, subst (λ cs. Ended ctx s true cs s4) joined ended)

module _ (z_id tick_count : ℕ) (done_cb : Bool) (user_ctx : ℕ) (s : State) where
  -- The start of a tick whose range read is taken.
  pub started :
      (ans : Answer)
      → accepted ans ≡ true
      → s.db ≡ true
      → IsAligned s
      → let ctx = opened_ctx s z_id tick_count done_cb user_ctx in
        (s' : State) × (zonetick_run true 0 ans z_id tick_count done_cb user_ctx s
          ≡ some (pos 0, s'))
        × InTick ctx (on_range_read ctx) (range_call ctx ∷ []) s s'
  started ans taken db al =
      let ctx = opened_ctx s z_id tick_count done_cb user_ctx in
      let s' = submitted ans (range_call ctx) (on_range_read ctx) (opened s) in
      (
        s',
        run_opened true 0 ans z_id tick_count done_cb user_ctx s db refl refl s'
            (start_accepted ans ctx (opened s) taken),
        record {
          future = s.next + 1 + 1;
          waits = rw taken refl;
          aligned =
              submitted-IsAligned ans (range_call ctx) (on_range_read ctx) (opened s)
                (opened-IsAligned s al);
          db = refl;
          calls = refl;
          done = refl;
          contexts = refl;
          transactions = refl;
        },
      )

  -- In a process with a database and with futures and wrappers paired, a tick of fewer than 2 ^ 32
  -- ticks that is started with memory and a transaction, whose submissions are all taken and whose
  -- reads give entities that it can move, completes after any number of rounds whose commit fails:
  -- it makes exactly these calls, every retry reading the range anew, its `done_cb`, if it has
  -- one, is called once and with true, and its context, its transaction, its futures and its
  -- wrappers are all given back.
  pub zonetick_run_completes :
      (conflicts : List Conflict) (kvs : List KeyValue)
      → s.db ≡ true
      → IsAligned s
      → tick_count < 2 ^ 32
      → AllSafe (opened_ctx s z_id tick_count done_cb user_ctx) conflicts
      → All (IsSafe tick_count) kvs
      → let ctx = opened_ctx s z_id tick_count done_cb user_ctx in
        (s' : State) × ((do
          (rc, t) ← zonetick_run true 0 taken_answer z_id tick_count done_cb user_ctx s
          turns (tick_events conflicts kvs) t)
          ≡ some s')
        × Ended ctx s true (range_call ctx ∷ conflict_calls ctx conflicts ++ round_calls ctx kvs) s'
  zonetick_run_completes conflicts kvs db al small all_safe safe =
      let ctx = opened_ctx s z_id tick_count done_cb user_ctx in
      let (t, ran, waiting) = started taken_answer refl db al in
      let (s', ran', ended) =
        conflicts_turns ctx s conflicts kvs waiting (ground arith) small all_safe safe in
      (s', rw ran ran', ended)
