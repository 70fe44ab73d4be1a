-- ===== src/ZoneTick/Lost.antt =====
-- Submissions that are refused and errors that do not go away.
use gyreplane.Prelude.{
  ℕ, suc, ◌^◌, ◌<◌, ◌≡◌, refl, Bool, true, false, some, List, [], ◌∷◌, arith, ◌>>=◌, ◌==◌,
  Bool-cases, inl, inr, All,
}
use gyreplane.Fdb.{Answer, Call, commit, on_error}
use gyreplane.Fdb.Submit.{accepted, IsAligned, submitted, submitted-IsAligned}
use gyreplane.ZoneTick.{
  TickCtx, Callback, on_range_read, on_error_retry, on_commit, State, Outcome, dispatch,
  zonetick_run,
}
use gyreplane.ZoneTick.Update.{IsSafe}
use gyreplane.ZoneTick.Handlers.{read_done, read_failed}
use gyreplane.ZoneTick.Run.{opened_ctx}
use gyreplane.ZoneTick.Tick.{turn, turns, turn-released, InTick, read_failed_turn, retry_turn}
use gyreplane.ZoneTick.Complete.{taken_answer, error_only, started}

-- A tick that nobody will go on with and nobody has answered: no callback is to come, and its
-- context and its transaction are allocated.
pub record IsLost (ctx : TickCtx) (s s' : State) : Type 0 where
  pub wrappers : s'.wrappers ≡ s.wrappers
  pub done : s'.app.done ≡ s.app.done
  pub contexts : s'.app.contexts ≡ ctx.addr ∷ s.app.contexts
  pub transactions : s'.transactions ≡ ctx.tr ∷ s.transactions

module _ (ctx : TickCtx) (s : State) where
  lost :
      (out : Outcome) (ans : Answer) {cb : Callback} {made : List Call} (cb' : Callback)
      (calls : List Call) (call : Call) {s' : State}
      → InTick ctx cb made s s'
      → accepted ans ≡ false
      → dispatch out ans cb s' ≡ some (submitted ans call cb' (record s' { calls = calls }))
      → (s'' : State) × (turn out ans s' ≡ some s'') × IsLost ctx s s''
  lost out ans {cb} cb' calls call {s'} t refused ran =
      let mid = record s' { calls = calls } in
      let al =
        submitted-IsAligned ans call cb' mid
          (record { paired = t.aligned.paired; fresh = t.aligned.fresh }) in
      let (turned, al') =
        turn-released out ans (record { cb = cb; future = t.future }) [] s.wrappers s' _ t.waits ran
          al (rw refused t.waits) in
      (
        _,
        turned,
        record {
          wrappers = refl;
          done = t.done;
          contexts = t.contexts;
          transactions = t.transactions;
        },
      )

  lost_read :
      (out : Outcome) (ans : Answer) {made : List Call} {s' : State}
      → InTick ctx (on_range_read ctx) made s s'
      → accepted ans ≡ false
      → out.array_error ≡ 0
      → ctx.tick_count < 2 ^ 32
      → All (IsSafe ctx.tick_count) out.kvs
      → (s'' : State) × (turn out ans s' ≡ some s'') × IsLost ctx s s''
  unfolding dispatch
  lost_read out ans {s' = s'} t refused f small safe = elim (Bool-cases (out.error == 0)) [
    | inl e ↦
        lost out ans (on_commit ctx) _ (commit ctx.tr) t refused
          (read_done out ans ctx s' e (ground arith) small safe)
    | inr e ↦
        lost out ans (on_error_retry ctx) s'.calls (on_error ctx.tr out.error) t refused
          (read_failed out ans ctx s' e)
  ]

  -- Rounds in which the read fails, and the library's own retry too, with these errors less one.
  abbrev pub failing : List (ℕ × ℕ) → List (Outcome × Answer)
  failing [] = []
  failing (errs ∷ more) =
      (error_only (suc errs.0), taken_answer)
      ∷ (error_only (suc errs.1), taken_answer)
      ∷ failing more

  failing-turns :
      (errors : List (ℕ × ℕ)) {made : List Call} {s' : State}
      → InTick ctx (on_range_read ctx) made s s'
      → (s'' : State) × (more : List Call) × (turns (failing errors) s' ≡ some s'')
        × InTick ctx (on_range_read ctx) more s s''
  unfolding turns
  failing-turns [] {made} {s'} t = (s', made, refl, t)
  failing-turns (errs ∷ errors) t =
      let (s1, ran1, t1) =
        read_failed_turn ctx s (error_only (suc errs.0)) taken_answer t refl (ground arith) in
      let (s2, ran2, t2) = retry_turn ctx s (error_only (suc errs.1)) taken_answer t1 refl in
      let (s3, more, ran3, t3) = failing-turns errors t2 in
      (s3, more, rw (ran1, ran2, ran3) refl, t3)

module _ (z_id tick_count : ℕ) (done_cb : Bool) (user_ctx : ℕ) (s : State) where
  -- In a process with a database and with futures and wrappers paired, a tick that was started and
  -- whose read has come, with an error or with entities that it can move, is lost if the
  -- submission that its callback makes next, of the error or of the commit, is refused: `done_cb`
  -- is not called, no callback is to come for it, and its context and its transaction stay
  -- allocated.
  pub zonetick_run_loses :
      (out : Outcome) (ans : Answer)
      → s.db ≡ true
      → IsAligned s
      → accepted ans ≡ false
      → out.array_error ≡ 0
      → tick_count < 2 ^ 32
      → All (IsSafe tick_count) out.kvs
      → (s' : State) × ((do
        (rc, t) ← zonetick_run true 0 taken_answer z_id tick_count done_cb user_ctx s
        turn out ans t)
          ≡ some s')
        × IsLost (opened_ctx s z_id tick_count done_cb user_ctx) s s'
  zonetick_run_loses out ans db al refused f small safe =
      let ctx = opened_ctx s z_id tick_count done_cb user_ctx in
      let (t, ran, waiting) = started z_id tick_count done_cb user_ctx s taken_answer refl db al in
      let (s', ran', gone) = lost_read ctx s out ans waiting refused f small safe in
      (s', rw ran ran', gone)

  -- In a process with a database and with futures and wrappers paired, a tick whose read fails
  -- again and again is retried as often, also when the library's own retry reports an error each
  -- time, if all submissions are taken: after any number of rounds it waits for its read, and
  -- nobody has been answered.
  pub zonetick_run_retries :
      (errors : List (ℕ × ℕ))
      → s.db ≡ true
      → IsAligned s
      → let ctx = opened_ctx s z_id tick_count done_cb user_ctx in
        (s' : State) × (made : List Call) × ((do
          (rc, t) ← zonetick_run true 0 taken_answer z_id tick_count done_cb user_ctx s
          turns (failing ctx s errors) t)
          ≡ some s')
        × InTick ctx (on_range_read ctx) made s s'
  zonetick_run_retries errors db al =
      let ctx = opened_ctx s z_id tick_count done_cb user_ctx in
      let (t, ran, waiting) = started z_id tick_count done_cb user_ctx s taken_answer refl db al in
      let (s', made, ran', still) = failing-turns ctx s errors waiting in
      (s', made, rw ran ran', still)
