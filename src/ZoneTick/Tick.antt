-- ===== src/ZoneTick/Tick.antt =====
-- A tick from its start to its end, when its callbacks come one after the other.
use mathlib.Core.List.{append-nil, append_assoc}
use gyreplane.Prelude.{
  ℕ, ◌^◌, ◌<◌, ◌≡◌, refl, ap, sym, ◌∙◌, Bool, true, false, Option, none, some, List, [], ◌∷◌, ◌++◌,
  ◌>>=◌, ◌==◌, All,
}
use gyreplane.Fdb.{Answer, Call, Wrapper, commit, on_error, future_callback}
use gyreplane.Fdb.Handles.{remove, remove_head}
use gyreplane.Fdb.Submit.{accepted, IsAligned, submitted, submitted-IsAligned}
use gyreplane.Fdb.Contract.{released, future_callback-released}
use gyreplane.ZoneTick.{
  TickCtx, Callback, on_range_read, on_error_retry, on_commit, State, Outcome, dispatch,
  error_retry, finish,
}
use gyreplane.ZoneTick.Update.{IsSafe, writes}
use gyreplane.ZoneTick.Ownership.{reported, finish-finished}
use gyreplane.ZoneTick.Handlers.{
  range_call, start_accepted, read_done, read_failed, commit_done, commit_failed,
}

-- The newest callback is made.
unfoldable pub turn_of : List (Wrapper Callback) → Outcome → Answer → State → Option State
turn_of [] out ans s = none
turn_of (w ∷ rest) out ans s = future_callback (dispatch out ans) w s

unfoldable pub turn : Outcome → Answer → State → Option State
unfolding turn_of
turn out ans s = turn_of s.wrappers out ans s

unfoldable pub turns : List (Outcome × Answer) → State → Option State
turns [] s = some s
turns (event ∷ events) s = do s ← turn event.0 event.1 s; turns events s

pub turn-released :
    (out : Outcome) (ans : Answer) (w : Wrapper Callback) (new rest : List (Wrapper Callback))
    (s s' : State)
    → s.wrappers ≡ w ∷ rest
    → dispatch out ans w.cb s ≡ some s'
    → IsAligned s'
    → s'.wrappers ≡ new ++ w ∷ rest
    → (turn out ans s ≡ some (released new rest s')) × IsAligned (released new rest s')
unfolding turn
turn-released out ans w new rest s s' at ran al grown =
    let (done, al') = future_callback-released (dispatch out ans) w new rest s s' ran al grown in
    (ap (λ ws. turn_of ws out ans s) at ∙ done, al')

-- A tick of `ctx` that was started at `s` waits for `cb`, having made these calls; its context and
-- its transaction are allocated, and nobody has been answered since.
pub record InTick (ctx : TickCtx) (cb : Callback) (made : List Call) (s s' : State) : Type 0 where
  pub future : ℕ
  pub waits : s'.wrappers ≡ record { cb = cb; future = future } ∷ s.wrappers
  pub aligned : IsAligned s'
  pub db : s'.db ≡ s.db
  pub calls : s'.calls ≡ s.calls ++ made
  pub done : s'.app.done ≡ s.app.done
  pub contexts : s'.app.contexts ≡ ctx.addr ∷ s.app.contexts
  pub transactions : s'.transactions ≡ ctx.tr ∷ s.transactions

module _ (ctx : TickCtx) (s : State) where
  -- A callback that makes the calls `more` and submits one for `cb'`.
  resubmitted :
      (out : Outcome) (ans : Answer) {cb cb' : Callback} {made : List Call} (more : List Call)
      (call : Call) {s' : State}
      → InTick ctx cb made s s'
      → accepted ans ≡ true
      → dispatch out ans cb s'
        ≡ some (submitted ans call cb' (record s' { calls = s'.calls ++ more }))
      → (s'' : State) × (turn out ans s' ≡ some s'')
        × InTick ctx cb' (made ++ (more ++ call ∷ [])) s s''
  resubmitted out ans {cb} {cb'} {made} more call {s'} t taken ran =
      let mid = record s' { calls = s'.calls ++ more } in
      let s'' = submitted ans call cb' mid in
      let al =
        submitted-IsAligned ans call cb' mid
          (record { paired = t.aligned.paired; fresh = t.aligned.fresh }) in
      let (turned, al') =
        turn-released out ans (record { cb = cb; future = t.future })
          (record { cb = cb'; future = s'.next } ∷ []) s.wrappers s' s'' t.waits ran al
          (rw taken (ap (λ ws. record { cb = cb'; future = s'.next } ∷ ws) t.waits)) in
      (
        _,
        turned,
        record {
          future = s'.next;
          waits = refl;
          aligned = al';
          db = t.db;
          calls =
              ap (λ cs. cs ++ more ++ call ∷ []) t.calls
              ∙ append_assoc (s.calls ++ made) more (call ∷ [])
              ∙ append_assoc s.calls made (more ++ call ∷ []);
          done = t.done;
          contexts = t.contexts;
          transactions = t.transactions;
        },
      )

  -- A callback that only submits one for `cb'`.
  resubmitted_alone :
      (out : Outcome) (ans : Answer) {cb cb' : Callback} {made : List Call} (call : Call)
      {s' : State}
      → InTick ctx cb made s s'
      → accepted ans ≡ true
      → dispatch out ans cb s' ≡ some (submitted ans call cb' s')
      → (s'' : State) × (turn out ans s' ≡ some s'') × InTick ctx cb' (made ++ call ∷ []) s s''
  resubmitted_alone out ans {cb' = cb'} call {s'} t taken ran =
      resubmitted out ans [] call t taken (
        ran
        ∙ ap (λ cs. some (submitted ans call cb' (record s' { calls = cs })))
            (sym (append-nil s'.calls)))

  pub read_turn :
      (out : Outcome) (ans : Answer) {made : List Call} {s' : State}
      → InTick ctx (on_range_read ctx) made s s'
      → accepted ans ≡ true
      → (out.error == 0) ≡ true
      → (out.array_error == 0) ≡ true
      → ctx.tick_count < 2 ^ 32
      → All (IsSafe ctx.tick_count) out.kvs
      → (s'' : State) × (turn out ans s' ≡ some s'')
        × InTick ctx (on_commit ctx) (made ++ (writes ctx out.kvs ++ commit ctx.tr ∷ [])) s s''
  unfolding dispatch
  read_turn out ans {s' = s'} t taken e f small safe =
      resubmitted out ans (writes ctx out.kvs) (commit ctx.tr) t taken
        (read_done out ans ctx s' e f small safe)

  pub read_failed_turn :
      (out : Outcome) (ans : Answer) {made : List Call} {s' : State}
      → InTick ctx (on_range_read ctx) made s s'
      → accepted ans ≡ true
      → (out.error == 0) ≡ false
      → (s'' : State) × (turn out ans s' ≡ some s'')
        × InTick ctx (on_error_retry ctx) (made ++ on_error ctx.tr out.error ∷ []) s s''
  unfolding dispatch
  read_failed_turn out ans {s' = s'} t taken e =
      resubmitted_alone out ans (on_error ctx.tr out.error) t taken (read_failed out ans ctx s' e)

  pub commit_failed_turn :
      (out : Outcome) (ans : Answer) {made : List Call} {s' : State}
      → InTick ctx (on_commit ctx) made s s'
      → accepted ans ≡ true
      → (out.error == 0) ≡ false
      → (s'' : State) × (turn out ans s' ≡ some s'')
        × InTick ctx (on_error_retry ctx) (made ++ on_error ctx.tr out.error ∷ []) s s''
  unfolding dispatch
  commit_failed_turn out ans {s' = s'} t taken e =
      resubmitted_alone out ans (on_error ctx.tr out.error) t taken (commit_failed out ans ctx s' e)

  -- Whatever the future of the library's own retry holds.
  pub retry_turn :
      (out : Outcome) (ans : Answer) {made : List Call} {s' : State}
      → InTick ctx (on_error_retry ctx) made s s'
      → accepted ans ≡ true
      → (s'' : State) × (turn out ans s' ≡ some s'')
        × InTick ctx (on_range_read ctx) (made ++ range_call ctx ∷ []) s s''
  unfolding dispatch error_retry
  retry_turn out ans {s' = s'} t taken =
      resubmitted_alone out ans (range_call ctx) t taken (start_accepted ans ctx s' taken)

  -- What a tick that has ended leaves: nothing of its own, the calls it made, and one report.
  pub record Ended (ok : Bool) (made : List Call) (s' : State) : Type 0 where
    pub wrappers : s'.wrappers ≡ s.wrappers
    pub aligned : IsAligned s'
    pub db : s'.db ≡ s.db
    pub calls : s'.calls ≡ s.calls ++ made
    pub done : s'.app.done ≡ reported ctx ok s.app.done
    pub contexts : s'.app.contexts ≡ s.app.contexts
    pub transactions : s'.transactions ≡ s.transactions

  ended :
      (out : Outcome) (ans : Answer) {cb : Callback} {made : List Call} (ok : Bool) {s' : State}
      → InTick ctx cb made s s'
      → (ctx.tr == 0) ≡ false
      → dispatch out ans cb s' ≡ finish ctx ok s'
      → (s'' : State) × (turn out ans s' ≡ some s'') × Ended ok made s''
  ended out ans {cb} ok {s'} t named ran =
      let end =
        finish-finished ctx ok s.transactions s.app.contexts s' named
          (ap (remove ctx.tr) t.transactions ∙ remove_head ctx.tr s.transactions)
          (ap (remove ctx.addr) t.contexts ∙ remove_head ctx.addr s.app.contexts) in
      let (turned, al) =
        turn-released out ans (record { cb = cb; future = t.future }) [] s.wrappers s' _ t.waits
          (ran ∙ end) (record { paired = t.aligned.paired; fresh = t.aligned.fresh }) t.waits in
      (
        _,
        turned,
        record {
          wrappers = refl;
          aligned = al;
          db = t.db;
          calls = t.calls;
          done = ap (reported ctx ok) t.done;
          contexts = refl;
          transactions = refl;
        },
      )

  pub commit_turn :
      (out : Outcome) (ans : Answer) {made : List Call} {s' : State}
      → InTick ctx (on_commit ctx) made s s'
      → (ctx.tr == 0) ≡ false
      → (out.error == 0) ≡ true
      → (s'' : State) × (turn out ans s' ≡ some s'') × Ended true made s''
  unfolding dispatch
  commit_turn out ans {s' = s'} t named e =
      ended out ans true t named (commit_done out ans ctx s' e)
