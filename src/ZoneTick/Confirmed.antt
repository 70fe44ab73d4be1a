-- ===== src/ZoneTick/Confirmed.antt =====
-- Which ticks have been reported as done, and which callbacks report one.
use mathlib.Core.List.{append-nil}
use gyreplane.Prelude.{
  ℕ, ◌≡◌, refl, ap, sym, subst, ◌∙◌, inl, inr, Bool, true, false, Option, none, some, List, [], ◌∷◌,
  ◌++◌, ◌==◌, ◌>>=◌, ◌&&◌, arith, if◌then◌else◌, Bool-cases,
}
use gyreplane.Prelude.Int.{ℤ}
use mathlib.Core.Option.{some-injective}
use gyreplane.Fdb.{Answer, transaction_destroy}
use gyreplane.Fdb.Handles.{remove}
use gyreplane.Fdb.Submit.{accepted, submitted}
use gyreplane.ZoneTick.{
  TickCtx, Callback, on_range_read, on_error_retry, on_commit, State, Outcome, dispatch, free_ctx,
  report, finish, start_range_read, error_retry, zonetick_run,
}
use gyreplane.ZoneTick.Ownership.{reported}
use gyreplane.ZoneTick.Handlers.{
  range_call, start_accepted, start_refused, read_failed, array_failed, commit_failed, commit_done,
}
use gyreplane.ZoneTick.System.{IsSound}
use gyreplane.ZoneTick.Run.{opened, opened_ctx, run_refused, run_opened-Leaves}
use gyreplane.ZoneTick.World.{Fails}

-- The user contexts of the calls of `done_cb` that were made with true.
abbrev pub successes : List (ℕ × Bool) → List ℕ
successes [] = []
successes (call ∷ calls) = if call.1 then call.0 ∷ successes calls else successes calls

abbrev pub confirmed : State → List ℕ
confirmed s = successes s.app.done

-- The user contexts of the ticks that have a `done_cb`.
abbrev pub awaiting : List TickCtx → List ℕ
awaiting [] = []
awaiting (ctx ∷ ticks) = if ctx.done_cb then ctx.user_ctx ∷ awaiting ticks else awaiting ticks

pub awaiting-append : (xs ys : List TickCtx) → awaiting (xs ++ ys) ≡ awaiting xs ++ awaiting ys
awaiting-append [] ys = refl
awaiting-append (ctx ∷ xs) ys = elim (Bool-cases ctx.done_cb) [
  | inl wanted ↦ rw wanted (ap (λ us. ctx.user_ctx ∷ us) (awaiting-append xs ys))
  | inr unwanted ↦ rw unwanted (awaiting-append xs ys)
]

successes-append : (xs ys : List (ℕ × Bool)) → successes (xs ++ ys) ≡ successes xs ++ successes ys
successes-append [] ys = refl
successes-append (call ∷ calls) ys = elim (Bool-cases call.1) [
  | inl good ↦ rw good (ap (λ us. call.0 ∷ us) (successes-append calls ys))
  | inr bad ↦ rw bad (successes-append calls ys)
]

successes-reported_failed :
    (ctx : TickCtx) (done : List (ℕ × Bool)) → successes (reported ctx false done) ≡ successes done
successes-reported_failed ctx done = elim (Bool-cases ctx.done_cb) [
  | inr unwanted ↦ rw unwanted refl
  | inl wanted ↦
      rw wanted (successes-append done ((ctx.user_ctx, false) ∷ []) ∙ append-nil (successes done))
]

successes-reported_done :
    (ctx : TickCtx) (done : List (ℕ × Bool))
    → successes (reported ctx true done) ≡ successes done ++ awaiting (ctx ∷ [])
successes-reported_done ctx done = elim (Bool-cases ctx.done_cb) [
  | inr unwanted ↦ rw unwanted (sym (append-nil (successes done)))
  | inl wanted ↦ rw wanted (successes-append done ((ctx.user_ctx, true) ∷ []))
]

free_ctx_done : (addr : ℕ) (s s' : State) → free_ctx addr s ≡ some s' → s'.app.done ≡ s.app.done
unfolding free_ctx
free_ctx_done addr s s' = freed (remove addr s.app.contexts)
  where
    freed :
        (contexts : Option (List ℕ))
        → (do
          contexts ← contexts
          some (record s { app = record { contexts = contexts; done = s.app.done } }))
          ≡ some s'
        → s'.app.done ≡ s.app.done
    freed none e = absurd (ground arith)
    freed (some contexts) e = ap (λ (x : State). x.app.done) (sym (some-injective _ _ e))

report_done :
    (ctx : TickCtx) (ok : Bool) (s : State)
    → (report ctx ok s).app.done ≡ reported ctx ok s.app.done
unfolding report
report_done ctx ok s = elim (Bool-cases ctx.done_cb) [
  | inl wanted ↦ rw wanted refl
  | inr unwanted ↦ rw unwanted refl
]

finish_done :
    (ctx : TickCtx) (ok : Bool) (s s' : State)
    → finish ctx ok s ≡ some s'
    → s'.app.done ≡ reported ctx ok s.app.done
unfolding finish transaction_destroy
finish_done ctx ok s s' ran = elim (Bool-cases (ctx.tr == 0)) [
  | inl unnamed ↦
      free_ctx_done ctx.addr (report ctx ok s) s' (rw unnamed at ran) ∙ report_done ctx ok s
  | inr named ↦ destroyed (remove ctx.tr s.transactions) (rw named at ran)
]
  where
    destroyed :
        (transactions : Option (List ℕ))
        → (do
          s ← (do transactions ← transactions; some (record s { transactions = transactions }))
          free_ctx ctx.addr (report ctx ok s))
          ≡ some s'
        → s'.app.done ≡ reported ctx ok s.app.done
    destroyed none e = absurd (ground arith)
    destroyed (some transactions) e =
        let t = record s { transactions = transactions } in
        free_ctx_done ctx.addr (report ctx ok t) s' e ∙ report_done ctx ok t

confirmed-finish_failed :
    (ctx : TickCtx) (s s' : State) → finish ctx false s ≡ some s' → confirmed s' ≡ confirmed s
confirmed-finish_failed ctx s s' ran =
    ap successes (finish_done ctx false s s' ran) ∙ successes-reported_failed ctx s.app.done

-- A result that is known.
same_count :
    (s : State) {result : Option State} {t s' : State}
    → result ≡ some t
    → result ≡ some s'
    → confirmed t ≡ confirmed s
    → confirmed s' ≡ confirmed s
same_count s e f few =
    subst (λ (x : State). confirmed x ≡ confirmed s) (some-injective _ _ (sym e ∙ f)) few

confirmed-start_range_read :
    (ans : Answer) (ctx : TickCtx) (s s' : State)
    → start_range_read ans ctx s ≡ some s'
    → confirmed s' ≡ confirmed s
confirmed-start_range_read ans ctx s s' ran = elim (Bool-cases (accepted ans)) [
  | inl taken ↦ same_count s (start_accepted ans ctx s taken) ran refl
  | inr refused ↦
      confirmed-finish_failed ctx (submitted ans (range_call ctx) (on_range_read ctx) s) s'
        (sym (start_refused ans ctx s refused) ∙ ran)
]

-- A start of a tick reports none as done.
pub confirmed-zonetick_run :
    (calloc : Bool) (create : ℕ) (ans : Answer) (z_id tick_count : ℕ) (done_cb : Bool)
    (user_ctx : ℕ) (s s' : State) (rc : ℤ)
    → s.db ≡ true
    → IsSound s
    → zonetick_run calloc create ans z_id tick_count done_cb user_ctx s ≡ some (rc, s')
    → confirmed s' ≡ confirmed s
confirmed-zonetick_run calloc create ans z_id tick_count done_cb user_ctx s s' rc db ok ran =
    elim (Bool-cases (calloc && create == 0)) [
      | inr without ↦
          let (next, refused, _) =
            run_refused calloc create ans z_id tick_count done_cb user_ctx s db without in
          subst (λ (x : State). confirmed x ≡ confirmed s) (state_of refused) refl
      | inl both ↦
          let (t, taken, _, read) =
            run_opened-Leaves calloc create ans z_id tick_count done_cb user_ctx s db (ground arith)
              (ground arith) ok in
          subst (λ (x : State). confirmed x ≡ confirmed s) (state_of taken)
            (confirmed-start_range_read ans (opened_ctx s z_id tick_count done_cb user_ctx)
              (opened s) t read)
    ]
  where
    state_of :
        {code : ℤ} {t : State}
        → zonetick_run calloc create ans z_id tick_count done_cb user_ctx s ≡ some (code, t)
        → t ≡ s'
    state_of e = ap (λ (r : ℤ × State). r.1) (some-injective _ _ (sym e ∙ ran))

-- A callback that fails or retries reports none as done.
pub confirmed-dispatch_refused :
    (out : Outcome) (ans : Answer) (cb : Callback) (s s' : State)
    → Fails out cb
    → dispatch out ans cb s ≡ some s'
    → confirmed s' ≡ confirmed s
unfolding dispatch error_retry
confirmed-dispatch_refused out ans (on_range_read ctx) s s' (inl e) ran =
    same_count s (read_failed out ans ctx s e) ran refl
confirmed-dispatch_refused out ans (on_error_retry ctx) s s' (inl e) ran =
    confirmed-start_range_read ans ctx s s' ran
confirmed-dispatch_refused out ans (on_commit ctx) s s' (inl e) ran =
    same_count s (commit_failed out ans ctx s e) ran refl
confirmed-dispatch_refused out ans (on_range_read ctx) s s' (inr (inl (f, _))) ran =
    elim (Bool-cases (out.error == 0)) [
      | inr e ↦ same_count s (read_failed out ans ctx s e) ran refl
      | inl e ↦ confirmed-finish_failed ctx s s' (sym (array_failed out ans ctx s e f) ∙ ran)
    ]
confirmed-dispatch_refused out ans (on_error_retry ctx) s s' (inr (inl (f, _))) ran =
    confirmed-start_range_read ans ctx s s' ran
confirmed-dispatch_refused out ans (on_commit ctx) s s' (inr (inl (f, (other, e)))) ran =
    absurd (ground (arith, e))
confirmed-dispatch_refused out ans (on_range_read ctx) s s' (inr (inr (other, e))) ran =
    absurd (ground (arith, e))
confirmed-dispatch_refused out ans (on_error_retry ctx) s s' (inr (inr _)) ran =
    confirmed-start_range_read ans ctx s s' ran
confirmed-dispatch_refused out ans (on_commit ctx) s s' (inr (inr (other, e))) ran =
    absurd (ground (arith, e))

-- A commit that is done reports its tick.
pub confirmed-dispatch_commit :
    (out : Outcome) (ans : Answer) (ctx : TickCtx) (s s' : State)
    → (out.error == 0) ≡ true
    → dispatch out ans (on_commit ctx) s ≡ some s'
    → confirmed s' ≡ confirmed s ++ awaiting (ctx ∷ [])
unfolding dispatch
confirmed-dispatch_commit out ans ctx s s' e ran =
    ap successes (finish_done ctx true s s' (sym (commit_done out ans ctx s e) ∙ ran))
    ∙ successes-reported_done ctx s.app.done
