-- ===== src/ZoneTick/Handlers.antt =====
-- The handlers of a tick: what each computes on every branch, and what it leaves behind.
use gyreplane.Prelude.{
  ◌^◌, ◌<◌, ◌≡◌, refl, subst, ◌∙◌, inl, inr, Bool, true, false, Option, some, List, ◌∷◌, ◌++◌,
  arith, ◌==◌, Bool-cases, All,
}
use gyreplane.Prelude.Int.{pos, negsuc}
use gyreplane.Kv.{entity_range_begin, entity_range_end}
use gyreplane.Fdb.{
  Answer, Call, range_read, first_greater_or_equal, want_whole, commit, on_error, async_get_range,
  async_commit, handle_error,
}
use gyreplane.Fdb.Submit.{accepted, IsAligned, submitted, request-submitted, submitted-IsAligned}
use gyreplane.ZoneTick.{
  TickCtx, Callback, on_range_read, on_error_retry, on_commit, State, Outcome, finish,
  start_range_read, error_retry, handle_range_read, handle_commit, dispatch,
}
use gyreplane.ZoneTick.Update.{IsSafe, writes, update_all-writes}
use gyreplane.ZoneTick.Ownership.{ctx_of, Owns, finish-Ends}
use gyreplane.ZoneTick.Leaves.{Leaves, submitted-Leaves, Ends-Leaves, Leaves-weaken}

abbrev pub range_call : TickCtx → Call
range_call ctx =
    range_read ctx.tr (first_greater_or_equal (entity_range_begin ctx.z_id))
      (first_greater_or_equal (entity_range_end ctx.z_id)) want_whole

module _ (ans : Answer) (ctx : TickCtx) (s : State) where
  pub start_accepted :
      accepted ans ≡ true
      → start_range_read ans ctx s ≡ some (submitted ans (range_call ctx) (on_range_read ctx) s)
  unfolding start_range_read async_get_range
  start_accepted taken =
      rw (request-submitted ans (negsuc 0) (range_call ctx) (on_range_read ctx) s) (ground arith)

  pub start_refused :
      accepted ans ≡ false
      → start_range_read ans ctx s
        ≡ finish ctx false (submitted ans (range_call ctx) (on_range_read ctx) s)
  unfolding start_range_read async_get_range
  start_refused refused =
      rw (request-submitted ans (negsuc 0) (range_call ctx) (on_range_read ctx) s) (ground arith)

-- What a handler does to a tick that owns its context and transaction: it returns, without a
-- fault, in a state where every pending callback still owns what it will use.
abbrev pub Handles : Bool → TickCtx → List TickCtx → State → Option State → Type 0
Handles taken ctx others s result = (s' : State) × (result ≡ some s') × Leaves taken ctx others s s'

-- The range read of a tick in progress, submitted or given up: it is never lost.
pub start_range_read-Handles :
    (ans : Answer) (ctx : TickCtx) (others : List TickCtx) (s : State)
    → IsAligned s
    → Owns (ctx ∷ others) s
    → Handles true ctx others s (start_range_read ans ctx s)
start_range_read-Handles ans ctx others s al own = elim (Bool-cases (accepted ans)) [
  | inl taken ↦ (
    submitted ans (range_call ctx) (on_range_read ctx) s,
    start_accepted ans ctx s taken,
    subst (λ b. Leaves b ctx others s (submitted ans (range_call ctx) (on_range_read ctx) s)) taken
        (submitted-Leaves ans (range_call ctx) (on_range_read ctx) others s al own),
  )
  | inr refused ↦
      let mid = submitted ans (range_call ctx) (on_range_read ctx) s in
      let own_mid : Owns (ctx ∷ others) mid = record {
        contexts = own.contexts;
        transactions = own.transactions;
        named = own.named;
      } in
      let (s', ran, e) = finish-Ends ctx false others mid own_mid in
      (
        s',
        start_refused ans ctx s refused ∙ ran,
        Ends-Leaves true others s (rw refused refl) refl (refl, refl)
            (submitted-IsAligned ans (range_call ctx) (on_range_read ctx) s al) e,
      )
]

-- The state after the writes of a tick.
abbrev pub written : TickCtx → Outcome → State → State
written ctx out s = record s { calls = s.calls ++ writes ctx out.kvs }

module _ (out : Outcome) (ans : Answer) (ctx : TickCtx) (s : State) where
  pub read_failed :
      (out.error == 0) ≡ false
      → handle_range_read out ans ctx s
        ≡ some (submitted ans (on_error ctx.tr out.error) (on_error_retry ctx) s)
  unfolding handle_range_read handle_error
  read_failed e =
      rw
        (
          e,
          request-submitted ans (pos out.error) (on_error ctx.tr out.error) (on_error_retry ctx) s,
        )
        refl

  pub array_failed :
      (out.error == 0) ≡ true
      → (out.array_error == 0) ≡ false
      → handle_range_read out ans ctx s ≡ finish ctx false s
  unfolding handle_range_read
  array_failed e f = rw (e, f) refl

  pub read_done :
      (out.error == 0) ≡ true
      → (out.array_error == 0) ≡ true
      → ctx.tick_count < 2 ^ 32
      → All (IsSafe ctx.tick_count) out.kvs
      → handle_range_read out ans ctx s
        ≡ some (submitted ans (commit ctx.tr) (on_commit ctx) (written ctx out s))
  unfolding handle_range_read async_commit
  read_done e f small safe =
      rw
        (
          e,
          f,
          update_all-writes ctx out.kvs s small safe,
          request-submitted ans (negsuc 0) (commit ctx.tr) (on_commit ctx) (written ctx out s),
        )
        refl

  pub commit_failed :
      (out.error == 0) ≡ false
      → handle_commit out ans ctx s
        ≡ some (submitted ans (on_error ctx.tr out.error) (on_error_retry ctx) s)
  unfolding handle_commit handle_error
  commit_failed e =
      rw
        (
          e,
          request-submitted ans (pos out.error) (on_error ctx.tr out.error) (on_error_retry ctx) s,
        )
        refl

  pub commit_done : (out.error == 0) ≡ true → handle_commit out ans ctx s ≡ finish ctx true s
  unfolding handle_commit
  commit_done e = rw e refl

module _ (out : Outcome) (ans : Answer) (ctx : TickCtx) (others : List TickCtx) (s : State)
    (al : IsAligned s) (own : Owns (ctx ∷ others) s) where
  retry_submitted :
      Leaves
        (accepted ans)
        ctx
        others
        s
        (submitted ans (on_error ctx.tr out.error) (on_error_retry ctx) s)
  retry_submitted =
      submitted-Leaves ans (on_error ctx.tr out.error) (on_error_retry ctx) others s al own

  finish-Handles : (ok : Bool) → Handles (accepted ans) ctx others s (finish ctx ok s)
  finish-Handles ok =
      let (s', ran, e) = finish-Ends ctx ok others s own in
      (s', ran, Ends-Leaves (accepted ans) others s refl refl (refl, refl) al e)

  handle_range_read-Handles :
      ctx.tick_count < 2 ^ 32
      → All (IsSafe ctx.tick_count) out.kvs
      → Handles (accepted ans) ctx others s (handle_range_read out ans ctx s)
  handle_range_read-Handles small safe = elim (Bool-cases (out.error == 0)) [
    | inr e ↦ (_, read_failed out ans ctx s e, retry_submitted)
    | inl e ↦ elim (Bool-cases (out.array_error == 0)) [
      | inr f ↦
          let (s', ran, left) = finish-Handles false in
          (s', array_failed out ans ctx s e f ∙ ran, left)
      | inl f ↦
          let left =
            submitted-Leaves ans (commit ctx.tr) (on_commit ctx) others (written ctx out s)
              (record { paired = al.paired; fresh = al.fresh })
              (record {
                contexts = own.contexts;
                transactions = own.transactions;
                named = own.named;
              }) in
          (
            _,
            read_done out ans ctx s e f small safe,
            record {
              new = left.new;
              grown = left.grown;
              aligned = left.aligned;
              owns = left.owns;
              lost = left.lost;
              accounted = left.accounted;
              nothing_lost = left.nothing_lost;
              fate = left.fate;
              kept = left.kept;
            },
          )
    ]
  ]

  handle_commit-Handles : Handles (accepted ans) ctx others s (handle_commit out ans ctx s)
  handle_commit-Handles = elim (Bool-cases (out.error == 0)) [
    | inr e ↦ (_, commit_failed out ans ctx s e, retry_submitted)
    | inl e ↦
        let (s', ran, left) = finish-Handles true in (s', commit_done out ans ctx s e ∙ ran, left)
  ]

-- The values that a callback reads can be ticked: only the range read looks at them.
abbrev pub IsSafeFor : Outcome → Callback → Type 0
IsSafeFor out cb = ((ctx_of cb).tick_count < 2 ^ 32) × All (IsSafe (ctx_of cb).tick_count) out.kvs

pub dispatch-Handles :
    (out : Outcome) (ans : Answer) (cb : Callback) (others : List TickCtx) (s : State)
    → IsAligned s
    → Owns (ctx_of cb ∷ others) s
    → IsSafeFor out cb
    → Handles (accepted ans) (ctx_of cb) others s (dispatch out ans cb s)
unfolding dispatch error_retry
dispatch-Handles out ans (on_range_read ctx) others s al own (small, safe) =
    handle_range_read-Handles out ans ctx others s al own small safe
dispatch-Handles out ans (on_error_retry ctx) others s al own safe =
    let (s', ran, left) = start_range_read-Handles ans ctx others s al own in
    (s', ran, Leaves-weaken (accepted ans) others left)
dispatch-Handles out ans (on_commit ctx) others s al own safe =
    handle_commit-Handles out ans ctx others s al own
