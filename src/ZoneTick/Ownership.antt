-- ===== src/ZoneTick/Ownership.antt =====
-- Who owns which context and transaction, and what the end of a tick gives back.
use gyreplane.Prelude.{
  ℕ, ◌≤◌, ◌<◌, ◌≡◌, refl, inl, inr, Bool, false, some, List, [], ◌∷◌, ◌++◌, map, arith, ◌==◌,
  if◌then◌else◌, Bool-cases, All,
}
use gyreplane.Fdb.{Wrapper}
use gyreplane.Fdb.Handles.{count, Without, remove, remove_of_count}
use gyreplane.ZoneTick.{TickCtx, Callback, on_range_read, on_error_retry, on_commit, State, finish}

abbrev pub ctx_of : Callback → TickCtx
ctx_of (on_range_read ctx) = ctx
ctx_of (on_error_retry ctx) = ctx
ctx_of (on_commit ctx) = ctx

-- The context that a pending callback will use.
abbrev pub owner : Wrapper Callback → TickCtx
owner w = ctx_of w.cb

-- Each of these ticks has a context and a transaction of its own among what is allocated.
pub record Owns (ticks : List TickCtx) (s : State) : Type 0 where
  pub contexts : (a : ℕ) → count a (map TickCtx.addr ticks) ≤ count a s.app.contexts
  pub transactions : (a : ℕ) → count a (map TickCtx.tr ticks) ≤ count a s.transactions
  pub named : All (λ ctx. (ctx.tr == 0) ≡ false) ticks

-- The calls of `done_cb` after a report.
abbrev pub reported : TickCtx → Bool → List (ℕ × Bool) → List (ℕ × Bool)
reported ctx ok done = if ctx.done_cb then done ++ (ctx.user_ctx, ok) ∷ [] else done

-- The end of a tick: its context and its transaction are given back, its `done_cb` is called once
-- if it has one, and nothing else changes.
pub record Ends (ctx : TickCtx) (ok : Bool) (others : List TickCtx) (s s' : State) : Type 0 where
  pub owns : Owns others s'
  pub wrappers : s'.wrappers ≡ s.wrappers
  pub futures : s'.futures ≡ s.futures
  pub next : s'.next ≡ s.next
  pub calls : s'.calls ≡ s.calls
  pub kept : (s'.db ≡ s.db) × (s'.active_transactions ≡ s.active_transactions)
  pub done : s'.app.done ≡ reported ctx ok s.app.done
  pub context_freed : Without ctx.addr s.app.contexts s'.app.contexts
  pub transaction_freed : Without ctx.tr s.transactions s'.transactions

head_owned :
    (ctx : TickCtx) (others : List TickCtx) (s : State)
    → Owns (ctx ∷ others) s
    → (0 < count ctx.addr s.app.contexts) × (0 < count ctx.tr s.transactions)
head_owned ctx others s own =
    (ground (arith, own.contexts ctx.addr), ground (arith, own.transactions ctx.tr))

-- The state after the end of a tick that leaves these transactions and contexts.
abbrev pub finished : TickCtx → Bool → (transactions contexts : List ℕ) → State → State
finished ctx ok transactions contexts s = record s {
  transactions = transactions;
  app = record { contexts = contexts; done = reported ctx ok s.app.done };
}

pub finish-finished :
    (ctx : TickCtx) (ok : Bool) (ts cs : List ℕ) (s : State)
    → (ctx.tr == 0) ≡ false
    → remove ctx.tr s.transactions ≡ some ts
    → remove ctx.addr s.app.contexts ≡ some cs
    → finish ctx ok s ≡ some (finished ctx ok ts cs s)
unfolding finish
finish-finished ctx ok ts cs s named t_found c_found = elim (Bool-cases ctx.done_cb) [
  | inl wanted ↦ rw (named, t_found, wanted) (rw c_found refl)
  | inr unwanted ↦ rw (named, t_found, unwanted) (rw c_found refl)
]

-- A tick that owns its context and a transaction ends without a fault.
pub finish-Ends :
    (ctx : TickCtx) (ok : Bool) (others : List TickCtx) (s : State)
    → Owns (ctx ∷ others) s
    → (s' : State) × (finish ctx ok s ≡ some s') × Ends ctx ok others s s'
finish-Ends ctx ok others s own =
    let (c_owned, t_owned) = head_owned ctx others s own in
    let (ts, t_found, t_less) = remove_of_count ctx.tr s.transactions t_owned in
    let (cs, c_found, c_less) = remove_of_count ctx.addr s.app.contexts c_owned in
    (
      finished ctx ok ts cs s,
      finish-finished ctx ok ts cs s own.named.0 t_found c_found,
      record {
        owns = record {
          contexts = λ a. ground (arith, own.contexts a, c_less a);
          transactions = λ a. ground (arith, own.transactions a, t_less a);
          named = own.named.1;
        };
        wrappers = refl;
        futures = refl;
        next = refl;
        calls = refl;
        kept = (refl, refl);
        done = refl;
        context_freed = c_less;
        transaction_freed = t_less;
      },
    )
