-- ===== src/ZoneTick.antt =====
-- src/zf_zonetick.h and src/zf_zonetick.c: one tick of a zone, as callbacks over the adapter.
-- A tick in progress is a context on the heap, its transaction and at most one callback to come.
-- `none` is a fault of the adapter, a use of what is freed, or behaviour that C leaves undefined.
pub mod Update
pub mod Ownership
pub mod Leaves
pub mod Handlers
pub mod System
pub mod Run
pub mod Reach
pub mod Tick
pub mod Complete
pub mod Lost
pub mod Store
pub mod Zones
pub mod World
pub mod Confirmed
pub mod Serial
pub mod Served
pub mod Whole
pub mod Behind
pub mod Unknown
pub mod Progress
pub mod Tally
use gyreplane.Prelude.{
  ℕ, zero, ◌+◌, Bool, true, false, Option, none, some, List, [], ◌∷◌, ◌++◌, ◌>>=◌, ◌==◌,
  if◌then◌else◌, length,
}
use gyreplane.Prelude.Int.{ℤ, pos, negsuc}
use gyreplane.Kv.{entity_range_begin, entity_range_end, encode_entity, decode_entity}
use gyreplane.Motion.{advance}
use gyreplane.Fdb.{
  Answer, Library, create_transaction, transaction_destroy, sync_set, async_get_range, async_commit,
  handle_error,
}
use gyreplane.Fdb.Handles.{remove}

-- `zonetick_ctx_t` at the address `addr`; 0 is NULL. The adapter's thread state is the model's
-- state, and is not a field.
pub record TickCtx : Type 0 where
  pub addr : ℕ
  pub tr : ℕ
  pub z_id : ℕ
  pub tick_count : ℕ
  pub done_cb : Bool
  pub user_ctx : ℕ

-- A function given to the adapter, with its context.
pub data Callback : Type 0 where
  on_range_read on_error_retry on_commit : TickCtx → Callback

-- The contexts that are allocated, and each call of a `done_cb` with its user context and result,
-- the last one at the end.
pub record App : Type 0 where
  pub contexts : List ℕ
  pub done : List (ℕ × Bool)

abbrev pub State : Type 0
State = Library Callback App

pub record KeyValue : Type 0 where
  pub key : List ℕ
  pub value : List ℕ

-- What a future holds: the error, the error of reading the array, and the array.
pub record Outcome : Type 0 where
  pub error : ℕ
  pub array_error : ℕ
  pub kvs : List KeyValue

-- `free(ctx)`.
unfoldable pub free_ctx : ℕ → State → Option State
free_ctx addr s = do
  contexts ← remove addr s.app.contexts
  some (record s { app = record { contexts = contexts; done = s.app.done } })

-- `done_cb(user_ctx, ok)`, if there is one.
unfoldable pub report : TickCtx → Bool → State → State
report ctx ok s =
    if ctx.done_cb
    then record s {
      app = record { contexts = s.app.contexts; done = s.app.done ++ (ctx.user_ctx, ok) ∷ [] };
    }
    else s

unfoldable pub finish : TickCtx → Bool → State → Option State
unfolding free_ctx report transaction_destroy
finish ctx ok s =
    if ctx.tr == 0
    then free_ctx ctx.addr (report ctx ok s)
    else (do s ← transaction_destroy ctx.tr s; free_ctx ctx.addr (report ctx ok s))

unfoldable pub start_range_read : Answer → TickCtx → State → Option State
start_range_read ans ctx s = do
  (rc, s) ←
      async_get_range ans ctx.tr (entity_range_begin ctx.z_id) (entity_range_end ctx.z_id)
        (on_range_read ctx) s
  elim rc [ pos zero ↦ some s | _ ↦ finish ctx false s ]

unfoldable pub error_retry : Answer → TickCtx → State → Option State
error_retry ans ctx s = start_range_read ans ctx s

-- The new value of one entity, from its stored one.
unfoldable pub update_value : ℕ → List ℕ → Option (List ℕ)
update_value tick_count value = do
  ev ← decode_entity value (length value)
  ev ← advance tick_count ev
  some (encode_entity ev)

-- The loop over the key-value array.
unfoldable pub update_all : TickCtx → List KeyValue → State → Option State
update_all ctx [] s = some s
update_all ctx (kv ∷ kvs) s = do
  value ← update_value ctx.tick_count kv.value
  update_all ctx kvs (sync_set ctx.tr kv.key value s)

-- The return value of the adapter is not looked at.
unfoldable pub handle_range_read : Outcome → Answer → TickCtx → State → Option State
handle_range_read out ans ctx s =
    if out.error == 0
    then if out.array_error == 0
      then (do
        s ← update_all ctx out.kvs s
        (rc, s) ← async_commit ans ctx.tr (on_commit ctx) s
        some s)
      else finish ctx false s
    else (do (rc, s) ← handle_error ans ctx.tr out.error (on_error_retry ctx) s; some s)

unfoldable pub handle_commit : Outcome → Answer → TickCtx → State → Option State
handle_commit out ans ctx s =
    if out.error == 0
    then finish ctx true s
    else (do (rc, s) ← handle_error ans ctx.tr out.error (on_error_retry ctx) s; some s)

-- The callback that the adapter makes, on what the future holds and what the library answers to
-- the submission that the callback makes in turn.
unfoldable pub dispatch : Outcome → Answer → Callback → State → Option State
dispatch out ans (on_range_read ctx) s = handle_range_read out ans ctx s
dispatch out ans (on_error_retry ctx) s = error_retry ans ctx s
dispatch out ans (on_commit ctx) s = handle_commit out ans ctx s

-- The return code and the new state.
unfoldable pub zonetick_run :
    (calloc : Bool) (create : ℕ)
    → Answer
    → (z_id tick_count : ℕ) (done_cb : Bool) (user_ctx : ℕ) → State
    → Option (ℤ × State)
zonetick_run calloc create ans z_id tick_count done_cb user_ctx s =
    if calloc
    then (let addr = s.next in
        let s = record s {
          next = s.next + 1;
          app = record { contexts = addr ∷ s.app.contexts; done = s.app.done };
        } in
        do
          (rc, tr, s) ← create_transaction create s
          elim rc [
            | pos zero ↦ (do
              s ←
                  start_range_read ans
                    (record {
                      addr = addr;
                      tr = tr;
                      z_id = z_id;
                      tick_count = tick_count;
                      done_cb = done_cb;
                      user_ctx = user_ctx;
                    })
                    s
              some (pos 0, s))
            | _ ↦ (do s ← free_ctx addr s; some (negsuc 0, s))
          ])
    else some (negsuc 0, s)
