-- ===== src/ZoneTick/World.antt =====
-- Any number of ticks under way, in any order of their callbacks, on a database that they share.
use mathlib.Core.List.{Memᴰ}
use gyreplane.Prelude.{
  ℕ, suc, ◌^◌, ◌<◌, ◌≡◌, ◌⊎◌, Bool, true, false, some, List, [], ◌∷◌, ◌++◌, ◌==◌, All,
}
use gyreplane.Prelude.Int.{ℤ}
use gyreplane.Fdb.{Answer, Call, Wrapper, future_callback}
use gyreplane.ZoneTick.{
  TickCtx, Callback, on_range_read, on_error_retry, on_commit, State, KeyValue, Outcome, dispatch,
  zonetick_run,
}
use gyreplane.ZoneTick.Update.{IsSafe}
use gyreplane.ZoneTick.Handlers.{IsSafeFor}
use gyreplane.ZoneTick.Complete.{read_ok, error_only}
use gyreplane.ZoneTick.Store.{Database}
use gyreplane.ZoneTick.Zones.{Committed, zone_read}

-- A range read that a tick was given, and the calls that its callback made then.
pub record Read : Type 0 where
  pub ctx : TickCtx
  pub kvs : List KeyValue
  pub made : List Call

-- What goes wrong for a callback, or a retry: nothing is read or committed.
abbrev pub Fails : Outcome → Callback → Type 0
Fails out cb =
    ((out.error == 0) ≡ false)
    ⊎ ((out.array_error == 0) ≡ false) × ((ctx : TickCtx) × (cb ≡ on_range_read ctx))
    ⊎ ((ctx : TickCtx) × (cb ≡ on_error_retry ctx))

module _ {Contents : Type 0} (db : Database Contents) where
  -- The process, the database, the reads that were answered and the ticks that were committed, both
  -- with the newest in front, and the ticks whose commit the process was told of, in their order.
  pub record World : Type 0 where
    pub state : State
    pub contents : Contents
    pub reads : List Read
    pub log : List Committed
    pub told : List TickCtx

  -- The process and the database before any tick that is looked at.
  abbrev pub untouched : State → Contents → World
  untouched s c = record { state = s; contents = c; reads = []; log = []; told = [] }

  -- One step: a tick is started; a tick is given what the range of its zone holds; a commit is done;
  -- a commit is done and yet its future holds an error, since the client does not know; or a callback
  -- comes that fails or retries. FoundationDB lets a commit be done only if what the transaction has
  -- read is still what is stored, and then applies what the transaction has written.
  pub data WorldStep (v : World) : World → Type 0 where
    start :
        {s' : State} {rc : ℤ} (calloc : Bool) (create : ℕ) (ans : Answer) (z_id tick_count : ℕ)
        (done_cb : Bool) (user_ctx : ℕ)
        → v.state.db ≡ true
        → zonetick_run calloc create ans z_id tick_count done_cb user_ctx v.state ≡ some (rc, s')
        → WorldStep v (record v { state = s' })
    read :
        {s' : State} (ctx : TickCtx) (ans : Answer) (future : ℕ)
        (pre post : List (Wrapper Callback)) (made : List Call)
        → v.state.wrappers ≡ pre ++ record { cb = on_range_read ctx; future = future } ∷ post
        → ctx.z_id < 2 ^ 32
        → ctx.tick_count < 2 ^ 32
        → All (IsSafe ctx.tick_count) (zone_read db ctx.z_id v.contents)
        → future_callback
            (dispatch (read_ok (zone_read db ctx.z_id v.contents)) ans)
            (record { cb = on_range_read ctx; future = future })
            v.state
          ≡ some s'
        → s'.calls ≡ v.state.calls ++ made
        → WorldStep v (record {
          state = s';
          contents = v.contents;
          reads =
              record { ctx = ctx; kvs = zone_read db ctx.z_id v.contents; made = made } ∷ v.reads;
          log = v.log;
          told = v.told;
        })
    commit_done :
        {s' : State} (r : Read) (ans : Answer) (future : ℕ) (pre post : List (Wrapper Callback))
        → v.state.wrappers ≡ pre ++ record { cb = on_commit r.ctx; future = future } ∷ post
        → Memᴰ r v.reads
        → r.kvs ≡ zone_read db r.ctx.z_id v.contents
        → future_callback
            (dispatch (error_only 0) ans)
            (record { cb = on_commit r.ctx; future = future })
            v.state
          ≡ some s'
        → WorldStep v (record {
          state = s';
          contents = db.apply v.contents r.made;
          reads = v.reads;
          log = record { ctx = r.ctx; given = r.kvs } ∷ v.log;
          told = v.told ++ r.ctx ∷ [];
        })
    commit_unknown :
        {s' : State} (r : Read) (err : ℕ) (ans : Answer) (future : ℕ)
        (pre post : List (Wrapper Callback))
        → v.state.wrappers ≡ pre ++ record { cb = on_commit r.ctx; future = future } ∷ post
        → Memᴰ r v.reads
        → r.kvs ≡ zone_read db r.ctx.z_id v.contents
        → future_callback
            (dispatch (error_only (suc err)) ans)
            (record { cb = on_commit r.ctx; future = future })
            v.state
          ≡ some s'
        → WorldStep v (record {
          state = s';
          contents = db.apply v.contents r.made;
          reads = v.reads;
          log = record { ctx = r.ctx; given = r.kvs } ∷ v.log;
          told = v.told;
        })
    fail :
        {s' : State} (out : Outcome) (ans : Answer) (w : Wrapper Callback)
        (pre post : List (Wrapper Callback))
        → v.state.wrappers ≡ pre ++ w ∷ post
        → Fails out w.cb
        → IsSafeFor out w.cb
        → future_callback (dispatch out ans) w v.state ≡ some s'
        → WorldStep v (record v { state = s' })

  pub data WorldReach (v : World) : World → Type 0 where
    here : WorldReach v v
    next : {u w : World} → WorldReach v u → WorldStep u w → WorldReach v w
