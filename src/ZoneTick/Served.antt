-- ===== src/ZoneTick/Served.antt =====
-- The callback that is given the entities of its zone: what it calls, and that it reports no tick.
use mathlib.Core.List.{Memᴰ, append_assoc}
use gyreplane.Prelude.{ℕ, ◌^◌, ◌<◌, ◌≡◌, refl, ap, sym, subst, ◌∙◌, some, List, [], ◌∷◌, ◌++◌, All}
use gyreplane.Fdb.{Answer, commit, future_callback}
use gyreplane.Fdb.Contract.{future_callback-keeps}
use gyreplane.Fdb.Submit.{submitted}
use gyreplane.ZoneTick.{App, TickCtx, on_range_read, on_commit, State, KeyValue, dispatch}
use gyreplane.ZoneTick.Update.{IsSafe, writes}
use gyreplane.ZoneTick.Handlers.{written, read_done}
use gyreplane.ZoneTick.Complete.{read_ok}
use gyreplane.ZoneTick.World.{Read}

-- The calls of the callback that was given entities which its tick can move.
pub fired_calls :
    (ctx : TickCtx) (ans : Answer) (future : ℕ) (kvs : List KeyValue) (s s' : State)
    → ctx.tick_count < 2 ^ 32
    → All (IsSafe ctx.tick_count) kvs
    → future_callback
        (dispatch (read_ok kvs) ans)
        (record { cb = on_range_read ctx; future = future })
        s
      ≡ some s'
    → s'.calls ≡ s.calls ++ (writes ctx kvs ++ commit ctx.tr ∷ [])
unfolding dispatch
fired_calls ctx ans future kvs s s' small safe fired =
    let out = read_ok kvs in
    (future_callback-keeps (dispatch out ans) (record { cb = on_range_read ctx; future = future }) s
      (submitted ans (commit ctx.tr) (on_commit ctx) (written ctx out s)) s'
      (read_done out ans ctx s refl refl small safe) fired).0
    ∙ append_assoc s.calls (writes ctx kvs) (commit ctx.tr ∷ [])

pub fired_done :
    (ctx : TickCtx) (ans : Answer) (future : ℕ) (kvs : List KeyValue) (s s' : State)
    → ctx.tick_count < 2 ^ 32
    → All (IsSafe ctx.tick_count) kvs
    → future_callback
        (dispatch (read_ok kvs) ans)
        (record { cb = on_range_read ctx; future = future })
        s
      ≡ some s'
    → s'.app.done ≡ s.app.done
unfolding dispatch
fired_done ctx ans future kvs s s' small safe fired =
    let out = read_ok kvs in
    ap (λ (a : App). a.done)
      (future_callback-keeps (dispatch out ans) (record { cb = on_range_read ctx; future = future })
        s (submitted ans (commit ctx.tr) (on_commit ctx) (written ctx out s)) s'
        (read_done out ans ctx s refl refl small safe) fired).1

-- A read whose tick can move what it was given, with the calls that it makes then.
abbrev pub IsRead : Read → Type 0
IsRead r =
    (r.made ≡ writes r.ctx r.kvs ++ commit r.ctx.tr ∷ [])
    × (r.ctx.z_id < 2 ^ 32)
    × (r.ctx.tick_count < 2 ^ 32)
    × All (IsSafe r.ctx.tick_count) r.kvs

pub All-Memᴰ : {A : Type 0} (P : A → Type 0) (x : A) (xs : List A) → All P xs → Memᴰ x xs → P x
All-Memᴰ P x [] h m = elim m [ ]
All-Memᴰ P x (y ∷ ys) h (Memᴰ.head e) = subst P (sym e) h.0
All-Memᴰ P x (y ∷ ys) h (Memᴰ.tail m) = All-Memᴰ P x ys h.1 m
