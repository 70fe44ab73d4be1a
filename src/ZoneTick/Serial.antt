-- ===== src/ZoneTick/Serial.antt =====
-- However the ticks of the process are interleaved, the database passes through the history of those
-- that were committed.
use mathlib.Core.List.{append_assoc, append-nil, append_cancel_left}
use mathlib.Core.Option.{map, some-injective}
use gyreplane.Prelude.{
  ℕ, suc, inl, ◌^◌, ◌≤◌, ◌<◌, ◌≡◌, refl, ap, sym, subst, ◌∙◌, some, List, [], ◌∷◌, ◌++◌, arith, All,
  length, length-append,
}
use gyreplane.Prelude.Int.{ℤ}
use gyreplane.Kv.Range.{InZone}
use gyreplane.Motion.Advance.{advanced}
use gyreplane.Fdb.{Answer, Wrapper, commit, future_callback}
use gyreplane.Fdb.Contract.{future_callback_inverse}
use gyreplane.Fdb.Submit.{submitted}
use gyreplane.ZoneTick.{App, Callback, on_range_read, on_commit, State, Outcome, dispatch}
use gyreplane.ZoneTick.Update.{IsSafe, writes}
use gyreplane.ZoneTick.Handlers.{IsSafeFor, written, read_done}
use gyreplane.ZoneTick.System.{IsSound, fire-Sound}
use gyreplane.ZoneTick.Run.{zonetick_run-Sound}
use gyreplane.ZoneTick.Complete.{read_ok, error_only, taken_answer}
use gyreplane.ZoneTick.Store.{Database, IsWhole}
use gyreplane.ZoneTick.Whole.{History-entity_at}
use gyreplane.ZoneTick.Zones.{
  Committed, elapsed, given_for, zone_read, entity_at, History, History-given,
}
use gyreplane.ZoneTick.Confirmed.{
  successes, confirmed, awaiting, awaiting-append, confirmed-zonetick_run,
  confirmed-dispatch_refused, confirmed-dispatch_commit,
}
use gyreplane.ZoneTick.Served.{fired_calls, fired_done, IsRead, All-Memᴰ}
use gyreplane.ZoneTick.World.{
  Read, World, WorldStep, start, read, commit_done, commit_unknown, fail, untouched, WorldReach,
  here, next,
}

module _ {Contents : Type 0} (db : Database Contents) where
  -- A commit of a read that is still what is stored is one more tick of the history.
  committed :
      (r : Read) (s : State) (c c' : Contents) (log : List Committed)
      → IsRead r
      → r.kvs ≡ zone_read db r.ctx.z_id c'
      → History db c log c'
      → History db c (record { ctx = r.ctx; given = r.kvs } ∷ log) (db.apply c' r.made)
  committed r s c c' log (made, zone, small, safe) current before =
      let ctx = r.ctx in
      let out = read_ok (zone_read db ctx.z_id c') in
      subst (λ kvs. History db c (record { ctx = ctx; given = kvs } ∷ log) (db.apply c' r.made))
        (sym current)
        (History.tick ctx taken_answer s
          (submitted taken_answer (commit ctx.tr) (on_commit ctx) (written ctx out s)) r.made before
          zone small (subst (All (IsSafe ctx.tick_count)) current safe)
          (read_done out taken_answer ctx s refl refl small
            (subst (All (IsSafe ctx.tick_count)) current safe))
          (append_assoc s.calls _ _
            ∙ ap (λ calls. s.calls ++ calls)
                (ap (λ kvs. writes ctx kvs ++ commit ctx.tr ∷ []) (sym current) ∙ sym made)))

  -- What holds of the process and the database since the contents were `c` and the ticks `before`
  -- had been reported as done.
  pub record IsSerial (c : Contents) (before : List ℕ) (v : World db) : Type 0 where
    pub sound : IsSound v.state
    pub reads : All IsRead v.reads
    pub history : History db c v.log v.contents
    pub honest : confirmed v.state ≡ before ++ awaiting v.told
    pub fewer : length v.told ≤ length v.log

  pub fired-IsSound :
      (out : Outcome) (ans : Answer) (w : Wrapper Callback) (pre post : List (Wrapper Callback))
      (s s' : State)
      → s.wrappers ≡ pre ++ w ∷ post
      → IsSound s
      → IsSafeFor out w.cb
      → future_callback (dispatch out ans) w s ≡ some s'
      → IsSound s'
  fired-IsSound out ans w pre post s s' at ok safe fired =
      let (t, ran, good, _) = fire-Sound out ans w pre post s at ok safe in
      subst IsSound (some-injective _ _ (sym ran ∙ fired)) good.sound

  WorldStep-IsSerial :
      {c : Contents} {before : List ℕ} {v v' : World db}
      → IsSerial c before v
      → WorldStep db v v'
      → IsSerial c before v'
  WorldStep-IsSerial {v = v} ok
        (start {s'} calloc create ans z_id tick_count done_cb user_ctx has_db ran) =
      let (rc, t, ran', _, good, _, _) =
        zonetick_run-Sound calloc create ans z_id tick_count done_cb user_ctx v.state has_db
          ok.sound in
      let same = ap (λ (r : ℤ × State). r.1) (some-injective _ _ (sym ran' ∙ ran)) in
      record {
        sound = subst IsSound same good.sound;
        reads = ok.reads;
        history = ok.history;
        honest =
            confirmed-zonetick_run calloc create ans z_id tick_count done_cb user_ctx v.state s' _
              has_db ok.sound ran
            ∙ ok.honest;
        fewer = ok.fewer;
      }
  WorldStep-IsSerial {v = v} ok
        (read {s'} ctx ans future pre post made at zone small safe fired called) =
      let kvs = zone_read db ctx.z_id v.contents in
      record {
        sound =
            fired-IsSound (read_ok kvs) ans (record { cb = on_range_read ctx; future = future }) pre
              post v.state s' at ok.sound (small, safe) fired;
        reads = (
          (
            append_cancel_left v.state.calls made _
                (sym called ∙ fired_calls ctx ans future kvs v.state s' small safe fired),
            zone,
            small,
            safe,
          ),
          ok.reads,
        );
        history = ok.history;
        honest =
            ap successes (fired_done ctx ans future kvs v.state s' small safe fired) ∙ ok.honest;
        fewer = ok.fewer;
      }
  WorldStep-IsSerial {c = c} {before = before} {v = v} ok
        (commit_done {s'} r ans future pre post at known current fired) =
      let fine = All-Memᴰ IsRead r v.reads ok.reads known in
      record {
        sound =
            fired-IsSound (error_only 0) ans (record { cb = on_commit r.ctx; future = future }) pre
              post v.state s' at ok.sound (fine.2, tt) fired;
        reads = ok.reads;
        history = committed r v.state c v.contents v.log fine current ok.history;
        honest =
            let (mid, ran, _, same_app) =
              future_callback_inverse (dispatch (error_only 0) ans)
                (record { cb = on_commit r.ctx; future = future }) v.state s' fired in
            ap (λ (a : App). successes a.done) same_app
            ∙ confirmed-dispatch_commit (error_only 0) ans r.ctx v.state mid refl ran
            ∙ ap (λ us. us ++ awaiting (r.ctx ∷ [])) ok.honest
            ∙ append_assoc before (awaiting v.told) (awaiting (r.ctx ∷ []))
            ∙ ap (λ us. before ++ us) (sym (awaiting-append v.told (r.ctx ∷ [])));
        fewer = omega (arith, ok.fewer, length-append v.told (r.ctx ∷ []));
      }
  WorldStep-IsSerial {c = c} {v = v} ok
        (commit_unknown {s'} r err ans future pre post at known current fired) =
      let fine = All-Memᴰ IsRead r v.reads ok.reads known in
      let out = error_only (suc err) in
      record {
        sound =
            fired-IsSound out ans (record { cb = on_commit r.ctx; future = future }) pre post
              v.state s' at ok.sound (fine.2, tt) fired;
        reads = ok.reads;
        history = committed r v.state c v.contents v.log fine current ok.history;
        honest =
            let (mid, ran, _, same_app) =
              future_callback_inverse (dispatch out ans)
                (record { cb = on_commit r.ctx; future = future }) v.state s' fired in
            ap (λ (a : App). successes a.done) same_app
            ∙ confirmed-dispatch_refused out ans (on_commit r.ctx) v.state mid (inl (ground arith))
                ran
            ∙ ok.honest;
        fewer = omega (arith, ok.fewer);
      }
  WorldStep-IsSerial {v = v} ok (fail {s'} out ans w pre post at fails safe fired) = record {
    sound = fired-IsSound out ans w pre post v.state s' at ok.sound safe fired;
    reads = ok.reads;
    history = ok.history;
    honest =
        let (mid, ran, _, same_app) =
          future_callback_inverse (dispatch out ans) w v.state s' fired in
        ap (λ (a : App). successes a.done) same_app
        ∙ confirmed-dispatch_refused out ans w.cb v.state mid fails ran
        ∙ ok.honest;
    fewer = ok.fewer;
  }

  pub WorldReach-IsSerial :
      {s : State} {c : Contents} {v : World db}
      → IsSound s
      → WorldReach db (untouched db s c) v
      → IsSerial c (confirmed s) v
  WorldReach-IsSerial {s = s} sound here = record {
    sound = sound;
    reads = tt;
    history = History.here;
    honest = sym (append-nil (confirmed s));
    fewer = omega arith;
  }
  WorldReach-IsSerial sound (next reach step) =
      WorldStep-IsSerial (WorldReach-IsSerial sound reach) step

  -- From a process in a sound state, whose database no tick has used yet, however the callbacks of
  -- any number of ticks of any zones are interleaved, whichever of them fail or retry, and whether
  -- or not the reads leave entities out: the state stays sound; `done_cb` has been called with true
  -- for exactly the ticks that have one and whose commit the process was told of, in the order of
  -- those commits; these are no more than were committed; and what is stored under a key has been
  -- moved by exactly the committed ticks that were given it, as if they had been made one after the
  -- other. A commit that was done counts although its future holds an error. It takes that
  -- FoundationDB lets a commit be done only if what its transaction has read is still stored, that
  -- zones and numbers of ticks are below 2 ^ 32, and that the reads give entities that a tick can
  -- move without overflow.
  pub WorldReach-given :
      {s : State} {c : Contents} {v : World db} (k : List ℕ)
      → IsSound s
      → WorldReach db (untouched db s c) v
      → IsSound v.state
        × (confirmed v.state ≡ confirmed s ++ awaiting v.told)
        × (length v.told ≤ length v.log)
        × (entity_at db v.contents k ≡ map (advanced (given_for k v.log)) (entity_at db c k))
  WorldReach-given k sound reach =
      let serial = WorldReach-IsSerial sound reach in
      (serial.sound, serial.honest, serial.fewer, (History-given db k serial.history).0)

  -- From a process in a sound state, whose database no tick has used yet and whose reads leave
  -- nothing out, however the callbacks of any number of ticks of any zones are interleaved and
  -- whichever of them fail or retry: every entity under a key in the range of a zone below 2 ^ 32
  -- has been moved by exactly the ticks of that zone that were committed, as if they had been made
  -- one after the other. It takes what FoundationDB guarantees of a commit, as above, that zones
  -- and numbers of ticks are below 2 ^ 32, and that the reads give entities that a tick can move
  -- without overflow.
  pub WorldReach-entity_at :
      {s : State} {c : Contents} {v : World db} (z : ℕ) (k : List ℕ)
      → IsWhole db
      → IsSound s
      → z < 2 ^ 32
      → InZone z k
      → WorldReach db (untouched db s c) v
      → entity_at db v.contents k ≡ map (advanced (elapsed z v.log)) (entity_at db c k)
  WorldReach-entity_at z k whole sound small within reach =
      (History-entity_at db whole z k small (WorldReach-IsSerial sound reach).history).0 within
