-- ===== src/ZoneTick/Progress.antt =====
-- No tick gets stuck: whatever is stored by now, each that waits for a callback can still be
-- committed.
use mathlib.Core.List.{Memᴰ, append_assoc, append-nil}
use gyreplane.Prelude.{
  ℕ, ◌^◌, ◌<◌, ◌≡◌, refl, ap, sym, ◌∙◌, inl, inr, some, List, [], ◌∷◌, ◌++◌, All,
}
use gyreplane.Fdb.{Call, Wrapper, commit, on_error, future_callback}
use gyreplane.Fdb.Submit.{IsAligned, submitted, submitted-IsAligned}
use gyreplane.Fdb.Contract.{released, future_callback-released}
use gyreplane.ZoneTick.{
  TickCtx, Callback, on_range_read, on_error_retry, on_commit, State, Outcome, dispatch,
  error_retry,
}
use gyreplane.ZoneTick.Update.{IsSafe, writes}
use gyreplane.ZoneTick.Ownership.{ctx_of}
use gyreplane.ZoneTick.Handlers.{range_call, start_accepted, read_done, commit_failed}
use gyreplane.ZoneTick.System.{IsSound, fire-Sound}
use gyreplane.ZoneTick.Complete.{taken_answer, read_ok, error_only}
use gyreplane.ZoneTick.Store.{Database}
use gyreplane.ZoneTick.Zones.{zone_read}
use gyreplane.ZoneTick.World.{World, untouched, WorldStep, WorldReach}
use gyreplane.ZoneTick.Confirmed.{confirmed, awaiting, awaiting-append}
use gyreplane.ZoneTick.Serial.{fired-IsSound, WorldReach-IsSerial}

module _ (out : Outcome) (cb cb' : Callback) (future : ℕ) (pre post : List (Wrapper Callback))
    (more : List Call) (call : Call) (s : State) where
  -- The state after a callback that made the calls `more` and submitted one for `cb'`.
  abbrev handed_on : State
  handed_on =
      released (record { cb = cb'; future = s.next } ∷ pre) post
        (submitted taken_answer call cb' (record s { calls = s.calls ++ more }))

  handed :
      s.wrappers ≡ pre ++ record { cb = cb; future = future } ∷ post
      → IsAligned s
      → dispatch out taken_answer cb s
        ≡ some (submitted taken_answer call cb' (record s { calls = s.calls ++ more }))
      → future_callback (dispatch out taken_answer) (record { cb = cb; future = future }) s
        ≡ some handed_on
  handed at al ran =
      (future_callback-released (dispatch out taken_answer) (record { cb = cb; future = future })
        (record { cb = cb'; future = s.next } ∷ pre) post s _ ran
        (submitted-IsAligned taken_answer call cb' (record s { calls = s.calls ++ more })
          (record { paired = al.paired; fresh = al.fresh }))
        (ap (λ ws. record { cb = cb'; future = s.next } ∷ ws) at)).0

-- libfdb_c leaves a transaction in an error state when its own retry, `fdb_transaction_on_error`, reports
-- an error. What a callback that fails must be for that not to happen to a transaction.
abbrev pub Spares : (tr : ℕ) → Outcome → Callback → Type 0
Spares tr out (on_range_read ctx) = Unit {0}
Spares tr out (on_error_retry ctx) = ctx.tr ≡ tr → out.error ≡ 0
Spares tr out (on_commit ctx) = Unit {0}

module _ {Contents : Type 0} (db : Database Contents) where
  abbrev pub StepSpares : (tr : ℕ) {v w : World db} → WorldStep db v w → Type 0
  StepSpares tr (WorldStep.start calloc create ans z_id tick_count done_cb user_ctx has_db ran) =
      Unit {0}
  StepSpares tr (WorldStep.read ctx ans future pre post made at zone small safe ran called) =
      Unit {0}
  StepSpares tr (WorldStep.commit_done r ans future pre post at known current ran) = Unit {0}
  StepSpares tr (WorldStep.commit_unknown r err ans future pre post at known current ran) = Unit {0}
  StepSpares tr (WorldStep.fail out ans w pre post at fails safe ran) = Spares tr out w.cb

  -- A run in which the retry of a transaction has not failed, so that libfdb_c still takes its calls.
  abbrev pub IsUsable : (tr : ℕ) {v w : World db} → WorldReach db v w → Type 0
  IsUsable tr WorldReach.here = Unit {0}
  IsUsable tr (WorldReach.next reach step) = IsUsable tr reach × StepSpares tr step

  pub WorldReach-trans :
      {u v w : World db} → WorldReach db u v → WorldReach db v w → WorldReach db u w
  WorldReach-trans reach WorldReach.here = reach
  WorldReach-trans reach (WorldReach.next more step) =
      WorldReach.next (WorldReach-trans reach more) step

  IsUsable-trans :
      (tr : ℕ) {u v w : World db} (reach : WorldReach db u v) (more : WorldReach db v w)
      → IsUsable tr reach
      → IsUsable tr more
      → IsUsable tr (WorldReach-trans reach more)
  unfolding WorldReach-trans
  IsUsable-trans tr reach WorldReach.here before after = before
  IsUsable-trans tr reach (WorldReach.next more step) before after =
      (IsUsable-trans tr reach more before after.0, after.1)

  -- The tick is committed, on what its zone holds now, and the process is told of it; no retry of its
  -- transaction fails on the way.
  abbrev pub Commits : TickCtx → World db → Type 0
  Commits ctx v =
      (w : World db) × (reach : WorldReach db v w) × IsUsable ctx.tr reach
      × (w.log ≡ record { ctx = ctx; given = zone_read db ctx.z_id v.contents } ∷ v.log)
      × (w.told ≡ v.told ++ ctx ∷ [])

  module _ (ctx : TickCtx) (zone : ctx.z_id < 2 ^ 32) (small : ctx.tick_count < 2 ^ 32) where
    read-Commits :
        (v : World db) (future : ℕ) (pre post : List (Wrapper Callback))
        → v.state.wrappers ≡ pre ++ record { cb = on_range_read ctx; future = future } ∷ post
        → IsSound v.state
        → All (IsSafe ctx.tick_count) (zone_read db ctx.z_id v.contents)
        → Commits ctx v
    unfolding dispatch
    read-Commits v future pre post at sound safe =
        let s = v.state in
        let kvs = zone_read db ctx.z_id v.contents in
        let out = read_ok kvs in
        let made = writes ctx kvs ++ commit ctx.tr ∷ [] in
        let w : Wrapper Callback = record { cb = on_range_read ctx; future = future } in
        let ran =
          handed out (on_range_read ctx) (on_commit ctx) future pre post (writes ctx kvs)
            (commit ctx.tr) s at sound.aligned
            (read_done out taken_answer ctx s refl refl small safe) in
        let s1 =
          handed_on out (on_range_read ctx) (on_commit ctx) future pre post (writes ctx kvs)
            (commit ctx.tr) s in
        let sound1 = fired-IsSound db out taken_answer w pre post s s1 at sound (small, safe) ran in
        let (s2, ran2, _, _) =
          fire-Sound (error_only 0) taken_answer (record { cb = on_commit ctx; future = s.next }) []
            (pre ++ post) s1 refl sound1 (small, tt) in
        (
          _,
          WorldReach.next
              (WorldReach.next WorldReach.here (
                WorldStep.read ctx taken_answer future pre post made at zone small safe ran
                  (append_assoc s.calls (writes ctx kvs) (commit ctx.tr ∷ []))))
              (WorldStep.commit_done (record { ctx = ctx; kvs = kvs; made = made }) taken_answer
                s.next [] (pre ++ post) refl (Memᴰ.head refl) refl ran2),
          ((tt, tt), tt),
          refl,
          refl,
        )

    -- A callback after which only the range read is submitted.
    retry-Commits :
        (v : World db) (future : ℕ) (pre post : List (Wrapper Callback))
        → v.state.wrappers ≡ pre ++ record { cb = on_error_retry ctx; future = future } ∷ post
        → IsSound v.state
        → All (IsSafe ctx.tick_count) (zone_read db ctx.z_id v.contents)
        → Commits ctx v
    unfolding dispatch error_retry
    retry-Commits v future pre post at sound safe =
        let s = v.state in
        let w : Wrapper Callback = record { cb = on_error_retry ctx; future = future } in
        let ran =
          handed (error_only 0) (on_error_retry ctx) (on_range_read ctx) future pre post []
            (range_call ctx) s at sound.aligned
            (start_accepted taken_answer ctx s refl
              ∙ ap
                  (λ cs. some (
                    submitted taken_answer (range_call ctx) (on_range_read ctx)
                      (record s { calls = cs })))
                  (sym (append-nil s.calls))) in
        let s1 =
          handed_on (error_only 0) (on_error_retry ctx) (on_range_read ctx) future pre post []
            (range_call ctx) s in
        let sound1 =
          fired-IsSound db (error_only 0) taken_answer w pre post s s1 at sound (small, tt) ran in
        let (v', reach, usable, log, told) =
          read-Commits (record v { state = s1 }) s.next [] (pre ++ post) refl sound1 safe in
        let first : WorldReach db v (record v { state = s1 }) = WorldReach.next WorldReach.here (
          WorldStep.fail (error_only 0) taken_answer w pre post at (inr (inr (ctx, refl)))
            (small, tt) ran) in
        (
          v',
          WorldReach-trans first reach,
          IsUsable-trans ctx.tr first reach (tt, λ e. refl) usable,
          log,
          told,
        )

    -- The commit is refused, since what was read is no longer stored.
    refused-Commits :
        (v : World db) (future : ℕ) (pre post : List (Wrapper Callback))
        → v.state.wrappers ≡ pre ++ record { cb = on_commit ctx; future = future } ∷ post
        → IsSound v.state
        → All (IsSafe ctx.tick_count) (zone_read db ctx.z_id v.contents)
        → Commits ctx v
    unfolding dispatch
    refused-Commits v future pre post at sound safe =
        let s = v.state in
        let out = error_only 1020 in
        let w : Wrapper Callback = record { cb = on_commit ctx; future = future } in
        let ran =
          handed out (on_commit ctx) (on_error_retry ctx) future pre post [] (on_error ctx.tr 1020)
            s at sound.aligned
            (commit_failed out taken_answer ctx s refl
              ∙ ap
                  (λ cs. some (
                    submitted taken_answer (on_error ctx.tr 1020) (on_error_retry ctx)
                      (record s { calls = cs })))
                  (sym (append-nil s.calls))) in
        let s1 =
          handed_on out (on_commit ctx) (on_error_retry ctx) future pre post []
            (on_error ctx.tr 1020) s in
        let sound1 = fired-IsSound db out taken_answer w pre post s s1 at sound (small, tt) ran in
        let (v', reach, usable, log, told) =
          retry-Commits (record v { state = s1 }) s.next [] (pre ++ post) refl sound1 safe in
        let first : WorldReach db v (record v { state = s1 }) =
          WorldReach.next WorldReach.here
            (WorldStep.fail out taken_answer w pre post at (inl refl) (small, tt) ran) in
        (
          v',
          WorldReach-trans first reach,
          IsUsable-trans ctx.tr first reach (tt, tt) usable,
          log,
          told,
        )

  -- However the ticks of a process that started in a sound state have been interleaved, each tick
  -- that waits for a callback, whichever it is and whatever has been stored meanwhile, can still be
  -- committed, on what its zone holds now, and reported: from there the process and the database
  -- can come to a state where its commit is the newest one, the process was told of it, and its
  -- `done_cb`, if it has one, has been called with true, and no other. It takes that no retry of its
  -- transaction by libfdb_c has reported an error, after which libfdb_c takes no more calls of it,
  -- and none reports one on the way; and a zone and a number of ticks below 2 ^ 32, and entities in
  -- the zone that the tick can move without overflow.
  pub WorldReach-commits :
      {s : State} {c : Contents} {v : World db} (cb : Callback) (future : ℕ)
      (pre post : List (Wrapper Callback))
      → IsSound s
      → (reach : WorldReach db (untouched db s c) v) → IsUsable (ctx_of cb).tr reach
      → v.state.wrappers ≡ pre ++ record { cb = cb; future = future } ∷ post
      → (ctx_of cb).z_id < 2 ^ 32
      → (ctx_of cb).tick_count < 2 ^ 32
      → All (IsSafe (ctx_of cb).tick_count) (zone_read db (ctx_of cb).z_id v.contents)
      → (w : World db) × (further : WorldReach db v w) × IsUsable
          (ctx_of cb).tr
          (WorldReach-trans reach further)
        × (w.log
            ≡ record { ctx = ctx_of cb; given = zone_read db (ctx_of cb).z_id v.contents } ∷ v.log)
        × (w.told ≡ v.told ++ ctx_of cb ∷ [])
        × (confirmed w.state ≡ confirmed v.state ++ awaiting (ctx_of cb ∷ []))
  WorldReach-commits {s = s} {v = v} cb future pre post sound reach usable at zone small safe =
      let serial = WorldReach-IsSerial db sound reach in
      let (w, further, spared, log, told) = commits cb at serial.sound zone small safe in
      let serial' = WorldReach-IsSerial db sound (WorldReach-trans reach further) in
      (
        w,
        further,
        IsUsable-trans (ctx_of cb).tr reach further usable spared,
        log,
        told,
        serial'.honest
            ∙ ap (λ ticks. confirmed s ++ awaiting ticks) told
            ∙ ap (λ us. confirmed s ++ us) (awaiting-append v.told (ctx_of cb ∷ []))
            ∙ sym (append_assoc (confirmed s) (awaiting v.told) (awaiting (ctx_of cb ∷ [])))
            ∙ ap (λ us. us ++ awaiting (ctx_of cb ∷ [])) (sym serial.honest),
      )
    where
      commits :
          (cb : Callback)
          → v.state.wrappers ≡ pre ++ record { cb = cb; future = future } ∷ post
          → IsSound v.state
          → (ctx_of cb).z_id < 2 ^ 32
          → (ctx_of cb).tick_count < 2 ^ 32
          → All (IsSafe (ctx_of cb).tick_count) (zone_read db (ctx_of cb).z_id v.contents)
          → Commits (ctx_of cb) v
      commits (on_range_read ctx) at sound zone small safe =
          read-Commits ctx zone small v future pre post at sound safe
      commits (on_error_retry ctx) at sound zone small safe =
          retry-Commits ctx zone small v future pre post at sound safe
      commits (on_commit ctx) at sound zone small safe =
          refused-Commits ctx zone small v future pre post at sound safe
