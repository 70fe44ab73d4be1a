-- ===== src/Throughput/Counted.antt =====
-- A measurement in which nothing fails: each tick is completed and counted.
use gyreplane.Prelude.{
  ℕ, zero, suc, ◌+◌, ◌≤◌, ◌<◌, ◌≡◌, refl, ap, subst, ◌∙◌, Bool, true, false, some, List, ◌>>=◌,
  if◌then◌else◌, arith, All,
}
use gyreplane.Prelude.Bytes.{u32}
use gyreplane.Align.{Double, ◌⊕◌, lit}
use gyreplane.Fdb.Submit.{IsAligned}
use gyreplane.ZoneTick.{State, KeyValue}
use gyreplane.ZoneTick.Update.{IsSafe}
use gyreplane.Throughput.Timed.{
  TickLoopCtx, Running, Round, start_tick, evloop_run, run_loop, drain_loop, begun, timed,
}
use gyreplane.Throughput.Normal.{served, Rests, one_more, served_round}

-- The tool's variables after some ticks.
abbrev pub ticked : {D : Type 0} → (deadline : D) (z_id n : ℕ) → TickLoopCtx D
ticked deadline z_id n = record {
  z_id = z_id;
  ticks_done = u32 n;
  ticks_failed = 0;
  in_flight = false;
  deadline = deadline;
}

module _ {D : Type 0} ⦃F : Double D⦄ (self : ℕ) (now : ℕ → D) (kvs : ℕ → List KeyValue)
    (duration : D) (z_id : ℕ) (s : State) where
  abbrev service : ℕ → Round
  service i = served (kvs i)

  one_more-ticked :
      (n : ℕ) → one_more (ticked (now 0 ⊕ duration) z_id n) ≡ ticked (now 0 ⊕ duration) z_id (n + 1)
  one_more-ticked n =
      ap (λ (k : ℕ). record (ticked (now 0 ⊕ duration) z_id 0) { ticks_done = k }) (omega arith)

  pub Rests-ticked :
      (n : ℕ) {t u : Running D}
      → Rests s (ticked (now 0 ⊕ duration) z_id n) t
      → Rests t.state (one_more t.loop_ctx) u
      → Rests s (ticked (now 0 ⊕ duration) z_id (n + 1)) u
  Rests-ticked n r q = record {
    loop_ctx = q.loop_ctx ∙ ap one_more r.loop_ctx ∙ one_more-ticked n;
    db = q.db ∙ r.db;
    aligned = q.aligned;
    wrappers = q.wrappers ∙ r.wrappers;
    contexts = q.contexts ∙ r.contexts;
    transactions = q.transactions ∙ r.transactions;
  }

  pub step :
      (left i n : ℕ) (t : Running D) (b : Bool)
      → Rests s (ticked (now 0 ⊕ duration) z_id n) t
      → F.less (now i) (now 0 ⊕ duration) ≡ b
      → run_loop self now service (suc left) i t ≡ (
          if b
          then (do
            t ← start_tick self (service i) t
            t ← evloop_run (service i).events t
            run_loop self now service left (i + 1) t)
          else some (i + 1, t))
  unfolding run_loop
  step left i n t b r e =
      ap
        (λ b.
          if b
          then (do
            t ← start_tick self (service i) t
            t ← evloop_run (service i).events t
            run_loop self now service left (i + 1) t)
          else some (i + 1, t))
        (ap (λ (c : TickLoopCtx D). F.less (now i) c.deadline) r.loop_ctx ∙ e)

  run_loop-ticked :
      (k left i n : ℕ) (t : Running D)
      → s.db ≡ true
      → Rests s (ticked (now 0 ⊕ duration) z_id n) t
      → ((j : ℕ) → i ≤ j → j < i + k → F.less (now j) (now 0 ⊕ duration) ≡ true)
      → F.less (now (i + k)) (now 0 ⊕ duration) ≡ false
      → ((j : ℕ) → i ≤ j → j < i + k → All (IsSafe 1) (kvs j))
      → k < left
      → (t' : Running D) × (run_loop self now service left i t ≡ some (i + k + 1, t'))
        × Rests s (ticked (now 0 ⊕ duration) z_id (n + k)) t'
  unfolding run_loop
  run_loop-ticked k zero i n t has_db r before over safe enough = absurd (omega arith)
  run_loop-ticked zero (suc left) i n t has_db r before over safe enough = (
    t,
    step left i n t false r now_over ∙ ap (λ j. some (j, t)) (omega arith),
    subst (λ m. Rests s (ticked (now 0 ⊕ duration) z_id m) t) (omega arith) r,
  )
    where
      now_over : F.less (now i) (now 0 ⊕ duration) ≡ false
      now_over = subst (λ j. F.less (now j) (now 0 ⊕ duration) ≡ false) (omega arith) over
  run_loop-ticked (suc k) (suc left) i n t has_db r before over safe enough =
      let (t1, t2, ran1, ran2, q, _) =
        served_round self (kvs i) t (r.db ∙ has_db) r.aligned
          (ap (λ (c : TickLoopCtx D). c.in_flight) r.loop_ctx)
          (safe i (omega arith) (omega arith)) in
      let (t3, ran3, q3) =
        run_loop-ticked k left (i + 1) (n + 1) t2 has_db (Rests-ticked n r q)
          (λ j from to. before j (omega arith) (omega arith))
          (subst (λ j. F.less (now j) (now 0 ⊕ duration) ≡ false) (omega arith) over)
          (λ j from to. safe j (omega arith) (omega arith)) (omega arith) in
      let ran : (do
        t ← start_tick self (service i) t
        t ← evloop_run (service i).events t
        run_loop self now service left (i + 1) t)
          ≡ some (i + 1 + k + 1, t3) =
        rw (ran1, ran2) ran3 in
      (
        t3,
        step left i n t true r (before i (omega arith) (omega arith))
            ∙ ran
            ∙ ap (λ (j : ℕ). some (j, t3)) (omega arith),
        subst (λ m. Rests s (ticked (now 0 ⊕ duration) z_id m) t3) (omega arith) q3,
      )

  pub drain_loop-ticked :
      (left i n : ℕ) (t : Running D)
      → Rests s (ticked (now 0 ⊕ duration) z_id n) t
      → drain_loop self now service (suc left) i t ≡ some (i, t)
  unfolding drain_loop
  drain_loop-ticked left i n t r =
      ap
        (λ b.
          if b
          then if F.less (now i) (t.loop_ctx.deadline ⊕ lit 2)
            then (do
              t ← evloop_run (service i).events t
              drain_loop self now service left (i + 1) t)
            else some (i + 1, t)
          else some (i, t))
        (ap (λ (c : TickLoopCtx D). c.in_flight) r.loop_ctx)

  -- If nothing fails, from a state with a database where futures and wrappers are paired: if the
  -- clock shows times before the deadline at its first `n` readings in the loop and not at the next
  -- one, within a bound above `n`, and each of the rounds between them serves its tick, with
  -- entities that it can move, then the tool makes `n` ticks, each completed before the next is
  -- started. It counts all of them, modulo 2 ^ 32, and none as failed, and leaves allocated what
  -- was allocated before.
  pub timed-ticked :
      (n left : ℕ)
      → s.db ≡ true
      → IsAligned s
      → ((j : ℕ) → 1 ≤ j → j < 1 + n → F.less (now j) (now 0 ⊕ duration) ≡ true)
      → F.less (now (1 + n)) (now 0 ⊕ duration) ≡ false
      → ((j : ℕ) → 1 ≤ j → j < 1 + n → All (IsSafe 1) (kvs j))
      → n < left
      → (t' : Running D) × (timed self now service left duration z_id s ≡ some (1 + n + 1, t'))
        × Rests s (ticked (now 0 ⊕ duration) z_id n) t'
  unfolding timed
  timed-ticked n zero has_db al before over safe enough = absurd (omega arith)
  timed-ticked n (suc left) has_db al before over safe enough =
      let t0 : Running D = record { loop_ctx = begun self now service duration z_id; state = s } in
      let r0 : Rests s (ticked (now 0 ⊕ duration) z_id 0) t0 = record {
        loop_ctx = refl;
        db = refl;
        aligned = al;
        wrappers = refl;
        contexts = refl;
        transactions = refl;
      } in
      let (t, ran, r) = run_loop-ticked n (suc left) 1 0 t0 has_db r0 before over safe enough in
      let r' : Rests s (ticked (now 0 ⊕ duration) z_id n) t =
        subst (λ m. Rests s (ticked (now 0 ⊕ duration) z_id m) t) (omega arith) r in
      (t, rw ran (drain_loop-ticked left (1 + n + 1) n t r'), r')
