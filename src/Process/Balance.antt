-- ===== src/Process/Balance.antt =====
-- How a run of the process goes, and what it acquires and releases.
use mathlib.Core.List.{append-nil, append_assoc, Perm, perm_append_comm}
use mathlib.Core.List.Perm
use gyreplane.Prelude.{
  ℕ, zero, suc, ◌+◌, ◌≡◌, refl, ap, sym, subst, ◌∙◌, ◌⊎◌, inl, inr, true, false, List, [], ◌∷◌,
  ◌++◌, ◌==◌, ◌&&◌, ◌||◌, ==_iff, if◌then◌else◌, ◌≤◌, ◌<◌, Bool, Option, none, some, Bool-cases,
  arith,
}
use gyreplane.Prelude.Bytes.{u32}
use gyreplane.Prelude.Int.{ℤ, pos, negsuc}
use gyreplane.Process.{
  Opt, Config, defaults, Parsed, leave, go_on, parse, Ending, returns, blocks, Resource,
  thread_states, network, workers, database, thread, event_loop, Event, acquire, release,
  run_network, Machine, Global, worker_main, run_workers, global_init, thread_init, thread_cleanup,
  global_cleanup, start_workers, stop_workers, serve_with, serve, with_zone, after_options, main,
}

abbrev pub acquired : List Event → List Resource
acquired [] = []
acquired (acquire r ∷ events) = r ∷ acquired events
acquired (release r ∷ events) = acquired events
acquired (run_network ∷ events) = acquired events

abbrev pub released : List Event → List Resource
released [] = []
released (acquire r ∷ events) = released events
released (release r ∷ events) = r ∷ released events
released (run_network ∷ events) = released events

acquired-append : (xs ys : List Event) → acquired (xs ++ ys) ≡ acquired xs ++ acquired ys
acquired-append [] ys = refl
acquired-append (acquire r ∷ xs) ys = ap (λ rs. r ∷ rs) (acquired-append xs ys)
acquired-append (release r ∷ xs) ys = acquired-append xs ys
acquired-append (run_network ∷ xs) ys = acquired-append xs ys

released-append : (xs ys : List Event) → released (xs ++ ys) ≡ released xs ++ released ys
released-append [] ys = refl
released-append (acquire r ∷ xs) ys = released-append xs ys
released-append (release r ∷ xs) ys = ap (λ rs. r ∷ rs) (released-append xs ys)
released-append (run_network ∷ xs) ys = released-append xs ys

-- Nothing fails but what libfdb_c answers, and if the network ends, each worker sees in time that it
-- is to stop.
pub record IsMachine (m : Machine) : Type 0 where
  pub memory : m.calloc ≡ true
  pub spawned : (i : ℕ) → m.spawn i ≡ true
  pub stops : m.network_ends ≡ true → (i : ℕ) → (k : ℕ) × (k < m.left) × (m.seen i k ≡ false)

-- A worker ends once it has seen that it is to stop.
worker_main_ends :
    (seen : ℕ → Bool) (left i k : ℕ)
    → i ≤ k
    → k < i + left
    → seen k ≡ false
    → (n : ℕ) × (worker_main seen left i ≡ some n) × (n ≤ k)
unfolding worker_main
worker_main_ends seen zero i k from few stop = absurd (omega arith)
worker_main_ends seen (suc left) i k from few stop = elim (Bool-cases (seen i)) [
  | inr now ↦ (i, rw now refl, from)
  | inl later ↦
      let (n, ran, soon) =
        worker_main_ends seen left (i + 1) k (onward later (Bool-cases (i == k))) (omega arith)
          stop in
      (n, rw later ran, soon)
]
  where
    onward : seen i ≡ true → ((i == k) ≡ true) ⊎ ((i == k) ≡ false) → i + 1 ≤ k
    onward later (inl same) =
        absurd (
          ground (arith, later, stop, subst (λ j. seen j ≡ false) (sym ((==_iff i k).0 same)) stop))
    onward later (inr other) = ground (arith, from)

-- How many threads are among them.
abbrev pub thread_count : List Resource → ℕ
thread_count [] = 0
thread_count (thread i ∷ rs) = suc (thread_count rs)
thread_count (thread_states ∷ rs) = thread_count rs
thread_count (network ∷ rs) = thread_count rs
thread_count (workers ∷ rs) = thread_count rs
thread_count (event_loop ∷ rs) = thread_count rs
thread_count (database i ∷ rs) = thread_count rs

module _ (m : Machine) (fine : IsMachine m) where
  -- Each worker gets a thread, and nothing is released before the network runs.
  start_workers_lem :
      (z_id left i : ℕ)
      → let (running, opened) = start_workers m z_id left i in
        (released opened ≡ []) × (thread_count (acquired opened) ≡ left)
  unfolding start_workers thread_init
  start_workers_lem z_id zero i = (refl, refl)
  start_workers_lem z_id (suc left) i =
      let (none_released, all) = start_workers_lem z_id left (i + 1) in
      elim (Bool-cases (m.library.create i == 0)) [
        | inl created ↦
            (rw (fine.spawned i, created) none_released, rw (fine.spawned i, created) (ap suc all))
        | inr failed ↦
            (rw (fine.spawned i, failed) none_released, rw (fine.spawned i, failed) (ap suc all))
      ]

module _ (m : Machine) (fine : IsMachine m) (ended : m.network_ends ≡ true) where
  -- The threads and the databases of the workers: started without a release, stopped without an
  -- acquisition, and what is released is what was acquired.
  workers_balance :
      (z_id left i : ℕ)
      → let (running, opened) = start_workers m z_id left i in
        (closed : List Event) × (stop_workers m running i ≡ some closed)
        × (released opened ≡ [])
        × (acquired closed ≡ [])
        × Perm (acquired opened) (released closed)
  unfolding start_workers stop_workers thread_init thread_cleanup
  workers_balance z_id zero i = ([], refl, refl, refl, Perm.nil)
  workers_balance z_id (suc left) i =
      let (more, ran, none_released, none_acquired, balanced) = workers_balance z_id left (i + 1) in
      let (k, soon, stop) = fine.stops ended i in
      let (naps, slept, _) =
        worker_main_ends (m.seen i) m.left 0 k (omega arith) (omega arith) stop in
      elim (Bool-cases (m.library.create i == 0)) [
        | inl created ↦ (
          release (thread i) ∷ release (database (i + 1)) ∷ more,
          rw (fine.spawned i, created, named, slept, ran) refl,
          rw (fine.spawned i, created) none_released,
          none_acquired,
          rw (fine.spawned i, created) (both balanced),
        )
        | inr failed ↦ (
          release (thread i) ∷ more,
          rw (fine.spawned i, failed, slept, ran) refl,
          rw (fine.spawned i, failed) none_released,
          none_acquired,
          rw (fine.spawned i, failed) (Perm.cons (thread i) balanced),
        )
      ]
    where
      named : (i + 1 == 0) ≡ false
      named = ground arith

      both :
          {rs ss : List Resource}
          → Perm rs ss
          → Perm (database (i + 1) ∷ thread i ∷ rs) (thread i ∷ database (i + 1) ∷ ss)
      both p =
          Perm.trans (Perm.swap (thread i) (database (i + 1)) _)
            (Perm.cons (thread i) (Perm.cons (database (i + 1)) p))

three_first :
    (x y z : Resource) {rs ss : List Resource}
    → Perm rs ss
    → Perm (x ∷ y ∷ z ∷ rs) (ss ++ z ∷ y ∷ x ∷ [])
three_first x y z {rs} {ss} p = Perm.trans (Perm.swap y x (z ∷ rs)) (
    Perm.trans (Perm.cons y (Perm.swap z x rs)) (
      Perm.trans (Perm.swap z y (x ∷ rs)) (
        Perm.trans (Perm.cons z (Perm.cons y (Perm.cons x p)))
          (perm_append_comm (z ∷ y ∷ x ∷ []) ss))))

stopped_last :
    {rs ss : List Resource}
    → Perm rs ss
    → Perm
        (thread_states ∷ network ∷ workers ∷ rs)
        ((ss ++ workers ∷ thread_states ∷ []) ++ network ∷ [])
stopped_last {rs} {ss} p =
    subst (Perm (thread_states ∷ network ∷ workers ∷ rs))
      (sym (append_assoc ss (workers ∷ thread_states ∷ []) (network ∷ [])))
      (Perm.trans (Perm.swap network thread_states (workers ∷ rs))
        (three_first network thread_states workers p))

-- What the process acquires before it waits in the network: nothing is released, and each worker has
-- its thread.
abbrev pub IsUp : Config → List Event → Type 0
IsUp config before = (released before ≡ []) × (thread_count (acquired before) ≡ config.worker_count)

-- The network, if it could not be stopped.
abbrev pub unstopped : Machine → List Resource
unstopped m = if m.library.stop == 0 then [] else network ∷ []

-- The options name a zone, and the network can start.
abbrev pub has_zone : Config → Bool
has_zone config = config.have_z_id && not_negative config.z_id
  where
    not_negative : ℤ → Bool
    not_negative (pos n) = true
    not_negative (negsuc n) = false

abbrev pub starts : Machine → Bool
starts m = m.library.select == 0 && m.library.setup == 0

-- How a run goes, by its options and what it meets.
pub data Outcome (m : Machine) : Parsed → Ending × List Event → Type 0 where
  left : (code : ℤ) → Outcome m (leave code) (returns code, [])
  zoneless :
      (config : Config) → has_zone config ≡ false → Outcome m (go_on config) (returns (pos 1), [])
  no_network :
      (config : Config)
      → has_zone config ≡ true
      → starts m ≡ false
      → Outcome m (go_on config) (returns (pos 1), acquire thread_states ∷ [])
  waits :
      (config : Config) (before : List Event)
      → has_zone config ≡ true
      → starts m ≡ true
      → m.network_ends ≡ false
      → IsUp config before
      → Outcome m (go_on config) (blocks, before ++ run_network ∷ [])
  ends :
      (config : Config) (before after : List Event)
      → has_zone config ≡ true
      → starts m ≡ true
      → m.network_ends ≡ true
      → IsUp config before
      → acquired after ≡ []
      → Perm (acquired before) (released after ++ unstopped m)
      → Outcome m (go_on config) (returns (pos 0), (before ++ run_network ∷ []) ++ after)

-- A run without a fault, with such an outcome.
abbrev pub Runs : Machine → Parsed → Option (Ending × List Event) → Type 0
Runs m p result = (ran : Ending × List Event) × (result ≡ some ran) × Outcome m p ran

module _ (m : Machine) (fine : IsMachine m) (config : Config) (z_id : ℕ)
    (zoned : has_zone config ≡ true) where
  refused :
      (code : ℕ) (fdb : Global)
      → starts m ≡ false
      → (code == 0) ≡ false
      → Runs m (go_on config) (serve_with m config z_id (pos code, fdb, acquire thread_states ∷ []))
  unfolding serve_with
  refused zero fdb down e = absurd (ground arith)
  refused (suc n) fdb down e =
      ((returns (pos 1), acquire thread_states ∷ []), refl, Outcome.no_network config zoned down)

  abbrev before : List Event
  before =
      acquire thread_states
      ∷ acquire network
      ∷ acquire workers
      ∷ (start_workers m z_id config.worker_count 0).1

  before-IsUp : IsUp config before
  before-IsUp = start_workers_lem m fine z_id config.worker_count 0

  -- What the end gives back.
  closing : List Event → List Event
  closing closed =
      closed
      ++ release workers
        ∷ ((if m.library.stop == 0 then release network ∷ [] else []) ++ release thread_states ∷ [])

  closing-balance :
      (closed : List Event)
      → acquired closed ≡ []
      → Perm (acquired (start_workers m z_id config.worker_count 0).1) (released closed)
      → (acquired (closing closed) ≡ [])
        × Perm (acquired before) (released (closing closed) ++ unstopped m)
  unfolding closing
  closing-balance closed none_acquired balanced = elim (Bool-cases (m.library.stop == 0)) [
    | inl stopped ↦ rw stopped (
      acquired-append closed _ ∙ append-nil _ ∙ none_acquired,
      subst (Perm (acquired before)) (sym (append-nil _ ∙ released-append closed _))
          (three_first thread_states network workers balanced),
    )
    | inr running ↦ rw running (
      acquired-append closed _ ∙ append-nil _ ∙ none_acquired,
      subst (λ rs. Perm (acquired before) (rs ++ network ∷ [])) (sym (released-append closed _))
          (stopped_last balanced),
    )
  ]

  served :
      (fdb : Global)
      → starts m ≡ true
      → fdb.network_started ≡ true
      → Runs m
          (go_on config)
          (run_workers m config z_id fdb (acquire thread_states ∷ acquire network ∷ []))
  unfolding run_workers global_cleanup closing
  served fdb ready up = elim (Bool-cases m.network_ends) [
    | inr never ↦ (
      (blocks, before ++ run_network ∷ []),
      rw never refl,
      Outcome.waits config before zoned ready never before-IsUp,
    )
    | inl ended ↦
        let (closed, ran, _, none_acquired, balanced) =
          workers_balance m fine ended z_id config.worker_count 0 in
        let (nothing_more, all) = closing-balance closed none_acquired balanced in
        (
          (returns (pos 0), (before ++ run_network ∷ []) ++ closing closed),
          rw (ended, ran, up) refl,
          Outcome.ends config before (closing closed) zoned ready ended before-IsUp nothing_more
              all,
        )
  ]

  serve_with-Runs :
      (fdb : Global)
      → starts m ≡ true
      → fdb.network_started ≡ true
      → Runs m
          (go_on config)
          (serve_with m config z_id (pos 0, fdb, acquire thread_states ∷ acquire network ∷ []))
  unfolding serve_with
  serve_with-Runs fdb ready up =
      let (ran, served_so, outcome) = served fdb ready up in
      (
        ran,
        ap
              (λ b.
                if b || config.worker_count == 0
                then run_workers m config z_id fdb (acquire thread_states ∷ acquire network ∷ [])
                else none)
              fine.memory
            ∙ served_so,
        outcome,
      )

  serve-Runs : Runs m (go_on config) (serve m config z_id)
  unfolding serve global_init
  serve-Runs = elim (Bool-cases (m.library.select == 0)) [
    | inr e ↦ rw e (refused m.library.select _ (ground arith) e)
    | inl selected ↦ elim (Bool-cases (m.library.setup == 0)) [
      | inr e ↦ rw (selected, e) (refused m.library.setup _ (ground arith) e)
      | inl ready ↦
          rw (selected, ready)
            (serve_with-Runs
              (record {
                cluster_file = config.cluster_file;
                num_threads = config.worker_count;
                network_started = true;
              })
              (ground arith) refl)
    ]
  ]

module _ (m : Machine) (fine : IsMachine m) where
  with_zone-Runs :
      (config : Config) (z : ℤ) → config.z_id ≡ z → Runs m (go_on config) (with_zone m config z)
  unfolding with_zone
  with_zone-Runs config (negsuc n) e =
      ((returns (pos 1), []), refl, Outcome.zoneless config (rw e (ground arith)))
  with_zone-Runs config (pos n) e = elim (Bool-cases config.have_z_id) [
    | inl given ↦
        let (ran, served_so, outcome) = serve-Runs m fine config (u32 n) (rw (given, e) refl) in
        (
          ran,
          ap (λ b. if b then serve m config (u32 n) else some (returns (pos 1), [])) given
              ∙ served_so,
          outcome,
        )
    | inr missing ↦ (
      (returns (pos 1), []),
      ap (λ b. if b then serve m config (u32 n) else some (returns (pos 1), [])) missing,
      Outcome.zoneless config (rw missing refl),
    )
  ]

  after_options-Runs : (p : Parsed) → Runs m p (after_options m p)
  unfolding after_options
  after_options-Runs (leave code) = ((returns code, []), refl, Outcome.left code)
  after_options-Runs (go_on config) = with_zone-Runs config config.z_id refl

  -- A run of the process whose memory and threads can be had, and whose workers each see in time
  -- that they are to stop if `fdb_run_network` ever returns, has no fault, whatever its options and
  -- whatever libfdb_c answers. It leaves with nothing acquired exactly if its options say so or
  -- name no zone that is zero or more. Otherwise, if the network cannot start, it returns one with
  -- only the thread states acquired. Otherwise it starts a thread for each worker; and if
  -- `fdb_run_network` never returns, it waits there for ever and releases nothing. If that returns,
  -- the process returns zero, has released nothing before, acquires nothing after, and releases
  -- exactly what it acquired: every thread, every database that could be created, its memory and
  -- the network, but for the network if `fdb_stop_network` fails.
  pub main-Outcome : (opts : List Opt) → Runs m (parse opts defaults) (main m opts)
  unfolding main
  main-Outcome opts = after_options-Runs (parse opts defaults)
