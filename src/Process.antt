-- ===== src/Process.antt =====
-- src/main.c and the lifecycle part of src/fdb_database.c: options, start and stop of the process.
-- A run is its return code and the sequence of what it acquires and releases. What libfdb_c, `calloc`
-- and `pthread_create` answer is an argument. `none` is a fault: a NULL that is used, or a thread that
-- is joined and was never created.
pub mod Balance
use gyreplane.Prelude.{
  ℕ, zero, suc, ◌+◌, Bool, true, false, not, ◌||◌, ◌&&◌, Option, none, some, List, [], ◌∷◌, ◌++◌,
  ◌==◌, ◌>>=◌, if◌then◌else◌,
}
use gyreplane.Prelude.Bytes.{u32}
use gyreplane.Prelude.Int.{ℤ, pos, negsuc, to_word, half64}

-- What `getopt` returns, with what `atoi` and `atol` make of the argument; a path is its address.
pub data Opt : Type 0 where
  threads zone : ℤ → Opt
  cluster : ℕ → Opt
  help unknown : Opt

-- `config_t` and the two variables beside it; `none` is the path of the initializer.
pub record Config : Type 0 where
  pub cluster_file : Option ℕ
  pub worker_count : ℕ
  pub z_id : ℤ
  pub have_z_id : Bool

abbrev pub defaults : Config
defaults = record { cluster_file = none; worker_count = 1; z_id = negsuc 0; have_z_id = false }

pub data Parsed : Type 0 where
  leave : ℤ → Parsed
  go_on : Config → Parsed

pub parse : List Opt → Config → Parsed
parse [] c = go_on c
parse (threads n ∷ opts) c = parse opts (record c { worker_count = to_word half64 n })
parse (cluster path ∷ opts) c = parse opts (record c { cluster_file = some path })
parse (zone z ∷ opts) c = parse opts (record c { z_id = z; have_z_id = true })
parse (help ∷ opts) c = leave (pos 0)
parse (unknown ∷ opts) c = leave (pos 1)

pub data Resource : Type 0 where
  thread_states network workers event_loop : Resource
  database thread : ℕ → Resource

pub data Event : Type 0 where
  acquire release : Resource → Event
  run_network : Event

-- The error codes that libfdb_c returns; `create` is by thread, `stop` is that of `fdb_stop_network`.
pub record Answers : Type 0 where
  pub select : ℕ
  pub setup : ℕ
  pub stop : ℕ
  pub create : ℕ → ℕ

-- `fdb_global_t`, whose `thread_states` nobody reads.
pub record Global : Type 0 where
  pub cluster_file : Option ℕ
  pub num_threads : ℕ
  pub network_started : Bool

unfoldable pub global_init : Answers → Option ℕ → ℕ → ℤ × Global × List Event
global_init ans cluster_file num_threads =
    let fdb : Global = record {
      cluster_file = cluster_file;
      num_threads = num_threads;
      network_started = false;
    } in
    if ans.select == 0
    then (if ans.setup == 0
        then (
          pos 0,
          record fdb { network_started = true },
          acquire thread_states ∷ acquire network ∷ [],
        )
        else (pos ans.setup, fdb, acquire thread_states ∷ []))
    else (pos ans.select, fdb, acquire thread_states ∷ [])

-- The return code, `state->db` (0 is NULL) and what happens; `fresh` is the address of the database
-- if one is created.
unfoldable pub thread_init : (err fresh : ℕ) → ℤ × ℕ × List Event
thread_init err fresh =
    if err == 0 then (pos 0, fresh, acquire (database fresh) ∷ []) else (pos err, 0, [])

unfoldable pub thread_cleanup : ℕ → List Event
thread_cleanup db = if db == 0 then [] else release (database db) ∷ []

-- A network that does not stop stays; its error is only printed.
unfoldable pub global_cleanup : (stop : ℕ) → Global → List Event
global_cleanup stop fdb =
    (if fdb.network_started && stop == 0 then release network ∷ [] else [])
    ++ release thread_states ∷ []

-- How a run ends: with a return code, or in a call that never returns.
pub data Ending : Type 0 where
  returns : ℤ → Ending
  blocks : Ending

-- What the process meets: the library, whether `calloc` and each `pthread_create` succeed, whether
-- `fdb_run_network` ever returns, and what the thread at an index sees of its `running` flag, reading by
-- reading; `left` bounds the readings. libfdb_c returns from `fdb_run_network` once the network is
-- stopped, or with an error.
pub record Machine : Type 0 where
  pub library : Answers
  pub calloc : Bool
  pub spawn : ℕ → Bool
  pub network_ends : Bool
  pub seen : ℕ → ℕ → Bool
  pub left : ℕ

-- `worker_main`, which sleeps between two readings of the flag: how often it sleeps. `none` is that
-- the readings were not enough.
unfoldable pub worker_main : (seen : ℕ → Bool) → (left k : ℕ) → Option ℕ
worker_main seen zero k = none
worker_main seen (suc left) k =
    let more = worker_main seen left (k + 1) in if seen k then more else some k

-- `thread_ctx_t` of the thread at an index; `tid` is whether it names a thread.
pub record Worker : Type 0 where
  pub db : ℕ
  pub z_id : ℕ
  pub tid : Bool

-- The first loop from index `i` on, with `left` rounds to go.
pub start_workers : Machine → ℕ → (left i : ℕ) → List Worker × List Event
unfolding thread_init
start_workers m z_id zero i = ([], [])
start_workers m z_id (suc left) i =
    let (rc, db, events) = thread_init (m.library.create i) (i + 1) in
    let (others, more) = start_workers m z_id left (i + 1) in
    (
      record { db = db; z_id = z_id; tid = m.spawn i } ∷ others,
      events ++ (if m.spawn i then acquire (thread i) ∷ more else more),
    )

-- The second loop: a worker is told to stop, joined, and its database closed.
pub stop_workers : Machine → List Worker → ℕ → Option (List Event)
unfolding thread_cleanup worker_main
stop_workers m [] i = some []
stop_workers m (w ∷ others) i =
    let stop_others = stop_workers m others (i + 1) in
    if w.tid
    then (do
      naps ← worker_main (m.seen i) m.left 0
      more ← stop_others
      some (release (thread i) ∷ (thread_cleanup w.db ++ more)))
    else none

-- The threads, the network, and the end; main waits in `fdb_run_network`.
pub run_workers :
    Machine → Config → ℕ → Global → (started : List Event) → Option (Ending × List Event)
unfolding start_workers stop_workers global_cleanup
run_workers m config z_id fdb started =
    let (running, opened) = start_workers m z_id config.worker_count 0 in
    let until_network = started ++ (acquire workers ∷ (opened ++ run_network ∷ [])) in
    if m.network_ends
    then (do
      closed ← stop_workers m running 0
      some (
        returns (pos 0),
        until_network ++ (closed ++ (release workers ∷ global_cleanup m.library.stop fdb)),
      ))
    else some (blocks, until_network)

-- What happens after `fdb_global_init`, by what it returned. A `calloc` that fails is not noticed
-- before the memory is used, and for no worker at all it is not.
pub serve_with : Machine → Config → ℕ → ℤ × Global × List Event → Option (Ending × List Event)
unfolding run_workers
serve_with m config z_id (pos zero, fdb, started) =
    if m.calloc || config.worker_count == 0 then run_workers m config z_id fdb started else none
serve_with m config z_id (pos (suc n), fdb, started) = some (returns (pos 1), started)
serve_with m config z_id (negsuc n, fdb, started) = some (returns (pos 1), started)

-- What happens after the options are checked.
pub serve : Machine → Config → ℕ → Option (Ending × List Event)
unfolding global_init serve_with
serve m config z_id =
    serve_with m config z_id (global_init m.library config.cluster_file config.worker_count)

-- The check that a zone was given, and what follows it; a zone is cut to 32 bits.
pub with_zone : Machine → Config → ℤ → Option (Ending × List Event)
unfolding serve
with_zone m config (negsuc n) = some (returns (pos 1), [])
with_zone m config (pos n) =
    if config.have_z_id then serve m config (u32 n) else some (returns (pos 1), [])

pub after_options : Machine → Parsed → Option (Ending × List Event)
unfolding with_zone
after_options m (leave code) = some (returns code, [])
after_options m (go_on config) = with_zone m config config.z_id

pub main : Machine → List Opt → Option (Ending × List Event)
unfolding parse after_options
main m opts = after_options m (parse opts defaults)
