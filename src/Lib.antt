-- ===== src/Lib.antt =====
-- A model of the zone server of gyreplane and of its measuring tool: src/*.c, src/*.h, src/gen and
-- tools/ of the repository.
--
-- The program keeps the entities of a zone in FoundationDB. A tick of a zone (src/zf_zonetick.c)
-- reads the range of the zone's entities, moves each by its velocity, stores it, and commits; its
-- steps are callbacks of an adapter (src/fdb_database.c), which wraps libfdb_c. Keys and values are
-- built in src/zf_kv.c; an entity's value is the wire packet of src/gen/xr_grid_entity_packet.c.
-- src/gen/rebac.c decides what a player may do, and src/gen/sinew_align.c fits rotations.
--
-- Files. Prelude holds the shared helpers: lists measured by native numbers, bytes, bit operations,
-- integers in two's complement. The rest follows the program:
-- Packet: src/gen/xr_grid_entity_packet.{h,c}. `encode` and `decode` are
--   xr_grid_entity_packet_encode and _decode, with put_ and get_ helpers under their own names; a
--   buffer is the list of its bytes, and a read out of range is `none`.
-- Rebac: src/gen/rebac.{h,c}, each function without its prefix `rebac_`.
-- Kv: src/zf_kv.{h,c}, each function without its prefix `zf_kv_`. A key builder is the list of
--   the bytes it writes. `Kv.KeyOrder.key_lt` is FoundationDB's order of keys, byte by byte.
-- Motion: vel_to_um_per_tick and the position update in zt_on_range_read.
-- Fdb: the adapter. `Library` holds what is allocated (futures, wrappers, transactions), the
--   calls of libfdb_c that were made, and fdb_thread_state_t. What libfdb_c and malloc answer to a
--   submission is an `Answer`; `request` is what the four asynchronous operations share.
--   `future_callback` is the wrapper around every callback.
-- ZoneTick: zf_zonetick_run and the three callbacks, each as the function that the adapter calls;
--   what a future holds is an `Outcome`. `ZoneTick.Reach.Step` starts a tick or makes one of the
--   callbacks to come, in any order. `ZoneTick.Store.Database` is what FoundationDB documents of a
--   range read, which may leave pairs out, and a commit, as a parameter; `ZoneTick.Zones.History`
--   is a sequence of commits of ticks of any zones on it, and `ZoneTick.World.WorldStep` interleaves
--   the callbacks of any number of ticks on one database. `ZoneTick.Tally` forgets the order of the
--   commits by a quotient.
-- Queue: src/list.h, on a memory of the `next` fields.
-- Process: src/main.c with fdb_global_init, fdb_thread_init and the two cleanups; a run is the
--   sequence of what it acquires and releases, and whether `fdb_run_network` ever returns is an
--   argument. `worker_main` is the loop of a worker.
-- Throughput: tools/zonetick_throughput.c, on top of ZoneTick and Process. `seed_entities` and
--   `probe_entity` are the functions of that name; Throughput.Timed has on_tick_done and the two
--   loops of main, Throughput.Command the options and the rest of main as `tool_main`. The answers,
--   the clock and the callbacks of each round of the event loop are arguments. Throughput.Serving
--   takes the callbacks from a `Database` that gives in each round what it holds.
-- Align: src/gen/sinew_align.{h,c}, each function without its prefix `sinew_`. The machine's double
--   and math.h are the parameter `Double`, of which only commutative multiplication is assumed.
-- Tests: concrete runs.
--
-- Integers are their values with the C type's wrap-around written out; signed overflow, which C
-- leaves undefined, is `none`. The loops are over lists or over a fixed number of rounds, but for
-- three that wait for something outside: the loop of a worker, which waits for its flag, and the two
-- loops of the tool, which wait for the clock. Those take a bound on their rounds, and the theorems on
-- them show that it is enough once the flag is cleared or the clock has passed the deadline.
--
-- Not modelled: how FoundationDB stores and orders transactions, beyond what `Database` and
-- `History` state of it (elsewhere a read's result is an argument, as is every error); printing;
-- what rounding does to a fitted rotation; two threads at once: a callback is made between two
-- steps of the program; and types of the headers that no code uses.
pub mod Prelude
pub mod Queue
pub mod Process
pub mod Rebac
pub mod Align
pub mod Packet
pub mod Kv
pub mod Motion
pub mod Fdb
pub mod ZoneTick
pub mod Throughput
pub mod Tests
