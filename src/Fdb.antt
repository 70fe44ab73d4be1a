-- ===== src/Fdb.antt =====
-- src/fdb_database.h and src/fdb_database.c: the adapter over FoundationDB's futures.
-- The state holds what is allocated: futures of the client library, callback wrappers of the
-- adapter and transactions, each under a handle of one supply. Each call of the library is kept in
-- `calls`, the last one at the end. What the library and `malloc` answer is an argument. `none` is
-- a fault: giving back what is not allocated, or a failed `assert`.
pub mod Handles
pub mod Submit
pub mod Contract
use gyreplane.Prelude.{
  ℕ, ◌+◌, Bool, true, false, ◌&&◌, Option, none, some, List, [], ◌∷◌, ◌++◌, ◌>>=◌, ◌==◌,
  if◌then◌else◌,
}
use gyreplane.Prelude.Int.{ℤ, pos, negsuc}
use Handles.{remove, remove_by}

-- A key selector: the key, whether the key itself is passed, and how many keys to go on from there.
pub record KeySelector : Type 0 where
  pub key : List ℕ
  pub or_equal : Bool
  pub offset : ℕ

-- `FDB_KEYSEL_FIRST_GREATER_OR_EQUAL`.
abbrev pub first_greater_or_equal : List ℕ → KeySelector
first_greater_or_equal key = record { key = key; or_equal = false; offset = 1 }

pub data StreamingMode : Type 0 where
  want_all iterator exact small medium large serial : StreamingMode

-- The other arguments of a range read; a limit of 0 is none.
pub record RangeOptions : Type 0 where
  pub limit : ℕ
  pub target_bytes : ℕ
  pub mode : StreamingMode
  pub iteration : ℕ
  pub snapshot : Bool
  pub reverse : Bool

-- A read without limits, in which conflicts are noticed, in the order of the keys.
abbrev pub want_whole : RangeOptions
want_whole = record {
  limit = 0;
  target_bytes = 0;
  mode = want_all;
  iteration = 0;
  snapshot = false;
  reverse = false;
}

pub data Call : Type 0 where
  get : (tr : ℕ) (key : List ℕ) → Call
  write : (tr : ℕ) (key value : List ℕ) → Call
  range_read : (tr : ℕ) (begin end : KeySelector) (options : RangeOptions) → Call
  commit : (tr : ℕ) → Call
  on_error : (tr err : ℕ) → Call

-- `fdb_callback_ctx_t`: the caller's function with its context, and the future.
pub record Wrapper (C : Type 0) : Type 0 where
  pub cb : C
  pub future : ℕ

-- What one submission meets: whether the library returns a future, whether `malloc` succeeds, and
-- what `fdb_future_set_callback` returns.
pub record Answer : Type 0 where
  pub future : Bool
  pub malloc : Bool
  pub set_callback : ℕ

-- `fdb_thread_state_t`, the count of its transactions and whether it has a database; the state of
-- the process that uses the adapter is `app`.
pub record Library (C A : Type 0) : Type 0 where
  pub db : Bool
  pub active_transactions : ℕ
  pub next : ℕ
  pub futures : List ℕ
  pub wrappers : List (Wrapper C)
  pub transactions : List ℕ
  pub calls : List Call
  pub app : A

module _ {C A : Type 0} where
  unfoldable pub future_destroy : ℕ → Library C A → Option (Library C A)
  future_destroy f s = do futures ← remove f s.futures; some (record s { futures = futures })

  unfoldable pub free_wrapper : ℕ → Library C A → Option (Library C A)
  free_wrapper f s = do
    wrappers ← remove_by Wrapper.future f s.wrappers
    some (record s { wrappers = wrappers })

  unfoldable pub transaction_destroy : ℕ → Library C A → Option (Library C A)
  transaction_destroy tr s = do
    transactions ← remove tr s.transactions
    some (record s { transactions = transactions })

  -- The return code, the transaction (0 if none) and the new state.
  unfoldable pub create_transaction : (err : ℕ) → Library C A → Option (ℤ × ℕ × Library C A)
  create_transaction err s =
      if s.db
      then if err == 0
        then some (
          pos 0,
          s.next,
          record s {
            active_transactions = s.active_transactions + 1;
            next = s.next + 1;
            transactions = s.next ∷ s.transactions;
          },
        )
        else some (pos err, 0, s)
      else none

  unfoldable pub submit_future : Answer → ℕ → C → Library C A → Option (ℤ × Library C A)
  submit_future ans future cb s =
      if ans.malloc
      then (let s = record s { wrappers = record { cb = cb; future = future } ∷ s.wrappers } in
          if ans.set_callback == 0 then some (pos 0, s) else (do
            s ← future_destroy future s
            s ← free_wrapper future s
            some (pos ans.set_callback, s)))
      else (do s ← future_destroy future s; some (negsuc 0, s))

  -- A call of the library that returns a future, or NULL; `failed` is what the adapter returns then.
  unfoldable pub request : Answer → (failed : ℤ) → Call → C → Library C A → Option (ℤ × Library C A)
  unfolding submit_future future_destroy free_wrapper
  request ans failed call cb s =
      if ans.future
      then submit_future ans s.next cb (record s {
        next = s.next + 1;
        futures = s.next ∷ s.futures;
        calls = s.calls ++ call ∷ [];
      })
      else some (failed, record s { calls = s.calls ++ call ∷ [] })

  unfoldable pub async_get : Answer → ℕ → List ℕ → C → Library C A → Option (ℤ × Library C A)
  async_get ans tr key = request ans (negsuc 0) (get tr key)

  unfoldable pub sync_set : ℕ → List ℕ → List ℕ → Library C A → Library C A
  sync_set tr key value s = record s { calls = s.calls ++ write tr key value ∷ [] }

  unfoldable pub async_get_range :
      Answer → ℕ → List ℕ → List ℕ → C → Library C A → Option (ℤ × Library C A)
  async_get_range ans tr begin end =
      request ans (negsuc 0)
        (range_read tr (first_greater_or_equal begin) (first_greater_or_equal end) want_whole)

  unfoldable pub async_commit : Answer → ℕ → C → Library C A → Option (ℤ × Library C A)
  async_commit ans tr = request ans (negsuc 0) (commit tr)

  unfoldable pub handle_error : Answer → ℕ → ℕ → C → Library C A → Option (ℤ × Library C A)
  handle_error ans tr err = request ans (pos err) (on_error tr err)

  -- The wrapper around every callback: `run` is the caller's function.
  unfoldable pub future_callback :
      (C → Library C A → Option (Library C A)) → Wrapper C → Library C A → Option (Library C A)
  unfolding future_destroy free_wrapper
  future_callback run w s = do
    s ← run w.cb s
    s ← future_destroy w.future s
    free_wrapper w.future s
