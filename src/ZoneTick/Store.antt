-- ===== src/ZoneTick/Store.antt =====
-- What a tick does to the contents of the database, by what FoundationDB documents of a range read
-- and a commit.
use mathlib.Core.Option.{map}
use mathlib.Core.List.{append_assoc}
use gyreplane.Fdb.Submit.{submitted}
use gyreplane.Prelude.{
  ℕ, ◌^◌, ◌<◌, ◌≡◌, refl, ap, sym, subst, ◌∙◌, inl, inr, Bool, true, false, ◌||◌, ◌&&◌, Option,
  none, some, List, [], ◌∷◌, ◌++◌, arith, ◌==◌, if◌then◌else◌, Bool-cases, All,
}
use gyreplane.Kv.{entity_range_begin, entity_range_end}
use gyreplane.Kv.KeyOrder.{in_range}
use gyreplane.Fdb.{Answer, Call, get, write, range_read, commit, on_error}
use gyreplane.ZoneTick.{TickCtx, State, KeyValue, handle_range_read, on_commit}
use gyreplane.ZoneTick.Update.{IsSafe, moved_value, writes}
use gyreplane.ZoneTick.Handlers.{read_done, written}
use gyreplane.ZoneTick.Complete.{read_ok}

abbrev pub key_eq : List ℕ → List ℕ → Bool
key_eq [] [] = true
key_eq [] (y ∷ ys) = false
key_eq (x ∷ xs) [] = false
key_eq (x ∷ xs) (y ∷ ys) = x == y && key_eq xs ys

pub key_eq_refl : (xs : List ℕ) → key_eq xs xs ≡ true
key_eq_refl [] = refl
key_eq_refl (x ∷ xs) = ground (arith, key_eq_refl xs)

pub key_eq→eq : (xs ys : List ℕ) → key_eq xs ys ≡ true → xs ≡ ys
key_eq→eq [] [] h = refl
key_eq→eq [] (y ∷ ys) h = absurd (ground arith)
key_eq→eq (x ∷ xs) [] h = absurd (ground arith)
key_eq→eq (x ∷ xs) (y ∷ ys) h = ground (arith, key_eq→eq xs ys)

-- What a transaction's calls leave under a key that held `old`.
abbrev pub last_write : List Call → List ℕ → Option (List ℕ) → Option (List ℕ)
last_write [] k old = old
last_write (write tr key value ∷ calls) k old =
    last_write calls k (if key_eq key k then some value else old)
last_write (get tr key ∷ calls) k old = last_write calls k old
last_write (range_read tr begin end options ∷ calls) k old = last_write calls k old
last_write (commit tr ∷ calls) k old = last_write calls k old
last_write (on_error tr err ∷ calls) k old = last_write calls k old

abbrev pub has_key : List ℕ → List KeyValue → Bool
has_key k [] = false
has_key k (kv ∷ kvs) = key_eq kv.key k || has_key k kvs

-- The database: a range read returns pairs of the range as they are stored, all of them where it
-- does not say that there are more, and a commit puts each value that the transaction wrote last
-- under its key.
pub record Database (Contents : Type 0) : Type 0 where
  pub lookup : Contents → List ℕ → Option (List ℕ)
  pub read : Contents → (begin end : List ℕ) → List KeyValue
  pub more : Contents → (begin end : List ℕ) → Bool
  pub apply : Contents → List Call → Contents
  pub read_stored :
      (c : Contents) (begin end : List ℕ)
      → All
          (λ kv. (in_range begin end kv.key ≡ true) × (lookup c kv.key ≡ some kv.value))
          (read c begin end)
  pub read_all :
      (c : Contents) (begin end k value : List ℕ)
      → more c begin end ≡ false
      → in_range begin end k ≡ true
      → lookup c k ≡ some value
      → has_key k (read c begin end) ≡ true
  pub apply_lookup :
      (c : Contents) (calls : List Call) (k : List ℕ)
      → lookup (apply c calls) k ≡ last_write calls k (lookup c k)

-- No read leaves anything out.
abbrev pub IsWhole : {Contents : Type 0} → Database Contents → Type 0
IsWhole {Contents} db = (c : Contents) (begin end : List ℕ) → db.more c begin end ≡ false

module _ {Contents : Type 0} (db : Database Contents) (ctx : TickCtx) (c : Contents) where
  abbrev pub Stored : List ℕ → List ℕ → List KeyValue → Type 0
  Stored begin end =
      All (λ kv. (in_range begin end kv.key ≡ true) × (db.lookup c kv.key ≡ some kv.value))

  pub last_write-writes :
      (begin end k : List ℕ) (kvs : List KeyValue) (old : Option (List ℕ))
      → Stored begin end kvs
      → last_write (writes ctx kvs ++ commit ctx.tr ∷ []) k old
        ≡ (if has_key k kvs then map (moved_value ctx.tick_count) (db.lookup c k) else old)
  last_write-writes begin end k [] old h = refl
  last_write-writes begin end k (kv ∷ kvs) old h =
      last_write-writes begin end k kvs _ h.1 ∙ step (key_eq kv.key k) refl
    where
      new : Option (List ℕ)
      new = map (moved_value ctx.tick_count) (db.lookup c k)

      step :
          (b : Bool)
          → key_eq kv.key k ≡ b
          → (if has_key k kvs
              then new
              else (if b then some (moved_value ctx.tick_count kv.value) else old))
            ≡ (if b || has_key k kvs then new else old)
      step false e = refl
      step true e = elim (Bool-cases (has_key k kvs)) [
        | inl again ↦ rw again refl
        | inr once ↦ rw once (sym (ap (map (moved_value ctx.tick_count)) found))
      ]
        where
          found : db.lookup c k ≡ some kv.value
          found = subst (λ key. db.lookup c key ≡ some kv.value) (key_eq→eq kv.key k e) h.0.1

  pub has_key-Stored :
      (begin end k : List ℕ) (kvs : List KeyValue)
      → Stored begin end kvs
      → has_key k kvs ≡ true
      → (in_range begin end k ≡ true) × ((value : List ℕ) × (db.lookup c k ≡ some value))
  has_key-Stored begin end k [] h e = absurd (ground arith)
  has_key-Stored begin end k (kv ∷ kvs) h e = elim (Bool-cases (key_eq kv.key k)) [
    | inl same ↦
        subst
          (λ key.
            (in_range begin end key ≡ true) × ((value : List ℕ) × (db.lookup c key ≡ some value)))
          (key_eq→eq kv.key k same) (h.0.0, (kv.value, h.0.1))
    | inr other ↦ has_key-Stored begin end k kvs h.1 (ground arith)
  ]

  -- The pairs that a whole read gives are the stored ones of its range.
  read_has_key :
      (begin end k : List ℕ)
      → db.more c begin end ≡ false
      → (if has_key k (db.read c begin end)
          then map (moved_value ctx.tick_count) (db.lookup c k)
          else db.lookup c k)
        ≡ (if in_range begin end k
            then map (moved_value ctx.tick_count) (db.lookup c k)
            else db.lookup c k)
  read_has_key begin end k whole = elim (Bool-cases (has_key k (db.read c begin end))) [
    | inl held ↦
        let (within, _) =
          has_key-Stored begin end k (db.read c begin end) (db.read_stored c begin end) held in
        rw (held, within) refl
    | inr missing ↦ elim (Bool-cases (in_range begin end k)) [
      | inr outside ↦ rw (missing, outside) refl
      | inl within ↦ rw (missing, within) (unread missing within (db.lookup c k) refl)
    ]
  ]
    where
      unread :
          has_key k (db.read c begin end) ≡ false
          → in_range begin end k ≡ true
          → (found : Option (List ℕ)) → db.lookup c k ≡ found
          → found ≡ map (moved_value ctx.tick_count) found
      unread missing within none e = refl
      unread missing within (some value) e =
          absurd (cc (missing, db.read_all c begin end k value whole within e))

  -- What a tick writes and commits moves every entity that it was given and leaves every other key
  -- as it was.
  pub handle_range_read-lookup :
      (ans : Answer) (s : State)
      → ctx.tick_count < 2 ^ 32
      → All
          (IsSafe ctx.tick_count)
          (db.read c (entity_range_begin ctx.z_id) (entity_range_end ctx.z_id))
      → let kvs = db.read c (entity_range_begin ctx.z_id) (entity_range_end ctx.z_id) in
        (s' : State) × (made : List Call) × (handle_range_read (read_ok kvs) ans ctx s ≡ some s')
        × (s'.calls ≡ s.calls ++ made)
        × ((k : List ℕ)
            → db.lookup (db.apply c made) k ≡ (
                if has_key k kvs
                then map (moved_value ctx.tick_count) (db.lookup c k)
                else db.lookup c k))
  handle_range_read-lookup ans s small safe =
      let begin = entity_range_begin ctx.z_id in
      let end = entity_range_end ctx.z_id in
      let kvs = db.read c begin end in
      (
        submitted ans (commit ctx.tr) (on_commit ctx) (written ctx (read_ok kvs) s),
        writes ctx kvs ++ commit ctx.tr ∷ [],
        read_done (read_ok kvs) ans ctx s refl refl small safe,
        append_assoc s.calls (writes ctx kvs) (commit ctx.tr ∷ []),
        λ k.
            db.apply_lookup c (writes ctx kvs ++ commit ctx.tr ∷ []) k
            ∙ last_write-writes begin end k kvs (db.lookup c k) (db.read_stored c begin end),
      )

  -- For fewer than 2 ^ 32 ticks, a transaction that reads the whole range of a zone, whose entities
  -- the tick can move without overflow, and commits what `zt_on_range_read` writes then, moves
  -- every entity stored in the zone's range and leaves every other key as it was.
  pub handle_range_read-apply :
      (ans : Answer) (s : State)
      → ctx.tick_count < 2 ^ 32
      → db.more c (entity_range_begin ctx.z_id) (entity_range_end ctx.z_id) ≡ false
      → All
          (IsSafe ctx.tick_count)
          (db.read c (entity_range_begin ctx.z_id) (entity_range_end ctx.z_id))
      → let kvs = db.read c (entity_range_begin ctx.z_id) (entity_range_end ctx.z_id) in
        (s' : State) × (made : List Call) × (handle_range_read (read_ok kvs) ans ctx s ≡ some s')
        × (s'.calls ≡ s.calls ++ made)
        × ((k : List ℕ)
            → db.lookup (db.apply c made) k ≡ (
                if in_range (entity_range_begin ctx.z_id) (entity_range_end ctx.z_id) k
                then map (moved_value ctx.tick_count) (db.lookup c k)
                else db.lookup c k))
  handle_range_read-apply ans s small whole safe =
      let (s', made, ran, called, after) = handle_range_read-lookup ans s small safe in
      (s', made, ran, called, λ k. after k ∙ read_has_key _ _ k whole)
