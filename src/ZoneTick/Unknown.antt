-- ===== src/ZoneTick/Unknown.antt =====
-- A tick whose commits are done although their futures hold errors: it is made again, and reported
-- once.
use gyreplane.Prelude.{ℕ, List, [], ◌∷◌, ◌++◌, All}
use gyreplane.Fdb.{Call, commit}
use gyreplane.ZoneTick.{TickCtx}
use gyreplane.ZoneTick.Update.{IsSafe, writes}
use gyreplane.ZoneTick.Store.{Database}
use gyreplane.ZoneTick.Zones.{zone_read}
use gyreplane.ZoneTick.World.{World}

module _ {Contents : Type 0} (db : Database Contents) (ctx : TickCtx) where
  -- What a tick that reads these contents calls, and what its commit leaves of them.
  abbrev pub round : Contents → List Call
  round c = writes ctx (zone_read db ctx.z_id c) ++ commit ctx.tr ∷ []

  -- Each time that the range is read the tick can move what it holds.
  abbrev pub AllMoved : List ℕ → Contents → Type 0
  AllMoved [] c = All (IsSafe ctx.tick_count) (zone_read db ctx.z_id c)
  AllMoved (err ∷ errs) c =
      All (IsSafe ctx.tick_count) (zone_read db ctx.z_id c) × AllMoved errs (db.apply c (round c))
