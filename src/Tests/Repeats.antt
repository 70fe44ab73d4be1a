-- ===== src/Tests/Repeats.antt =====
-- A tick of zone 3 whose first commit is done with an error, on a database of pairs.
use gyreplane.Prelude.{ℕ, List, [], ◌∷◌}
use gyreplane.ZoneTick.World.{World}
use gyreplane.ZoneTick.Unknown.{round}
use gyreplane.Tests.Stores.{Pairs, put_all, pairs_database}
use gyreplane.Tests.Tools.{seeded_pairs, tick}

-- The error commit_unknown_result, less one.
abbrev errors : List ℕ
errors = 1020 ∷ []

abbrev moved_pairs : Pairs
moved_pairs = put_all seeded_pairs (round pairs_database tick seeded_pairs)
