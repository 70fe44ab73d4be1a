-- ===== src/Tests/Access.antt =====
-- The access check on small claims.
use gyreplane.Prelude.{◌≡◌, ◌↔◌, true, List, [], ◌∷◌}
use gyreplane.Rebac.{RebacRelation, public, friend, interact, check}
use gyreplane.Rebac.Check.{Grants, check-Grants_iff}

abbrev claim : List RebacRelation
claim = friend ∷ public ∷ []

check-Grants_iff_example : (check claim interact ≡ true) ↔ Grants claim interact
check-Grants_iff_example = check-Grants_iff claim interact

-- The same relations in another order and with one listed twice.
abbrev reordered : List RebacRelation
reordered = public ∷ friend ∷ []
