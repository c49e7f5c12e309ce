-- ===== src/Perm/Tests.antt =====
-- The catalogue's own matrix, and a right of the moderator.
use wf_all.Prelude.{◌≡◌, refl}
use wf_all.Auth.{moderator, lookup_grant}
use wf_all.Perm.{rows, by_role, build, grants, lookup}
use wf_all.Perm.Laws.{find_cell, grants-of_matrix}
use wf_all.Perm.Matrix.{SoundCell, grants-IsSound}

grants-of_matrix_example :
    lookup_grant (by_role rows moderator) "geo.cities.rename"
    ≡ find_cell rows "geo.cities.rename" moderator
unfolding build rows
grants-of_matrix_example = grants-of_matrix rows rows moderator "geo.cities.rename" refl

grants-IsSound_example :
    SoundCell moderator
      (lookup_grant (grants moderator) "geo.cities.rename")
      (lookup "geo.cities.rename")
unfolding grants lookup_grant
grants-IsSound_example = grants-IsSound moderator "geo.cities.rename" (λ e. cc)
