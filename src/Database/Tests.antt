-- ===== src/Database/Tests.antt =====
-- A statement over two small tables, whose rows are dates.
use server_api.Prelude.{ℕ, ◌≡◌, Bool, true, ◌&&◌, none, some, List, [], ◌∷◌, leb, ltb}
use server_api.Database.{DbTargets, pick_targets, build_union_sql}
use server_api.Database.Routing.{rows_of, both, pick_targets_complete}

abbrev itself : ℕ → ℕ
itself d = d

abbrev between : ℕ → Bool
between d = leb 12 d && ltb d 15

between-eq-true : (d : ℕ) → between d ≡ true → (leb 12 d && ltb d 15) ≡ true
between-eq-true d h = h

pick_targets_complete_example :
    rows_of itself 20 between
      (11 ∷ 13 ∷ [])
      (21 ∷ [])
      (build_union_sql true "*" "w" (pick_targets 20 (some 12) (some 15)) "" none true).0.branches
    ≡ rows_of itself 20 between
        (11 ∷ 13 ∷ [])
        (21 ∷ [])
        (build_union_sql true "*" "w" (both itself 20) "" none true).0.branches
pick_targets_complete_example =
    pick_targets_complete itself 20 (some 12) (some 15) between (11 ∷ 13 ∷ []) (21 ∷ []) "*" "w" ""
      none true between-eq-true

abbrev bounds : List ℕ
bounds = 12 ∷ 15 ∷ []

abbrev full_range : DbTargets
full_range = record { use_archive = true; use_live = true }
