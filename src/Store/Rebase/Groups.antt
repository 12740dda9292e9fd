-- ===== src/Store/Rebase/Groups.antt =====
-- A branch with changes since its base has commits to replay.
use docstore.Base.{ℕ, String, ◌≡◌, refl, Bool, List, [], ◌∷◌, arith, keep}
use docstore.Store.Tables.{Db, FileCommit}
use docstore.Store.Rows.{distinct_latest, latest_changes}
use docstore.Store.Rebase.{
  RebaseGroup, add_to_group, group_rows, insert_row, sort_rows, branch_commit_groups,
}

group_rows-nil : (rows : List FileCommit) → group_rows rows ≡ [] → rows ≡ []
unfolding group_rows
group_rows-nil [] e = refl
group_rows-nil (r ∷ rs) e = absurd (add_to_group-ne-nil (group_rows rs) e)
  where
    add_to_group-ne-nil : (gs : List RebaseGroup) → add_to_group r gs ≡ [] → ⊥
    add_to_group-ne-nil [] = unfold add_to_group in ground arith
    add_to_group-ne-nil (g ∷ gs) = unfold add_to_group in ground arith

sort_rows-nil : (rows : List FileCommit) → sort_rows rows ≡ [] → rows ≡ []
unfolding sort_rows
sort_rows-nil [] e = refl
sort_rows-nil (r ∷ rs) e = absurd (insert_row-ne-nil (sort_rows rs) e)
  where
    insert_row-ne-nil : (qs : List FileCommit) → insert_row r qs ≡ [] → ⊥
    insert_row-ne-nil [] = unfold insert_row in ground arith
    insert_row-ne-nil (q ∷ qs) = unfold insert_row in ground arith

distinct_latest-nil :
    (p : FileCommit → Bool) (rows : List FileCommit)
    → keep p rows ≡ []
    → distinct_latest p rows ≡ []
unfolding distinct_latest
distinct_latest-nil p [] e = refl
distinct_latest-nil p (r ∷ rs) e = ground (arith, distinct_latest-nil p rs)

pub groups-nil :
    (db : Db) (repo branch : String) (base : ℕ)
    → branch_commit_groups db repo branch base ≡ []
    → latest_changes db repo branch base ≡ []
unfolding branch_commit_groups latest_changes
groups-nil db repo branch base e =
    distinct_latest-nil _ db.file_commits (sort_rows-nil _ (group_rows-nil _ e))
