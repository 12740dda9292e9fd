-- ===== src/Store/Changes.antt =====
-- What `latestChanges` of internal/db/store.go gives, path by path: the newest change of each path,
-- once.
pub mod Shown
use docstore.Base.{
  ℕ, ◌≤◌, ◌<◌, String, ◌≡◌, refl, sym, ap, subst, ◌∙◌, inl, inr, Bool, true, false, ◌&&◌, Option,
  none, some, List, [], ◌∷◌, arith, All, All-map, Bool-cases, Option-cases, if◌then◌else◌, ◌==◌,
  eq_iff, some_item, first,
}
use docstore.Store.Tables.{Db, FileCommit}
use docstore.Store.Rows.{
  newer, newest, add_latest, distinct_latest, changed_since, latest_changes, at_path, version_of,
  visible, up_to,
}
use docstore.Store.Merge.{change_at}
use docstore.Store.Lookup.{shows}

-- The path of a row, when the newer of two rows of one path is kept.
path-newer : (r q : FileCommit) → (q.path == r.path) ≡ true → (newer r (some q)).path ≡ r.path
unfolding newer
path-newer r q e = ground (arith, (eq_iff q.path r.path).0 e)

-- A change is looked up by its path after one more row was taken in.
abbrev added : FileCommit → String → Option FileCommit → Option FileCommit
added r path best = if r.path == path then some (newer r best) else best

change_at-add_latest :
    (path : String) (r : FileCommit) (qs : List FileCommit)
    → change_at path (add_latest r qs) ≡ added r path (change_at path qs)
unfolding change_at add_latest
change_at-add_latest path r [] = refl
change_at-add_latest path r (q ∷ qs) = ground (
  arith,
  eq_iff q.path r.path,
  eq_iff q.path path,
  eq_iff r.path path,
  change_at-add_latest path r qs,
)

pub change_at-distinct_latest :
    (path : String) (p : FileCommit → Bool) (rs : List FileCommit)
    → change_at path (distinct_latest p rs) ≡ newest (λ r. p r && at_path path r) rs
unfolding distinct_latest newest at_path
change_at-distinct_latest path p [] = unfold change_at in refl
change_at-distinct_latest path p (r ∷ rs) =
    ground (
      arith,
      change_at-distinct_latest path p rs,
      change_at-add_latest path r (distinct_latest p rs),
    )

-- No row of a list has a path.
abbrev pub Fresh : String → List FileCommit → Type 0
Fresh path rs = All (λ r. (r.path == path) ≡ false) rs

abbrev pub IsDistinct : List FileCommit → Type 0
IsDistinct [] = Unit
IsDistinct (r ∷ rs) = Fresh r.path rs × IsDistinct rs

add_latest-Fresh :
    (path : String) (r : FileCommit) (qs : List FileCommit)
    → (r.path == path) ≡ false
    → Fresh path qs
    → Fresh path (add_latest r qs)
unfolding add_latest
add_latest-Fresh path r [] h f = (h, tt)
add_latest-Fresh path r (q ∷ qs) h f = ground (arith, add_latest-Fresh path r qs h f.1)

add_latest-IsDistinct :
    (r : FileCommit) (qs : List FileCommit) → IsDistinct qs → IsDistinct (add_latest r qs)
unfolding add_latest
add_latest-IsDistinct r [] d = (tt, tt)
add_latest-IsDistinct r (q ∷ qs) d = elim (Bool-cases (q.path == r.path)) [
  | inl e ↦ rw e (subst (λ path. Fresh path qs) (same e) d.0, d.1)
  | inr e ↦ rw e (
    add_latest-Fresh q.path r qs (ground (arith, eq_iff q.path r.path, eq_iff r.path q.path)) d.0,
    add_latest-IsDistinct r qs d.1,
  )
]
  where
    same : (q.path == r.path) ≡ true → q.path ≡ (newer r (some q)).path
    same e = (eq_iff q.path r.path).0 e ∙ sym (path-newer r q e)

pub distinct_latest-IsDistinct :
    (p : FileCommit → Bool) (rs : List FileCommit) → IsDistinct (distinct_latest p rs)
unfolding distinct_latest
distinct_latest-IsDistinct p [] = tt
distinct_latest-IsDistinct p (r ∷ rs) =
    ground (arith, distinct_latest-IsDistinct p rs, add_latest-IsDistinct r (distinct_latest p rs))
