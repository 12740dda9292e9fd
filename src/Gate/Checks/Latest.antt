-- ===== src/Gate/Checks/Latest.antt =====
-- The run of a check that ListCheckRuns of internal/db/store.go lists without history.
use docstore.Base.{
  ℕ, String, ◌≡◌, refl, ◌∙◌, inl, inr, Bool, false, ◌&&◌, Option, none, some, List, [], ◌∷◌, ◌==◌,
  ltb, first, All, Bool-cases, eq_iff, arith, if◌then◌else◌,
}
use docstore.Base.Sorting.{OnlyOne, first-sort_by}
use docstore.Gate.Tables.{CheckRun}
use docstore.Gate.Checks.{add_run, latest_runs, name_leb, list_check_runs, listed}

abbrev pub higher : CheckRun → Option CheckRun → CheckRun
higher r none = r
higher r (some q) = if ltb r.attempt q.attempt then q else r

-- Of the rows that pass a test the one with the greatest attempt, and of those the newest.
abbrev pub best_run : (CheckRun → Bool) → List CheckRun → Option CheckRun
best_run p [] = none
best_run p (r ∷ rs) = let best = best_run p rs in if p r then some (higher r best) else best

abbrev pub of_check : String → CheckRun → Bool
of_check name r = r.check_name == name

abbrev added : CheckRun → String → Option CheckRun → Option CheckRun
added r name best = if r.check_name == name then some (higher r best) else best

first-add_run :
    (name : String) (r : CheckRun) (qs : List CheckRun)
    → first (of_check name) (add_run r qs) ≡ added r name (first (of_check name) qs)
unfolding add_run
first-add_run name r [] = refl
first-add_run name r (q ∷ qs) = ground (
  arith,
  eq_iff q.check_name r.check_name,
  eq_iff q.check_name name,
  eq_iff r.check_name name,
  first-add_run name r qs,
)

first-latest_runs :
    (name : String) (p : CheckRun → Bool) (rs : List CheckRun)
    → first (of_check name) (latest_runs p rs) ≡ best_run (λ r. p r && of_check name r) rs
unfolding latest_runs
first-latest_runs name p [] = refl
first-latest_runs name p (r ∷ rs) =
    ground (arith, first-latest_runs name p rs, first-add_run name r (latest_runs p rs))

abbrev NotOf : String → List CheckRun → Type 0
NotOf name rs = All (λ q. of_check name q ≡ false) rs

add_run-NotOf :
    (name : String) (r : CheckRun) (qs : List CheckRun)
    → of_check name r ≡ false
    → NotOf name qs
    → NotOf name (add_run r qs)
unfolding add_run
add_run-NotOf name r [] h f = (h, tt)
add_run-NotOf name r (q ∷ qs) h f = ground (arith, add_run-NotOf name r qs h f.1)

add_run-OnlyOne :
    (name : String) (r : CheckRun) (qs : List CheckRun)
    → OnlyOne (of_check name) qs
    → OnlyOne (of_check name) (add_run r qs)
unfolding add_run
add_run-OnlyOne name r [] d = ((λ e. tt), tt)
add_run-OnlyOne name r (q ∷ qs) d = elim (Bool-cases (q.check_name == r.check_name)) [
  | inl e ↦ rw e ((λ t. d.0 (ground (arith, t, (eq_iff q.check_name r.check_name).0 e))), d.1)
  | inr e ↦ rw e (
    (λ t.
        add_run-NotOf name r qs
          (ground (
            arith,
            e,
            t,
            eq_iff q.check_name name,
            eq_iff r.check_name name,
            eq_iff q.check_name r.check_name,
          ))
          (d.0 t)),
    add_run-OnlyOne name r qs d.1,
  )
]

latest_runs-OnlyOne :
    (name : String) (p : CheckRun → Bool) (rs : List CheckRun)
    → OnlyOne (of_check name) (latest_runs p rs)
unfolding latest_runs
latest_runs-OnlyOne name p [] = tt
latest_runs-OnlyOne name p (r ∷ rs) =
    ground (arith, latest_runs-OnlyOne name p rs, add_run-OnlyOne name r (latest_runs p rs))

pub first-list_check_runs :
    (repo branch name : String) (at_seq : Option ℕ) (rows : List CheckRun)
    → first (of_check name) (list_check_runs repo branch at_seq false rows)
      ≡ best_run (λ r. listed repo branch at_seq r && of_check name r) rows
unfolding list_check_runs
first-list_check_runs repo branch name at_seq rows =
    first-sort_by (of_check name) name_leb (latest_runs (listed repo branch at_seq) rows)
      (latest_runs-OnlyOne name (listed repo branch at_seq) rows)
    ∙ first-latest_runs name (listed repo branch at_seq) rows
