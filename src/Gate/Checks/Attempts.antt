-- ===== src/Gate/Checks/Attempts.antt =====
-- RetryChecks and ListCheckRuns of internal/db/store.go, one after the other.
use docstore.Base.{
  ℕ, ◌+◌, ◌≤◌, ◌<◌, String, ◌≡◌, refl, sym, ap, subst, ◌∙◌, inl, inr, Bool, true, false, ◌||◌,
  Option, none, some, List, [], ◌∷◌, ◌==◌, ltb, first, some_item, All, All-map, Bool-cases,
  Option-cases, eq_iff, arith, if◌then◌else◌,
}
use docstore.Base.Order.{text_leb}
use docstore.Base.Sorting.{some_item-sort_by}
use docstore.Store.Tables.{Env, Result, ok, err, find_branch}
use docstore.Gate.Tables.{CheckRunStatus, pending, passed, failed, CheckRun, Tables}
use docstore.Gate.Checks.{
  int16_zero, next_int16, add_name, names_at, checks_or_all, max_or, max_attempt, max_attempt_of,
  or_zero, insert_retries, end_retry, retry_names, retry_if_found, retry_checks, listed,
  list_check_runs,
}
use docstore.Gate.Checks.Latest.{best_run, of_check, first-list_check_runs}
use docstore.Gate.Checks.Retries.{is_of, max_attempt_grows, max_attempt-UpTo}
use docstore.Gate.Checks.Pending.{Retried, AllInserted, insert_retries-Retried}

abbrev is_failed : CheckRunStatus → Bool
is_failed failed = true
is_failed passed = false
is_failed pending = false

abbrev has_failed : Option CheckRun → Bool
has_failed none = false
has_failed (some r) = is_failed r.status

-- Whether a call is to retry a check: it is in the list, or the list is empty and the run of the
-- check that is listed without history at the sequence has failed.
abbrev pub is_retried : String → String → ℕ → String → List CheckRun → List String → Bool
is_retried repo branch seq name rows [] =
    has_failed (first (of_check name) (list_check_runs repo branch (some seq) false rows))
is_retried repo branch seq name rows (c ∷ cs) = some_item (λ d. d == name) (c ∷ cs)

some_item-add_name :
    (name c : String) (ns : List String)
    → some_item (λ d. d == name) (add_name c ns) ≡ (c == name || some_item (λ d. d == name) ns)
unfolding add_name
some_item-add_name name c [] = refl
some_item-add_name name c (n ∷ ns) =
    ground (arith, some_item-add_name name c ns, eq_iff n c, eq_iff n name, eq_iff c name)

some_item-names_at :
    (repo branch : String) (seq : ℕ) (name : String) (rows : List CheckRun)
    → some_item (λ d. d == name) (names_at repo branch seq rows)
      ≡ some_item (is_of repo branch seq name) rows
unfolding names_at
some_item-names_at repo branch seq name [] = refl
some_item-names_at repo branch seq name (r ∷ rs) = ground (
  arith,
  some_item-names_at repo branch seq name rs,
  some_item-add_name name r.check_name (names_at repo branch seq rs),
)

-- The run of a check that is listed is the best of its rows.
listed_best :
    (repo branch : String) (seq : ℕ) (name : String) (rows : List CheckRun)
    → first (of_check name) (list_check_runs repo branch (some seq) false rows)
      ≡ best_run (is_of repo branch seq name) rows
unfolding listed
listed_best repo branch seq name rows = first-list_check_runs repo branch name (some seq) rows

has_failed-best_run :
    (p : CheckRun → Bool) (rows : List CheckRun)
    → has_failed (best_run p rows) ≡ true
    → some_item p rows ≡ true
has_failed-best_run p [] h = cc
has_failed-best_run p (r ∷ rs) h = elim (Bool-cases (p r)) [
  | inl e ↦ rw e refl
  | inr e ↦ rw e (has_failed-best_run p rs (rw e at h))
]

some_item-checks_or_all :
    (repo branch : String) (seq : ℕ) (name : String) (rows : List CheckRun) (checks : List String)
    → is_retried repo branch seq name rows checks ≡ true
    → some_item (λ d. d == name) (checks_or_all repo branch seq rows checks) ≡ true
unfolding checks_or_all
some_item-checks_or_all repo branch seq name rows [] h =
    some_item-sort_by (λ d. d == name) text_leb (names_at repo branch seq rows)
    ∙ (some_item-names_at repo branch seq name rows
        ∙ has_failed-best_run (is_of repo branch seq name) rows
            (ap has_failed (sym (listed_best repo branch seq name rows)) ∙ h))
some_item-checks_or_all repo branch seq name rows (c ∷ cs) h = h

-- The greatest value of an int16 is free.
abbrev pub HasRoom : List CheckRun → Type 0
HasRoom rows = All (λ r. r.attempt < 65535) rows

max_attempt_of-HasRoom :
    (repo branch name : String) (seq : ℕ) (rows : List CheckRun)
    → HasRoom rows
    → or_zero (max_attempt_of repo branch seq name rows) < 65535
unfolding max_attempt_of or_zero max_or
max_attempt_of-HasRoom repo branch name seq [] h = omega arith
max_attempt_of-HasRoom repo branch name seq (r ∷ rs) h =
    let ih = max_attempt_of-HasRoom repo branch name seq rs h.1 in
    elim (Option-cases (max_attempt_of repo branch seq name rs)) [
      | inl e ↦ ground (arith, e, h.0)
      | inr (m, e) ↦ ground (arith, e, h.0)
    ]

max_attempt-HasRoom :
    (repo branch : String) (seq : ℕ) (rows : List CheckRun) (so_far : ℕ) (cs : List String)
    → HasRoom rows
    → so_far < 65535
    → max_attempt repo branch seq rows so_far cs < 65535
unfolding max_attempt
max_attempt-HasRoom repo branch seq rows so_far [] h g = g
max_attempt-HasRoom repo branch seq rows so_far (c ∷ cs) h g =
    let a = or_zero (max_attempt_of repo branch seq c rows) in
    let x = max_attempt_of-HasRoom repo branch c seq rows h in
    max_attempt-HasRoom repo branch seq rows (if ltb so_far a then a else so_far) cs h
      (ground arith)

module _ (env : Env) (repo branch : String) (seq : ℕ) (checks : List String) (t : Tables)
    (name : String) (room : HasRoom t.check_runs)
    (asked : is_retried repo branch seq name t.check_runs checks ≡ true) where
  -- The new attempt is an int16 above 0 and above the attempts of the check so far.
  abbrev pub Above : ℕ → Type 0
  Above attempt =
      All (λ r. is_of repo branch seq name r ≡ true → r.attempt < attempt) t.check_runs
      × ((int16_zero < attempt) × (attempt < 65536))

  abbrev pub ListedPending : ℕ → Tables → Type 0
  ListedPending attempt after =
      Retried env repo branch seq name attempt
        (first (of_check name) (list_check_runs repo branch (some seq) false after.check_runs))

  abbrev After : Result ℕ × Tables → Type 0
  After (err e, after) = after ≡ t
  After (ok attempt, after) = Above attempt × ListedPending attempt after

  ended :
      (attempt : ℕ) (o : Option (ℕ × List CheckRun))
      → Above attempt
      → AllInserted env repo branch seq name attempt o
      → After (end_retry attempt t o)
  unfolding end_retry
  ended attempt none above h = refl
  ended attempt (some (n, rows)) above h = (
    above,
    subst (Retried env repo branch seq name attempt) (sym (listed_best repo branch seq name rows))
        h,
  )

  named :
      (cs : List String)
      → some_item (λ d. d == name) cs ≡ true
      → After (retry_names env repo branch seq cs t)
  unfolding retry_names
  named [] h = refl
  named (c ∷ cs) h =
      let top = max_attempt repo branch seq t.check_runs int16_zero (c ∷ cs) in
      let upto = max_attempt-UpTo repo branch seq name t.check_runs int16_zero (c ∷ cs) h in
      let small : top < 65535 =
        max_attempt-HasRoom repo branch seq t.check_runs int16_zero (c ∷ cs) room (omega arith) in
      let least : int16_zero ≤ top =
        max_attempt_grows repo branch seq name t.check_runs int16_zero (c ∷ cs) in
      let next : next_int16 top ≡ top + 1 = unfold next_int16 in omega arith in
      rw next (
        ended (top + 1)
          (insert_retries env repo branch seq (top + 1) (c ∷ cs) t.db.drawn t.check_runs)
          (
            All-map _ _ t.check_runs (λ r f e. let x = f e in omega arith) upto,
            (omega arith, omega arith),
          )
          (insert_retries-Retried env repo branch seq name (top + 1) (c ∷ cs) t.db.drawn
            t.check_runs (All-map _ _ t.check_runs (λ r f e. let x = f e in omega arith) upto)
            (inl h)))

  retry_checks-After : After (retry_checks env repo branch seq checks t)
  unfolding retry_checks retry_if_found
  retry_checks-After = elim (Option-cases (find_branch repo branch t.db)) [
    | inl e ↦ rw (e, After) refl
    | inr (b, e) ↦
        rw (e, After)
          (named (checks_or_all repo branch seq t.check_runs checks)
            (some_item-checks_or_all repo branch seq name t.check_runs checks asked))
  ]

  module _ (attempt : ℕ) (after : Tables)
      (done : retry_checks env repo branch seq checks t ≡ (ok attempt, after)) where
    -- The attempt of a retry that succeeds is greater than every attempt at that sequence of a check
    -- that the call names, or, when it names none, of a check whose listed run has failed; and it is a
    -- positive int16, provided that no attempt has reached the greatest int16 yet.
    pub retry_checks-Above : Above attempt
    retry_checks-Above = (subst After done retry_checks-After).0

    -- After a retry that succeeds, no attempt having reached the greatest int16 before it, the runs
    -- listed without history at that sequence, which are those the merge policies see, have a pending
    -- one of the new attempt for each check that the call names, whatever it had reported, or, when the
    -- call names none, for each check whose listed run had failed.
    pub retry_checks_pending : ListedPending attempt after
    retry_checks_pending = (subst After done retry_checks-After).1
