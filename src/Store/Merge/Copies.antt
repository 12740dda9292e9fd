-- ===== src/Store/Merge/Copies.antt =====
-- Rows that a merge or a rebase of internal/db/store.go copies under a new sequence.
use docstore.Base.{
  ℕ, String, ◌≡◌, refl, ap, subst, ◌∙◌, inl, inr, Bool, Option, none, some, List, [], ◌∷◌, arith,
  All, Bool-cases, Option-cases, if◌then◌else◌, ◌==◌, eq_iff,
}
use docstore.Store.Tables.{Db, Env, FileCommit, MergeConflict}
use docstore.Store.Rows.{newest, version_of}
use docstore.Store.Writes.{insert_file_commit, file_commit_row}
use docstore.Store.Merge.{change_at, copy_changes, find_conflicts}
use docstore.Store.Changes.{Fresh, IsDistinct}
use docstore.Store.Lookup.{AtMost, TakesPath, newest-cons, newest-skip}

-- A version with a change, if there is one, laid over it.
abbrev pub overlay : Option FileCommit → Option String → Option String
overlay none old = old
overlay (some r) old = r.version_id

change_at-Fresh : (path : String) (rs : List FileCommit) → Fresh path rs → change_at path rs ≡ none
unfolding change_at
change_at-Fresh path [] f = refl
change_at-Fresh path (r ∷ rs) f = rw f.0 (change_at-Fresh path rs f.1)

module _ (env : Env) (repo : String) (seq : ℕ) (branch path : String) (p : FileCommit → Bool)
    (takes : TakesPath repo branch seq path p) where
  newest-insert :
      (v : Option String) (at : String) (db : Db)
      → All (AtMost seq) db.file_commits
      → version_of (newest p (insert_file_commit env db repo seq at v branch).file_commits)
        ≡ (if at == path then v else version_of (newest p db.file_commits))
  unfolding insert_file_commit version_of
  newest-insert v at db h =
      let row = file_commit_row env db repo seq at v branch in
      elim (Bool-cases (at == path)) [
        | inl t ↦ rw (newest-cons p row db.file_commits (takes row refl refl refl ∙ t) h, t)
        | inr t ↦ rw (newest-skip p row db.file_commits (takes row refl refl refl ∙ t), t)
      ]

  -- Copied changes, one for each path, lie over what was shown before.
  pub newest-copy_changes :
      (rs : List FileCommit) (db : Db)
      → IsDistinct rs
      → All (AtMost seq) db.file_commits
      → version_of (newest p (copy_changes env repo seq branch rs db).file_commits)
        ≡ overlay (change_at path rs) (version_of (newest p db.file_commits))
  unfolding copy_changes change_at insert_file_commit
  newest-copy_changes [] db d h = refl
  newest-copy_changes (r ∷ rs) db d h =
      newest-copy_changes rs (insert_file_commit env db repo seq r.path r.version_id branch) d.1
        (omega arith, h)
      ∙ (ap (overlay (change_at path rs)) (newest-insert r.version_id r.path db h) ∙ last)
    where
      last :
          overlay
            (change_at path rs)
            (if r.path == path then r.version_id else version_of (newest p db.file_commits))
          ≡ overlay (change_at path (r ∷ rs)) (version_of (newest p db.file_commits))
      last = elim (Bool-cases (r.path == path)) [
        | inl t ↦
            rw (t, change_at-Fresh path rs (subst (λ x. Fresh x rs) ((eq_iff r.path path).0 t) d.0))
        | inr t ↦ rw t
      ]

cons-ne-nil : {c : MergeConflict} {cs : List MergeConflict} → c ∷ cs ≡ [] → ⊥
cons-ne-nil e = cc

-- With no conflict, no changed path is among the changes of main.
pub no_conflicts :
    (rs main_changes : List FileCommit) (path : String) (r : FileCommit)
    → find_conflicts rs main_changes ≡ []
    → change_at path rs ≡ some r
    → change_at path main_changes ≡ none
unfolding find_conflicts
no_conflicts [] ms path r e h = unfold change_at in cc h
no_conflicts (q ∷ rs) ms path r e h = elim (Option-cases (change_at q.path ms)) [
  | inl x ↦ elim (Bool-cases (q.path == path)) [
    | inl t ↦ subst (λ y. change_at y ms ≡ none) ((eq_iff q.path path).0 t) x
    | inr t ↦
        no_conflicts rs ms path r (rw (x, find_conflicts) at e) (unfold change_at in rw t at h)
  ]
  | inr (m, x) ↦ absurd (cons-ne-nil (rw (x, find_conflicts) at e))
]

pub branches-copy_changes :
    (env : Env) (repo : String) (seq : ℕ) (branch : String) (rs : List FileCommit) (db : Db)
    → (copy_changes env repo seq branch rs db).branches ≡ db.branches
unfolding copy_changes insert_file_commit
branches-copy_changes env repo seq branch [] db = refl
branches-copy_changes env repo seq branch (r ∷ rs) db =
    branches-copy_changes env repo seq branch rs _
