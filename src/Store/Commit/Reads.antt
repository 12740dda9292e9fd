-- ===== src/Store/Commit/Reads.antt =====
-- What a branch shows after a commit of internal/db/store.go, by GetFile of internal/store/store.go.
use docstore.Base.{
  ℕ, String, ◌≡◌, refl, sym, ap, subst, ◌∙◌, inl, inr, ◌⊎◌, Bool, true, false, none, some, Option,
  List, [], ◌∷◌, All, Bool-cases, if◌then◌else◌, ◌==◌,
}
use docstore.Base.Sorting.{OnlyOne}
use docstore.Store.Tables.{Db, Env, FileCommit, Result, ok, err}
use docstore.Store.Rows.{newest, version_of}
use docstore.Store.Writes.{file_commit_row, insert_file_commit}
use docstore.Store.Commit.{
  FileChange, CommitRequest, CommitFileResult, Written, version_for, write_row, write_files,
  add_written, and_then, results, written, stored_version, store_content,
}
use docstore.Store.Commit.Documents.{SameRows, version_for-SameRows}
use docstore.Store.Lookup.{Under, TakesPath, newest-above, newest-skip}

-- What a path shows once the results of a commit, oldest first, are laid over an older version.
abbrev pub committed : String → List CommitFileResult → Option String → Option String
committed path [] old = old
committed path (r ∷ rs) old = committed path rs (if r.path == path then r.version_id else old)

module _ (env : Env) (req : CommitRequest) (seq : ℕ) where
  -- The path is still to be written, once at most, and no row that a test takes is of the commit yet;
  -- or it is not written any more.
  abbrev pub Ready : String → (FileCommit → Bool) → List FileChange → List FileCommit → Type 0
  Ready path p fs rows =
      (All (Under p seq) rows × OnlyOne (λ c. c.path == path) fs)
      ⊎ All (λ (c : FileChange). (c.path == path) ≡ false) fs

  newest-write_row :
      (path : String) (p : FileCommit → Bool)
      → TakesPath req.repo req.branch seq path p
      → (w : Written) (db : Db)
      → ((w.result.path == path) ≡ true → All (Under p seq) db.file_commits)
      → version_of (newest p (write_row env req seq w db).file_commits) ≡ (
          if w.result.path == path
          then w.result.version_id
          else version_of (newest p db.file_commits))
  unfolding write_row insert_file_commit version_of
  newest-write_row path p f w db h =
      let row = file_commit_row env db req.repo seq w.result.path w.result.version_id req.branch in
      elim (Bool-cases (w.result.path == path)) [
        | inl t ↦ rw (newest-above p row db.file_commits (f row refl refl refl ∙ t) (h t), t)
        | inr t ↦ rw (newest-skip p row db.file_commits (f row refl refl refl ∙ t), t)
      ]

  -- A row of one of the paths leaves the others ready.
  write_row-Ready :
      (path : String) (p : FileCommit → Bool)
      → TakesPath req.repo req.branch seq path p
      → (c : FileChange) (fs : List FileChange) (w : Written) (db : Db) → w.result.path ≡ c.path
      → Ready path p (c ∷ fs) db.file_commits
      → ((w.result.path == path) ≡ true → All (Under p seq) db.file_commits)
        × Ready path p fs (write_row env req seq w db).file_commits
  unfolding write_row insert_file_commit
  write_row-Ready path p f c fs w db same (inl (under, once)) = (
    λ t. under,
    elim (Bool-cases (c.path == path)) [
      | inl e ↦ inr (once.0 e)
      | inr e ↦
          let row =
            file_commit_row env db req.repo seq w.result.path w.result.version_id req.branch in
          let other : p row ≡ false = f row refl refl refl ∙ (ap (λ q. q == path) same ∙ e) in
          inl ((λ t. cc, under), once.1)
    ],
  )
  write_row-Ready path p f c fs w db same (inr absent) =
      (λ t. cc (sym t ∙ (ap (λ q. q == path) same ∙ absent.0)), inr absent.1)

  -- What is written of a file has the path of the file.
  abbrev Names : FileChange → Result Written × Db → Type 0
  Names c (ok w, db) = w.result.path ≡ c.path
  Names c (err e, db) = Unit

  stored_version-Names :
      (c : FileChange) (bytes : List ℕ) (o : Result String × Db)
      → Names c (stored_version env c bytes o)
  unfolding stored_version written
  stored_version-Names c bytes (ok id, db) = refl
  stored_version-Names c bytes (err e, db) = tt

  version_for-Names :
      (c : FileChange) (content : Option (List ℕ)) (db : Db)
      → Names c (version_for env req c content db)
  unfolding version_for written
  version_for-Names c none db = refl
  version_for-Names c (some bytes) db =
      stored_version-Names c bytes (store_content env req c bytes db)

  -- A successful loop shows its results over an older version.
  abbrev pub Lays :
      String → (FileCommit → Bool) → Option String → Result (List Written) × Db → Type 0
  Lays path p old (ok ws, after) =
      version_of (newest p after.file_commits) ≡ committed path (results ws) old
  Lays path p old (err e, after) = Unit

  add_written-Lays :
      (path : String) (p : FileCommit → Bool) (old : Option String) (w : Written)
      (o : Result (List Written) × Db)
      → Lays path p (if w.result.path == path then w.result.version_id else old) o
      → Lays path p old (add_written w o)
  unfolding add_written results
  add_written-Lays path p old w (ok ws, after) h = h
  add_written-Lays path p old w (err e, after) h = tt

  pub write_files-Lays :
      (path : String) (p : FileCommit → Bool)
      → TakesPath req.repo req.branch seq path p
      → (fs : List FileChange) (db : Db) → Ready path p fs db.file_commits
      → Lays path p (version_of (newest p db.file_commits)) (write_files env req seq fs db)
  unfolding write_files results
  write_files-Lays path p f [] db h = refl
  write_files-Lays path p f (c ∷ fs) db h =
      go (version_for env req c c.content db) (version_for-SameRows env req c c.content db)
        (version_for-Names c c.content db) (write_files-Lays path p f fs)
    where
      go :
          (o : Result Written × Db)
          → SameRows db o.1
          → Names c o
          → ((d : Db)
              → Ready path p fs d.file_commits
              → Lays path p (version_of (newest p d.file_commits)) (write_files env req seq fs d))
          → Lays path p (version_of (newest p db.file_commits)) (
              and_then o
                λ w db'. add_written w (write_files env req seq fs (write_row env req seq w db')))
      go (err e, db') s m ih = unfold and_then in tt
      go (ok w, db') s m ih =
          unfold and_then in
          let ready : Ready path p (c ∷ fs) db'.file_commits = rw s.rows h in
          let next = write_row-Ready path p f c fs w db' m ready in
          add_written-Lays path p _ w _ (
            subst
              (λ old. Lays path p old (write_files env req seq fs (write_row env req seq w db')))
              (newest-write_row path p f w db' next.0
                ∙ ap
                    (λ rows.
                      if w.result.path == path
                      then w.result.version_id
                      else version_of (newest p rows))
                    s.rows)
              (ih (write_row env req seq w db') next.1))
