-- ===== src/Store/Invariant/Commits.antt =====
-- Commit of internal/db/store.go and the well-formedness of the tables.
use docstore.Base.{ℕ, ◌+◌, ◌<◌, ◌≡◌, inl, inr, List, arith, Bool-cases, Option-cases}
use docstore.Store.Tables.{Db, Env, Result, ok, err, is_active, find_branch}
use docstore.Store.Writes.{insert_commit}
use docstore.Store.Commit.{
  FileChange, CommitRequest, Written, write_row, write_files, finish_commit, commit_body,
  commit_files,
}
use docstore.Store.Commit.Documents.{write_files_keep}
use docstore.Store.Invariant.{
  Extends, Extends-refl, Extends-trans, insert_commit-Extends, update_commit_hash-Extends,
  with_tx-Extends,
}
use docstore.Store.Invariant.Within.{
  Within, Within-refl, Within-trans, SameRows-Within, insert_file_commit-Within, set_head-Extends,
}

module _ (env : Env) (req : CommitRequest) (seq : ℕ) where
  pub write_row-Within :
      (w : Written) (db : Db) → seq < db.next_sequence → Within db (write_row env req seq w db)
  unfolding write_row
  write_row-Within w db h =
      insert_file_commit-Within env db req.repo seq w.result.path w.result.version_id req.branch h

  pub write_files-Within :
      (fs : List FileChange) (db : Db)
      → seq < db.next_sequence
      → Within db (write_files env req seq fs db).1
  write_files-Within fs db h =
      write_files_keep env req seq (Within db) (λ d d' s x. Within-trans x (SameRows-Within s))
        (λ w d x. Within-trans x (write_row-Within w d (omega (arith, x.same)))) fs db
        (Within-refl db)

finish_commit-Extends :
    (env : Env) (now : ℕ) (req : CommitRequest) (seq : ℕ) (db : Db) (o : Result (List Written) × Db)
    → Extends db o.1
    → o.1.next_sequence ≡ seq + 1
    → Extends db (finish_commit env now req seq o).1
unfolding finish_commit
finish_commit-Extends env now req seq db (err e, after) x n = x
finish_commit-Extends env now req seq db (ok ws, after) x n = Extends-trans x (
    Extends-trans (set_head-Extends req.repo req.branch seq after n)
      (update_commit_hash-Extends _ req.repo seq _))

commit_body-Extends :
    (env : Env) (now : ℕ) (req : CommitRequest) (db : Db)
    → Extends db (commit_body env now req db).1
unfolding insert_commit commit_body
commit_body-Extends env now req db = elim (Option-cases (find_branch req.repo req.branch db)) [
  | inl e ↦ rw (e, commit_body) (Extends-refl db)
  | inr (b, e) ↦ elim (Bool-cases (is_active b.status)) [
    | inl a ↦
        rw (e, commit_body)
          (rw a (
            let db' = insert_commit db req.repo req.branch req.message req.author now in
            let files = write_files-Within env req db.next_sequence req.files db' (omega arith) in
            finish_commit-Extends env now req db.next_sequence db _
              (Extends-trans
                (insert_commit-Extends db req.repo req.branch req.message req.author now)
                files.extends)
              (omega (arith, files.same))))
    | inr a ↦ rw (e, commit_body) (rw a (Extends-refl db))
  ]
]

-- A commit keeps the tables well-formed.
pub commit_files-Extends :
    (env : Env) (now : ℕ) (req : CommitRequest) (db : Db)
    → Extends db (commit_files env now req db).1
unfolding commit_files
commit_files-Extends env now req db = with_tx-Extends db _ (commit_body-Extends env now req db)
