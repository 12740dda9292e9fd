-- ===== src/Store/Commit/Documents.antt =====
-- Storing the content of a file touches no table but `documents`.
use docstore.Base.{
  ℕ, String, ◌≡◌, refl, ◌∙◌, [], ◌∷◌, Option, none, some, List, Option-cases, inl, inr,
}
use docstore.Store.Tables.{Db, Env, Result, ok, err}
use docstore.Store.Writes.{insert_file_commit}
use docstore.Store.Commit.{
  FileChange, CommitRequest, find_document, insert_document, store_content, stored_version,
  version_for, Written, write_row, write_files, add_written, and_then,
}

-- All tables but `documents` are as they were, and no sequence was given out.
pub record SameRows (db db' : Db) : Type 0 where
  pub rows : db'.file_commits ≡ db.file_commits
  pub commits : db'.commits ≡ db.commits
  pub branches : db'.branches ≡ db.branches
  pub reviews : db'.reviews ≡ db.reviews
  pub next_sequence : db'.next_sequence ≡ db.next_sequence

SameRows-refl : (db : Db) → SameRows db db
SameRows-refl db = record {
  rows = refl;
  commits = refl;
  branches = refl;
  reviews = refl;
  next_sequence = refl;
}

insert_document-SameRows :
    (env : Env) (req : CommitRequest) (f : FileChange) (hash : String)
    (where_to : Option (Option (List ℕ) × Option String)) (db : Db)
    → SameRows db (insert_document env req f hash where_to db).1
unfolding insert_document
insert_document-SameRows env req f hash none db = record {
  rows = refl;
  commits = refl;
  branches = refl;
  reviews = refl;
  next_sequence = refl;
}
insert_document-SameRows env req f hash (some (content, key)) db = record {
  rows = refl;
  commits = refl;
  branches = refl;
  reviews = refl;
  next_sequence = refl;
}

store_content-SameRows :
    (env : Env) (req : CommitRequest) (f : FileChange) (bytes : List ℕ) (db : Db)
    → SameRows db (store_content env req f bytes db).1
unfolding store_content
store_content-SameRows env req f bytes db =
    elim (Option-cases (find_document req.repo (env.lib.sha256_hex bytes) db)) [
      | inl e ↦ rw (e, store_content) (insert_document-SameRows env req f _ _ db)
      | inr (d, e) ↦ rw (e, store_content) (SameRows-refl db)
    ]

-- Only the tables beside the stored version are compared, whatever the outcome.
version_of_stored :
    (env : Env) (f : FileChange) (bytes : List ℕ) (r : Result String) (db db' : Db)
    → SameRows db db'
    → SameRows db (stored_version env f bytes (r, db')).1
unfolding stored_version
version_of_stored env f bytes (ok id) db db' h = h
version_of_stored env f bytes (err e) db db' h = h

pub version_for-SameRows :
    (env : Env) (req : CommitRequest) (f : FileChange) (content : Option (List ℕ)) (db : Db)
    → SameRows db (version_for env req f content db).1
unfolding version_for
version_for-SameRows env req f none db = SameRows-refl db
version_for-SameRows env req f (some bytes) db =
    let o = store_content env req f bytes db in
    version_of_stored env f bytes o.0 db o.1 (store_content-SameRows env req f bytes db)

-- What storing a content and writing a row keep, the loop over the files keeps, however it ends.
module _ (env : Env) (req : CommitRequest) (seq : ℕ) (P : Db → Type 0)
    (stored : (d d' : Db) → SameRows d d' → P d → P d')
    (rowed : (w : Written) (d : Db) → P d → P (write_row env req seq w d)) where
  add_written-keeps : (w : Written) (o : Result (List Written) × Db) → P o.1 → P (add_written w o).1
  unfolding add_written
  add_written-keeps w (r, after) h = h

  pub write_files_keep :
      (fs : List FileChange) (db : Db) → P db → P (write_files env req seq fs db).1
  unfolding write_files
  write_files_keep [] db h = h
  write_files_keep (c ∷ fs) db h =
      go (version_for env req c c.content db) (version_for-SameRows env req c c.content db)
        (write_files_keep fs)
    where
      go :
          (o : Result Written × Db)
          → SameRows db o.1
          → ((d : Db) → P d → P (write_files env req seq fs d).1)
          → P
              (and_then o
                λ w db'. add_written w (write_files env req seq fs (write_row env req seq w db'))).1
      go (err e, db') s ih = unfold and_then in stored db db' s h
      go (ok w, db') s ih =
          unfold and_then in add_written-keeps w _ (ih _ (rowed w db' (stored db db' s h)))

pub branches-write_files :
    (env : Env) (req : CommitRequest) (seq : ℕ) (fs : List FileChange) (db : Db)
    → (write_files env req seq fs db).1.branches ≡ db.branches
unfolding write_row insert_file_commit
branches-write_files env req seq fs db =
    write_files_keep env req seq (λ d. d.branches ≡ db.branches) (λ d d' s h. s.branches ∙ h)
      (λ w d h. h) fs db refl
