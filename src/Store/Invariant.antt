-- ===== src/Store/Invariant.antt =====
-- The well-formedness of the tables of internal/db, and that the shared statements keep it. The
-- operations follow in the modules below.
pub mod Within
pub mod Commits
pub mod Merges
pub mod Answers
pub mod Reach
use docstore.Base.{
  ℕ, ◌+◌, ◌≤◌, ◌<◌, String, ◌≡◌, refl, subst, inl, inr, Bool, true, false, Option, some, List, [],
  ◌∷◌, map, arith, All, All-map, if◌then◌else◌, first, Bool-cases,
}
use docstore.Store.Tables.{
  Db, Env, Branch, Commit, FileCommit, Outcome, commit, rollback, fail, with_tx, is_branch,
  find_branch,
}
use docstore.Store.Writes.{
  insert_commit, insert_file_commit, update_branch, with_hash, update_commit_hash,
}

abbrev pub RowBelow : ℕ → FileCommit → Type 0
RowBelow n r = r.sequence < n

abbrev pub CommitBelow : ℕ → Commit → Type 0
CommitBelow n c = c.sequence < n

-- A branch's base does not pass its head, and its head is a sequence given out, or 0.
abbrev pub BranchBelow : ℕ → Branch → Type 0
BranchBelow n b = (b.base_sequence ≤ b.head_sequence) × (b.head_sequence < n)

pub record IsWf (db : Db) : Type 0 where
  pub rows : All (RowBelow db.next_sequence) db.file_commits
  pub commits : All (CommitBelow db.next_sequence) db.commits
  pub branches : All (BranchBelow db.next_sequence) db.branches

-- From well-formed tables to well-formed tables, with no sequence given back.
pub record Extends (db db' : Db) : Type 0 where
  pub wf : IsWf db → IsWf db'
  pub grows : db.next_sequence ≤ db'.next_sequence

pub Extends-refl : (db : Db) → Extends db db
Extends-refl db = record { wf = λ h. h; grows = omega arith }

pub Extends-trans : {a b c : Db} → Extends a b → Extends b c → Extends a c
Extends-trans {a} {b} {c} p q = record {
  wf = λ h. q.wf (p.wf h);
  grows = omega (arith, p.grows, q.grows);
}

RowBelow-mono : (m n : ℕ) → m ≤ n → (r : FileCommit) → RowBelow m r → RowBelow n r
RowBelow-mono m n h r p = omega arith

CommitBelow-mono : (m n : ℕ) → m ≤ n → (c : Commit) → CommitBelow m c → CommitBelow n c
CommitBelow-mono m n h c p = omega arith

BranchBelow-mono : (m n : ℕ) → m ≤ n → (b : Branch) → BranchBelow m b → BranchBelow n b
BranchBelow-mono m n h b p = omega arith

-- Well-formedness with another number of sequences given out.
pub IsWf-raise :
    (db : Db) (n k : ℕ)
    → db.next_sequence ≤ n
    → IsWf db
    → IsWf (record db { next_sequence = n; drawn = k })
IsWf-raise db n k h w = record {
  rows = All-map _ _ db.file_commits (RowBelow-mono db.next_sequence n h) w.rows;
  commits = All-map _ _ db.commits (CommitBelow-mono db.next_sequence n h) w.commits;
  branches = All-map _ _ db.branches (BranchBelow-mono db.next_sequence n h) w.branches;
}

pub insert_commit-Extends :
    (db : Db) (repo branch message author : String) (now : ℕ)
    → Extends db (insert_commit db repo branch message author now)
unfolding insert_commit
insert_commit-Extends db repo branch message author now = record {
  wf = λ w.
      let up = IsWf-raise db (db.next_sequence + 1) 0 (omega arith) w in
      record { rows = up.rows; commits = (omega arith, up.commits); branches = up.branches };
  grows = omega arith;
}

pub next-insert_commit :
    (db : Db) (repo branch message author : String) (now : ℕ)
    → (insert_commit db repo branch message author now).next_sequence ≡ db.next_sequence + 1
unfolding insert_commit
next-insert_commit db repo branch message author now = refl

pub next-update_commit_hash :
    (db : Db) (repo : String) (seq : ℕ) (hash : String)
    → (update_commit_hash db repo seq hash).next_sequence ≡ db.next_sequence
unfolding update_commit_hash
next-update_commit_hash db repo seq hash = refl

pub insert_file_commit-Extends :
    (env : Env) (db : Db) (repo : String) (seq : ℕ) (path : String) (v : Option String)
    (branch : String)
    → seq < db.next_sequence
    → Extends db (insert_file_commit env db repo seq path v branch)
unfolding insert_file_commit
insert_file_commit-Extends env db repo seq path v branch h = record {
  wf = λ w. record { rows = (h, w.rows); commits = w.commits; branches = w.branches };
  grows = omega arith;
}

All-update :
    (P : Branch → Type 0) (test : Branch → Bool) (change : Branch → Branch)
    → ((b : Branch) → P b → P (change b))
    → (bs : List Branch) → All P bs
    → All P (map (λ b. if test b then change b else b) bs)
All-update P test change f [] h = tt
All-update P test change f (b ∷ bs) h = (either (test b), All-update P test change f bs h.1)
  where
    either : (t : Bool) → P (if t then change b else b)
    either true = f b h.0
    either false = h.0

pub update_branch-Extends :
    (repo name : String) (change : Branch → Branch) (db : Db)
    → ((b : Branch) → BranchBelow db.next_sequence b → BranchBelow db.next_sequence (change b))
    → Extends db (update_branch repo name change db)
unfolding update_branch
update_branch-Extends repo name change db f = record {
  wf = λ w. record {
    rows = w.rows;
    commits = w.commits;
    branches =
        All-update (BranchBelow db.next_sequence) (is_branch repo name) change f db.branches
          w.branches;
  };
  grows = omega arith;
}

with_hash-CommitBelow :
    (n : ℕ) (repo : String) (seq : ℕ) (hash : String) (cs : List Commit)
    → All (CommitBelow n) cs
    → All (CommitBelow n) (map (with_hash repo seq hash) cs)
unfolding with_hash
with_hash-CommitBelow n repo seq hash [] h = tt
with_hash-CommitBelow n repo seq hash (c ∷ cs) h =
    (ground arith, with_hash-CommitBelow n repo seq hash cs h.1)

pub update_commit_hash-Extends :
    (db : Db) (repo : String) (seq : ℕ) (hash : String)
    → Extends db (update_commit_hash db repo seq hash)
unfolding update_commit_hash
update_commit_hash-Extends db repo seq hash = record {
  wf = λ w. record {
    rows = w.rows;
    commits = with_hash-CommitBelow db.next_sequence repo seq hash db.commits w.commits;
    branches = w.branches;
  };
  grows = omega arith;
}

-- A transaction extends the tables as its body does, whether it is committed or rolled back.
pub with_tx-Extends {ℓ} :
    {A : Type ℓ} (db : Db) (o : Outcome A × Db) → Extends db o.1 → Extends db (with_tx db o).1
unfolding with_tx
with_tx-Extends db (commit a, after) e = e
with_tx-Extends db (rollback a, after) e = record {
  wf = λ w. IsWf-raise db after.next_sequence after.drawn e.grows w;
  grows = e.grows;
}
with_tx-Extends db (fail x, after) e = record {
  wf = λ w. IsWf-raise db after.next_sequence after.drawn e.grows w;
  grows = e.grows;
}

first-All :
    (P : Branch → Type 0) (test : Branch → Bool) (bs : List Branch) (b : Branch)
    → All P bs
    → first test bs ≡ some b
    → P b
first-All P test [] b h e = cc
first-All P test (x ∷ bs) b h e = elim (Bool-cases (test x)) [
  | inl t ↦ subst P (cc (rw t at e)) h.0
  | inr t ↦ first-All P test bs b h.1 (rw t at e)
]

-- The branch that a query finds is within bounds.
pub find_branch-BranchBelow :
    (repo name : String) (db : Db) (b : Branch)
    → IsWf db
    → find_branch repo name db ≡ some b
    → BranchBelow db.next_sequence b
unfolding find_branch
find_branch-BranchBelow repo name db b w e =
    first-All (BranchBelow db.next_sequence) (is_branch repo name) db.branches b w.branches e
