-- ===== src/Store/Invariant/Within.antt =====
-- Statements of a transaction that give out no sequence, and those that move a branch's head.
use docstore.Base.{
  ℕ, ◌+◌, ◌≤◌, ◌<◌, String, ◌≡◌, refl, Bool, true, false, Option, List, [], ◌∷◌, arith,
  if◌then◌else◌,
}
use docstore.Store.Tables.{Db, Env, BranchStatus, FileCommit}
use docstore.Store.Writes.{
  insert_file_commit, update_branch, set_head, set_status, set_base_and_head,
}
use docstore.Store.Commit.Documents.{SameRows}
use docstore.Store.Merge.{copy_changes}
use docstore.Store.Invariant.{
  Extends, Extends-refl, Extends-trans, insert_file_commit-Extends, update_branch-Extends,
}

-- Statements that give out no sequence.
pub record Within (db db' : Db) : Type 0 where
  pub extends : Extends db db'
  pub same : db'.next_sequence ≡ db.next_sequence

pub Within-refl : (db : Db) → Within db db
Within-refl db = record { extends = Extends-refl db; same = refl }

pub Within-trans : {a b c : Db} → Within a b → Within b c → Within a c
Within-trans p q = record {
  extends = Extends-trans p.extends q.extends;
  same = omega (arith, p.same, q.same);
}

pub SameRows-Within : {db db' : Db} → SameRows db db' → Within db db'
SameRows-Within {db} {db'} s = record {
  extends = record {
    wf = λ w. record {
      rows = rw (s.rows, s.next_sequence) w.rows;
      commits = rw (s.commits, s.next_sequence) w.commits;
      branches = rw (s.branches, s.next_sequence) w.branches;
    };
    grows = omega (arith, s.next_sequence);
  };
  same = s.next_sequence;
}

pub insert_file_commit-Within :
    (env : Env) (db : Db) (repo : String) (seq : ℕ) (path : String) (v : Option String)
    (branch : String)
    → seq < db.next_sequence
    → Within db (insert_file_commit env db repo seq path v branch)
unfolding insert_file_commit
insert_file_commit-Within env db repo seq path v branch h = record {
  extends = insert_file_commit-Extends env db repo seq path v branch h;
  same = refl;
}

-- The new head is the last sequence given out.
pub set_head-Extends :
    (repo name : String) (seq : ℕ) (db : Db)
    → db.next_sequence ≡ seq + 1
    → Extends db (update_branch repo name (set_head seq) db)
unfolding set_head
set_head-Extends repo name seq db e =
    update_branch-Extends repo name (set_head seq) db (λ b h. omega arith)

pub set_status-Extends :
    (repo name : String) (status : BranchStatus) (db : Db)
    → Extends db (update_branch repo name (set_status status) db)
unfolding set_status
set_status-Extends repo name status db =
    update_branch-Extends repo name (set_status status) db (λ b h. omega arith)

pub set_base_and_head-Extends :
    (repo name : String) (base head : ℕ) (db : Db)
    → base ≤ head
    → head < db.next_sequence
    → Extends db (update_branch repo name (set_base_and_head base head) db)
unfolding set_base_and_head
set_base_and_head-Extends repo name base head db le lt =
    update_branch-Extends repo name (set_base_and_head base head) db (λ b h. omega arith)

pub copy_changes-Within :
    (env : Env) (repo : String) (seq : ℕ) (branch : String) (rs : List FileCommit) (db : Db)
    → seq < db.next_sequence
    → Within db (copy_changes env repo seq branch rs db)
unfolding copy_changes
copy_changes-Within env repo seq branch [] db h = Within-refl db
copy_changes-Within env repo seq branch (r ∷ rs) db h =
    let row = insert_file_commit-Within env db repo seq r.path r.version_id branch h in
    Within-trans row (
      copy_changes-Within env repo seq branch rs
        (insert_file_commit env db repo seq r.path r.version_id branch) (omega (arith, row.same)))

pub if-Extends {ℓ} :
    {A : Type ℓ} (db : Db) (t : Bool) (x y : A × Db)
    → Extends db x.1
    → Extends db y.1
    → Extends db (if t then x else y).1
if-Extends db true x y hx hy = hx
if-Extends db false x y hx hy = hy
