-- ===== src/Store/Branches/Reviews.antt =====
-- What CreateReview of internal/db/store.go lets through, and what it records.
use docstore.Base.{
  ℕ, String, ◌≡◌, refl, sym, subst, inl, inr, Bool, false, ◌&&◌, Option, none, some, List, [], ◌∷◌,
  All, some_item, Bool-cases, ◌==◌, eq_iff,
}
use docstore.Base.Text.{or_else}
use docstore.Store.Tables.{
  Db, Env, Branch, Commit, Review, Result, ok, err, find_branch, with_tx, rolled_back,
}
use docstore.Store.Branches.{authored_since, new_review, has_authored, review_branch, create_review}

-- None of the commits is one of the branch's since its base by this author.
abbrev pub NotAuthored : Db → String → String → ℕ → String → Type 0
NotAuthored db repo branch base author =
    All (λ c. authored_since repo branch base author c ≡ false) db.commits

some_item-All :
    (p : Commit → Bool) (cs : List Commit) → some_item p cs ≡ false → All (λ c. p c ≡ false) cs
some_item-All p [] h = tt
some_item-All p (c ∷ cs) h = elim (Bool-cases (p c)) [
  | inl e ↦ cc (rw e at h)
  | inr e ↦ (e, some_item-All p cs (rw e at h))
]

-- A review says what was asked for, of the branch at its head.
pub record Records (repo branch reviewer status body : String) (b : Branch) (review : Review)
    : Type 0 where
  pub same_repo : review.repo ≡ repo
  pub same_branch : review.branch ≡ branch
  pub same_reviewer : review.reviewer ≡ reviewer
  pub same_status : review.status ≡ status
  pub same_sequence : review.sequence ≡ b.head_sequence
  pub same_body : or_else review.body "" ≡ body

-- What a review that was accepted says of the tables.
abbrev Recorded :
    Db → String → String → String → String → String → Option Branch → Result Review × Db → Type 0
Recorded db repo branch reviewer status body o (ok review, after) =
    (b : Branch) × ((o ≡ some b)
      × (Records repo branch reviewer status body b review
          × ((after.reviews ≡ review ∷ db.reviews)
              × (status ≡ "approved" → NotAuthored db repo branch b.base_sequence reviewer))))
Recorded db repo branch reviewer status body o (err e, after) = after.reviews ≡ db.reviews

new_review-Records :
    (env : Env) (db : Db) (repo branch reviewer status body : String) (b : Branch)
    → Records repo branch reviewer status body b
        (new_review env db repo branch reviewer b.head_sequence status body)
unfolding new_review or_else
new_review-Records env db r n a s text b = record {
  same_repo = refl;
  same_branch = refl;
  same_reviewer = refl;
  same_status = refl;
  same_sequence = refl;
  same_body = elim (Bool-cases (text == "")) [
    | inl e ↦ rw e (sym ((eq_iff text "").0 e))
    | inr e ↦ rw e refl
  ];
}

review_branch-Recorded :
    (env : Env) (db : Db) (repo branch reviewer status body : String) (o : Option Branch)
    → Recorded db repo branch reviewer status body o
        (with_tx db (review_branch env db repo branch reviewer status body o))
unfolding review_branch with_tx rolled_back new_review has_authored
review_branch-Recorded env db repo branch reviewer status body none = refl
review_branch-Recorded env db repo branch reviewer status body (some b) =
    elim (Bool-cases
      (status == "approved" && has_authored db repo branch b.base_sequence reviewer)) [
        | inl e ↦ rw e refl
        | inr e ↦ rw e (
          b,
          (
            refl,
            (
              new_review-Records env db repo branch reviewer status body b,
              (
                refl,
                λ s.
                    some_item-All (authored_since repo branch b.base_sequence reviewer) db.commits
                      (rw s at e),
              ),
            ),
          ),
        )
      ]

-- An accepted review is recorded on top of the others, for the repo and the branch asked for, under
-- the reviewer's name, with the status and the body given (none for an empty one), at the head of
-- the branch; and when it approves, none of the commits of the branch since its base is the
-- reviewer's.
pub create_review-Recorded :
    (env : Env) (repo branch reviewer status body : String) (db after : Db) (review : Review)
    → create_review env repo branch reviewer status body db ≡ (ok review, after)
    → (b : Branch) × ((find_branch repo branch db ≡ some b)
        × (Records repo branch reviewer status body b review
            × ((after.reviews ≡ review ∷ db.reviews)
                × (status ≡ "approved" → NotAuthored db repo branch b.base_sequence reviewer))))
unfolding create_review
create_review-Recorded env repo branch reviewer status body db after review e =
    subst (Recorded db repo branch reviewer status body (find_branch repo branch db)) e
      (review_branch-Recorded env db repo branch reviewer status body (find_branch repo branch db))
