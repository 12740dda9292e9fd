-- ===== src/Access/Urls.antt =====
-- The "/-/" format of the paths of requests.
use docstore.Base.{
  String, Char, ◌≡◌, ◌∙◌, refl, sym, ap, subst, inl, inr, ◌⊎◌, ◌==◌, Option, none, some, Bool-cases,
}
use docstore.Base.Text.{
  after_prefix, append, append-after_prefix, after_prefix-append, cut_step, cut,
}
use docstore.Access.Rbac.{cut_repo, repo_of_rest, split_repo_path}

-- Wherever the separator stands in a text, the prefix stands before it.
abbrev pub IsBefore : String → String → String → Type 0
IsBefore sep s before =
    (x y : String) → append x (append sep y) ≡ s → (z : String) × (append before z ≡ x)

-- The separator stands nowhere in a text.
abbrev pub IsAbsent : String → String → Type 0
IsAbsent sep s = (x y : String) → ¬ (append x (append sep y) ≡ s)

-- The parts of a text around the first separator make it up, or it has none.
abbrev CutAt : String → String → Option (String × String) → Type 0
CutAt sep s none = IsAbsent sep s
CutAt sep s (some (before, after)) = (append before (append sep after) ≡ s) × IsBefore sep s before

cut_step-CutAt :
    (sep s : String) (c : Char) (now : Option String) (later : Option (String × String))
    → after_prefix sep (String.◌∷◌ c s) ≡ now
    → CutAt sep s later
    → CutAt sep (String.◌∷◌ c s) (cut_step c now later sep)
unfolding cut_step append
cut_step-CutAt sep s c (some rest) later e h =
    (append-after_prefix sep (String.◌∷◌ c s) rest e, λ x y f. (x, refl))
cut_step-CutAt sep s c none none e h = absent
  where
    absent : IsAbsent sep (String.◌∷◌ c s)
    absent String.[] y f = cc (sym (after_prefix-append sep y) ∙ ap (after_prefix sep) f ∙ e)
    absent (String.◌∷◌ d x) y f = h x y cc
cut_step-CutAt sep s c none (some (b, a)) e h = (ap (String.◌∷◌ c) h.0, before)
  where
    before : IsBefore sep (String.◌∷◌ c s) (String.◌∷◌ c b)
    before String.[] y f = cc (sym (after_prefix-append sep y) ∙ ap (after_prefix sep) f ∙ e)
    before (String.◌∷◌ d x) y f = let (z, g) = h.1 x y cc in (z, cc)

cut-CutAt : (s : String) → CutAt "/-/" s (cut "/-/" s)
unfolding cut append
cut-CutAt String.[] = absent
  where
    absent : IsAbsent "/-/" String.[]
    absent String.[] y f = cc
    absent (String.◌∷◌ d x) y f = cc
cut-CutAt (String.◌∷◌ c s) =
    cut_step-CutAt "/-/" s c (after_prefix "/-/" (String.◌∷◌ c s)) (cut "/-/" s) refl (cut-CutAt s)

-- A path and what it was split into: it names an endpoint of the repo, or the repo alone.
abbrev pub Spells : String → String → String → Type 0
Spells path repo endpoint =
    ((append "/repos/" (append repo (append "/-/" endpoint)) ≡ path)
      × IsBefore "/-/" (append repo (append "/-/" endpoint)) repo)
    ⊎ (((endpoint ≡ "") × (append "/repos/" repo ≡ path)) × IsAbsent "/-/" repo)

abbrev Splits : String → Option (String × String) → Type 0
Splits path none = Unit
Splits path (some (repo, endpoint)) = Spells path repo endpoint

cut_repo-Splits :
    (path rest : String) (o : Option (String × String))
    → append "/repos/" rest ≡ path
    → CutAt "/-/" rest o
    → Splits path (some (cut_repo rest o))
unfolding cut_repo
cut_repo-Splits path rest none e h = inr ((refl, e), h)
cut_repo-Splits path rest (some (repo, endpoint)) e h =
    inl (ap (append "/repos/") h.0 ∙ e, subst (λ s. IsBefore "/-/" s repo) (sym h.0) h.1)

repo_of_rest-Splits :
    (path : String) (o : Option String)
    → ((rest : String) → o ≡ some rest → append "/repos/" rest ≡ path)
    → Splits path (repo_of_rest o)
unfolding repo_of_rest
repo_of_rest-Splits path none f = tt
repo_of_rest-Splits path (some rest) f = elim (Bool-cases (rest == "")) [
  | inl e ↦ rw e tt
  | inr e ↦ rw e (cut_repo-Splits path rest (cut "/-/" rest) (f rest refl) (cut-CutAt rest))
]

-- Splitting a path loses nothing of it, and cuts it at the first "/-/" after "/repos/": either the
-- repo and the endpoint it gives, written as "/repos/<repo>/-/<endpoint>" again, are the path, and
-- wherever "/-/" stands in what follows "/repos/", the whole repo stands before it; or the endpoint is
-- empty, "/repos/<repo>" is the path, and the repo has no "/-/" in it.
pub split_repo_path-Spells :
    (path repo endpoint : String)
    → split_repo_path path ≡ some (repo, endpoint)
    → Spells path repo endpoint
unfolding split_repo_path
split_repo_path-Spells path repo endpoint e =
    subst (Splits path) e
      (repo_of_rest-Splits path (after_prefix "/repos/" path) (append-after_prefix "/repos/" path))
