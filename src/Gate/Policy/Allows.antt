-- ===== src/Gate/Policy/Allows.antt =====
-- When EvaluatePolicy of internal/merge/policy.go lets a merge through.
use mathlib.Core.Bool.{false≢true}
use docstore.Base.{
  String, ◌≡◌, ◌↔◌, refl, sym, ap, ◌∙◌, inl, inr, true, false, not, Option, none, some, List, [],
  ◌∷◌, keep, All, Bool-cases,
}
use docstore.Store.Tables.{Branch, find_branch}
use docstore.Policy.Owners.{OwnersMap}
use docstore.Gate.Policy.{
  Input, bool_value, string_value, other_value, EvalResult, eval_error, no_value, has_value,
  PreparedPolicy, PolicyResult, is_allowed, denied_with, reason_of, judge, eval_prepared,
  cons_result, evaluate, World, input_of, input_if_found, assemble_input, PolicyCache, denials,
  evaluate_input, evaluate_loaded, evaluate_policy,
}

abbrev pub Allowing : Input → PreparedPolicy → Type 0
Allowing input p = p.allow_pq input ≡ has_value (bool_value true)

-- What a result says of the policy that gave it.
abbrev Judged : PreparedPolicy → Input → Option PolicyResult → Type 0
Judged p input none = Unit
Judged p input (some r) = r.pass ≡ true → Allowing input p

denied_with-Judged :
    (p : PreparedPolicy) (input : Input) (name : String) (o : Option String)
    → Judged p input (denied_with name o)
unfolding denied_with
denied_with-Judged p input name none = tt
denied_with-Judged p input name (some reason) = λ e. absurd (false≢true e)

judge-Judged :
    (p : PreparedPolicy) (input : Input) (a : EvalResult)
    → p.allow_pq input ≡ a
    → Judged p input (judge p input (is_allowed a))
unfolding judge is_allowed
judge-Judged p input eval_error e = tt
judge-Judged p input no_value e = denied_with-Judged p input p.name (reason_of (p.reason_pq input))
judge-Judged p input (has_value (bool_value true)) e = λ t. e
judge-Judged p input (has_value (bool_value false)) e =
    denied_with-Judged p input p.name (reason_of (p.reason_pq input))
judge-Judged p input (has_value (string_value s)) e =
    denied_with-Judged p input p.name (reason_of (p.reason_pq input))
judge-Judged p input (has_value other_value) e =
    denied_with-Judged p input p.name (reason_of (p.reason_pq input))

abbrev NoneDenied : Input → List PreparedPolicy → Option (List PolicyResult) → Type 0
NoneDenied input ps none = Unit
NoneDenied input ps (some rs) = keep (λ r. not r.pass) rs ≡ [] → All (Allowing input) ps

cons_result-NoneDenied :
    (input : Input) (p : PreparedPolicy) (ps : List PreparedPolicy) (o : Option PolicyResult)
    (rest : Option (List PolicyResult))
    → Judged p input o
    → NoneDenied input ps rest
    → NoneDenied input (p ∷ ps) (cons_result o rest)
unfolding cons_result
cons_result-NoneDenied input p ps none rest h g = tt
cons_result-NoneDenied input p ps (some r) none h g = tt
cons_result-NoneDenied input p ps (some r) (some rs) h g =
    λ e. elim (Bool-cases r.pass) [ inl t ↦ (h t, g (rw t at e)) | inr t ↦ cc (rw t at e) ]

evaluate-NoneDenied :
    (input : Input) (ps : List PreparedPolicy) → NoneDenied input ps (evaluate ps input)
unfolding evaluate eval_prepared
evaluate-NoneDenied input [] = λ e. tt
evaluate-NoneDenied input (p ∷ ps) =
    cons_result-NoneDenied input p ps (eval_prepared p input) (evaluate ps input)
      (judge-Judged p input (p.allow_pq input) refl) (evaluate-NoneDenied input ps)

-- A policy that allows adds a result that passes.
passed :
    (p : PreparedPolicy) (input : Input) (rest : Option (List PolicyResult))
    → denials rest ≡ some []
    → denials (cons_result (judge p input (is_allowed (has_value (bool_value true)))) rest)
      ≡ some []
unfolding denials cons_result judge is_allowed
passed p input none e = e
passed p input (some rs) e = e

evaluate-Allowing :
    (input : Input) (ps : List PreparedPolicy)
    → All (Allowing input) ps
    → denials (evaluate ps input) ≡ some []
unfolding evaluate eval_prepared
evaluate-Allowing input [] h = unfold denials in refl
evaluate-Allowing input (p ∷ ps) h =
    rw h.0 (passed p input (evaluate ps input) (evaluate-Allowing input ps h.1))

some-inj : (a b : List PolicyResult) → some a ≡ some b → a ≡ b
some-inj a b e = ap (or a) e
  where
    or : List PolicyResult → Option (List PolicyResult) → List PolicyResult
    or a none = a
    or a (some b) = b

denials-Allowing :
    (input : Input) (ps : List PreparedPolicy) (o : Option (List PolicyResult))
    → NoneDenied input ps o
    → denials o ≡ some []
    → All (Allowing input) ps
unfolding denials
denials-Allowing input ps none h e = cc
denials-Allowing input ps (some rs) h e = h (some-inj _ _ e)

module _ (cache : PolicyCache) (w : World) (repo branch actor : String)
    (engine : List PreparedPolicy) (owners : OwnersMap) (b : Branch)
    (loaded : cache.load repo ≡ some (some engine, owners))
    (found : find_branch repo branch w.tables.db ≡ some b) where
  evaluate_policy-loaded :
      evaluate_policy (some cache) w repo branch actor
      ≡ denials (evaluate engine (input_of w repo branch actor owners b))
  unfolding evaluate_policy evaluate_loaded assemble_input input_if_found evaluate_input
  evaluate_policy-loaded = rw (loaded, found) refl

  -- Where the cache loads an engine and the branch exists, EvaluatePolicy lets a merge through exactly
  -- when the query `allow` of every policy of the engine answers true on the input that is assembled
  -- for the branch: an answer that is no Boolean, or no answer, denies, and an error is no consent.
  pub evaluate_policy-Allowing :
      evaluate_policy (some cache) w repo branch actor ≡ some []
      ↔ All (Allowing (input_of w repo branch actor owners b)) engine
  evaluate_policy-Allowing =
      let input = input_of w repo branch actor owners b in
      (
        (λ e.
            denials-Allowing input engine (evaluate engine input) (evaluate-NoneDenied input engine)
              (sym evaluate_policy-loaded ∙ e)),
        λ h. evaluate_policy-loaded ∙ evaluate-Allowing input engine h,
      )

-- EvaluatePolicy reports no denial and no error.
abbrev pub IsLetThrough : Option PolicyCache → World → String → String → String → Type 0
IsLetThrough cache w repo branch actor = evaluate_policy cache w repo branch actor ≡ some []
