-- ===== src/Examples/Sent.antt =====
-- Witnesses on the outbox, on chains of commits and on the line diff.
use docstore.Base.{
  ◌≤◌, ℕ, ◌≢◌, String, ◌≡◌, ◌↔◌, refl, false, none, some, List, [], ◌∷◌, All, arith,
}
use docstore.Ui.Diff.{lcs_edit_script}
use docstore.Ui.Diff.Lines.{old_lines, new_lines, kept}
use docstore.Ui.Diff.Longest.{Common, neither, both}
use docstore.Ui.Diff.Script.{lcs_edit_script-lines, lcs_edit_script-shortest}
use docstore.Hash.{genesis_hash}
use docstore.Examples.Ideal.{lib}
use docstore.Examples.Tables.{env}
use docstore.Events.Tables.{OutboxRow, Subscription, EventDb, ClaimedRow}
use docstore.Events.Outbox.{Web, not_sent, claim_outbox_batch}
use docstore.Events.Outbox.Attempts.{
  IsBounded, Step, processes, cleans, resumes, take_steps, take_steps-IsBounded,
}
use docstore.Events.Outbox.InFlight.{is_in_batch, claim_outbox_batch-Apart}
use docstore.Client.Chain.{computed, ChainEntry, trusted, verify, pull_chain}
use docstore.Client.Chain.Links.{own, IsLinked, verify-IsLinked}
use docstore.Client.Chain.Pulls.{Leads, pull_chain-Leads}

abbrev web : Web
web = record {
  post = λ url body signature. not_sent "refused";
  compute_hmac = λ body secret. "00";
  decimal = λ n. "500";
}

abbrev hook : Subscription
hook = record {
  id = "s1";
  repo = none;
  event_types = none;
  backend = "webhook";
  url = some "https://example.com/hook";
  secret = none;
  suspended_at = none;
  failure_count = 0;
}

abbrev pending_row : OutboxRow
pending_row = record {
  id = "o1";
  event = "{}";
  subscription_id = "s1";
  attempts = 9;
  next_attempt = 5;
  delivered_at = none;
  last_error = none;
}

abbrev events : EventDb
events = record { outbox = pending_row ∷ []; subscriptions = hook ∷ [] }

abbrev steps : List Step
steps = processes web 10 (λ c. 11) ∷ (resumes "s1" ∷ (cleans 12 ∷ []))

take_steps-IsBounded_example : IsBounded (take_steps steps events)
take_steps-IsBounded_example = take_steps-IsBounded steps events (omega arith, tt)

claim_outbox_batch-Apart_example :
    All
      (λ (d : ClaimedRow). is_in_batch (claim_outbox_batch 10 50 events).0 d.id ≡ false)
      (claim_outbox_batch 200 50 (claim_outbox_batch 10 50 events).1).0
claim_outbox_batch-Apart_example = claim_outbox_batch-Apart 10 200 50 50 events (omega arith)

abbrev entry : ℕ → ChainEntry
entry sequence = record {
  sequence = sequence;
  branch = "dev";
  author = "ann";
  message = "edit";
  created_at = 7;
  commit_hash = some "hash";
  files = record { path = "a"; content_hash = "hash" } ∷ [];
}

verify-IsLinked_example :
    verify env.lib "acme/site" "dev" (entry 1 ∷ (entry 2 ∷ [])) ≡ none
    ↔ IsLinked env.lib "acme/site" (own "dev" (entry 1 ∷ (entry 2 ∷ [])))
verify-IsLinked_example = verify-IsLinked env.lib "acme/site" "dev" (entry 1 ∷ (entry 2 ∷ []))

abbrev old_sequence : ℕ
old_sequence = 1

newer : old_sequence ≢ 2
newer = omega arith

abbrev tip_hash : String
tip_hash = "hash"

pull_chain-Leads_example :
    pull_chain env.lib "acme/site" "dev" "hash" 1 2 (entry 1 ∷ (entry 2 ∷ [])) ≡ trusted "hash" ↔ (
      (tip_hash ≡ "hash")
      × Leads env.lib "acme/site" "dev" "hash" "hash" (own "dev" (entry 2 ∷ [])))
pull_chain-Leads_example =
    pull_chain-Leads env.lib "acme/site" "dev" "hash" "hash" "hash" 1 2 (entry 1) (entry 2 ∷ [])
      newer refl

abbrev rehashed : String → ChainEntry → ChainEntry
rehashed h e = record e { commit_hash = some h }

abbrev tip_of : ChainEntry
tip_of = rehashed (computed lib "acme/site" genesis_hash (entry 1)) (entry 1)

lcs_edit_script-lines_example :
    (old_lines (lcs_edit_script ("a" ∷ ("b" ∷ [])) ("b" ∷ ("c" ∷ []))) ≡ "a" ∷ ("b" ∷ []))
    × (new_lines (lcs_edit_script ("a" ∷ ("b" ∷ [])) ("b" ∷ ("c" ∷ []))) ≡ "b" ∷ ("c" ∷ []))
lcs_edit_script-lines_example = lcs_edit_script-lines ("a" ∷ ("b" ∷ [])) ("b" ∷ ("c" ∷ []))

same_line : Common ("a" ∷ []) ("a" ∷ []) 1 1 1
same_line = both refl neither

lcs_edit_script-shortest_example : 1 ≤ kept (lcs_edit_script ("a" ∷ []) ("a" ∷ []))
lcs_edit_script-shortest_example = lcs_edit_script-shortest ("a" ∷ []) ("a" ∷ []) 1 same_line
