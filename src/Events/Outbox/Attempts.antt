-- ===== src/Events/Outbox/Attempts.antt =====
-- The attempts of the rows of the outbox of internal/events/outbox.go.
use docstore.Base.{
  ℕ, suc, ◌+◌, ◌≤◌, ◌<◌, String, inl, inr, Bool, ◌||◌, List, [], ◌∷◌, map, ◌==◌, ltb, leb, keep,
  All, All-keep, All-kept, All-take, Bool-cases, arith, if◌then◌else◌,
}
use docstore.Base.Sorting.{All-sort_by}
use docstore.Events.Tables.{
  OutboxRow, Subscription, EventDb, ClaimedRow, update_row, update_subscription,
}
use docstore.Events.Outbox.{
  is_due, is_pending, is_sooner, pending_batch, claimed_row, in_flight, mark_in_flight,
  claim_outbox_batch, failed_attempt, mark_failed, Posted, not_built, not_sent, answered, Web,
  delivered, after_post, deliver_webhook, deliver_all, process_outbox_batch, cleanup_outbox,
  matches, outbox_row, insert_rows, insert_outbox_for_event, resume_subscription,
}

-- No row has been attempted more than ten times.
abbrev pub IsBounded : EventDb → Type 0
IsBounded db = All (λ (o : OutboxRow). o.attempts ≤ 10) db.outbox

-- The passes and statements on the outbox.
pub data Step : Type 0 where
  processes : Web → ℕ → (ClaimedRow → ℕ) → Step
  cleans : ℕ → Step
  inserts : ℕ → String → String → String → (ℕ → String) → Step
  resumes : String → Step

unfoldable pub take_step : Step → EventDb → EventDb
take_step (processes web now times) db = process_outbox_batch web now times db
take_step (cleans now) db = cleanup_outbox now db
take_step (inserts now repo type_name event ids) db =
    insert_outbox_for_event now repo type_name event ids db
take_step (resumes id) db = (resume_subscription id db).1

unfoldable pub take_steps : List Step → EventDb → EventDb
take_steps [] db = db
take_steps (s ∷ ss) db = take_steps ss (take_step s db)

-- A change of some rows that bounds those it makes.
All-update :
    (P : OutboxRow → Type 0) (test : OutboxRow → Bool) (change : OutboxRow → OutboxRow)
    (rows : List OutboxRow)
    → ((o : OutboxRow) → P o → P (change o))
    → All P rows
    → All P (map (λ o. if test o then change o else o) rows)
All-update P test change [] f h = tt
All-update P test change (o ∷ os) f h = elim (Bool-cases (test o)) [
  | inl e ↦ rw e (f o h.0, All-update P test change os f h.1)
  | inr e ↦ rw e (h.0, All-update P test change os f h.1)
]

update_row-IsBounded :
    (id : String) (change : OutboxRow → OutboxRow) (db : EventDb)
    → ((o : OutboxRow) → o.attempts ≤ 10 → (change o).attempts ≤ 10)
    → IsBounded db
    → IsBounded (update_row id change db)
unfolding update_row
update_row-IsBounded id change db f h =
    All-update (λ o. o.attempts ≤ 10) (λ o. o.id == id) change db.outbox f h

mark_failed-IsBounded :
    (now : ℕ) (c : ClaimedRow) (e : String) (db : EventDb)
    → c.attempts < 10
    → IsBounded db
    → IsBounded (mark_failed now c e db)
unfolding mark_failed
mark_failed-IsBounded now c e db few h =
    let bound =
      update_row-IsBounded c.id (failed_attempt now c e) db
        (λ o x. unfold failed_attempt in omega arith) h in
    elim (Bool-cases (leb 10 (c.attempts + 1))) [
      | inl t ↦ rw t (unfold update_subscription in bound)
      | inr t ↦ rw t bound
    ]

after_post-IsBounded :
    (web : Web) (now : ℕ) (c : ClaimedRow) (p : Posted) (db : EventDb)
    → c.attempts < 10
    → IsBounded db
    → IsBounded (after_post web now c p db)
unfolding after_post
after_post-IsBounded web now c (not_built e) db few h = mark_failed-IsBounded now c _ db few h
after_post-IsBounded web now c (not_sent e) db few h = mark_failed-IsBounded now c _ db few h
after_post-IsBounded web now c (answered status) db few h =
    elim (Bool-cases (ltb status 200 || leb 300 status)) [
      | inl t ↦ rw t (mark_failed-IsBounded now c _ db few h)
      | inr t ↦ rw t (update_row-IsBounded c.id (delivered now) db (λ o x. unfold delivered in x) h)
    ]

deliver_webhook-IsBounded :
    (web : Web) (now : ℕ) (c : ClaimedRow) (db : EventDb)
    → c.attempts < 10
    → IsBounded db
    → IsBounded (deliver_webhook web now c db)
unfolding deliver_webhook
deliver_webhook-IsBounded web now c db few h = elim (Bool-cases (c.webhook_url == "")) [
  | inl t ↦ rw t h
  | inr t ↦ rw t (after_post-IsBounded web now c _ db few h)
]

abbrev Few : List ClaimedRow → Type 0
Few batch = All (λ (c : ClaimedRow). c.attempts < 10) batch

deliver_all-IsBounded :
    (web : Web) (times : ClaimedRow → ℕ) (cs : List ClaimedRow) (db : EventDb)
    → Few cs
    → IsBounded db
    → IsBounded (deliver_all web times cs db)
unfolding deliver_all
deliver_all-IsBounded web times [] db few h = h
deliver_all-IsBounded web times (c ∷ cs) db few h =
    deliver_all-IsBounded web times cs (deliver_webhook web (times c) c db) few.1
      (deliver_webhook-IsBounded web (times c) c db few.0 h)

pending_batch-Few :
    (now size : ℕ) (db : EventDb)
    → All (λ (o : OutboxRow). o.attempts < 10) (pending_batch now size db)
unfolding pending_batch
pending_batch-Few now size db = All-take _ size _ (
    All-sort_by _ is_sooner _ (
      All-keep (λ o. o.attempts < 10) (is_pending now db.subscriptions) db.outbox
        (λ o e. unfold is_pending is_due in ground (arith, e))))

claimed-Few :
    (subs : List Subscription) (rows : List OutboxRow)
    → All (λ (o : OutboxRow). o.attempts < 10) rows
    → Few (map (claimed_row subs) rows)
unfolding claimed_row
claimed-Few subs [] h = tt
claimed-Few subs (o ∷ os) h = (h.0, claimed-Few subs os h.1)

insert_rows-IsBounded :
    (now : ℕ) (event : String) (ids : ℕ → String) (ss : List Subscription) (rows : List OutboxRow)
    → All (λ (o : OutboxRow). o.attempts ≤ 10) rows
    → All (λ (o : OutboxRow). o.attempts ≤ 10) (insert_rows now event ids ss rows)
unfolding insert_rows outbox_row
insert_rows-IsBounded now event ids [] rows h = h
insert_rows-IsBounded now event ids (s ∷ ss) rows h =
    insert_rows-IsBounded now event (λ n. ids (suc n)) ss (outbox_row now (ids 0) event s ∷ rows)
      (omega arith, h)

take_step-IsBounded : (s : Step) (db : EventDb) → IsBounded db → IsBounded (take_step s db)
unfolding take_step process_outbox_batch claim_outbox_batch mark_in_flight cleanup_outbox
    insert_outbox_for_event resume_subscription update_subscription
take_step-IsBounded (processes web now times) db h =
    deliver_all-IsBounded web times _ _
      (claimed-Few db.subscriptions _ (pending_batch-Few now 50 db))
      (All-update (λ o. o.attempts ≤ 10) _ (in_flight now) db.outbox (λ o x. unfold in_flight in x)
        h)
take_step-IsBounded (cleans now) db h = All-kept _ _ db.outbox h
take_step-IsBounded (inserts now repo type_name event ids) db h =
    insert_rows-IsBounded now event ids (keep (matches repo type_name) db.subscriptions) db.outbox h
take_step-IsBounded (resumes id) db h = h

-- However often the outbox is processed and cleaned, events come in and subscriptions are resumed, and
-- whatever the webhooks answer, the attempts of every row stay at ten at most.
pub take_steps-IsBounded :
    (ss : List Step) (db : EventDb) → IsBounded db → IsBounded (take_steps ss db)
unfolding take_steps
take_steps-IsBounded [] db h = h
take_steps-IsBounded (s ∷ ss) db h =
    take_steps-IsBounded ss (take_step s db) (take_step-IsBounded s db h)
