-- ===== src/Events/Outbox.antt =====
-- The outbox of internal/events/outbox.go: the delivery of events to webhooks, its retries and its
-- cleanup, with ResumeSubscription of internal/db/store.go. Times are in seconds. A POST and the HMAC
-- are parameters.
pub mod Attempts
pub mod InFlight
use Prim.Native.Nat.{◌^◌}
use Prim.Native.String.{◌++◌ as text_append}
use docstore.Base.{
  ℕ, zero, suc, ◌+◌, String, Bool, true, false, ◌&&◌, ◌||◌, not, Option, none, some, List, [], ◌∷◌,
  map, ◌==◌, ltb, leb, keep, first, some_item, take, if◌then◌else◌,
}
use docstore.Base.Sorting.{sort_by}
use docstore.Events.Tables.{
  OutboxRow, Subscription, EventDb, ClaimedRow, update_row, update_subscription,
}

unfoldable pub is_null {ℓ} : {A : Type ℓ} → Option A → Bool
is_null none = true
is_null (some a) = false

-- o.delivered_at IS NULL AND o.next_attempt <= now() AND o.attempts < 10
unfoldable pub is_due : ℕ → OutboxRow → Bool
is_due now o = is_null o.delivered_at && (leb o.next_attempt now && ltb o.attempts 10)

-- s.suspended_at IS NULL AND s.backend = 'webhook'
unfoldable pub is_live : Subscription → Bool
is_live s = is_null s.suspended_at && s.backend == "webhook"

unfoldable pub find_subscription : String → List Subscription → Option Subscription
find_subscription id subs = first (λ (s : Subscription). s.id == id) subs

unfoldable pub is_live_or_missing : Option Subscription → Bool
is_live_or_missing none = false
is_live_or_missing (some s) = is_live s

unfoldable pub is_pending : ℕ → List Subscription → OutboxRow → Bool
is_pending now subs o =
    is_due now o && is_live_or_missing (find_subscription o.subscription_id subs)

unfoldable pub is_sooner : OutboxRow → OutboxRow → Bool
is_sooner o p = leb o.next_attempt p.next_attempt

-- The rows that a batch selects, in its order.
unfoldable pub pending_batch : ℕ → ℕ → EventDb → List OutboxRow
pending_batch now batch_size db =
    take batch_size (sort_by is_sooner (keep (is_pending now db.subscriptions) db.outbox))

-- A NULL scans as the empty text.
unfoldable pub text_or_empty : Option String → String
text_or_empty none = ""
text_or_empty (some s) = s

unfoldable pub config_url : Option Subscription → String
config_url none = ""
config_url (some s) = text_or_empty s.url

unfoldable pub config_secret : Option Subscription → String
config_secret none = ""
config_secret (some s) = text_or_empty s.secret

unfoldable pub claimed_row : List Subscription → OutboxRow → ClaimedRow
claimed_row subs o = record {
  id = o.id;
  event = o.event;
  subscription_id = o.subscription_id;
  attempts = o.attempts;
  webhook_url = config_url (find_subscription o.subscription_id subs);
  webhook_secret = config_secret (find_subscription o.subscription_id subs);
}

-- id = ANY($1)
unfoldable pub is_in : List ClaimedRow → OutboxRow → Bool
is_in batch o = some_item (λ (c : ClaimedRow). c.id == o.id) batch

unfoldable pub in_flight : ℕ → OutboxRow → OutboxRow
in_flight now o = record o { next_attempt = now + 300 }

unfoldable pub mark_in_flight : ℕ → List ClaimedRow → List OutboxRow → List OutboxRow
mark_in_flight now batch rows = map (λ o. if is_in batch o then in_flight now o else o) rows

unfoldable pub claim_outbox_batch : ℕ → ℕ → EventDb → List ClaimedRow × EventDb
claim_outbox_batch now batch_size db =
    let batch = map (claimed_row db.subscriptions) (pending_batch now batch_size db) in
    (batch, record db { outbox = mark_in_flight now batch db.outbox })

-- 2 ^ attempts seconds, an hour at most.
unfoldable pub backoff : ℕ → ℕ
backoff attempts = if ltb 3600 (2 ^ attempts) then 3600 else 2 ^ attempts

unfoldable pub failed_attempt : ℕ → ClaimedRow → String → OutboxRow → OutboxRow
failed_attempt now c last_err o = record o {
  attempts = c.attempts + 1;
  next_attempt = now + backoff c.attempts;
  last_error = some last_err;
}

unfoldable pub suspend : ℕ → Subscription → Subscription
suspend now s = record s { suspended_at = some now; failure_count = s.failure_count + 1 }

unfoldable pub mark_failed : ℕ → ClaimedRow → String → EventDb → EventDb
mark_failed now c last_err db =
    let db' = update_row c.id (failed_attempt now c last_err) db in
    if leb 10 (c.attempts + 1) then update_subscription c.subscription_id (suspend now) db' else db'

-- What a POST comes to.
pub data Posted : Type 0 where
  not_built not_sent : String → Posted
  answered : ℕ → Posted

-- What the outbox calls: a POST of a body to a URL with the header X-DocStore-Signature, if there is
-- one, the HMAC in hexadecimal, and the decimal form of a number.
pub record Web : Type 0 where
  pub post : String → String → Option String → Posted
  pub compute_hmac : String → String → String
  pub decimal : ℕ → String

unfoldable pub signature : Web → ClaimedRow → Option String
signature web c =
    if c.webhook_secret == ""
    then none
    else some (text_append "sha256=" (web.compute_hmac c.event c.webhook_secret))

unfoldable pub delivered : ℕ → OutboxRow → OutboxRow
delivered now o = record o { delivered_at = some now }

unfoldable pub after_post : Web → ℕ → ClaimedRow → Posted → EventDb → EventDb
after_post web now c (not_built e) db = mark_failed now c (text_append "build request: " e) db
after_post web now c (not_sent e) db = mark_failed now c (text_append "http: " e) db
after_post web now c (answered status) db =
    if ltb status 200 || leb 300 status
    then mark_failed now c (text_append "webhook returned status " (web.decimal status)) db
    else update_row c.id (delivered now) db

-- A delivery without a URL is skipped, with its row left in flight.
unfoldable pub deliver_webhook : Web → ℕ → ClaimedRow → EventDb → EventDb
deliver_webhook web now c db =
    if c.webhook_url == ""
    then db
    else after_post web now c (web.post c.webhook_url c.event (signature web c)) db

-- The batch, one after the other, each at its time.
unfoldable pub deliver_all : Web → (ClaimedRow → ℕ) → List ClaimedRow → EventDb → EventDb
deliver_all web times [] db = db
deliver_all web times (c ∷ cs) db = deliver_all web times cs (deliver_webhook web (times c) c db)

unfoldable pub process_outbox_batch : Web → ℕ → (ClaimedRow → ℕ) → EventDb → EventDb
process_outbox_batch web now times db =
    let (batch, db') = claim_outbox_batch now 50 db in deliver_all web times batch db'

-- delivered_at < now() - interval '7 days', which NULL is not.
unfoldable pub is_stale_row : ℕ → Option ℕ → Bool
is_stale_row now none = false
is_stale_row now (some at) = ltb (at + 604800) now

unfoldable pub cleanup_outbox : ℕ → EventDb → EventDb
cleanup_outbox now db = record db {
  outbox = keep (λ (o : OutboxRow). not (is_stale_row now o.delivered_at)) db.outbox;
}

unfoldable pub is_for_repo : String → Option String → Bool
is_for_repo repo none = true
is_for_repo repo (some r) = r == repo

unfoldable pub is_for_type : String → Option (List String) → Bool
is_for_type type_name none = true
is_for_type type_name (some ts) = some_item (λ t. t == type_name) ts

unfoldable pub matches : String → String → Subscription → Bool
matches repo type_name s =
    is_live s && (is_for_repo repo s.repo && is_for_type type_name s.event_types)

unfoldable pub outbox_row : ℕ → String → String → Subscription → OutboxRow
outbox_row now id event s = record {
  id = id;
  event = event;
  subscription_id = s.id;
  attempts = 0;
  next_attempt = now;
  delivered_at = none;
  last_error = none;
}

-- One row for each subscription; the ids of the rows are drawn by the database.
unfoldable pub insert_rows :
    ℕ → String → (ℕ → String) → List Subscription → List OutboxRow → List OutboxRow
insert_rows now event ids [] rows = rows
insert_rows now event ids (s ∷ ss) rows =
    insert_rows now event (λ n. ids (suc n)) ss (outbox_row now (ids 0) event s ∷ rows)

unfoldable pub insert_outbox_for_event :
    ℕ → String → String → String → (ℕ → String) → EventDb → EventDb
insert_outbox_for_event now repo type_name event ids db = record db {
  outbox = insert_rows now event ids (keep (matches repo type_name) db.subscriptions) db.outbox;
}

unfoldable pub resume : Subscription → Subscription
resume s = record s { suspended_at = none; failure_count = 0 }

-- false is ErrSubscriptionNotFound.
unfoldable pub resume_subscription : String → EventDb → Bool × EventDb
resume_subscription id db = (
  some_item (λ (s : Subscription). s.id == id) db.subscriptions,
  update_subscription id resume db,
)
