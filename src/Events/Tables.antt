-- ===== src/Events/Tables.antt =====
-- The rows of event_outbox and event_subscriptions that internal/events/outbox.go reads and writes, and
-- the two forms of UPDATE on them. Times are in seconds.
use docstore.Base.{ℕ, String, Option, List, map, ◌==◌, if◌then◌else◌}

pub record OutboxRow : Type 0 where
  pub id : String
  pub event : String
  pub subscription_id : String
  pub attempts : ℕ
  pub next_attempt : ℕ
  pub delivered_at : Option ℕ
  pub last_error : Option String

-- A subscription, with the two keys of its config that the outbox reads.
pub record Subscription : Type 0 where
  pub id : String
  pub repo : Option String
  pub event_types : Option (List String)
  pub backend : String
  pub url : Option String
  pub secret : Option String
  pub suspended_at : Option ℕ
  pub failure_count : ℕ

pub record EventDb : Type 0 where
  pub outbox : List OutboxRow
  pub subscriptions : List Subscription

-- A claimed delivery.
pub record ClaimedRow : Type 0 where
  pub id : String
  pub event : String
  pub subscription_id : String
  pub attempts : ℕ
  pub webhook_url : String
  pub webhook_secret : String

-- UPDATE event_outbox SET … WHERE id = …
unfoldable pub update_row : String → (OutboxRow → OutboxRow) → EventDb → EventDb
update_row id change db = record db {
  outbox = map (λ (o : OutboxRow). if o.id == id then change o else o) db.outbox;
}

unfoldable pub update_subscription : String → (Subscription → Subscription) → EventDb → EventDb
update_subscription id change db = record db {
  subscriptions = map (λ (s : Subscription). if s.id == id then change s else s) db.subscriptions;
}
