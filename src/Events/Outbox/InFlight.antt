-- ===== src/Events/Outbox/InFlight.antt =====
-- Two claims of batches, of internal/events/outbox.go, one after the other.
use docstore.Base.{
  ℕ, ◌+◌, ◌<◌, String, ◌≡◌, inl, inr, Bool, true, false, List, [], ◌∷◌, map, ◌==◌, keep, some_item,
  All, All-take, Bool-cases, arith,
}
use docstore.Base.Sorting.{All-sort_by}
use docstore.Events.Tables.{OutboxRow, Subscription, EventDb, ClaimedRow}
use docstore.Events.Outbox.{
  is_due, is_pending, is_sooner, pending_batch, claimed_row, is_in, in_flight, mark_in_flight,
  claim_outbox_batch,
}

abbrev pub is_in_batch : List ClaimedRow → String → Bool
is_in_batch batch id = some_item (λ (c : ClaimedRow). c.id == id) batch

keep-All {ℓ κ} :
    {A : Type ℓ} (P : A → Type κ) (p : A → Bool) (xs : List A)
    → All (λ x. p x ≡ true → P x) xs
    → All P (keep p xs)
keep-All P p [] h = tt
keep-All P p (x ∷ xs) h = elim (Bool-cases (p x)) [
  | inl e ↦ rw e (h.0 e, keep-All P p xs h.1)
  | inr e ↦ rw e (keep-All P p xs h.1)
]

module _ (now later : ℕ) (soon : later < now + 300) (batch : List ClaimedRow) where
  abbrev Free : OutboxRow → Type 0
  Free o = is_in_batch batch o.id ≡ false

  mark-Free :
      (subs : List Subscription) (rows : List OutboxRow)
      → All (λ o. is_pending later subs o ≡ true → Free o) (mark_in_flight now batch rows)
  unfolding mark_in_flight is_in
  mark-Free subs [] = tt
  mark-Free subs (o ∷ os) = elim (Bool-cases (is_in_batch batch o.id)) [
    | inl e ↦ rw e ((λ t. late o t), mark-Free subs os)
    | inr e ↦ rw e ((λ t. e), mark-Free subs os)
  ]
    where
      late :
          (o : OutboxRow) → is_pending later subs (in_flight now o) ≡ true → Free (in_flight now o)
      late o t = absurd (unfold is_pending is_due in_flight in ground (arith, t))

  claimed-Free :
      (subs : List Subscription) (rows : List OutboxRow)
      → All Free rows
      → All (λ (d : ClaimedRow). is_in_batch batch d.id ≡ false) (map (claimed_row subs) rows)
  unfolding claimed_row
  claimed-Free subs [] h = tt
  claimed-Free subs (o ∷ os) h = (h.0, claimed-Free subs os h.1)

-- A row that one poller has claimed is not claimed by another within five minutes, as long as it was
-- not delivered in between: two claims in a row have no id in common, whatever their sizes, and even
-- where ids repeat.
pub claim_outbox_batch-Apart :
    (now later size next_size : ℕ) (db : EventDb)
    → later < now + 300
    → All
        (λ (d : ClaimedRow). is_in_batch (claim_outbox_batch now size db).0 d.id ≡ false)
        (claim_outbox_batch later next_size (claim_outbox_batch now size db).1).0
unfolding claim_outbox_batch
claim_outbox_batch-Apart now later size next_size db soon =
    let batch = map (claimed_row db.subscriptions) (pending_batch now size db) in
    claimed-Free now later soon batch db.subscriptions _ (
      unfold pending_batch in
      All-take (Free now later soon batch) next_size _ (
        All-sort_by (Free now later soon batch) is_sooner _ (
          keep-All (Free now later soon batch) (is_pending later db.subscriptions)
            (mark_in_flight now batch db.outbox)
            (mark-Free now later soon batch db.subscriptions db.outbox))))
