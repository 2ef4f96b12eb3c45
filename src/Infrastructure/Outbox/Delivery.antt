-- ===== src/Infrastructure/Outbox/Delivery.antt =====
-- What a batch does to every row.
use mathlib.Core.Bool.{cond}
use fast_stream_template.Common.{
  ℕ, Bool, List, [], false, if◌then◌else◌, inl, inr, suc, take, true, zero, ◌∷◌, ◌≡◌, ◌⊎◌,
  Bool-cases, Option, String, Time, Uuid, ap, arith, keep, map, none, not, refl, some, ◌&&◌, ◌==◌,
  ◌∙◌,
}
use fast_stream_template.Infrastructure.Outbox.{
  OutboxEvent, before, insert_ordered, error_of, get_unprocessed, has_id, is_due, mark_processed,
  ordered, process_batch, publish_outbox, reschedule, settle, settle_row,
}

-- Membership, with the place.
abbrev pub In : OutboxEvent → List OutboxEvent → Type 0
In e [] = ⊥
In e (d ∷ ds) = (e ≡ d) ⊎ In e ds

-- The primary key: no other row has the id of a row.
abbrev pub UniqueIds : List OutboxEvent → Type 0
UniqueIds rows = (a b : OutboxEvent) → In a rows → In b rows → a.id ≡ b.id → a ≡ b

In-take : (e : OutboxEvent) (n : ℕ) (xs : List OutboxEvent) → In e (take n xs) → In e xs
In-take e zero xs h = absurd h
In-take e (suc n) [] h = absurd h
In-take e (suc n) (x ∷ xs) (inl p) = inl p
In-take e (suc n) (x ∷ xs) (inr h) = inr (In-take e n xs h)

module _ (e d x : OutboxEvent) (xs rest : List OutboxEvent) where
  second : (e ≡ d) ⊎ In e xs → (e ≡ d) ⊎ In e (x ∷ xs)
  second (inl p) = inl p
  second (inr q) = inr (inr q)

  placed :
      (In e rest → (e ≡ d) ⊎ In e xs)
      → (b : Bool) → In e (if b then d ∷ x ∷ xs else x ∷ rest)
      → (e ≡ d) ⊎ In e (x ∷ xs)
  placed ih true k = k
  placed ih false (inl p) = inr (inl p)
  placed ih false (inr k) = second (ih k)

In-insert_ordered :
    (e d : OutboxEvent) (xs : List OutboxEvent) → In e (insert_ordered d xs) → (e ≡ d) ⊎ In e xs
unfolding insert_ordered
In-insert_ordered e d [] h = h
In-insert_ordered e d (x ∷ xs) h =
    placed e d x xs (insert_ordered d xs) (In-insert_ordered e d xs) (before d x) h

In-ordered : (e : OutboxEvent) (xs : List OutboxEvent) → In e (ordered xs) → In e xs
unfolding ordered
In-ordered e [] h = h
In-ordered e (x ∷ xs) h = next (In-insert_ordered e x (ordered xs) h) (In-ordered e xs)
  where
    next : (e ≡ x) ⊎ In e (ordered xs) → (In e (ordered xs) → In e xs) → In e (x ∷ xs)
    next (inl p) f = inl p
    next (inr q) f = inr (f q)

module _ (p : OutboxEvent → Bool) (e : OutboxEvent) where
  kept_step :
      (x : OutboxEvent) (xs : List OutboxEvent)
      → (In e (keep p xs) → In e xs × (p e ≡ true))
      → (b : Bool) → p x ≡ b
      → In e (cond b (x ∷ keep p xs) (keep p xs))
      → In e (x ∷ xs) × (p e ≡ true)
  kept_step x xs ih true eq (inl same) = (inl same, ap p same ∙ eq)
  kept_step x xs ih true eq (inr h) = (inr (ih h).0, (ih h).1)
  kept_step x xs ih false eq h = (inr (ih h).0, (ih h).1)

  In-keep : (xs : List OutboxEvent) → In e (keep p xs) → In e xs × (p e ≡ true)
  In-keep [] h = absurd h
  In-keep (x ∷ xs) h = kept_step x xs (In-keep xs) (p x) refl h

-- What a claimed event was: due, not held by another worker, and a row of the table.
claimed_lem :
    (locked : OutboxEvent → Bool) (now : Time) (limit : ℕ) (rows : List OutboxEvent)
    (e : OutboxEvent)
    → In e (get_unprocessed locked now limit rows)
    → In e rows × (is_due now e ≡ true) × (locked e ≡ false)
unfolding get_unprocessed
claimed_lem locked now limit rows e h =
    let due = λ (d : OutboxEvent). is_due now d && not (locked d) in
    let (row, passed) =
      In-keep due e rows
        (In-ordered e (keep due rows) (In-take e limit (ordered (keep due rows)) h)) in
    (row, ground arith, ground arith)

has_id-In :
    (id : Uuid) (es : List OutboxEvent)
    → has_id id es ≡ true
    → (e : OutboxEvent) × In e es × (e.id ≡ id)
has_id-In id [] h = absurd (cc h)
has_id-In id (e ∷ es) h = elim (Bool-cases (e.id == id)) [
  | inl same ↦ (e, inl refl, ground arith)
  | inr other ↦ let (d, at, eq) = has_id-In id es (ground arith) in (d, inr at, eq)
]

-- The errors of a batch, at the id of an event whose id no other claimed event has.
error_of-publish :
    (publish : OutboxEvent → Option String) (e : OutboxEvent) (es : List OutboxEvent)
    → ((d : OutboxEvent) → In d es → d.id ≡ e.id → d ≡ e)
    → error_of e.id (publish_outbox publish es) ≡ (if has_id e.id es then publish e else none)
unfolding error_of publish_outbox
error_of-publish publish e [] unique = refl
error_of-publish publish e (d ∷ ds) unique =
    let ih = error_of-publish publish e ds (λ c h. unique c (inr h)) in
    elim (Bool-cases (d.id == e.id)) [
      | inl same ↦ rw (unique d (inl refl) (ground arith)) (ground (arith, ih))
      | inr other ↦ ground (arith, ih)
    ]

-- A row of the table after a batch: the outcome, by whether the row was claimed.
abbrev pub Outcome :
    (OutboxEvent → Option String)
    → (OutboxEvent → Bool)
    → Time
    → List OutboxEvent
    → OutboxEvent
    → OutboxEvent
    → Type 0
Outcome publish locked now events row row' =
    (has_id row.id events ≡ false → row' ≡ row)
    × (has_id row.id events ≡ true
        → (is_due now row ≡ true)
          × (locked row ≡ false)
          × (publish row ≡ none → row' ≡ mark_processed now row)
          × ((error : String) → publish row ≡ some error → row' ≡ reschedule now error row))

-- Pointwise over two lists.
abbrev pub Each :
    (OutboxEvent → OutboxEvent → Type 0) → List OutboxEvent → List OutboxEvent → Type 0
Each R [] [] = Unit
Each R (x ∷ xs) (y ∷ ys) = R x y × Each R xs ys
Each R [] (y ∷ ys) = ⊥
Each R (x ∷ xs) [] = ⊥

Each-map :
    (R : OutboxEvent → OutboxEvent → Type 0) (f : OutboxEvent → OutboxEvent) (xs : List OutboxEvent)
    → ((x : OutboxEvent) → In x xs → R x (f x))
    → Each R xs (map f xs)
Each-map R f [] h = tt
Each-map R f (x ∷ xs) h = (h x (inl refl), Each-map R f xs (λ y k. h y (inr k)))

-- A batch keeps the rows and their order. A row that it does not claim is left as it is; a row that
-- it claims was due and not held by another worker, is marked processed if the broker took it, and
-- is rescheduled with the broker's error if not, whatever became of the other events.
pub process_batch-Outcome :
    (publish : OutboxEvent → Option String) (locked : OutboxEvent → Bool) (batch_size : ℕ)
    (now : Time) (rows : List OutboxEvent)
    → UniqueIds rows
    → Each
        (Outcome publish locked now (get_unprocessed locked now batch_size rows))
        rows
        (process_batch publish locked batch_size now rows)
unfolding process_batch settle
process_batch-Outcome publish locked batch_size now rows unique =
    let events = get_unprocessed locked now batch_size rows in
    Each-map (Outcome publish locked now events)
      (settle_row now (publish_outbox publish events) events) rows
      λ row at. (
        λ unclaimed. unfold settle_row in rw unclaimed,
        λ claimed.
            let (e, among, same_id) = has_id-In row.id events claimed in
            let (e_row, due, free) = claimed_lem locked now batch_size rows e among in
            let same : e ≡ row = unique e row e_row at same_id in
            let errors =
              error_of-publish publish row events
                (λ d h eq. unique d row (claimed_lem locked now batch_size rows d h).0 at eq) in
            (
              rw same at due,
              rw same at free,
              λ took. settled row events claimed (errors ∙ rw claimed took),
              λ error raised. deferred error row events claimed (errors ∙ rw claimed raised),
            ),
      )
  where
    settled :
        (row : OutboxEvent) (events : List OutboxEvent)
        → has_id row.id events ≡ true
        → error_of row.id (publish_outbox publish events) ≡ none
        → settle_row now (publish_outbox publish events) events row ≡ mark_processed now row
    settled row events claimed e = unfold settle_row in rw claimed (rw (e, settle))

    deferred :
        (error : String) (row : OutboxEvent) (events : List OutboxEvent)
        → has_id row.id events ≡ true
        → error_of row.id (publish_outbox publish events) ≡ some error
        → settle_row now (publish_outbox publish events) events row ≡ reschedule now error row
    deferred error row events claimed e = unfold settle_row in rw claimed (rw (e, settle))
