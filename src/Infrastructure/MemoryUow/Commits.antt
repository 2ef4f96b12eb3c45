-- ===== src/Infrastructure/MemoryUow/Commits.antt =====
-- Which events a commit keeps.
use fast_stream_template.Common.{
  Bool, Bool-cases, inl, inr, List, [], ◌∷◌, ◌++◌, ◌&&◌, any, not, false, true, ◌≡◌, refl, ap, ◌∙◌,
  arith,
}
use mathlib.Core.List.{append-nil, append_assoc}
use fast_stream_template.Domain.Events.{Event}
use fast_stream_template.Infrastructure.MemoryUow.{
  Aggregate, MemoryUow, add_events, commit, drain, pull_all, register, rollback, same,
}

-- None of the aggregates is the same bs one before it or one that is held.
abbrev pub all_new : List Aggregate → List Aggregate → Bool
all_new held [] = true
all_new held (a ∷ bs) = not (any (same a) held) && all_new (held ++ a ∷ []) bs

abbrev pub register_all : List Aggregate → MemoryUow → MemoryUow
register_all [] w = w
register_all (a ∷ bs) w = register_all bs (register a w)

register_new :
    (a : Aggregate) (w : MemoryUow)
    → any (same a) w.aggregates ≡ false
    → register a w ≡ record w { aggregates = w.aggregates ++ a ∷ [] }
unfolding register
register_new a w h = rw h refl

register_same :
    (a : Aggregate) (w : MemoryUow) → any (same a) w.aggregates ≡ true → register a w ≡ w
unfolding register
register_same a w h = rw h refl

register_all_lem :
    (bs : List Aggregate) (w : MemoryUow)
    → all_new w.aggregates bs ≡ true
    → register_all bs w ≡ record w { aggregates = w.aggregates ++ bs }
register_all_lem [] w h = rw (append-nil w.aggregates) refl
register_all_lem (a ∷ bs) w h = elim (Bool-cases (any (same a) w.aggregates)) [
  | inl held ↦ absurd (ground arith)
  | inr new ↦ rw (register_new a w new) (
      register_all_lem bs (record w { aggregates = w.aggregates ++ a ∷ [] }) (ground arith)
      ∙ rw (append_assoc w.aggregates (a ∷ []) bs) refl)
]

-- Where no two aggregates are the same and none is one that is registered already, a commit after
-- they have been registered keeps the events of every one, in the order of the registrations,
-- behind those that were added before. Registering what is the same as a registered aggregate, a later
-- version of it too, changes nothing, so that the commit does not have its events. A roll back
-- leaves a commit nothing to add.
pub commit-register_all :
    (w : MemoryUow)
    → ((bs : List Aggregate) (es : List Event)
        → all_new w.aggregates bs ≡ true
        → (commit (register_all bs (add_events es w))).committed_events
          ≡ w.committed_events ++ ((w.pending_events ++ es) ++ pull_all (w.aggregates ++ bs)))
      × ((later : Aggregate)
          → any (same later) w.aggregates ≡ true
          → commit (register later w) ≡ commit w)
      × ((commit (rollback w)).committed_events ≡ w.committed_events)
unfolding commit rollback drain add_events
commit-register_all w = (
  λ bs es h. rw (register_all_lem bs (add_events es w) h) refl,
  λ later h. ap commit (register_same later w h),
  append-nil w.committed_events,
)
