-- ===== src/Jobs/Events.antt =====
-- The log of a case: `append_event` numbers the events of each case 1, 2, 3, … and posts each to the
-- outbox.
use trace_x.Common.{
  ℕ, ◌+◌, ◌≡◌, refl, inl, inr, List, [], ◌∷◌, Option, arith, ◌==◌, if◌then◌else◌, Bool-cases,
  ==_iff,
}
use trace_x.Jobs.Model.{Stage, ImportJob, EventType, Payload, CaseEvent, OutboxEvent, Session}
use trace_x.Jobs.Service.{max_sequence, append_event}

-- How many events the case has.
abbrev pub event_count : ℕ → List CaseEvent → ℕ
event_count case_id [] = 0
event_count case_id (e ∷ es) =
    if e.case_id == case_id then event_count case_id es + 1 else event_count case_id es

-- Newest first, each event is numbered by how many its case had, itself included.
abbrev pub IsNumbered : List CaseEvent → Type 0
IsNumbered [] = Unit
IsNumbered (e ∷ es) = (e.sequence ≡ event_count e.case_id es + 1) × IsNumbered es

-- Each event has its entry of the outbox, in the same order.
abbrev pub IsPosted : List CaseEvent → List OutboxEvent → Type 0
IsPosted [] [] = Unit
IsPosted [] (o ∷ os) = ⊥
IsPosted (e ∷ es) [] = ⊥
IsPosted (e ∷ es) (o ∷ os) =
    (o.event_id ≡ e.id) × (o.case_id ≡ e.case_id) × (o.topic ≡ e.event_type) × IsPosted es os

pub record IsLog (s : Session) : Type 0 where
  pub numbered : IsNumbered s.events
  pub posted : IsPosted s.events s.outbox

-- The largest number of a case is the count of its events.
max_sequence-eq-count :
    (case_id : ℕ) (events : List CaseEvent)
    → IsNumbered events
    → max_sequence case_id events ≡ event_count case_id events
unfolding max_sequence
max_sequence-eq-count case_id [] h = refl
max_sequence-eq-count case_id (e ∷ es) h = elim (Bool-cases (e.case_id == case_id)) [
  | inl same ↦
      let is_case : e.case_id ≡ case_id = (==_iff _ _).0 same in
      let number : e.sequence ≡ event_count case_id es + 1 = rw is_case at h.0 in
      ground (arith, max_sequence-eq-count case_id es h.1, same, number)
  | inr other ↦ ground (arith, max_sequence-eq-count case_id es h.1, other)
]

-- After an event is appended the log is still numbered without gaps and posted in full; the new
-- event has the next number of its case.
pub append_event-IsLog :
    (case_id : ℕ) (event_type : EventType) (stage : Stage) (job : Option ImportJob)
    (payload : Payload) (s : Session)
    → IsLog s
    → IsLog (append_event case_id event_type stage job payload s).1
      × ((append_event case_id event_type stage job payload s).0.sequence
          ≡ event_count case_id s.events + 1)
unfolding append_event
append_event-IsLog case_id event_type stage job payload s l =
    let number = max_sequence-eq-count case_id s.events l.numbered in
    (
      record {
        numbered = (omega (arith, number), l.numbered);
        posted = (refl, refl, refl, l.posted);
      },
      omega (arith, number),
    )
