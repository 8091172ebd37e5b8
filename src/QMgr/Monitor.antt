-- ===== src/QMgr/Monitor.antt =====
-- src/audio_capture_manager.cpp: the data monitor thread, which logs when the inflow of data stalls and
-- when it goes on.
use rdk_audiocapturemgr.Prelude.{
  ℕ, ◌==◌, ◌≡◌, refl, List, [], ◌∷◌, Option, none, some, Bool, true, false, Bool-cases, inl, inr,
  if◌then◌else◌, ap, ◌∙◌, ==_iff,
}

pub data Event : Type 0 where
  stalled : ℕ → Event
  resumed : Event

pub record Monitor : Type 0 where
  pub saved_byte_counter : ℕ
  pub is_stalled : Bool

-- The thread's variables at its start.
abbrev pub unstalled : Monitor
unstalled = record { saved_byte_counter = 0; is_stalled = false }

-- What follows a wait of five seconds that was not ended by `stop`, where `counter` is
-- `m_inflow_byte_counter`.
unfoldable pub look : ℕ → Monitor → Monitor × Option Event
look counter m =
    if m.saved_byte_counter == counter
    then (if m.is_stalled
        then (m, none)
        else (record m { is_stalled = true }, some (stalled m.saved_byte_counter)))
    else (let m' : Monitor = record m { saved_byte_counter = counter } in
        if m.is_stalled then (record m' { is_stalled = false }, some resumed) else (m', none))

abbrev pub log : Option Event → List Event → List Event
log none events = events
log (some e) events = e ∷ events

-- The loop, over the values of the counter when the waits end, until `stop`.
unfoldable pub data_monitor : List ℕ → Monitor → Monitor × List Event
unfolding look
data_monitor [] m = (m, [])
data_monitor (counter ∷ counters) m =
    let (m', events) = data_monitor counters (look counter m).0 in
    (m', log (look counter m).1 events)

-- Stalls and resumptions take turns, the first being a stall unless the inflow is stalled already.
abbrev pub TakeTurns : Bool → List Event → Type 0
TakeTurns is_stalled [] = Unit {0}
TakeTurns is_stalled (stalled n ∷ events) = (is_stalled ≡ false) × TakeTurns true events
TakeTurns is_stalled (resumed ∷ events) = (is_stalled ≡ true) × TakeTurns false events

-- Whether each value of the counter is the one before; `saved` stands before the first.
abbrev pub standing : ℕ → List ℕ → List (ℕ × Bool)
standing saved [] = []
standing saved (n ∷ ns) = (n, saved == n) ∷ standing n ns

-- The changes between standing still and moving: where the counter begins to stand still, with its
-- value, a stall, and where it moves again a resumption.
abbrev pub changes : Bool → List (ℕ × Bool) → List Event
changes was [] = []
changes true ((n, true) ∷ rest) = changes true rest
changes true ((n, false) ∷ rest) = resumed ∷ changes false rest
changes false ((n, true) ∷ rest) = stalled n ∷ changes true rest
changes false ((n, false) ∷ rest) = changes false rest

changes-TakeTurns : (was : Bool) (flags : List (ℕ × Bool)) → TakeTurns was (changes was flags)
changes-TakeTurns was [] = tt
changes-TakeTurns true ((n, true) ∷ rest) = changes-TakeTurns true rest
changes-TakeTurns true ((n, false) ∷ rest) = (refl, changes-TakeTurns false rest)
changes-TakeTurns false ((n, true) ∷ rest) = (refl, changes-TakeTurns true rest)
changes-TakeTurns false ((n, false) ∷ rest) = changes-TakeTurns false rest

data_monitor-changes :
    (counters : List ℕ) (saved : ℕ) (was : Bool)
    → (data_monitor counters (record { saved_byte_counter = saved; is_stalled = was })).1
      ≡ changes was (standing saved counters)
unfolding data_monitor
data_monitor-changes [] saved was = refl
data_monitor-changes (n ∷ ns) saved true = elim (Bool-cases (saved == n)) [
  | inl still ↦ rw still (
      data_monitor-changes ns saved true
      ∙ ap (λ v. changes true (standing v ns)) ((==_iff saved n).0 still))
  | inr moves ↦ rw moves (ap (λ es. resumed ∷ es) (data_monitor-changes ns n false))
]
data_monitor-changes (n ∷ ns) saved false = elim (Bool-cases (saved == n)) [
  | inl still ↦ rw still (
      ap (λ es. stalled saved ∷ es) (data_monitor-changes ns saved true)
      ∙ ap (λ v. stalled v ∷ changes true (standing v ns)) ((==_iff saved n).0 still))
  | inr moves ↦ rw moves (data_monitor-changes ns n false)
]

-- However often the data monitor looks at the counter, the events logged are the changes between
-- standing still and moving: a stall, with the counter, where it is as at the look before and the
-- inflow was not stalled, and a resumption where it is not and the inflow was stalled. So stalls
-- and resumptions take turns.
pub data_monitor-TakeTurns :
    (counters : List ℕ) (m : Monitor)
    → ((data_monitor counters m).1 ≡ changes m.is_stalled (standing m.saved_byte_counter counters))
      × TakeTurns m.is_stalled (data_monitor counters m).1
data_monitor-TakeTurns counters m =
    let logged = data_monitor-changes counters m.saved_byte_counter m.is_stalled in
    (logged, rw logged (changes-TakeTurns m.is_stalled (standing m.saved_byte_counter counters)))
