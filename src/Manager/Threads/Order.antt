-- ===== src/Manager/Threads/Order.antt =====
-- Threads in the manager of src/manager.cpp: the order in which their operations take place.
use octo_logger_cpp.Prelude.{
  ◌≡◌, ℕ, Option, none, some, List, [], ◌∷◌, ◌++◌, get_elem?, ◌==◌, if◌then◌else◌,
}
use octo_logger_cpp.Context.{ContextInfo}
use octo_logger_cpp.Manager.{Manager}
use octo_logger_cpp.Manager.Threads.{Op, Pc, System}
use octo_logger_cpp.Manager.Threads.Serial.{Event, play, completed, rest, Turns}

abbrev pub Trace : Type 0
Trace = List (ℕ × Event)

-- The operations of one thread.
abbrev pub events_of : ℕ → Trace → List Event
events_of i [] = []
events_of i ((j, e) ∷ trace) = if j == i then e ∷ events_of i trace else events_of i trace

abbrev pub then_event : List Event → Option Event → List Event
then_event es none = es
then_event es (some e) = es ++ e ∷ []

abbrev extended : Trace → ℕ → Option Event → Trace
extended trace i none = trace
extended trace i (some e) = trace ++ (i, e) ∷ []

-- The context info has been the global one after some of the operations.
abbrev pub Seen : Manager → Trace → ContextInfo → Type 0
Seen m trace g =
    (before : Trace) × (after : Trace) × (trace ≡ before ++ after)
    × (g ≡ (play before m).global_context_info)

-- A thread with a program has brought about the events in their order, and has the operations left. What
-- it has read of the context info has been the global one.
pub data Follows (m : Manager) (trace : Trace) (program : List Op)
    : List Event → List Op → Type 0 where
  untouched : Follows m trace program [] program
  turned :
      {es : List Event} {ops : List Op} (g : ContextInfo) (e : Option Event) (left : List Op)
      → Follows m trace program es ops
      → Seen m trace g
      → Turns g ops e left
      → Follows m trace program (then_event es e) left

-- The state of the threads comes of whole operations one after the other.
pub record Serialized (m : Manager) (programs : List (List Op)) (s : System) : Type 0 where
  pub trace : Trace
  pub same : completed s ≡ play trace m
  pub each :
      (i : ℕ) (program : List Op) (p : Pc)
      → get_elem? programs i ≡ some program
      → get_elem? s.threads i ≡ some p
      → Follows m trace program (events_of i trace) (rest p)
