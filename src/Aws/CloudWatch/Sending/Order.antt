-- ===== src/Aws/CloudWatch/Sending/Order.antt =====
-- The order of logs by time, in a multiset and in the events of each stream.
use octo_logger_cpp.Prelude.{ℕ, ◌≤◌, List, [], ◌∷◌, ◌++◌, ltb, arith, Bool-cases, inl, inr, All}
use octo_logger_cpp.Prelude.Text.{Text, text_Eq, text_eq}
use octo_logger_cpp.Prelude.Map.{Map, find, insert_or_assign}
use octo_logger_cpp.Prelude.Keys.{IsMap, insert_or_assign-IsMap}
use octo_logger_cpp.Aws.CloudWatch.{CloudWatchLog, LogEvent}
use octo_logger_cpp.Aws.CloudWatch.Sending.{insert, or_nil, push_event, push_events}

abbrev From : ℕ → List CloudWatchLog → Type 0
From t logs = All (λ (x : CloudWatchLog). t ≤ x.log_event.timestamp) logs

-- The logs stand in the order of their times.
abbrev pub IsOrdered : List CloudWatchLog → Type 0
IsOrdered [] = Unit
IsOrdered (x ∷ logs) = From x.log_event.timestamp logs × IsOrdered logs

From-insert :
    (t : ℕ) (x : CloudWatchLog) (logs : List CloudWatchLog)
    → t ≤ x.log_event.timestamp
    → From t logs
    → From t (insert x logs)
unfolding insert
From-insert t x [] h k = (h, tt)
From-insert t x (y ∷ logs) h k =
    elim (Bool-cases (ltb x.log_event.timestamp y.log_event.timestamp)) [
      | inl b ↦ rw b (h, k)
      | inr b ↦ rw b (k.0, From-insert t x logs h k.1)
    ]

From-weaken : (t u : ℕ) (logs : List CloudWatchLog) → t ≤ u → From u logs → From t logs
From-weaken t u [] h k = tt
From-weaken t u (x ∷ logs) h k = (omega (arith, h, k.0), From-weaken t u logs h k.1)

pub IsOrdered-insert :
    (x : CloudWatchLog) (logs : List CloudWatchLog) → IsOrdered logs → IsOrdered (insert x logs)
unfolding insert
IsOrdered-insert x [] h = (tt, tt)
IsOrdered-insert x (y ∷ logs) h =
    elim (Bool-cases (ltb x.log_event.timestamp y.log_event.timestamp)) [
      | inl b ↦
          let lt : x.log_event.timestamp ≤ y.log_event.timestamp = ground (arith, b) in
          rw b ((lt, From-weaken x.log_event.timestamp y.log_event.timestamp logs lt h.0), h)
      | inr b ↦
          let le : y.log_event.timestamp ≤ x.log_event.timestamp = ground (arith, b) in
          rw b (From-insert y.log_event.timestamp x logs le h.0, IsOrdered-insert x logs h.1)
    ]

-- The events stand in the order of their times, up to the time b.
abbrev UpTo : ℕ → List LogEvent → Type 0
UpTo b events = All (λ (e : LogEvent). e.timestamp ≤ b) events

abbrev pub IsSorted : List LogEvent → Type 0
IsSorted [] = Unit
IsSorted (e ∷ events) = All (λ (d : LogEvent). e.timestamp ≤ d.timestamp) events × IsSorted events

abbrev Until : ℕ → List LogEvent → Type 0
Until b events = IsSorted events × UpTo b events

UpTo-behind :
    (b c : ℕ) (events : List LogEvent) (e : LogEvent)
    → b ≤ c
    → e.timestamp ≤ c
    → UpTo b events
    → UpTo c (events ++ e ∷ [])
UpTo-behind b c [] e h k u = (k, tt)
UpTo-behind b c (d ∷ events) e h k u = (omega (arith, u.0, h), UpTo-behind b c events e h k u.1)

from-behind :
    (t : ℕ) (events : List LogEvent) (e : LogEvent)
    → t ≤ e.timestamp
    → All (λ (d : LogEvent). t ≤ d.timestamp) events
    → All (λ (d : LogEvent). t ≤ d.timestamp) (events ++ e ∷ [])
from-behind t [] e h k = (h, tt)
from-behind t (d ∷ events) e h k = (k.0, from-behind t events e h k.1)

IsSorted-behind :
    (events : List LogEvent) (e : LogEvent)
    → UpTo e.timestamp events
    → IsSorted events
    → IsSorted (events ++ e ∷ [])
IsSorted-behind [] e u h = (tt, tt)
IsSorted-behind (d ∷ events) e u h =
    (from-behind d.timestamp events e u.0 h.0, IsSorted-behind events e u.1 h.1)

UpTo-weaken : (b c : ℕ) (events : List LogEvent) → b ≤ c → UpTo b events → UpTo c events
UpTo-weaken b c [] h u = tt
UpTo-weaken b c (d ∷ events) h u = (omega (arith, u.0, h), UpTo-weaken b c events h u.1)

Until-behind :
    (b : ℕ) (events : List LogEvent) (e : LogEvent)
    → b ≤ e.timestamp
    → Until b events
    → Until e.timestamp (events ++ e ∷ [])
Until-behind b events e h (s, u) = (
  IsSorted-behind events e (UpTo-weaken b e.timestamp events h u) s,
  UpTo-behind b e.timestamp events e h (omega arith) u,
)

-- Every stream's events are sorted, up to the time b.
abbrev Streams : ℕ → Map Text (List LogEvent) → Type 0
Streams b m = All (λ (entry : Text × List LogEvent). Until b entry.1) m

Streams-weaken : (b c : ℕ) (m : Map Text (List LogEvent)) → b ≤ c → Streams b m → Streams c m
Streams-weaken b c [] h k = tt
Streams-weaken b c ((j, events) ∷ m) h ((s, u), k) =
    ((s, UpTo-weaken b c events h u), Streams-weaken b c m h k)

found-Until :
    (b : ℕ) (k : Text) (m : Map Text (List LogEvent)) → Streams b m → Until b (or_nil (find k m))
unfolding find
found-Until b k [] h = (tt, tt)
found-Until b k ((j, events) ∷ m) h = elim (Bool-cases (text_eq j k)) [
  | inl y ↦ rw y h.0
  | inr n ↦ rw n (found-Until b k m h.1)
]

Streams-insert_or_assign :
    (b : ℕ) (k : Text) (v : List LogEvent) (m : Map Text (List LogEvent))
    → Until b v
    → Streams b m
    → Streams b (insert_or_assign k v m)
unfolding insert_or_assign
Streams-insert_or_assign b k v [] u h = (u, tt)
Streams-insert_or_assign b k v ((j, events) ∷ m) u h = elim (Bool-cases (text_eq j k)) [
  | inl y ↦ rw y (u, h.1)
  | inr n ↦ rw n (h.0, Streams-insert_or_assign b k v m u h.1)
]

Streams-push_events :
    (b : ℕ) (logs : List CloudWatchLog) (m : Map Text (List LogEvent))
    → From b logs
    → IsOrdered logs
    → Streams b m
    → All (λ (entry : Text × List LogEvent). IsSorted entry.1) (push_events logs m)
unfolding push_events push_event
Streams-push_events b [] m f o h = sorted m h
  where
    sorted :
        (n : Map Text (List LogEvent))
        → Streams b n
        → All (λ (entry : Text × List LogEvent). IsSorted entry.1) n
    sorted [] k = tt
    sorted (entry ∷ n) k = (k.0.0, sorted n k.1)
Streams-push_events b (x ∷ logs) m f o h =
    let t = x.log_event.timestamp in
    Streams-push_events t logs (push_event x m) o.0 o.1 (
      Streams-insert_or_assign t x.stream_name (or_nil (find x.stream_name m) ++ x.log_event ∷ []) m
        (Until-behind b (or_nil (find x.stream_name m)) x.log_event f.0
          (found-Until b x.stream_name m h))
        (Streams-weaken b t m f.0 h))

pub push_events-IsMap :
    (logs : List CloudWatchLog) (m : Map Text (List LogEvent))
    → IsMap m
    → IsMap (push_events logs m)
unfolding push_events push_event
push_events-IsMap [] m h = h
push_events-IsMap (x ∷ logs) m h =
    push_events-IsMap logs (push_event x m)
      (insert_or_assign-IsMap x.stream_name (or_nil (find x.stream_name m) ++ x.log_event ∷ []) m h)

-- Of ordered logs the events of each stream are sorted.
pub IsSorted-push_events :
    (logs : List CloudWatchLog)
    → IsOrdered logs
    → All (λ (entry : Text × List LogEvent). IsSorted entry.1) (push_events logs [])
IsSorted-push_events logs o = Streams-push_events 0 logs [] (from_0 logs) o tt
  where
    from_0 : (l : List CloudWatchLog) → From 0 l
    from_0 [] = tt
    from_0 (x ∷ l) = (omega arith, from_0 l)
