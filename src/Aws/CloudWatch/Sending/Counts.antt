-- ===== src/Aws/CloudWatch/Sending/Counts.antt =====
-- How often a log occurs in a multiset, in a map from streams to events, and in requests.
use octo_logger_cpp.Prelude.{
  ℕ, ◌+◌, ◌≡◌, refl, ap, Bool, true, List, [], ◌∷◌, ◌++◌, length, if◌then◌else◌, arith, Bool-cases,
  inl, inr,
}
use octo_logger_cpp.Prelude.Text.{Text, text_Eq, text_eq, text_eq_iff}
use octo_logger_cpp.Prelude.Map.{Map, find, insert_or_assign}
use octo_logger_cpp.Aws.CloudWatch.{CloudWatchLog, LogEvent, PutLogEventsRequest}
use octo_logger_cpp.Aws.CloudWatch.Sending.{insert, or_nil, push_event, push_events}

-- How many of the logs pass a test.
abbrev pub count : (CloudWatchLog → Bool) → List CloudWatchLog → ℕ
count f [] = 0
count f (x ∷ logs) = (if f x then 1 else 0) + count f logs

abbrev pub all : CloudWatchLog → Bool
all x = true

pub count-append :
    (f : CloudWatchLog → Bool) (xs ys : List CloudWatchLog)
    → count f (xs ++ ys) ≡ count f xs + count f ys
count-append f [] ys = omega arith
count-append f (x ∷ xs) ys = omega (arith, count-append f xs ys)

pub count-all : (xs : List CloudWatchLog) → count all xs ≡ length xs
count-all [] = refl
count-all (x ∷ xs) = omega (arith, count-all xs)

pub count-insert :
    (f : CloudWatchLog → Bool) (x : CloudWatchLog) (xs : List CloudWatchLog)
    → count f (insert x xs) ≡ count f (x ∷ xs)
unfolding insert
count-insert f x [] = refl
count-insert f x (y ∷ xs) = ground (arith, count-insert f x xs)

-- The events of a stream as logs, and those of all the streams of a map.
abbrev pub logs_on : Text → List LogEvent → List CloudWatchLog
logs_on name [] = []
logs_on name (e ∷ events) = record { log_event = e; stream_name = name } ∷ logs_on name events

abbrev pub logs_in : Map Text (List LogEvent) → List CloudWatchLog
logs_in [] = []
logs_in ((name, events) ∷ m) = logs_on name events ++ logs_in m

-- The streams and events of requests, and all of their events as logs.
abbrev pub contents : List PutLogEventsRequest → Map Text (List LogEvent)
contents [] = []
contents (req ∷ reqs) = (req.log_stream, req.log_events) ∷ contents reqs

abbrev pub logs_of : List PutLogEventsRequest → List CloudWatchLog
logs_of reqs = logs_in (contents reqs)

pub contents-append :
    (xs ys : List PutLogEventsRequest) → contents (xs ++ ys) ≡ contents xs ++ contents ys
contents-append [] ys = refl
contents-append (x ∷ xs) ys = ap (λ r. (x.log_stream, x.log_events) ∷ r) (contents-append xs ys)

pub count-logs_in-append :
    (f : CloudWatchLog → Bool) (m n : Map Text (List LogEvent))
    → count f (logs_in (m ++ n)) ≡ count f (logs_in m) + count f (logs_in n)
count-logs_in-append f [] n = omega arith
count-logs_in-append f ((name, events) ∷ m) n = omega (
  arith,
  count-append f (logs_on name events) (logs_in (m ++ n)),
  count-append f (logs_on name events) (logs_in m),
  count-logs_in-append f m n,
)

count-logs_on :
    (f : CloudWatchLog → Bool) (name : Text) (events : List LogEvent) (e : LogEvent)
    → count f (logs_on name (events ++ e ∷ []))
      ≡ count f (logs_on name events) + count f (record { log_event = e; stream_name = name } ∷ [])
count-logs_on f name [] e = omega arith
count-logs_on f name (d ∷ events) e = omega (arith, count-logs_on f name events e)

-- What an assignment takes out of the map, and what it puts in.
count-insert_or_assign :
    (f : CloudWatchLog → Bool) (k : Text) (v : List LogEvent) (m : Map Text (List LogEvent))
    → count f (logs_in (insert_or_assign k v m)) + count f (logs_on k (or_nil (find k m)))
      ≡ count f (logs_on k v) + count f (logs_in m)
unfolding find insert_or_assign
count-insert_or_assign f k v [] = omega (arith, count-append f (logs_on k v) [])
count-insert_or_assign f k v ((j, events) ∷ m) = elim (Bool-cases (text_eq j k)) [
  | inl y ↦
      let same : j ≡ k = (text_eq_iff j k).0 y in
      rw y (
        omega (
          arith,
          count-append f (logs_on j v) (logs_in m),
          count-append f (logs_on j events) (logs_in m),
          ap (λ name. count f (logs_on name v)) same,
          ap (λ name. count f (logs_on name events)) same,
        ))
  | inr n ↦ rw n (
      omega (
        arith,
        count-append f (logs_on j events) (logs_in (insert_or_assign k v m)),
        count-append f (logs_on j events) (logs_in m),
        count-insert_or_assign f k v m,
      ))
]

pub count-push_event :
    (f : CloudWatchLog → Bool) (x : CloudWatchLog) (m : Map Text (List LogEvent))
    → count f (logs_in (push_event x m)) ≡ count f (x ∷ []) + count f (logs_in m)
unfolding push_event
count-push_event f x m =
    let old = or_nil (find x.stream_name m) in
    omega (
      arith,
      count-insert_or_assign f x.stream_name (old ++ x.log_event ∷ []) m,
      count-logs_on f x.stream_name old x.log_event,
    )

pub count-push_events :
    (f : CloudWatchLog → Bool) (logs : List CloudWatchLog) (m : Map Text (List LogEvent))
    → count f (logs_in (push_events logs m)) ≡ count f logs + count f (logs_in m)
unfolding push_events
count-push_events f [] m = omega arith
count-push_events f (x ∷ logs) m =
    omega (arith, count-push_events f logs (push_event x m), count-push_event f x m)
