-- ===== src/Aws/CloudWatch/Thread/Flush.antt =====
-- What the thread sends at its end: the logs that are left, and the first fifty of them once more if
-- there are others behind them.
use octo_logger_cpp.Prelude.{
  ℕ, zero, suc, ◌+◌, ◌≤◌, ◌<◌, ◌≡◌, refl, ap, ◌∙◌, Bool, false, List, [], ◌∷◌, ◌++◌, length, take,
  drop, arith, All,
}
use octo_logger_cpp.Aws.CloudWatch.{
  Client, CloudWatchSink, CloudWatchLog, PutLogEventsRequest, Variables,
}
use octo_logger_cpp.Aws.CloudWatch.Sending.{send_logs}
use octo_logger_cpp.Aws.CloudWatch.Sending.Counts.{count, count-append, logs_of}
use octo_logger_cpp.Aws.CloudWatch.Sending.Order.{IsOrdered, IsSorted}
use octo_logger_cpp.Aws.CloudWatch.Sending.Delivery.{
  Delivers, Delivers-trans, Delivers-logs, Delivers-nothing, send_logs-Delivers,
}
use octo_logger_cpp.Aws.CloudWatch.Thread.{take_batch, flush_loop, flush}
use octo_logger_cpp.Aws.CloudWatch.Thread.Batches.{
  count-take_batch, take_batch-drop, take_batch-IsOrdered, length-drop,
}

abbrev pub with_queue : {S : Type 0} → List CloudWatchLog → CloudWatchSink S → CloudWatchSink S
with_queue queue s = record s { logs_queue = queue }

count-take-drop :
    (f : CloudWatchLog → Bool) (n : ℕ) (xs : List CloudWatchLog)
    → count f (take n xs) + count f (drop n xs) ≡ count f xs
count-take-drop f zero xs = omega arith
count-take-drop f (suc n) [] = omega arith
count-take-drop f (suc n) (x ∷ xs) = omega (arith, count-take-drop f n xs)

-- How often the logs sent, `sent`, hold those of the queue and those that the multiset holds at the start.
abbrev Flushed :
    (CloudWatchLog → Bool) → List CloudWatchLog → List CloudWatchLog → List CloudWatchLog → Type 0
Flushed f [] logs sent = count f sent ≡ 0
Flushed f (x ∷ queue) logs sent =
    (count f logs + count f (x ∷ queue) ≤ count f sent)
    × (length (x ∷ queue) ≤ 50 → count f sent ≡ count f logs + count f (x ∷ queue))
    × (50 < length (x ∷ queue)
        → count f logs + count f (take 50 (x ∷ queue)) + count f logs + count f (x ∷ queue)
          ≤ count f sent)

-- A round in front of the others.
Flushed-more :
    (f : CloudWatchLog → Bool) (x : CloudWatchLog) (queue logs batch rest sent : List CloudWatchLog)
    → rest ≡ drop 50 (x ∷ queue)
    → count f batch + count f rest ≡ count f (x ∷ queue) + count f logs
    → Flushed f rest batch sent
    → Flushed f (x ∷ queue) logs (batch ++ sent)
Flushed-more f x queue logs batch [] sent e c h =
    let long : length (x ∷ queue) ≤ 50 = omega (arith, length-drop 50 (x ∷ queue), ap length e) in
    let same : count f (batch ++ sent) ≡ count f logs + count f (x ∷ queue) =
      omega (arith, count-append f batch sent, c, h) in
    (omega (arith, same), (λ le. same), (λ lt. omega (arith, long, lt)))
Flushed-more f x queue logs batch (y ∷ rest) sent e c h =
    let split = count-take-drop f 50 (x ∷ queue) in
    let more = ap (count f) e in
    (
      omega (arith, count-append f batch sent, c, h.0),
      (λ le. absurd (omega (arith, length-drop 50 (x ∷ queue), ap length e, le))),
      (λ lt. omega (arith, count-append f batch sent, c, h.0, split, more)),
    )

pub emptied :
    {S : Type 0} (queue : List CloudWatchLog) (s t : CloudWatchSink S) (logs : List CloudWatchLog)
    → Delivers logs (with_queue queue s) t
    → Delivers logs (with_queue [] s) (with_queue [] t)
emptied queue s t logs (m, (reqs, p, e, r), c, o) =
    (m, (reqs, p, e, ap (λ r. (r.0, [], r.2, r.3, r.4, r.5)) r), c, o)

module _ (C : Client) (vars : Variables) where
  flush_loop-Delivers :
      (fuel : ℕ) (queue logs : List CloudWatchLog) (s : CloudWatchSink C.State)
      → length queue ≤ fuel
      → s.base.is_discarding ≡ false
      → IsOrdered logs
      → (sent : List CloudWatchLog) × Delivers sent
          (with_queue [] s)
          (flush_loop C vars fuel queue logs s)
        × ((f : CloudWatchLog → Bool) → Flushed f queue logs sent)
  unfolding flush_loop
  flush_loop-Delivers zero [] logs s h d o = ([], Delivers-nothing (with_queue [] s), (λ f. refl))
  flush_loop-Delivers zero (x ∷ queue) logs s h d o = absurd (omega arith)
  flush_loop-Delivers (suc fuel) [] logs s h d o =
      ([], Delivers-nothing (with_queue [] s), (λ f. refl))
  flush_loop-Delivers (suc fuel) (x ∷ queue) logs s h d o =
      let b = take_batch 50 (x ∷ queue) logs in
      let ordered = take_batch-IsOrdered 50 (x ∷ queue) logs o in
      let t = send_logs C vars b.0 (with_queue b.1 s) in
      let (m, (reqs, p, e, r), c, k) = send_logs-Delivers C vars b.0 (with_queue b.1 s) d ordered in
      let (sent, v, g) =
        flush_loop-Delivers fuel b.1 b.0 t
          (omega
            (arith, h, length-drop 50 (x ∷ queue), ap length (take_batch-drop 50 (x ∷ queue) logs)))
          (ap (λ r. r.0.is_discarding) r ∙ d) ordered in
      (
        b.0 ++ sent,
        Delivers-trans b.0 sent (with_queue [] s) (with_queue [] t)
            (flush_loop C vars fuel b.1 b.0 t) (emptied b.1 s t b.0 (m, (reqs, p, e, r), c, k)) v,
        (λ f.
            Flushed-more f x queue logs b.0 b.1 sent (take_batch-drop 50 (x ∷ queue) logs)
              (count-take_batch f 50 (x ∷ queue) logs) (g f)),
      )

  -- Nothing is left in the queue, and the requests made hold each of its logs at least once.
  flush-Delivers :
      (s : CloudWatchSink C.State)
      → s.base.is_discarding ≡ false
      → (sent : List CloudWatchLog) × Delivers sent (with_queue [] s) (flush C vars s)
        × ((f : CloudWatchLog → Bool) → Flushed f s.logs_queue [] sent)
  unfolding flush
  flush-Delivers s d =
      flush_loop-Delivers (length s.logs_queue) s.logs_queue [] s (omega arith) d tt

  once :
      (f : CloudWatchLog → Bool) (queue sent : List CloudWatchLog)
      → length queue ≤ 50
      → Flushed f queue [] sent
      → count f sent ≡ count f queue
  once f [] sent le h = h
  once f (x ∷ queue) sent le h = omega (arith, h.1 le)

  twice :
      (f : CloudWatchLog → Bool) (queue sent : List CloudWatchLog)
      → 50 < length queue
      → Flushed f queue [] sent
      → count f (take 50 queue) + count f queue ≤ count f sent
  twice f [] sent lt h = omega (arith, lt)
  twice f (x ∷ queue) sent lt h = omega (arith, h.2 lt)

-- The requests by which the queue of s is emptied: they hold each log as often as the queue does.
abbrev pub SentOnce : {S : Type 0} → CloudWatchSink S → CloudWatchSink S → Type 0
SentOnce s t =
    (t.logs_queue ≡ [])
    × ((reqs : List PutLogEventsRequest) × (t.puts ≡ s.puts ++ reqs)
        × ((f : CloudWatchLog → Bool) → count f (logs_of reqs) ≡ count f s.logs_queue)
        × All (λ (req : PutLogEventsRequest). IsSorted req.log_events) reqs)

-- If at most fifty logs are left when the thread ends, and the sink is not discarding, then the queue is
-- empty afterwards and the requests made hold each of the logs just once (as often as the queue did), in
-- each request in the order of their times.
pub flush-SentOnce :
    (C : Client) (vars : Variables) (s : CloudWatchSink C.State)
    → s.base.is_discarding ≡ false
    → length s.logs_queue ≤ 50
    → SentOnce s (flush C vars s)
flush-SentOnce C vars s d le =
    let (sent, v, g) = flush-Delivers C vars s d in
    let (m, (r, p, e, kept), c, o) = v in
    let (reqs, q, n, sorted) = Delivers-logs sent (with_queue [] s) (flush C vars s) v in
    (ap (λ r. r.1) kept, (reqs, q, (λ f. n f ∙ once C vars f s.logs_queue sent le (g f)), sorted))

-- If more than fifty logs are left when the thread ends, and the sink is not discarding, then the requests
-- made hold each of the first fifty at least once more than the queue did, and the others at least
-- as often.
pub flush_twice :
    (C : Client) (vars : Variables) (s : CloudWatchSink C.State)
    → s.base.is_discarding ≡ false
    → 50 < length s.logs_queue
    → (reqs : List PutLogEventsRequest) × ((flush C vars s).puts ≡ s.puts ++ reqs)
      × ((f : CloudWatchLog → Bool)
          → count f (take 50 s.logs_queue) + count f s.logs_queue ≤ count f (logs_of reqs))
flush_twice C vars s d lt =
    let (sent, v, g) = flush-Delivers C vars s d in
    let (reqs, q, n, sorted) = Delivers-logs sent (with_queue [] s) (flush C vars s) v in
    (reqs, q, (λ f. omega (arith, n f, twice C vars f s.logs_queue sent lt (g f))))
