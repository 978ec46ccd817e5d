-- ===== src/Aws/CloudWatch/Thread/Rounds.antt =====
-- What rounds of the thread's loop send.
use octo_logger_cpp.Prelude.{
  ℕ, zero, suc, ◌+◌, ◌*◌, ◌≤◌, ◌≡◌, refl, ap, sym, ◌∙◌, Bool, false, List, [], ◌∷◌, ◌++◌,
  append-nil, length, drop, arith, All,
}
use octo_logger_cpp.Aws.CloudWatch.{
  Client, CloudWatchSink, CloudWatchLog, PutLogEventsRequest, Variables,
}
use octo_logger_cpp.Aws.CloudWatch.Sending.Counts.{count, count-append, count-all, all, logs_of}
use octo_logger_cpp.Aws.CloudWatch.Sending.Order.{IsSorted}
use octo_logger_cpp.Aws.CloudWatch.Sending.Delivery.{
  Delivers, Delivers-trans, Delivers-logs, send_logs-Delivers,
}
use octo_logger_cpp.Aws.CloudWatch.Thread.{take_batch, round, round_on}
use octo_logger_cpp.Aws.CloudWatch.Thread.Batches.{
  count-take_batch, take_batch-drop, take_batch-IsOrdered, length-drop,
}
use octo_logger_cpp.Aws.CloudWatch.Thread.Flush.{with_queue, emptied, SentOnce}

module _ (C : Client) (vars : Variables) where
  -- The rest of the queue stays, and the logs in front of it are sent.
  abbrev Takes : List CloudWatchLog → CloudWatchSink C.State → CloudWatchSink C.State → Type 0
  Takes queue s t =
      (batch : List CloudWatchLog) × Delivers batch (with_queue (drop 50 queue) s) t
      × ((f : CloudWatchLog → Bool) → count f batch + count f (drop 50 queue) ≡ count f queue)

  round_on-Takes :
      (queue : List CloudWatchLog) (s : CloudWatchSink C.State)
      → s.logs_queue ≡ queue
      → s.base.is_discarding ≡ false
      → Takes queue s (round_on C vars queue s)
  round_on-Takes [] s e d = (
    [],
    (
      [],
      (
        [],
        sym (append-nil s.puts),
        refl,
        ap (λ q. (s.base, q, s.is_running, s.log_group_name, s.has_thread, s.thread_pid)) e,
      ),
      (λ f. refl),
      tt,
    ),
    (λ f. omega arith),
  )
  round_on-Takes (x ∷ queue) s e d =
      let b = take_batch 50 (x ∷ queue) [] in
      (
        b.0,
        rw (← take_batch-drop 50 (x ∷ queue) []) (
            send_logs-Delivers C vars b.0 (with_queue b.1 s) d
              (take_batch-IsOrdered 50 (x ∷ queue) [] tt)),
        (λ f. omega (
          arith,
          count-take_batch f 50 (x ∷ queue) [],
          ap (count f) (take_batch-drop 50 (x ∷ queue) []),
        )),
      )

  round-Takes :
      (s : CloudWatchSink C.State)
      → s.base.is_discarding ≡ false
      → Takes s.logs_queue s (round C vars s)
  unfolding round
  round-Takes s d = round_on-Takes s.logs_queue s refl d

  -- A number of rounds, with nothing logged in the meantime.
  unfoldable pub rounds : ℕ → CloudWatchSink C.State → CloudWatchSink C.State
  rounds zero s = s
  rounds (suc n) s = rounds n (round C vars s)

  nil_of : (queue : List CloudWatchLog) → length queue ≤ 0 → queue ≡ []
  nil_of [] h = refl
  nil_of (x ∷ queue) h = absurd (omega arith)

  rounds-Delivers :
      (n : ℕ) (s : CloudWatchSink C.State)
      → s.base.is_discarding ≡ false
      → length s.logs_queue ≤ 50 * n
      → (sent : List CloudWatchLog) × Delivers sent (with_queue [] s) (rounds n s)
        × ((f : CloudWatchLog → Bool) → count f sent ≡ count f s.logs_queue)
  unfolding rounds
  rounds-Delivers zero s d h =
      let e = nil_of s.logs_queue (omega (arith, h)) in
      (
        [],
        (
          [],
          (
            [],
            sym (append-nil s.puts),
            refl,
            ap (λ q. (s.base, q, s.is_running, s.log_group_name, s.has_thread, s.thread_pid)) e,
          ),
          (λ f. refl),
          tt,
        ),
        (λ f. ap (count f) (sym e)),
      )
  rounds-Delivers (suc n) s d h =
      let t = round C vars s in
      let (batch, v, c) = round-Takes s d in
      let (m, (reqs, p, e, r), k, o) = v in
      let rest : t.logs_queue ≡ drop 50 s.logs_queue = ap (λ r. r.1) r in
      let (sent, w, g) =
        rounds-Delivers n t (ap (λ r. r.0.is_discarding) r ∙ d)
          (omega (arith, h, ap length rest, length-drop 50 s.logs_queue)) in
      (
        batch ++ sent,
        Delivers-trans batch sent (with_queue [] s) (with_queue [] t) (rounds n t)
            (emptied (drop 50 s.logs_queue) s t batch v) w,
        (λ f. omega (arith, count-append f batch sent, c f, g f, ap (count f) rest)),
      )

-- What a round sends: the requests made hold the first fifty logs of the queue (all, if there are not
-- more), each as often as they do, and at most fifty in all, in each request in the order of
-- their times; the others stay in the queue in their order, and the sink is running as before and otherwise the same base.
abbrev pub RoundSends : {S : Type 0} → CloudWatchSink S → CloudWatchSink S → Type 0
RoundSends s t =
    (t.logs_queue ≡ drop 50 s.logs_queue)
    × (t.is_running ≡ s.is_running)
    × (t.base ≡ s.base)
    × ((reqs : List PutLogEventsRequest) × (t.puts ≡ s.puts ++ reqs)
        × ((f : CloudWatchLog → Bool)
            → count f (logs_of reqs) + count f (drop 50 s.logs_queue) ≡ count f s.logs_queue)
        × (length (logs_of reqs) ≤ 50)
        × All (λ (req : PutLogEventsRequest). IsSorted req.log_events) reqs)

-- A round of the thread's loop of a sink that is not discarding takes the first fifty logs out of the
-- queue, or all if there are not more, and makes requests that hold just these, each as often as
-- they are there and at most fifty in all; in each request they stand in the order of their times.
pub round-RoundSends :
    (C : Client) (vars : Variables) (s : CloudWatchSink C.State)
    → s.base.is_discarding ≡ false
    → RoundSends s (round C vars s)
round-RoundSends C vars s d =
    let (batch, v, c) = round-Takes C vars s d in
    let (m, (r, p, e, kept), k, o) = v in
    let (reqs, q, n, sorted) =
      Delivers-logs batch (with_queue (drop 50 s.logs_queue) s) (round C vars s) v in
    (
      ap (λ r. r.1) kept,
      ap (λ r. r.2) kept,
      ap (λ r. r.0) kept,
      (
        reqs,
        q,
        (λ f. omega (arith, n f, c f)),
        omega (
          arith,
          n all,
          c all,
          count-all (logs_of reqs),
          count-all (drop 50 s.logs_queue),
          count-all s.logs_queue,
          length-drop 50 s.logs_queue,
        ),
        sorted,
      ),
    )

-- n rounds of a sink that is not discarding, with nothing logged in the meantime, empty a queue of up to
-- 50 * n logs, and the requests made hold each of them just once.
pub rounds-SentOnce :
    (C : Client) (vars : Variables) (n : ℕ) (s : CloudWatchSink C.State)
    → s.base.is_discarding ≡ false
    → length s.logs_queue ≤ 50 * n
    → SentOnce s (rounds C vars n s)
rounds-SentOnce C vars n s d h =
    let (sent, v, g) = rounds-Delivers C vars n s d h in
    let (m, (r, p, e, kept), c, o) = v in
    let (reqs, q, k, sorted) = Delivers-logs sent (with_queue [] s) (rounds C vars n s) v in
    (ap (λ r. r.1) kept, (reqs, q, (λ f. k f ∙ g f), sorted))
