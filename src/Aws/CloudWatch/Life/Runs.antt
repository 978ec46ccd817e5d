-- ===== src/Aws/CloudWatch/Life/Runs.antt =====
-- The sink between its making and its stop: what has been logged has been sent or waits in the queue.
use octo_logger_cpp.Prelude.{
  ◌+◌, ◌≡◌, refl, ap, sym, ◌∙◌, subst, Bool, true, false, Option, some, some_inj, List, [], ◌++◌,
  append_assoc, append-nil, arith, All, All-append,
}
use octo_logger_cpp.Context.{ContextInfo}
use octo_logger_cpp.Channel.{Channel, Log}
use octo_logger_cpp.Sink.{Environment, Sink}
use octo_logger_cpp.Aws.CloudWatch.{
  Client, CloudWatchSink, CloudWatchLog, PutLogEventsRequest, Variables,
}
use octo_logger_cpp.Aws.CloudWatch.Format.{additions}
use octo_logger_cpp.Aws.CloudWatch.Sending.Counts.{
  count, count-append, logs_of, contents-append, logs_in, count-logs_in-append, contents,
}
use octo_logger_cpp.Aws.CloudWatch.Sending.Order.{IsSorted}
use octo_logger_cpp.Aws.CloudWatch.Thread.{round}
use octo_logger_cpp.Aws.CloudWatch.Thread.Rounds.{round-RoundSends}
use octo_logger_cpp.Aws.CloudWatch.Life.{dump, dump_if, enqueued}

module _ (C : Client) (vars : Variables) (env : Environment) where
  -- A run of the sink from s: calls of dump, each with what it adds to the queue, and rounds of the
  -- thread, in any order. The list is what has been added, in order.
  pub data Run (s : CloudWatchSink C.State)
      : List CloudWatchLog → CloudWatchSink C.State → Type 0 where
    begun : Run s [] s
    logged :
        {added : List CloudWatchLog} {t : CloudWatchSink C.State} (log : Log) (c : Channel)
        (ci global : ContextInfo) (more : List CloudWatchLog) (u : CloudWatchSink C.State)
        → Run s added t
        → additions env vars log c ci global t ≡ some more
        → dump env vars log c ci global t ≡ some u
        → Run s (added ++ more) u
    round_made :
        {added : List CloudWatchLog} {t : CloudWatchSink C.State}
        → Run s added t
        → Run s added (round C vars t)

  -- The sink runs, and its requests so far, with the queue, hold what has been added.
  abbrev pub Conserves :
      CloudWatchSink C.State → List CloudWatchLog → CloudWatchSink C.State → Type 0
  Conserves s added t =
      (t.is_running ≡ true)
      × (t.base ≡ s.base)
      × ((reqs : List PutLogEventsRequest) × (t.puts ≡ s.puts ++ reqs)
          × ((f : CloudWatchLog → Bool)
              → count f (logs_of reqs) + count f t.logs_queue
                ≡ count f s.logs_queue + count f added)
          × All (λ (req : PutLogEventsRequest). IsSorted req.log_events) reqs)

  logged-Conserves :
      (s t u : CloudWatchSink C.State) (added more : List CloudWatchLog)
      (o : Option (List CloudWatchLog))
      → o ≡ some more
      → dump_if t.is_running o t ≡ some u
      → Conserves s added t
      → Conserves s (added ++ more) u
  logged-Conserves s t u added more o e d (run, same, (reqs, p, c, k)) =
      let w : record t { logs_queue = t.logs_queue ++ more } ≡ u =
        some_inj (ap (λ x. enqueued x t) (sym e) ∙ ap (λ b. dump_if b o t) (sym run) ∙ d) in
      subst (Conserves s (added ++ more)) w (
        run,
        same,
        (
          reqs,
          p,
          (λ f. omega (arith, c f, count-append f t.logs_queue more, count-append f added more)),
          k,
        ),
      )

  round-Conserves :
      (s t : CloudWatchSink C.State) (added : List CloudWatchLog)
      → s.base.is_discarding ≡ false
      → Conserves s added t
      → Conserves s added (round C vars t)
  round-Conserves s t added d (run, same, (reqs, p, c, k)) =
      let (queue, still, base, (new, q, g, le, o)) =
        round-RoundSends C vars t (ap (λ (x : Sink). x.is_discarding) same ∙ d) in
      (
        still ∙ run,
        base ∙ same,
        (
          reqs ++ new,
          q ∙ ap (λ l. l ++ new) p ∙ append_assoc s.puts reqs new,
          (λ f. omega (
            arith,
            c f,
            g f,
            ap (count f) queue,
            ap (λ m. count f (logs_in m)) (contents-append reqs new),
            count-logs_in-append f (contents reqs) (contents new),
          )),
          All-append (λ (req : PutLogEventsRequest). IsSorted req.log_events) reqs new k o,
        ),
      )

  -- Whatever is logged and however the thread gets its turns, the sink stays running, and its requests
  -- and its queue hold together each log just as often as the queue at the start and what has been
  -- added since do; the events of each request stand in the order of their times.
  pub Run-Conserves :
      (s : CloudWatchSink C.State) {added : List CloudWatchLog} {t : CloudWatchSink C.State}
      → s.is_running ≡ true
      → s.base.is_discarding ≡ false
      → Run s added t
      → Conserves s added t
  unfolding dump
  Run-Conserves s run d begun = (run, refl, ([], sym (append-nil s.puts), (λ f. omega arith), tt))
  Run-Conserves s run d (logged {added} {t} log c ci global more u r e w) =
      logged-Conserves s t u added more (additions env vars log c ci global t) e w
        (Run-Conserves s run d r)
  Run-Conserves s run d (round_made {added} {t} r) =
      round-Conserves s t added d (Run-Conserves s run d r)
