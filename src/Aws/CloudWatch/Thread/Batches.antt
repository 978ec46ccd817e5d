-- ===== src/Aws/CloudWatch/Thread/Batches.antt =====
-- What take_batch takes.
use octo_logger_cpp.Prelude.{
  ℕ, zero, suc, ◌+◌, ◌-◌, ◌≡◌, refl, List, [], ◌∷◌, length, drop, arith, Bool,
}
use octo_logger_cpp.Aws.CloudWatch.{CloudWatchLog}
use octo_logger_cpp.Aws.CloudWatch.Sending.{insert}
use octo_logger_cpp.Aws.CloudWatch.Sending.Counts.{count, count-insert}
use octo_logger_cpp.Aws.CloudWatch.Sending.Order.{IsOrdered, IsOrdered-insert}
use octo_logger_cpp.Aws.CloudWatch.Thread.{take_batch}

-- No log is lost and none is doubled.
pub count-take_batch :
    (f : CloudWatchLog → Bool) (n : ℕ) (queue logs : List CloudWatchLog)
    → let b = take_batch n queue logs in count f b.0 + count f b.1 ≡ count f queue + count f logs
unfolding take_batch
count-take_batch f zero queue logs = omega arith
count-take_batch f (suc n) [] logs = omega arith
count-take_batch f (suc n) (x ∷ queue) logs =
    omega (arith, count-take_batch f n queue (insert x logs), count-insert f x logs)

-- The rest of the queue.
pub take_batch-drop :
    (n : ℕ) (queue logs : List CloudWatchLog) → (take_batch n queue logs).1 ≡ drop n queue
unfolding take_batch
take_batch-drop zero queue logs = refl
take_batch-drop (suc n) [] logs = refl
take_batch-drop (suc n) (x ∷ queue) logs = take_batch-drop n queue (insert x logs)

pub take_batch-IsOrdered :
    (n : ℕ) (queue logs : List CloudWatchLog)
    → IsOrdered logs
    → IsOrdered (take_batch n queue logs).0
unfolding take_batch
take_batch-IsOrdered zero queue logs h = h
take_batch-IsOrdered (suc n) [] logs h = h
take_batch-IsOrdered (suc n) (x ∷ queue) logs h =
    take_batch-IsOrdered n queue (insert x logs) (IsOrdered-insert x logs h)

pub length-drop : {A : Type 0} (n : ℕ) (xs : List A) → length (drop n xs) ≡ length xs - n
length-drop zero xs = omega arith
length-drop (suc n) [] = omega arith
length-drop (suc n) (x ∷ xs) = omega (arith, length-drop n xs)
