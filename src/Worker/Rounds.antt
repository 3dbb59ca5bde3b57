-- ===== src/Worker/Rounds.antt =====
-- Whole rounds of `RunTasks` in src/SchedulerImpl.cpp, by a worker that is alone. The callback does
-- nothing but let its packet go, whose stub then releases it (include/pipert/PacketToProcess.h).
pub mod Ending
pub mod Round
pub mod Draining
mod Tests
use pipert.Base.{ℕ, zero, suc, false, List, [], ◌∷◌, Option, none, some, ◌>>=◌}
use pipert.Timer.{Time}
use pipert.Pipeline.{Pipeline, release_packet}
use pipert.Worker.{Job, take_job, log_execution, finish_job}

-- `Execute`; that the channel has its base is asserted with the event.
unfoldable pub execute : Pipeline → Job → Time → Option Pipeline
unfolding release_packet log_execution
execute p job now = do
  p' ← release_packet p job.channel job.packet now false
  log_execution p' job now now

unfoldable pub end_round : Time → Option Job × Pipeline → Option (Option Job × Pipeline)
unfolding execute finish_job
end_round now (none, p) = some (none, p)
end_round now (some job, p) = do
  p' ← execute p job now
  p'' ← finish_job p' job
  some (some job, p'')

-- A round of the loop; `none` as a job where there is nothing to wait for.
unfoldable pub round : Pipeline → Time → Option (Option Job × Pipeline)
unfolding take_job end_round
round p now = take_job p now >>= end_round now

-- The first rounds of the loop, up to one that finds no job, and their jobs.
unfoldable pub rounds : ℕ → Time → Pipeline → Option (List Job × Pipeline)
unfolding round
rounds zero now p = some ([], p)
rounds (suc n) now p = do
  (r, p') ← round p now
  elim r [
    | none ↦ some ([], p')
    | some job ↦ (rounds n now p' >>= λ (jobs, q). some (job ∷ jobs, q))
  ]
