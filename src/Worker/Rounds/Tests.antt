-- ===== src/Worker/Rounds/Tests.antt =====
-- The packet that is queued in the channel of Pipeline/Example is processed.
use pipert.Base.{◌≡◌, List, [], ◌∷◌, some, arith, count}
use pipert.Channel.{new_channel}
use pipert.Pipeline.{Pipeline}
use pipert.Scheduler.{queue_of}
use pipert.Pipeline.Example.{one_queued, nobody, one_queued-IsConsistent}
use pipert.Worker.{Job}
use pipert.Worker.Rounds.{rounds}
use pipert.Worker.Rounds.Round.{IsCalm}
use pipert.Worker.Rounds.Draining.{waiting, IsDrained, Covers, InTime, NoneBefore, rounds-drain}

one_queued-IsCalm : IsCalm one_queued nobody 9
unfolding count queue_of new_channel
one_queued-IsCalm = record {
  consistent = one_queued-IsConsistent;
  enabled_all = λ st. ground arith;
  past = λ c x h. ground (arith, h);
  bases = λ c on. ground (arith, on);
}

rounds-drain_example :
    (jobs : List Job) × (p' : Pipeline) × (rounds 1 9 one_queued ≡ some (jobs, p'))
    × IsCalm p' nobody 9
    × IsDrained p'
    × InTime one_queued 1 jobs
unfolding Covers NoneBefore waiting count new_channel
rounds-drain_example =
    rounds-drain (0 ∷ []) nobody 9 1 1 one_queued one_queued-IsCalm
      (λ c on h. ground (arith, on, h)) (λ c x on h. ground (arith, on, h)) (omega arith)
