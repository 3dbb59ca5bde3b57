-- ===== src/Pipeline/Tests.antt =====
-- Runs of the methods of src/ChannelImpl.cpp on the channel of Pipeline/Example.
use pipert.Base.{ℕ, ◌≡◌, refl, true, false, [], Option, some, arith, count}
use pipert.Channel.{new_channel}
use pipert.Pipeline.{Pipeline, store, push, acquire, get_next}
use pipert.Pipeline.Consistent.{IsConsistent, SameFlags}
use pipert.Pipeline.Pushing.{Pushed, push_consistent}
use pipert.Pipeline.Retrieval.{Retrieved, get_next_oldest}
use pipert.Pipeline.Acquiring.{Acquired, acquire_total}
use pipert.Pipeline.Starting.{create_channel, create_channel-IsConsistent}
use pipert.Pipeline.Example.{
  one_held, one_queued, nobody, one_held-IsConsistent, one_queued-IsConsistent,
}

create_channel-IsConsistent_example :
    (p' : Pipeline) × (create_channel one_queued 1 (new_channel [] 3 16 7 true) ≡ some p')
    × IsConsistent p' nobody
    × (p'.scheduler.running ≡ false)
    × (p'.channel ≡ store one_queued.channel 1 (new_channel [] 3 16 7 true))
    × SameFlags one_queued p'
unfolding new_channel
create_channel-IsConsistent_example =
    create_channel-IsConsistent one_queued nobody 1 [] 3 16 7 true one_queued-IsConsistent refl refl
      refl (omega arith)

push_consistent_example :
    (p' : Pipeline) × (push one_held 0 0 9 ≡ some p') × Pushed one_held nobody 0 0 [] p'
push_consistent_example =
    push_consistent one_held nobody 0 0 [] 9 one_held-IsConsistent (omega arith) (omega arith)
      (omega arith)

acquire_total_example :
    (r : Option ℕ) × (p' : Pipeline) × (acquire one_queued 0 9 ≡ some (r, p'))
    × Acquired one_queued nobody 0 9 r p'
acquire_total_example = acquire_total one_queued nobody 0 9 one_queued-IsConsistent

get_next_oldest_example :
    (r : Option ℕ) × (p' : Pipeline) × (get_next one_queued 0 9 false ≡ some (r, p'))
    × Retrieved one_queued nobody 0 9 r p'
unfolding count
get_next_oldest_example =
    get_next_oldest one_queued nobody 0 one_queued-IsConsistent 9 (λ x h. ground arith)
