-- ===== src/Typed/Tests.antt =====
-- Packets whose data is a number, in the channel of Pipeline/Example.
use pipert.Base.{ℕ, ◌≡◌, refl, [], ◌∷◌, some, arith, count}
use pipert.Pipeline.Consistent.{IsConsistent, holding}
use pipert.Pipeline.Example.{
  one_held, one_queued, nobody, one_held-IsConsistent, one_queued-IsConsistent,
}
use pipert.Facade.{ChannelBase, PacketStub}
use pipert.Typed.{Typed, make_to_fill, end_to_fill, make_to_process, end_to_process}
use pipert.Typed.Producing.{Sent, make_to_fill-Sent}
use pipert.Typed.Consuming.{Received, make_to_process-Received}

abbrev base : ChannelBase
base = record { impl = some 0 }

-- The packet that is queued has the number 70.
abbrev queued : Typed ℕ
queued = record {
  pipeline = one_queued;
  contents = λ c x. some 70;
  constructed = λ c. 1;
  destroyed = λ c. 0;
}

abbrev held : Typed ℕ
held = record queued { pipeline = one_held }

make_to_fill-Sent_example :
    (s : PacketStub) × (ty₁ ty' : Typed ℕ) × (make_to_fill held base 4 80 5 ≡ some (s, ty₁))
    × (end_to_fill ty₁ s 9 ≡ some ty')
    × IsConsistent ty'.pipeline (holding nobody 0 (0 ∷ []))
    × Sent held (holding nobody 0 (0 ∷ [])) 0 4 80 s.packet ty'
make_to_fill-Sent_example =
    make_to_fill-Sent held (holding nobody 0 (0 ∷ [])) base 0 4 5 9 80 refl one_held-IsConsistent
      (omega arith) (omega arith) (omega arith)

make_to_process-Received_example :
    (s : PacketStub) × (ty₁ ty' : Typed ℕ) × (make_to_process queued base 6 ≡ some (s, ty₁))
    × (end_to_process ty₁ s 9 ≡ some ty')
    × IsConsistent ty'.pipeline nobody
    × Received queued 0 s s.packet ty₁ ty'
unfolding count
make_to_process-Received_example =
    make_to_process-Received queued nobody base 0 6 9 refl one_queued-IsConsistent
      (λ x h. ground arith) (omega arith)
