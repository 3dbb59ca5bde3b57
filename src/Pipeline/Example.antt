-- ===== src/Pipeline/Example.antt =====
-- A channel of src/ChannelImpl.cpp of two packets of 16 bytes, whose monitor object is 7.
use pipert.Base.{
  ℕ, ◌+◌, refl, inl, inr, eq-cases, ne_test, true, false, List, [], ◌∷◌, none, some, arith, ◌==◌,
  if◌then◌else◌, count,
}
use pipert.Packet.{PacketBase}
use pipert.Scheduler.{queue_of}
use pipert.Scheduler.Registering.{stopped_scheduler}
use pipert.Channel.{ChannelImpl, new_channel}
use pipert.Channel.Accounting.{IsValid}
use pipert.Channel.Starting.{new_channel-IsValid}
use pipert.Pipeline.{Pipeline}
use pipert.Pipeline.Consistent.{IsConsistent, holding}
use pipert.Pipeline.Starting.{no_channels}

abbrev pub stamps : ℕ → PacketBase
stamps packet = record { timestamp = packet + 1; op_timestamp = packet }

abbrev pub two_packets : List ℕ → List ℕ → ChannelImpl
two_packets free queued = record {
  single_thread_object = 7;
  callback = true;
  pool = stamps;
  free_packets = free;
  queued_packets = record { heap = queued; capacity = 2 };
  name = [];
  capacity = 2;
  packet_size = 16;
  base = some 50;
  profile_data = some [];
}

-- The packet at 0 is held.
abbrev pub one_held : Pipeline
one_held = record {
  channel = λ c. if c == 0 then two_packets (16 ∷ []) [] else no_channels c;
  scheduler = stopped_scheduler 1 true;
}

-- The packet at 0 is queued.
abbrev pub one_queued : Pipeline
one_queued = record {
  channel = λ c. if c == 0 then two_packets (16 ∷ []) (0 ∷ []) else no_channels c;
  scheduler = record (stopped_scheduler 1 true) {
    state2channel_queues = λ st.
        if st == 7
        then some (record { enabled = true; heap = record { heap = 0 ∷ []; capacity = 1 } })
        else none;
    state_queue = record { heap = 7 ∷ []; capacity = 1 };
  };
}

abbrev pub nobody : ℕ → List ℕ
nobody c = []

one_held-IsValid : IsValid (two_packets (16 ∷ []) []) (0 ∷ [])
unfolding count
one_held-IsValid = record {
  order = λ c p q. omega arith;
  owned = λ x. ground arith;
  sized = refl;
  timed = λ x h. omega arith;
  reserved = omega arith;
}

one_queued-IsValid : IsValid (two_packets (16 ∷ []) (0 ∷ [])) []
unfolding count
one_queued-IsValid = record {
  order = λ c p q. omega arith;
  owned = λ x. ground arith;
  sized = refl;
  timed = λ x h. ground arith;
  reserved = omega arith;
}

pub one_held-IsConsistent : IsConsistent one_held (holding nobody 0 (0 ∷ []))
unfolding count queue_of new_channel
one_held-IsConsistent = record {
  channels = λ c. elim (eq-cases c 0) [
    | inl e ↦ rw e one_held-IsValid
    | inr n ↦ rw (ne_test n) (new_channel-IsValid [] 0 1 0 false (omega arith))
  ];
  queues = record {
    channels_order = λ st c p q. omega arith;
    channels_exact = λ st c. ground arith;
    states_order = λ c p q. omega arith;
    states_exact = λ st. refl;
  };
}

pub one_queued-IsConsistent : IsConsistent one_queued nobody
unfolding count queue_of new_channel
one_queued-IsConsistent = record {
  channels = λ c. elim (eq-cases c 0) [
    | inl e ↦ rw e one_queued-IsValid
    | inr n ↦ rw (ne_test n) (new_channel-IsValid [] 0 1 0 false (omega arith))
  ];
  queues = record {
    channels_order = λ st c p q r. ground arith;
    channels_exact = λ st c. ground arith;
    states_order = λ c p q. omega arith;
    states_exact = λ st. ground arith;
  };
}
