-- ===== src/ProfileData/Example.antt =====
-- A channel of the name 5 with the event types 1 and 2, for tests.
use pipert.Base.{ℕ, refl, List, [], ◌∷◌}
use pipert.Endianness.Host.{load, store, store-load, length-store}
use pipert.ProfileData.{Memory, ProfileData}

abbrev pub little_endian : Memory ℕ
little_endian = record {
  load = load;
  store = store;
  bits = λ a. a;
  length-store = length-store;
  store-load = store-load;
  load-zeros = refl;
}

-- Every name is "T".
abbrev pub names : ℕ → List ℕ
names n = 84 ∷ []

-- Two events of the type 1 and none of the type 2, and three packets of the thread 9.
abbrev pub channel_data : ProfileData ℕ
channel_data = record {
  data_group_name = 5;
  passed =
      (1, record { log_count = 2; aggregation_started = 10; min = 90; max = 110; sum = 150 })
      ∷ (2, record { log_count = 0; aggregation_started = 10; min = 200; max = 101; sum = 100 })
      ∷ [];
  pending = [];
  sender_logger = record {
    track_event = 1;
    senders = record { sender_name = 9; sent_packets = 3 } ∷ [];
  };
}

abbrev pub read_at : ℕ → ℕ
read_at name = 30
