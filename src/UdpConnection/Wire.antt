-- ===== src/UdpConnection/Wire.antt =====
-- A small operating system, for tests: one descriptor, and the messages that wait on it.
use pipert.Base.{ℕ, true, List, [], ◌∷◌, Option, none, some, is_empty, if◌then◌else◌}
use pipert.UdpConnection.{Address, OperatingSystem, UdpConnection}

pub record Message : Type 0 where
  pub bytes : List ℕ
  pub address : Address

-- What waits, what was sent, the latest first, and the flags of the descriptor.
pub record Wire : Type 0 where
  pub waiting : List Message
  pub sent : List Message
  pub flags : ℕ

abbrev pub empty_wire : Wire
empty_wire = record { waiting = []; sent = []; flags = 2050 }

abbrev take_message : List Message → Address → Wire → Option (List ℕ) × Address × Wire
take_message [] a w = (none, a, w)
take_message (m ∷ ms) a w = (some m.bytes, m.address, record w { waiting = ms })

abbrev pub wire_system : OperatingSystem Wire
wire_system = record {
  socket = λ w. (some 3, w);
  inet_aton = λ text. some 77;
  htons = λ port. port;
  any_address = 0;
  bind = λ fd a w. (true, w);
  forbid_fragments = λ fd w. w;
  close = λ fd w. w;
  nonblock = 2048;
  get_flags = λ fd w. w.flags;
  set_flags = λ fd flags w. (some 0, record w { flags = flags });
  sendto = λ fd buffer a w. record w { sent = record { bytes = buffer; address = a } ∷ w.sent };
  poll = λ fd timeout w. if is_empty w.waiting then (some 0, w) else (some 1, w);
  recvfrom = λ fd size a w. take_message w.waiting a w;
}

abbrev pub here : Address
here = record { sin_port = 5000; sin_addr = 1 }

abbrev pub there : Address
there = record { sin_port = 6000; sin_addr = 2 }

abbrev pub connection_to : Address → UdpConnection
connection_to a = record {
  socket_filedesc = some 3;
  max_packet_size = 508;
  polling_timeout = 1000;
  local_address = here;
  remote_address = a;
}
