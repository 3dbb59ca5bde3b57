-- ===== src/UdpConnection.antt =====
-- include/pipert/UDPConnection.h and src/UDPConnection.cpp. The operating system is not code of the
-- repository: it is an interface over a state `W` of the world. A descriptor `none` is -1, as is a
-- result `none`; a buffer is the list of its bytes. An `Option` around a result tells whether all
-- `assert`s held.
pub mod Replying
pub mod Blocking
pub mod Detecting
pub mod Wire
mod Tests
use pipert.Base.{
  ℕ, zero, suc, ◌+◌, ◌-◌, ◌*◌, ◌/◌, ◌%◌, Bool, true, false, List, Option, none, some, leb, ltb,
  ◌==◌, if◌then◌else◌, not, ◌&&◌, ◌||◌, ◌>>=◌, ◌>>◌, assert, length,
}

-- `sockaddr_in`
pub record Address : Type 0 where
  pub sin_port : ℕ
  pub sin_addr : ℕ

-- What is written by `memset` with zeros.
abbrev no_address : Address
no_address = record { sin_port = 0; sin_addr = 0 }

abbrev at_port : ℕ → ℕ → Address
at_port sin_addr sin_port = record { sin_port = sin_port; sin_addr = sin_addr }

pub record OperatingSystem {ℓ} (W : Type ℓ) : Type ℓ where
  pub socket : W → Option ℕ × W
  pub inet_aton : List ℕ → Option ℕ
  pub htons : ℕ → ℕ
  pub any_address : ℕ  -- `INADDR_ANY`
  pub bind : ℕ → Address → W → Bool × W
  pub forbid_fragments : ℕ → W → W  -- `setsockopt` with `IP_PMTUDISC_DO`
  pub close : ℕ → W → W
  pub nonblock : ℕ  -- `O_NONBLOCK`, a power of 2
  pub get_flags : ℕ → W → ℕ
  pub set_flags : ℕ → ℕ → W → Option ℕ × W
  pub sendto : ℕ → List ℕ → Address → W → W
  pub poll : ℕ → ℕ → W → Option ℕ × W
  -- The bytes, at most as many as are asked for, and the address, which is overwritten.
  pub recvfrom : ℕ → ℕ → Address → W → Option (List ℕ) × Address × W

pub record UdpConnection : Type 0 where
  pub socket_filedesc : Option ℕ
  pub max_packet_size : ℕ
  pub polling_timeout : ℕ
  pub local_address : Address
  pub remote_address : Address

-- `IsConnected`
abbrev pub is_connected : UdpConnection → Bool
is_connected c = elim c.socket_filedesc [ none ↦ false | some fd ↦ true ]

-- A port is converted to `std::uint16_t`.
abbrev to_uint16 : ℕ → ℕ
to_uint16 port = port % 65536

-- The tests and changes of the bit `b` of some flags.
abbrev pub has_flag : ℕ → ℕ → Bool
has_flag b flags = (flags / b) % 2 == 1

abbrev with_flag : ℕ → ℕ → ℕ
with_flag b flags = if has_flag b flags then flags else flags + b

abbrev flip_flag : ℕ → ℕ → ℕ
flip_flag b flags = if has_flag b flags then flags - b else flags + b

module _ {ℓ} {W : Type ℓ} (os : OperatingSystem W) where
  -- The constructor with a remote address
  unfoldable pub udp_connection_to : ℕ → List ℕ → ℕ → ℕ → W → Option (UdpConnection × W)
  udp_connection_to remote_port remote_address max_packet_size polling_timeout w = do
    let (opened, w') = os.socket w
    fd ← opened
    sin_addr ← os.inet_aton remote_address
    some (
      record {
        socket_filedesc = some fd;
        max_packet_size = max_packet_size;
        polling_timeout = polling_timeout;
        local_address = no_address;
        remote_address = at_port sin_addr (os.htons (to_uint16 remote_port));
      },
      os.forbid_fragments fd w',
    )

  -- The constructor with a port to bind
  unfoldable pub udp_connection_at : ℕ → ℕ → ℕ → W → Option (UdpConnection × W)
  udp_connection_at binding_port max_packet_size polling_timeout w = do
    let (opened, w') = os.socket w
    fd ← opened
    let address = at_port os.any_address (os.htons (to_uint16 binding_port))
    let (ok, w'') = os.bind fd address w'
    assert ok
    some (
      record {
        socket_filedesc = some fd;
        max_packet_size = max_packet_size;
        polling_timeout = polling_timeout;
        local_address = address;
        remote_address = no_address;
      },
      os.forbid_fragments fd w'',
    )

  -- The destructor
  unfoldable pub destroy : UdpConnection → W → W
  destroy c w = elim c.socket_filedesc [ none ↦ w | some fd ↦ os.close fd w ]

  -- `SetBlockingMode`; `fcntl` gives -1, with all bits set, for the descriptor -1.
  unfoldable pub set_blocking_mode : UdpConnection → Bool → W → Option ℕ × W
  set_blocking_mode c is_blocking w = elim c.socket_filedesc [
    | none ↦ if is_blocking then (none, w) else (some 0, w)
    | some fd ↦
        let flags = os.get_flags fd w in
        let nonblocking = has_flag os.nonblock flags in
        if (nonblocking && not is_blocking) || (not nonblocking && is_blocking)
        then (some 0, w)
        else os.set_flags fd
            (if is_blocking then flip_flag os.nonblock flags else with_flag os.nonblock flags) w
  ]

  -- `Send`
  unfoldable pub send : UdpConnection → List ℕ → W → Option W
  send c buffer w = do
    assert (ltb 0 (length buffer) && leb (length buffer) c.max_packet_size)
    some (elim c.socket_filedesc [ none ↦ w | some fd ↦ os.sendto fd buffer c.remote_address w ])

  -- `Poll`
  unfoldable pub poll : UdpConnection → W → Option ℕ × W
  poll c w = elim c.socket_filedesc [ none ↦ (none, w) | some fd ↦ os.poll fd c.polling_timeout w ]

  -- `Receive`, the bytes that it writes to the buffer
  unfoldable pub receive : UdpConnection → ℕ → W → Option (Option (List ℕ) × UdpConnection × W)
  receive c size w = do
    assert (ltb 0 size && leb size c.max_packet_size)
    some (elim c.socket_filedesc [
      | none ↦ (none, c, w)
      | some fd ↦
          let (bytes, sender, w') = os.recvfrom fd size c.remote_address w in
          (bytes, record c { remote_address = sender }, w')
    ])

-- The loop of `DetectMaxPacketSize`; `ping` tells whether packets of a size pass. `none` is a loop that
-- is still running.
unfoldable pub detect_loop : ℕ → (ℕ → Bool) → ℕ → Option ℕ
detect_loop zero ping size = none
detect_loop (suc fuel) ping size =
    let later = detect_loop fuel ping (size * 2) in if ping size then later else some size

-- `DetectMaxPacketSize`
unfoldable pub detect_max_packet_size : ℕ → (ℕ → Bool) → UdpConnection → Option UdpConnection
unfolding detect_loop
detect_max_packet_size fuel ping c = do
  size ← detect_loop fuel ping 512
  some (record c { max_packet_size = size })
