-- ===== src/Profiler.antt =====
-- include/pipert/Profiler.h and src/Profiler.cpp: where the statistics go. A text is the list of its
-- characters without the zero. The files of the operating system are an interface, as its sockets are.
-- `none` is a failed `assert`.
pub mod Destination
pub mod Delivering
pub mod Example
mod Tests
use pipert.Base.{
  ℕ, zero, suc, ◌+◌, ◌-◌, ◌*◌, ◌%◌, Bool, true, false, List, [], ◌∷◌, Option, none, some, ltb, leb,
  ◌==◌, ◌&&◌, ◌||◌, if◌then◌else◌, not, is_empty, ◌>>=◌, ◌>>◌, assert, length,
}
use pipert.Timer.{Time}
use pipert.UdpConnection.{
  OperatingSystem, UdpConnection, is_connected, udp_connection_to, send, destroy,
}
use pipert.LogAggregate.{Doubles}
use pipert.ProfileData.{Memory, ProfileData}
use pipert.ProfilerImpl.{ProfilerImpl, profiler_impl}
use pipert.ProfilerImpl as Impl

pub record FileSystem {ℓ} (W : Type ℓ) : Type ℓ where
  pub fopen : List ℕ → W → Option ℕ × W
  pub fclose : ℕ → W → W
  pub fwrite : ℕ → List ℕ → W → ℕ × W

pub record Profiler : Type 0 where
  pub impl : Option ProfilerImpl
  pub destination_file : Option ℕ
  pub udp_connection : Option UdpConnection

abbrev pub no_profiler : Profiler
no_profiler = record { impl = none; destination_file = none; udp_connection = none }

-- `kDestinationUDPScheme` and `kDestinationFileScheme`, "udp:" and "file:"
abbrev pub destination_udp_scheme : List ℕ
destination_udp_scheme = 117 ∷ 100 ∷ 112 ∷ 58 ∷ []

abbrev pub destination_file_scheme : List ℕ
destination_file_scheme = 102 ∷ 105 ∷ 108 ∷ 101 ∷ 58 ∷ []

-- What follows `scheme` where `strstr` finds it at the beginning.
unfoldable pub after_scheme : List ℕ → List ℕ → Option (List ℕ)
after_scheme [] uri = some uri
after_scheme (c ∷ cs) [] = none
after_scheme (c ∷ cs) (x ∷ xs) = let rest = after_scheme cs xs in if c == x then rest else none

-- The characters before the first ":" that `strstr` finds, and those after it.
unfoldable pub at_separator : List ℕ → Option (List ℕ × List ℕ)
at_separator [] = none
at_separator (x ∷ xs) =
    let rest = at_separator xs in
    if x == 58 then some ([], xs) else (rest >>= λ (address, port). some (x ∷ address, port))

-- `atoi`: white space, a sign and the digits, as an `int`, that is, as the number with its 32 bits.
abbrev is_digit : ℕ → Bool
is_digit c = leb 48 c && leb c 57

digits : ℕ → List ℕ → ℕ
digits n [] = n
digits n (c ∷ cs) = let rest = digits (n * 10 + (c - 48)) cs in if is_digit c then rest else n

signed_digits : List ℕ → ℕ
unfolding digits
signed_digits [] = 0
signed_digits (c ∷ cs) =
    if c == 45
    then (4294967296 - digits 0 cs % 4294967296) % 4294967296
    else if c == 43
    then digits 0 cs % 4294967296
    else digits 0 (c ∷ cs) % 4294967296

unfoldable pub atoi : List ℕ → ℕ
unfolding signed_digits
atoi [] = 0
atoi (c ∷ cs) =
    let rest = atoi cs in if c == 32 || (leb 9 c && leb c 13) then rest else signed_digits (c ∷ cs)

module _ {ℓ} {W : Type ℓ} (os : OperatingSystem W) (fs : FileSystem W) where
  -- The branch of the constructor for "udp:"
  unfoldable pub udp_destination : List ℕ → ℕ → ℕ → W → Option (Profiler × W)
  unfolding at_separator atoi udp_connection_to profiler_impl
  udp_destination address aggregation_time_msec buffer_size w = do
    assert (not (is_empty address))
    (addr, port) ← at_separator address
    assert (not (is_empty addr))
    assert (not (is_empty port))
    assert (not (atoi port == 0))
    assert (ltb (length addr) 16)
    (connection, w') ← udp_connection_to os (atoi port) addr 508 1000 w
    assert (is_connected connection)
    impl ← profiler_impl (if buffer_size == 0 then 508 else buffer_size) aggregation_time_msec
    some (record no_profiler { impl = some impl; udp_connection = some connection }, w')

  -- The branch for "file:"
  unfoldable pub file_destination : List ℕ → ℕ → ℕ → W → Option (Profiler × W)
  unfolding profiler_impl
  file_destination filename aggregation_time_msec buffer_size w = do
    assert (not (is_empty filename))
    let (opened, w') = fs.fopen filename w
    file ← opened
    impl ← profiler_impl (if buffer_size == 0 then 4096 else buffer_size) aggregation_time_msec
    some (record no_profiler { impl = some impl; destination_file = some file }, w')

  -- The constructor
  unfoldable pub profiler : List ℕ → ℕ → ℕ → W → Option (Profiler × W)
  unfolding after_scheme udp_destination file_destination
  profiler destination_uri aggregation_time_msec buffer_size w =
      elim (after_scheme destination_udp_scheme destination_uri) [
        | some address ↦ udp_destination address aggregation_time_msec buffer_size w
        | none ↦ elim (after_scheme destination_file_scheme destination_uri) [
          | some filename ↦ file_destination filename aggregation_time_msec buffer_size w
          | none ↦ some (no_profiler, w)
        ]
      ]

  close_file : Option ℕ → W → W
  close_file none w = w
  close_file (some file) w = fs.fclose file w

  close_connection : Option UdpConnection → W → W
  unfolding destroy
  close_connection none w = w
  close_connection (some connection) w = destroy os connection w

  -- The destructor, in its order.
  unfoldable pub destroy_profiler : Profiler → W → Option W
  unfolding close_file close_connection Impl.destroy
  destroy_profiler p w =
      let closed = close_connection p.udp_connection (close_file p.destination_file w) in
      elim p.impl [
        | none ↦ some closed
        | some impl ↦ (Impl.destroy impl >>= λ stopped. some closed)
      ]

  -- `SendToUDP`, `SendToFile`
  send_to_udp : UdpConnection → List ℕ → W → Option W
  unfolding send
  send_to_udp connection buffer w = do assert (ltb 0 (length buffer)); send os connection buffer w

  send_to_file : ℕ → List ℕ → W → Option W
  send_to_file file buffer w = do
    assert (ltb 0 (length buffer))
    let (written, w') = fs.fwrite file buffer w
    assert (written == length buffer)
    some w'

  -- The callback that the constructor binds.
  unfoldable pub send_buffer : Profiler → List ℕ → W → Option W
  unfolding send_to_udp send_to_file
  send_buffer p buffer w = elim p.udp_connection [
    | some connection ↦ send_to_udp connection buffer w
    | none ↦ elim p.destination_file [ some file ↦ send_to_file file buffer w | none ↦ none ]
  ]

  unfoldable pub send_buffers : Profiler → List (List ℕ) → W → Option W
  unfolding send_buffer
  send_buffers p [] w = some w
  send_buffers p (buffer ∷ buffers) w = do w' ← send_buffer p buffer w; send_buffers p buffers w'

-- `Move`: this profiler, and what is left of the other one.
unfoldable pub move_profiler : Profiler → Profiler × Profiler
move_profiler o = (o, no_profiler)

-- `GetAggregationTime`, `GetBufferSize`
abbrev pub get_aggregation_time : Profiler → ℕ
get_aggregation_time p = elim p.impl [ none ↦ 0 | some impl ↦ impl.aggregation_time_msec ]

abbrev pub get_buffer_size : Profiler → ℕ
get_buffer_size p = elim p.impl [ none ↦ 0 | some impl ↦ impl.buffer_size ]

module _ {ℓ κ} {A : Type ℓ} {W : Type κ} (D : Doubles A) (M : Memory A) (string_at : ℕ → List ℕ)
    (os : OperatingSystem W) (fs : FileSystem W) where
  -- `GatherNSend`. Each buffer goes to the callback before the next is filled, which it does not touch.
  unfoldable pub gather_n_send :
      (ℕ → ℕ → Time)
      → Profiler
      → (ℕ → ProfileData A)
      → W
      → Option (Profiler × (ℕ → ProfileData A) × W)
  unfolding Impl.gather_n_send send_buffers
  gather_n_send now p store w = elim p.impl [
    | none ↦ some (p, store, w)
    | some impl ↦ do
      (buffers, impl', store') ← Impl.gather_n_send D M string_at now impl store
      w' ← send_buffers os fs p buffers w
      some (record p { impl = some impl' }, store', w')
  ]
