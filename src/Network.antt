-- ===== src/Network.antt =====
-- Channels across computers, and the scheduler in front of them: include/pipert/Receiver.h,
-- SenderChannel.h, ScheduledChannel.h and Scheduler.h, and src/Scheduler.cpp. Receivers are known by
-- their addresses. The bytes of a NetworkPacket are a parameter, as the data that it carries is left
-- aside. `none` is a failed `assert`.
pub mod Starting
pub mod Stopping
pub mod Receiving
mod Tests
use pipert.Base.{
  ℕ, suc, ◌+◌, ◌-◌, Bool, true, false, List, [], ◌∷◌, Option, none, some, ltb, ◌==◌, if◌then◌else◌,
  not, ◌>>=◌, ◌>>◌, assert,
}
use pipert.Timer.{Time}
use pipert.Channel.{ChannelImpl, new_channel}
use pipert.Scheduler.{SchedulerImpl}
use pipert.Scheduler.Registering as Impl
use pipert.Pipeline.{Pipeline}
use pipert.Pipeline.Starting.{new_pipeline, create_channel}
use pipert.Facade.{ChannelBase, PacketStub, channel_base, acquire_stub, destroy_to_fill}
use pipert.UdpConnection.{OperatingSystem, UdpConnection, send, receive, poll, set_blocking_mode}
use pipert.Protocol.{CompatibilityChecker, Layout, sender_side_handshake, receiver_side_handshake}
use pipert.ProfilerImpl.{ProfilerImpl}
use pipert.ProfilerImpl as Gatherer
use pipert.Profiler.{Profiler, no_profiler}

pub record Receiver : Type 0 where
  pub connection : UdpConnection
  pub ch_to_write : ChannelBase
  pub running : Bool
  pub thread_joinable : Bool

-- `Receiver::Start` and `Receiver::Stop`
unfoldable pub start_receiver : Receiver → Option Receiver
start_receiver r = do
  assert (not r.running)
  some (record r { running = true; thread_joinable = true })

unfoldable pub stop_receiver : Receiver → Option Receiver
stop_receiver r = do assert r.running; some (record r { running = false; thread_joinable = false })

-- The scheduler, with the channels of its implementation and all receivers.
pub record Scheduler : Type 0 where
  pub impl : Option Pipeline
  pub profiler : Profiler
  pub receiver : ℕ → Receiver

abbrev has_impl : Profiler → Bool
has_impl p = elim p.impl [ none ↦ false | some impl ↦ true ]

-- The constructor; 0 workers stand for any number that is not positive. `hardware_concurrency` is that
-- of the standard library, and `receiver` has what is at the addresses of receivers.
unfoldable pub scheduler : ℕ → ℕ → Profiler → (ℕ → Receiver) → Option Scheduler
unfolding new_pipeline
scheduler workers hardware_concurrency profiler receiver = do
  p ← new_pipeline (if workers == 0 then hardware_concurrency else workers) (has_impl profiler)
  some (record { impl = some p; profiler = profiler; receiver = receiver })

-- `profiler_->Start()` and `profiler_->Stop()`, if there is one
start_profiler : Profiler → Option Profiler
unfolding Gatherer.start
start_profiler f = elim f.impl [
  | none ↦ some f
  | some impl ↦ (Gatherer.start impl >>= λ impl'. some (record f { impl = some impl' }))
]

stop_profiler : Profiler → Option Profiler
unfolding Gatherer.stop
stop_profiler f = elim f.impl [
  | none ↦ some f
  | some impl ↦ (Gatherer.stop impl >>= λ impl'. some (record f { impl = some impl' }))
]

-- The loops over `receivers_`
each_receiver : (Receiver → Option Receiver) → List ℕ → (ℕ → Receiver) → Option (ℕ → Receiver)
each_receiver f [] receiver = some receiver
each_receiver f (x ∷ xs) receiver = do
  r ← f (receiver x)
  each_receiver f xs (λ y. if y == x then r else receiver y)

-- `Start`, but for the workers: the scheduler, its profiler and its receivers.
unfoldable pub start : Scheduler → Option Scheduler
unfolding Impl.start start_profiler each_receiver start_receiver
start s = do
  p ← s.impl
  d ← Impl.start p.scheduler
  f ← start_profiler s.profiler
  receiver ← each_receiver start_receiver d.receivers s.receiver
  some (record s { impl = some (record p { scheduler = d }); profiler = f; receiver = receiver })

-- `Stop`, once the workers have ended.
unfoldable pub stop : Scheduler → Option Scheduler
unfolding Impl.stop stop_profiler each_receiver stop_receiver
stop s = do
  p ← s.impl
  d ← Impl.stop p.scheduler
  f ← stop_profiler s.profiler
  receiver ← each_receiver stop_receiver d.receivers s.receiver
  some (record s { impl = some (record p { scheduler = d }); profiler = f; receiver = receiver })

-- `SetStateInvalid`, `AddReceiver`, `IsRunning`, `GetWorkerNumber`, `GetProfiler`
unfoldable pub set_state_invalid : Scheduler → Option Scheduler
unfolding Impl.set_state_invalid
set_state_invalid s = do
  p ← s.impl
  d ← Impl.set_state_invalid p.scheduler
  some (record s { impl = some (record p { scheduler = d }) })

unfoldable pub add_receiver : Scheduler → ℕ → Option Scheduler
unfolding Impl.add_receiver
add_receiver s receiver = do
  p ← s.impl
  d ← Impl.add_receiver p.scheduler receiver
  some (record s { impl = some (record p { scheduler = d }) })

pub is_running : Scheduler → Option Bool
is_running s = do p ← s.impl; some p.scheduler.running

pub get_worker_number : Scheduler → Option ℕ
get_worker_number s = do p ← s.impl; some p.scheduler.workers_number

pub get_profiler : Scheduler → Profiler
get_profiler s = s.profiler

-- The members of a new Receiver, whose `running_` no constructor sets and is taken to be false, and
-- the store of receivers.
abbrev pub new_receiver : UdpConnection → ChannelBase → Receiver
new_receiver connection ch_to_write = record {
  connection = connection;
  ch_to_write = ch_to_write;
  running = false;
  thread_joinable = false;
}

abbrev pub put_receiver : Scheduler → ℕ → Receiver → Scheduler
put_receiver s x r = record s { receiver = λ y. if y == x then r else s.receiver y }

-- `CreateChannelImpl` at the address `c`, and the constructor of the channel object at `this`. The
-- object 0 is the null pointer.
unfoldable pub create_channel_impl :
    Scheduler → ℕ → ChannelImpl → ℕ → Option (ChannelBase × Scheduler)
unfolding create_channel channel_base
create_channel_impl s c ch this = do
  p ← s.impl
  p' ← create_channel p c ch
  let (b, p'') = channel_base p' c this
  some (b, record s { impl = some p'' })

-- `CreatePolledChannel`; `packet_size` is `sizeof(Packet<T>)`
unfoldable pub create_polled_channel :
    Scheduler → List ℕ → ℕ → ℕ → ℕ → ℕ → Option (ChannelBase × Scheduler)
unfolding create_channel_impl new_channel
create_polled_channel s name capacity packet_size c this =
    create_channel_impl s c (new_channel name capacity packet_size 0 false) this

-- `CreateScheduledChannel`
unfoldable pub create_scheduled_channel :
    Scheduler → List ℕ → ℕ → ℕ → ℕ → ℕ → ℕ → Option (ChannelBase × Scheduler)
unfolding create_channel_impl new_channel
create_scheduled_channel s name capacity packet_size single_thread_object c this =
    create_channel_impl s c (new_channel name capacity packet_size single_thread_object true) this

-- `ScheduledChannel::CallbackTranslator`: what the callback of the channel gets.
unfoldable pub callback_translator : ChannelBase → Option ℕ → PacketStub
callback_translator this_channel packet = record { channel = this_channel; packet = packet }

module _ {ℓ} {W : Type ℓ} (os : OperatingSystem W) (L : Layout) where
  -- `CreateSenderChannel`. `buffer` is the uninitialised array of the handshake.
  unfoldable pub create_sender_channel :
      Scheduler
      → List ℕ
      → ℕ
      → ℕ
      → ℕ
      → ℕ
      → UdpConnection
      → CompatibilityChecker
      → List ℕ
      → W
      → Option (ChannelBase × UdpConnection × Scheduler × W)
  unfolding set_blocking_mode sender_side_handshake set_state_invalid create_channel_impl
      new_channel
  create_sender_channel s name capacity packet_size c this connection local buffer w = do
    let w' = (set_blocking_mode os connection false w).1
    (success, connection', w'') ← sender_side_handshake os L connection local buffer w'
    s' ← (if success then some s else set_state_invalid s)
    (b, s'') ← create_channel_impl s' c (new_channel name capacity packet_size 0 true) this
    some (b, connection', s'', w'')

  -- The constructor of Receiver at the address `this`. `buffer` is the uninitialised struct of the
  -- handshake.
  unfoldable pub receiver :
      Scheduler
      → ℕ
      → UdpConnection
      → ChannelBase
      → CompatibilityChecker
      → List ℕ
      → W
      → Option (Scheduler × W)
  unfolding receiver_side_handshake add_receiver set_state_invalid
  receiver s this connection ch_to_write local buffer w = do
    (success, connection', w') ← receiver_side_handshake os L connection local buffer w
    let made = put_receiver s this (new_receiver connection' ch_to_write)
    s' ← (if success then add_receiver made this else set_state_invalid made)
    some (s', w')

-- `SenderChannel::SendPacket`, for a packet with this time stamp; `image_of` gives the bytes.
unfoldable pub send_packet {ℓ} :
    {W : Type ℓ} → OperatingSystem W → (Time → ℕ → List ℕ) → UdpConnection → Time → ℕ → W → Option W
unfolding send
send_packet os image_of connection timestamp packet w =
    send os connection (image_of timestamp packet) w

-- A poll that gives a positive number.
abbrev pub is_positive : Option ℕ → Bool
is_positive none = false
is_positive (some n) = ltb 0 n

module _ {ℓ} {W : Type ℓ} (os : OperatingSystem W) (size : ℕ) (timestamp_of : List ℕ → Time) where
  -- The branch of the loop of `ReceivePacket`. `before` has the bytes of the struct that is read into,
  -- which keeps them if nothing is received; the PacketToFill ends with the statement that makes it.
  unfoldable pub receive_one :
      Receiver → Pipeline → List ℕ → Time → Time → W → Option (Receiver × Pipeline × W)
  unfolding receive acquire_stub destroy_to_fill
  receive_one r p before acquired pushed w = do
    (bytes, connection, w') ← receive os r.connection size w
    (s, p') ←
        acquire_stub p r.ch_to_write (timestamp_of (elim bytes [ none ↦ before | some bs ↦ bs ]))
          acquired
    p'' ← destroy_to_fill p' s pushed
    some (record r { connection = connection }, p'', w')

  -- One turn of the loop of `ReceivePacket`
  unfoldable pub receive_packet :
      Receiver → Pipeline → List ℕ → Time → Time → W → Option (Receiver × Pipeline × W)
  unfolding poll receive_one
  receive_packet r p before acquired pushed w =
      let polled = poll os r.connection w in
      if is_positive polled.0
      then receive_one r p before acquired pushed polled.1
      else some (r, p, polled.1)
