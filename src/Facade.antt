-- ===== src/Facade.antt =====
-- The typed front end: src/ChannelBase.cpp, and include/pipert/Channel.h, PolledChannel.h,
-- PacketStub.h, PacketToFill.h and PacketToProcess.h. An `impl_` is a channel of the pipeline; the
-- data that a packet carries is left aside. `none` is a failed `assert`, or a null `impl_` that one
-- rules out.
pub mod Producing
pub mod Consuming
pub mod Refusing
mod Reading
use pipert.Base.{ℕ, Bool, true, false, Option, none, some, not, ◌>>=◌, ◌>>◌, assert}
use pipert.Timer.{Time}
use pipert.Channel.{ChannelImpl, set_base, set_timestamp}
use pipert.Pipeline.{Pipeline, put_channel, acquire, push, get_next, release_packet}

pub record ChannelBase : Type 0 where
  pub impl : Option ℕ

-- The constructor of the object at the address `this`.
unfoldable pub channel_base : Pipeline → ℕ → ℕ → ChannelBase × Pipeline
unfolding set_base
channel_base p c this = (record { impl = some c }, put_channel p c (set_base (p.channel c) this))

-- `move` into the object at the address `this`; then what is left of the other one.
unfoldable pub move_channel :
    Pipeline → ℕ → ChannelBase → Option (ChannelBase × ChannelBase × Pipeline)
unfolding set_base
move_channel p this o = do
  c ← o.impl
  some (
    record { impl = some c },
    record { impl = none },
    put_channel p c (set_base (p.channel c) this),
  )

-- `AcquireBase`, `PushBase`, `GetNext`, `ReleaseBase`
acquire_base : Pipeline → ChannelBase → Time → Option (Option ℕ × Pipeline)
acquire_base p b now = do c ← b.impl; acquire p c now

push_base : Pipeline → ChannelBase → ℕ → Time → Option Pipeline
push_base p b packet now = do c ← b.impl; push p c packet now

next_base : Pipeline → ChannelBase → Time → Option (Option ℕ × Pipeline)
next_base p b now = do c ← b.impl; get_next p c now false

unfoldable pub release_base : Pipeline → ChannelBase → ℕ → Time → Option Pipeline
release_base p b packet now = do c ← b.impl; release_packet p c packet now false

pub record PacketStub : Type 0 where
  pub channel : ChannelBase
  pub packet : Option ℕ

abbrev no_packet : Option ℕ → Bool
no_packet none = true
no_packet (some packet) = false

-- `IsEmpty`
abbrev pub stub_empty : PacketStub → Bool
stub_empty s = no_packet s.packet

-- `SetEmpty`
abbrev set_empty : PacketStub → PacketStub
set_empty s = record s { packet = none }

-- `move`: this stub, and what is left of the other one.
unfoldable pub move_stub : PacketStub → PacketStub × PacketStub
move_stub o = (o, set_empty o)

construct_packet : Pipeline → ChannelBase → Time → Option ℕ → Option Pipeline
unfolding set_timestamp
construct_packet p b timestamp none = some p
construct_packet p b timestamp (some packet) = do
  c ← b.impl
  some (put_channel p c (set_timestamp (p.channel c) packet timestamp))

-- `Channel::Acquire`
unfoldable pub acquire_stub : Pipeline → ChannelBase → Time → Time → Option (PacketStub × Pipeline)
unfolding acquire_base construct_packet
acquire_stub p b timestamp now = do
  (packet, p') ← acquire_base p b now
  p'' ← construct_packet p' b timestamp packet
  some (record { channel = b; packet = packet }, p'')

-- `Channel::Push`, which `PacketToFill::Push` calls
unfoldable pub push_stub : Pipeline → PacketStub → Time → Option (PacketStub × Pipeline)
unfolding push_base
push_stub p s now = do
  packet ← s.packet
  p' ← push_base p s.channel packet now
  some (set_empty s, p')

-- `~PacketToFill`
unfoldable pub destroy_to_fill : Pipeline → PacketStub → Time → Option Pipeline
unfolding push_stub
destroy_to_fill p s now = elim s.packet [
  | none ↦ some p
  | some packet ↦ (push_stub p s now >>= λ (s', p'). assert (stub_empty s') >> some p')
]

-- `Channel::Release`, which `PacketToProcess::Release` calls
unfoldable pub release_stub : Pipeline → PacketStub → Time → Option (PacketStub × Pipeline)
unfolding release_base
release_stub p s now = do
  packet ← s.packet
  p' ← release_base p s.channel packet now
  some (set_empty s, p')

-- `~PacketToProcess`
unfoldable pub destroy_to_process : Pipeline → PacketStub → Time → Option Pipeline
unfolding release_stub
destroy_to_process p s now = elim s.packet [
  | none ↦ some p
  | some packet ↦ (release_stub p s now >>= λ (s', p'). assert (stub_empty s') >> some p')
]

-- `PolledChannel::Poll`
unfoldable pub poll : Pipeline → ChannelBase → Time → Option (PacketStub × Pipeline)
unfolding next_base
poll p b now = do
  (packet, p') ← next_base p b now
  some (record { channel = b; packet = packet }, p')
