-- ===== src/Typed.antt =====
-- Packets with their data: include/pipert/Packet.h, and what include/pipert/Channel.h, PacketStub.h,
-- PacketToFill.h and PacketToProcess.h do with it. `T` stands for the types of the data of all
-- channels. `none` is a failed `assert`.
pub mod Messages
pub mod Producing
pub mod Consuming
mod Tests
use pipert.Base.{
  ℕ, ◌+◌, Bool, Option, none, some, if◌then◌else◌, ◌==◌, ◌&&◌, not, ◌>>=◌, ◌>>◌, assert,
}
use pipert.Timer.{Time}
use pipert.Channel.{stamp}
use pipert.Pipeline.{Pipeline}
use pipert.Facade.{
  ChannelBase, PacketStub, stub_empty, acquire_stub, destroy_to_fill, release_stub, poll,
}

-- `contents` has the `data_` of the Packet objects that have been constructed and not destroyed, by
-- channel and address; the numbers count, for each channel, the calls of the constructor and of the
-- destructor of Packet.
pub record Typed {ℓ} (T : Type ℓ) : Type ℓ where
  pub pipeline : Pipeline
  pub contents : ℕ → ℕ → Option T
  pub constructed : ℕ → ℕ
  pub destroyed : ℕ → ℕ

abbrev pub put_at {ℓ} : {A : Type ℓ} → (ℕ → ℕ → A) → ℕ → ℕ → A → ℕ → ℕ → A
put_at m c x a y z = if y == c && (z == x) then a else m y z

abbrev pub add_one : (ℕ → ℕ) → ℕ → ℕ → ℕ
add_one f c y = if y == c then f y + 1 else f y

module _ {ℓ} {T : Type ℓ} where
  -- `new(new_packet) Packet<T>(...)` if there is a packet
  pub construct_data : Typed T → ℕ → T → Option ℕ → Typed T
  construct_data ty c d none = ty
  construct_data ty c d (some packet) = record ty {
    contents = put_at ty.contents c packet (some d);
    constructed = add_one ty.constructed c;
  }

  -- `packet->~Packet()`
  unfoldable pub destroy_data : Typed T → ℕ → ℕ → Typed T
  destroy_data ty c packet = record ty {
    contents = put_at ty.contents c packet none;
    destroyed = add_one ty.destroyed c;
  }

  -- `Channel::Acquire`, where `d` is what the arguments of the constructor make.
  unfoldable pub make_to_fill :
      Typed T → ChannelBase → Time → T → Time → Option (PacketStub × Typed T)
  unfolding acquire_stub construct_data
  make_to_fill ty b timestamp d now = do
    (s, p) ← acquire_stub ty.pipeline b timestamp now
    c ← b.impl
    some (s, construct_data (record ty { pipeline = p }) c d s.packet)

  -- `~PacketToFill`
  unfoldable pub end_to_fill : Typed T → PacketStub → Time → Option (Typed T)
  unfolding destroy_to_fill
  end_to_fill ty s now = do p ← destroy_to_fill ty.pipeline s now; some (record ty { pipeline = p })

  -- `PolledChannel::Poll`
  unfoldable pub make_to_process : Typed T → ChannelBase → Time → Option (PacketStub × Typed T)
  unfolding poll
  make_to_process ty b now = do
    (s, p) ← poll ty.pipeline b now
    some (s, record ty { pipeline = p })

  -- `Channel::Release`
  release_data : Typed T → PacketStub → Time → Option (PacketStub × Typed T)
  unfolding release_stub destroy_data
  release_data ty s now = do
    packet ← s.packet
    c ← s.channel.impl
    (s', p) ← release_stub ty.pipeline s now
    some (s', record (destroy_data ty c packet) { pipeline = p })

  -- `~PacketToProcess`
  unfoldable pub end_to_process : Typed T → PacketStub → Time → Option (Typed T)
  unfolding release_data
  end_to_process ty s now = elim s.packet [
    | none ↦ some ty
    | some packet ↦ (release_data ty s now >>= λ (s', ty'). assert (stub_empty s') >> some ty')
  ]

  -- `timestamp` and `data` of a stub, and an assignment through `data`
  unfoldable pub stub_timestamp : Typed T → PacketStub → Option Time
  stub_timestamp ty s = do
    packet ← s.packet
    c ← s.channel.impl
    some (stamp (ty.pipeline.channel c) packet)

  unfoldable pub stub_data : Typed T → PacketStub → Option T
  stub_data ty s = do packet ← s.packet; c ← s.channel.impl; ty.contents c packet

  unfoldable pub set_stub_data : Typed T → PacketStub → T → Option (Typed T)
  set_stub_data ty s d = do
    packet ← s.packet
    c ← s.channel.impl
    some (record ty { contents = put_at ty.contents c packet (some d) })
