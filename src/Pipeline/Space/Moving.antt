-- ===== src/Pipeline/Space/Moving.antt =====
-- The space of the scheduler's queues across `Push` and `PopNext` of src/ChannelImpl.cpp.
use pipert.Base.{
  ℕ, ◌<◌, ◌≡◌, refl, sym, subst, inl, inr, Bool-cases, Bool, true, false, Option, some, not, ◌&&◌,
  if◌then◌else◌, arith, leb, ltb, ◌-◌, ◌>>=◌, bind-some, length_pos,
}
use pipert.Timer.{Time, max_time}
use pipert.SteadyHeap.{empty, front, size, push_heap, pop_heap}
use pipert.Packet.{log_event, packet_retrieved}
use pipert.Channel.{ChannelImpl, log, stamp, set_op_timestamp, packet_ordering, peek_next}
use pipert.Channel.Shape.{SameShape}
use pipert.Pipeline.{
  Pipeline, put_channel, log_push, insert_packet, push, signal_pop, log_retrieval, pop_next,
}
use pipert.Pipeline.Space.{SameRoom, SameRoom-refl, SameRoom-trans, put_channel-SameRoom}
use pipert.Pipeline.Space.Signalling.{signal_push-SameRoom, signal_if-SameRoom}

log_push-SameShape :
    (ch ch' : ChannelImpl) (packet : ℕ) (now : Time)
    → log_push ch packet now ≡ some ch'
    → SameShape ch ch'
unfolding log_push log
log_push-SameShape ch ch' packet now e = record {
  object = ground (arith, e);
  capacity = ground (arith, e);
}

-- The channel with the packet in its queue.
abbrev queued : ChannelImpl → ℕ → ChannelImpl
queued ch packet = record ch {
  queued_packets = push_heap (packet_ordering ch) ch.queued_packets packet;
}

insert_packet-SameRoom :
    (p p' : Pipeline) (c : ℕ) (ch : ChannelImpl) (packet : ℕ)
    → SameShape (p.channel c) ch
    → insert_packet p c ch packet ≡ some p'
    → SameRoom p p'
unfolding insert_packet size
insert_packet-SameRoom p p' c ch packet s e =
    let ch' = queued ch packet in
    let earliest = if empty ch.queued_packets then max_time else peek_next ch in
    let shape : SameShape (p.channel c) ch' = record { object = s.object; capacity = s.capacity } in
    elim (Bool-cases (ltb (size ch.queued_packets) ch.capacity)) [
      | inr f ↦ absurd (ground (arith, e, f))
      | inl f ↦ elim (Bool-cases (ch'.callback && ltb (peek_next ch') earliest)) [
        | inl g ↦
            signal_push-SameRoom p c ch' shape (ground (arith, f, s.capacity)) p' earliest
              (rw (f, g) at e)
        | inr g ↦
            let same : p' ≡ put_channel p c ch' = ground (arith, rw (f, g) at e) in
            subst (SameRoom p) (sym same) (put_channel-SameRoom p c ch' shape)
      ]
    ]

pub push-SameRoom :
    (p p' : Pipeline) (c packet : ℕ) (now : Time) → push p c packet now ≡ some p' → SameRoom p p'
unfolding push
push-SameRoom p p' c packet now e =
    let (ch, f, g) =
      bind-some (log_push (p.channel c) packet now) (λ ch. insert_packet p c ch packet) p' e in
    insert_packet-SameRoom p p' c ch packet (log_push-SameShape (p.channel c) ch packet now f) g

log_retrieval-SameRoom :
    (p p' : Pipeline) (c packet : ℕ) (now : Time)
    → log_retrieval p c packet now ≡ some p'
    → SameRoom p p'
unfolding log_retrieval log set_op_timestamp
log_retrieval-SameRoom p p' c packet now e =
    let ch = set_op_timestamp (p.channel c) packet now in
    let logged = log ch (log_event packet_retrieved (now - stamp ch packet)) in
    let same : p' ≡ put_channel p c logged = ground (arith, e) in
    subst (SameRoom p) (sym same)
      (put_channel-SameRoom p c logged (record { object = refl; capacity = refl }))

-- The channel without its earliest packet.
abbrev popped : ChannelImpl → ChannelImpl
popped ch = record ch { queued_packets = pop_heap (packet_ordering ch) ch.queued_packets }

-- What is left of `PopNext` once the packet is out of the queue.
abbrev after_pop : Pipeline → ℕ → ℕ → Time → Bool → Option (ℕ × Pipeline)
after_pop p c packet now dropping_packet = do
  p' ← if not dropping_packet then log_retrieval p c packet now else some p
  some (packet, p')

after_pop-SameRoom :
    (p p' : Pipeline) (c earliest packet : ℕ) (now : Time) (dropping_packet : Bool)
    → after_pop p c earliest now dropping_packet ≡ some (packet, p')
    → SameRoom p p'
after_pop-SameRoom p p' c earliest packet now true e =
    let same : p' ≡ p = ground (arith, e) in subst (SameRoom p) (sym same) (SameRoom-refl p)
after_pop-SameRoom p p' c earliest packet now false e =
    let (q, f, g) =
      bind-some (log_retrieval p c earliest now) (λ q. some (earliest, q)) (packet, p') e in
    let same : p' ≡ q = ground (arith, g) in
    subst (SameRoom p) (sym same) (log_retrieval-SameRoom p q c earliest now f)

pub pop_next-SameRoom :
    (p p' : Pipeline) (c packet : ℕ) (now : Time) (dropping_packet : Bool)
    → pop_next p c now dropping_packet ≡ some (packet, p')
    → SameRoom p p'
unfolding pop_next size
pop_next-SameRoom p p' c packet now dropping_packet e =
    let ch = p.channel c in
    let earliest = front ch.queued_packets in
    let p₂ = put_channel p c (popped ch) in
    let shape : SameShape ch (popped ch) = record { object = refl; capacity = refl } in
    elim (Bool-cases (leb (size ch.queued_packets) ch.capacity)) [
      | inr f ↦ absurd (ground (arith, e, f))
      | inl f ↦ elim (Bool-cases (empty ch.queued_packets)) [
        | inl g ↦ absurd (ground (arith, e, f, g))
        | inr g ↦
            let some_left : 0 < ch.capacity =
              ground (arith, f, length_pos ch.queued_packets.heap (unfold empty in g)) in
            let (q, h, k) =
              bind-some (if ch.callback then signal_pop p₂ c earliest else some p₂)
                (λ q. after_pop q c earliest now dropping_packet) (packet, p') (rw (f, g) at e) in
            SameRoom-trans p q p'
              (signal_if-SameRoom p c (popped ch) shape some_left q earliest ch.callback h)
              (after_pop-SameRoom q p' c earliest packet now dropping_packet k)
      ]
    ]
