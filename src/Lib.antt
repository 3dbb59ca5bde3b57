-- ===== src/Lib.antt =====
-- PipeRT, a library for real-time data-flow: packets wait in channels, and a scheduler lets worker
-- threads process them in the order of their time stamps.
--
-- The parts and how they interact. A channel (src/ChannelImpl) owns a pool of packets. Each packet
-- is free, queued, or held by the code that acquired or retrieved it. A scheduled channel signals
-- its scheduler (src/SchedulerImpl) when its earliest packet changes; the scheduler keeps, for each
-- monitor object, a heap of the channels with jobs, and a heap of the monitor objects that may run.
-- Both, and the queue of each channel, are a SteadyHeap (src/SteadyHeap.h), from which an element is
-- removed by value after its key has changed. The heaps compare through pointers into the channels,
-- so that each change to a queue must be followed by the right signal. Pipeline/Consistent says what
-- is to hold of all of them whenever the locks are free.
--
-- The files:
--   Base           shared names, Boolean tests, vectors as lists, and assertions as options
--   SteadyHeap     src/SteadyHeap.h; its order, the sifts, and what its methods promise
--   Timer, Packet  include/pipert/Timer.h, PacketBase.h, LogEventBase.h and LogEvent.h
--   Scheduler      src/SchedulerImpl.h and .cpp: JobsArrived, JobsUpdated, JobsDropped;
--                  Scheduler/Registering: the constructor, RegisterChannel, Start, Stop and the like
--   Channel        src/ChannelImpl.h and .cpp: the data, and the methods that send no signal
--   Pipeline       src/ChannelImpl.cpp: Push, PopNext, GetNext, TryDroppingPacket, Acquire, over all
--                  channels of one scheduler
--   Worker         src/SchedulerImpl.cpp: the two locked parts of a round of RunTasks, and Execute;
--                  Worker/Running: all rounds and all calls of user code as one step relation
--                  Worker/Rounds: whole rounds of one worker that is alone
--                  Worker/Space, Pipeline/Space, Scheduler/Space: the space that RegisterChannel
--                  reserves for the queues
--   Facade         src/ChannelBase.cpp, and include/pipert/Channel.h, PolledChannel.h, PacketStub.h,
--                  PacketToFill.h and PacketToProcess.h: stubs of packets, over a Pipeline
--   Typed          include/pipert/Packet.h with Channel.h and the stubs: the data of packets
--   Endianness     src/Endianness.h and .cpp
--   SpinLock       src/AdaptiveSpinLock.h and .cpp; all threads that share a lock as a step relation
--   SenderLogger   src/SenderLogger.h and .cpp
--   LogAggregate   src/LogAggregate.h and .cpp, over an interface for the type double
--   ProfileData    src/ProfileData.h and .cpp, and the bytes that src/LogAggregate.cpp writes
--   ProfilerImpl   src/ProfilerImpl.h and .cpp
--   Profiler       include/pipert/Profiler.h and src/Profiler.cpp: destinations, sending to them
--   Lifetime       src/SchedulerImpl.cpp, ChannelImpl.cpp and ChannelBase.cpp: the channels and the
--                  ProfileData objects that come and go with them
--   UdpConnection  include/pipert/UDPConnection.h and src/UDPConnection.cpp, over an interface to the
--                  operating system
--   Protocol       include/pipert/Protocol.h: the two sides of the handshake
--   Network        include/pipert/Receiver.h, SenderChannel.h, ScheduledChannel.h and Scheduler.h, and
--                  src/Scheduler.cpp: the scheduler in front of a Pipeline, and packets of a network
--   Transport      include/pipert/SenderChannel.h, Receiver.h and NetworkPacket.h: packets with their data
--                  from one computer to another
--   ThreadId       src/ThreadId.h and .cpp; all threads as a step relation
--   Registrar      include/pipert/LogEventTypeRegistrar.h, LogEvent.h and their .cpp
--   (most with a child Tests for runs on concrete inputs)
--
-- How the code is read. Each part that runs under a lock is one step; a method that takes locks in
-- turn is run as a whole, with no other thread in between, but for Acquire, which the step relation
-- takes apart. A failed `assert` is the value `none`, but for the assertions of PeekNext and
-- StateOrdering that a queue which is compared is not empty. A pointer is a number: a packet is its
-- byte offset from the pool, a null monitor object is 0. A time is its distance from
-- `Timer::kMinTime`, so that it and the differences of times are natural numbers; that such a
-- difference fits into 64 bits is not shown. The answer of `Timer::time()` is an argument of what
-- calls it; Timer has what it makes of a reading of the clock. The counts of free and queued
-- packets, of logged values and of sent packets, and the size that DetectMaxPacketSize doubles, are
-- not bounded by the range of int. The flag `running_` of a Receiver, which no constructor sets, is
-- taken to be false.
--
-- The heap algorithms of the standard library are the textbook sifts, run on fuel: the length of
-- the vector, which a sift from or to the root cannot use up, as each step at least halves the
-- index or moves it further down. On a heap the standard fixes that the result is a heap of the same
-- elements. ForcePopHeap moves a value to the top first, and calls `std::pop_heap` on a range that need
-- not be a heap, where the standard fixes nothing: what is shown of it holds for the textbook sift,
-- which does not look at the element at the top.
--
-- The step relation has a step for each locked part of a round and of Acquire, for each other call
-- of user code as a whole, and for Start, Stop and the construction of channels. It asks of user
-- code that it fills and pushes only packets that it holds, with time stamps that are not in the
-- future, and of the clock that it does not run backwards past a time stamp and stays below
-- `Timer::kMaxTime`. A channel may be destroyed once it has no packets. The steps register channels
-- without their ProfileData objects, which Lifetime adds. Worker/Rounds has one
-- worker whose callbacks only let their packets go, on a clock that stands still; the number of its
-- rounds is an argument, and each takes a queued packet, so that their number is enough.
--
-- Statistics flow from the channels (ProfileData) through ProfilerImpl to the destination of a
-- Profiler. A buffer is the list of the bytes that are written to it. The loop that empties one
-- object runs on fuel, one call more than there are aggregates, which each call but the last makes
-- fewer. Events that are logged while a round is under way are not among its steps. The loop of
-- DetectMaxPacketSize runs on fuel that is an argument; it ends if the fuel is above the number of
-- sizes that pass.
--
-- Sockets, files, fcntl and poll are an interface to the operating system over a state of the
-- world; UdpConnection/Wire is a small one for tests. Names of channels, events and threads are
-- pointers, and the characters at them an argument. What an uninitialised buffer has is an argument
-- as well.
--
-- Not modelled: the creation and joining of threads, what the clock gives, destructors that only
-- free memory, and the log analyser in Python.
pub mod Base
pub mod Channel
pub mod Endianness
pub mod Facade
pub mod Lifetime
pub mod LogAggregate
pub mod Network
pub mod Packet
pub mod Pipeline
pub mod ProfileData
pub mod Profiler
pub mod ProfilerImpl
pub mod Protocol
pub mod Registrar
pub mod Scheduler
pub mod SenderLogger
pub mod SpinLock
pub mod SteadyHeap
pub mod ThreadId
pub mod Timer
pub mod Transport
pub mod Typed
pub mod UdpConnection
pub mod Worker
