-- ===== src/Profiler/Destination.antt =====
-- What the constructor of src/Profiler.cpp makes of a URI.
use pipert.Base.{
  ℕ, ◌%◌, ◌≤◌, ◌<◌, ◌≡◌, ◌≢◌, refl, true, false, List, [], ◌∷◌, ◌++◌, none, some, ◌⊎◌, ltb_of_lt,
  leb, leb_of_le, ◌==◌, ne_test, if◌then◌else◌, is_empty, inl, inr, arith, length,
}
use pipert.UdpConnection.{OperatingSystem, UdpConnection, udp_connection_to}
use pipert.ProfilerImpl.{ProfilerImpl, minus_1, profiler_impl}
use pipert.Profiler.{
  FileSystem, Profiler, no_profiler, destination_udp_scheme, destination_file_scheme, after_scheme,
  at_separator, atoi, profiler, udp_destination,
}

-- No character is a ":".
abbrev pub NoColon : List ℕ → Type 0
NoColon [] = Unit {0}
NoColon (c ∷ cs) = (c ≢ 58) × NoColon cs

at_separator-append :
    (addr port : List ℕ) → NoColon addr → at_separator (addr ++ 58 ∷ port) ≡ some (addr, port)
unfolding at_separator
at_separator-append [] port n = refl
at_separator-append (c ∷ cs) port (n, ns) = rw (ne_test n, at_separator-append cs port ns) refl

-- The implementation that a destination gets.
abbrev pub made_impl : ℕ → ℕ → ProfilerImpl
made_impl buffer_size aggregation_time_msec = record {
  buffer_size = buffer_size;
  aggregation_time_msec = aggregation_time_msec;
  worker_joinable = false;
  worker_shutdown = false;
  profile_data = [];
  next_profile_data = minus_1;
}

abbrev made_connection : ℕ → ℕ → ℕ → UdpConnection
made_connection fd sin_addr sin_port = record {
  socket_filedesc = some fd;
  max_packet_size = 508;
  polling_timeout = 1000;
  local_address = record { sin_port = 0; sin_addr = 0 };
  remote_address = record { sin_port = sin_port; sin_addr = sin_addr };
}

nonempty : (xs : List ℕ) → 0 < length xs → is_empty xs ≡ false
nonempty [] h = absurd (omega (arith, h))
nonempty (x ∷ xs) h = refl

nonempty_of_pos : (xs ys : List ℕ) → 0 < length xs → is_empty (xs ++ 58 ∷ ys) ≡ false
nonempty_of_pos [] ys h = absurd (omega (arith, h))
nonempty_of_pos (x ∷ xs) ys h = refl

nonempty_port : (port : List ℕ) → atoi port ≢ 0 → is_empty port ≡ false
unfolding atoi
nonempty_port [] n = absurd (n refl)
nonempty_port (c ∷ cs) n = refl

size_or_default : (size : ℕ) → 64 ≤ size → 64 ≤ (if size == 0 then 508 else size)
size_or_default size h = rw (ne_test {a = size} {b = 0} (λ e. omega (arith, e, h))) h

module _ {ℓ} {W : Type ℓ} (os : OperatingSystem W) (fs : FileSystem W) where
  -- "udp:", an address of 1 to 15 characters without ":", a ":" and a port that `atoi` does not take for
  -- 0 make a profiler that sends to this address and the low 16 bits of the port, if the system opens a
  -- socket and knows the address. Its buffer is 508 bytes long, or as long as is asked, if that is at
  -- least 64.
  pub profiler-udp :
      (addr port : List ℕ) (time size fd sin_addr : ℕ) (w : W)
      → NoColon addr
      → 0 < length addr
      → length addr < 16
      → atoi port ≢ 0
      → (os.socket w).0 ≡ some fd
      → os.inet_aton addr ≡ some sin_addr
      → (size ≡ 0) ⊎ (64 ≤ size)
      → (p : Profiler) × (w' : W) × (c : UdpConnection) × (profiler os fs
            (destination_udp_scheme ++ addr ++ 58 ∷ port)
            time
            size
            w
          ≡ some (p, w'))
        × (p ≡ record {
          impl = some (made_impl (if size == 0 then 508 else size) time);
          destination_file = none;
          udp_connection = some c;
        })
        × (c.socket_filedesc ≡ some fd)
        × (c.max_packet_size ≡ 508)
        × (c.remote_address.sin_addr ≡ sin_addr)
        × (c.remote_address.sin_port ≡ os.htons (atoi port % 65536))
  unfolding profiler after_scheme udp_destination udp_connection_to profiler_impl
  profiler-udp addr port time size fd sin_addr w plain pos short number opened known asked =
      let room : leb 64 (if size == 0 then 508 else size) ≡ true = elim asked [
        | inl e ↦ rw e refl
        | inr h ↦ leb_of_le (size_or_default size h)
      ] in
      (
        record {
          impl = some (made_impl (if size == 0 then 508 else size) time);
          destination_file = none;
          udp_connection = some (made_connection fd sin_addr (os.htons (atoi port % 65536)));
        },
        os.forbid_fragments fd (os.socket w).1,
        made_connection fd sin_addr (os.htons (atoi port % 65536)),
        rw
            (
              nonempty_of_pos addr port pos,
              at_separator-append addr port plain,
              nonempty addr pos,
              nonempty_port port number,
              ne_test number,
              ltb_of_lt short,
              opened,
              known,
              room,
            )
            refl,
        refl,
        refl,
        refl,
        refl,
        refl,
      )

  -- A URI that begins with neither scheme makes a profiler without a destination, and nothing happens.
  pub profiler-no_scheme :
      (uri : List ℕ) (time size : ℕ) (w : W)
      → after_scheme destination_udp_scheme uri ≡ none
      → after_scheme destination_file_scheme uri ≡ none
      → profiler os fs uri time size w ≡ some (no_profiler, w)
  unfolding profiler
  profiler-no_scheme uri time size w no_udp no_file = rw (no_udp, no_file) refl
