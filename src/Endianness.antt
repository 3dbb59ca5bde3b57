-- ===== src/Endianness.antt =====
-- src/Endianness.h and .cpp, for unsigned numbers of `size` bytes. How the host lays a number out in
-- memory is not code of the repository: `load` gives the number at the bytes of an object, and
-- `store` the bytes of a number.
pub mod RoundTrip
pub mod Host
mod Tests
use pipert.Base.{ℕ, zero, suc, ◌+◌, ◌-◌, ◌*◌, ◌/◌, ◌%◌, ◌^◌, List, [], ◌∷◌}

-- The loop of `ConvertHostToNetworkByteOrder`: the byte on top is written, and `val <<= 8`.
unfoldable pub shift_out : ℕ → ℕ → ℕ → List ℕ
shift_out size zero val = []
shift_out size (suc n) val =
    ((val / 256 ^ (size - 1)) % 256) ∷ shift_out size n ((val * 256) % 256 ^ size)

unfoldable pub convert_host_to_network : (List ℕ → ℕ) → ℕ → ℕ → ℕ
unfolding shift_out
convert_host_to_network load size val = load (shift_out size size val)

-- The loop of `ConvertNetworkToHostByteOrder`. The low byte of `ret << 8` is 0, so that `|` adds.
unfoldable pub shift_in : ℕ → ℕ → List ℕ → ℕ
shift_in size ret [] = ret
shift_in size ret (byte ∷ bytes) = shift_in size ((ret * 256) % 256 ^ size + byte) bytes

unfoldable pub convert_network_to_host : (ℕ → List ℕ) → ℕ → ℕ → ℕ
unfolding shift_in
convert_network_to_host store size val = shift_in size 0 (store val)

-- A float or a double is converted as the number that has its bytes, as which it stands here.
unfoldable pub convert_float_to_network : (List ℕ → ℕ) → ℕ → ℕ
convert_float_to_network load val = convert_host_to_network load 4 val

unfoldable pub convert_double_to_network : (List ℕ → ℕ) → ℕ → ℕ
convert_double_to_network load val = convert_host_to_network load 8 val

unfoldable pub convert_float_to_host : (ℕ → List ℕ) → ℕ → ℕ
convert_float_to_host store val = convert_network_to_host store 4 val

unfoldable pub convert_double_to_host : (ℕ → List ℕ) → ℕ → ℕ
convert_double_to_host store val = convert_network_to_host store 8 val
