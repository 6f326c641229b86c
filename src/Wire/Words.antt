-- ===== src/Wire/Words.antt =====
-- The little-endian helpers of src/transfer/protocol.cpp.
pub mod RoundTrip
use xfer.Base.{ℕ, zero, suc, ◌+◌, ◌*◌, ◌/◌, ◌^◌, bit_and, bit_or, List, [], ◌∷◌, get_or}

-- `out[i] = (v >> (8 * i)) & 0xFF`, for `n` bytes from the index `i` on.
encode_loop : ℕ → ℕ → ℕ → List ℕ
encode_loop zero i v = []
encode_loop (suc n) i v = bit_and (v / 2 ^ (8 * i)) 0xff ∷ encode_loop n (i + 1) v

unfoldable pub encode_u16 : ℕ → List ℕ
encode_u16 v = bit_and v 0xff ∷ bit_and (v / 2 ^ 8) 0xff ∷ []

unfoldable pub encode_u32 : ℕ → List ℕ
unfolding encode_loop
encode_u32 v = encode_loop 4 0 v

unfoldable pub encode_u64 : ℕ → List ℕ
unfolding encode_loop
encode_u64 v = encode_loop 8 0 v

-- `v |= p[i] << (8 * i)`, for `n` bytes from the index `i` on.
decode_loop : ℕ → ℕ → ℕ → List ℕ → ℕ
decode_loop zero i v p = v
decode_loop (suc n) i v p = decode_loop n (i + 1) (bit_or v (get_or p i 0 * 2 ^ (8 * i))) p

unfoldable pub decode_u16 : List ℕ → ℕ
decode_u16 p = bit_or (get_or p 0 0) (get_or p 1 0 * 2 ^ 8)

unfoldable pub decode_u32 : List ℕ → ℕ
unfolding decode_loop
decode_u32 p = decode_loop 4 0 0 p

unfoldable pub decode_u64 : List ℕ → ℕ
unfolding decode_loop
decode_u64 p = decode_loop 8 0 0 p
