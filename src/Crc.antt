-- ===== src/Crc.antt =====
-- src/common/crc32.h and src/common/crc32.cpp: the table-driven CRC-32C of a byte sequence.
-- A `uint32_t` is a number below 2 ^ 32, and `c >> k` is `c / 2 ^ k`.
pub mod Serial
pub mod Burst
mod Examples
use xfer.Base.{ℕ, zero, suc, ◌+◌, ◌/◌, ◌<◌, ◌^◌, bit_and, bit_xor, List, [], ◌∷◌, get_or}
use xfer.Base.{◌==◌, if◌then◌else◌}

-- The reflected Castagnoli polynomial.
abbrev pub polynomial : ℕ
polynomial = 0x82f63b78

-- The body of the inner loop of `BuildTable`.
pub round : ℕ → ℕ
round c = if bit_and c 1 == 0 then c / 2 else bit_xor polynomial (c / 2)

-- `for (int j = 0; j < 8; ++j)`, by the rounds that are left.
pub rounds : ℕ → ℕ → ℕ
rounds zero c = c
rounds (suc n) c = rounds n (round c)

-- The outer loop of `BuildTable`: `n` entries are left, and `i` is the next index.
build_table : ℕ → ℕ → List ℕ
build_table zero i = []
build_table (suc n) i = rounds 8 i ∷ build_table n (i + 1)

g_table : List ℕ
g_table = build_table 256 0

pub record Crc32 : Type 0 where
  pub state : ℕ

unfoldable pub init : Crc32
init = record { state = 0xffff_ffff }

pub reset : Crc32 → Crc32
reset c = record c { state = 0xffff_ffff }

-- One turn of the loop of `Update`: `g_table[(s ^ *p++) & 0xFF] ^ (s >> 8)`.
pub table_step : ℕ → ℕ → ℕ
table_step s b = bit_xor (get_or g_table (bit_and (bit_xor s b) 0xff) 0) (s / 256)

pub update_loop : List ℕ → ℕ → ℕ
update_loop [] s = s
update_loop (b ∷ bytes) s = update_loop bytes (table_step s b)

unfoldable pub update : Crc32 → List ℕ → Crc32
unfolding update_loop table_step g_table build_table rounds round
update c bytes = record c { state = update_loop bytes c.state }

unfoldable pub final : Crc32 → ℕ
final c = bit_xor c.state 0xffff_ffff

unfoldable pub compute : List ℕ → ℕ
unfolding init update final
compute bytes = final (update init bytes)
