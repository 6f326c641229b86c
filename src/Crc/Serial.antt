-- ===== src/Crc/Serial.antt =====
-- The table against the checksum's definition, one bit at a time.
use xfer.Base.{
  ℕ, zero, suc, ◌+◌, ◌*◌, ◌/◌, ◌%◌, ◌^◌, ◌<◌, bit_xor, ◌≡◌, refl, ap, ap₂, sym, ◌∙◌, arith,
}
use xfer.Base.{List, [], ◌∷◌, ◌++◌, get_or, All, ◌==◌, if◌then◌else◌}
use xfer.Base.Bits.{
  bit_and-one, bit_and_byte, bit_xor-half, bit_xor-parity, bit_xor_comm, bit_xor_assoc,
  bit_xor_self, zero-bit_xor, bit_xor-zero, bit_xor_fields,
}
use native.Mathlib.Nat.{pow-suc}
use xfer.Crc.{
  polynomial, round, rounds, build_table, g_table, Crc32, table_step, update_loop, update,
}

abbrev pub IsByte : ℕ → Type 0
IsByte b = b < 256

abbrev pub IsU32 : ℕ → Type 0
IsU32 s = s < 2 ^ 32

pub round_even : (c : ℕ) → c % 2 ≡ 0 → round c ≡ c / 2
unfolding round
round_even c h = ground (arith, bit_and-one c)

pub round_odd : (c : ℕ) → c % 2 ≡ 1 → round c ≡ bit_xor polynomial (c / 2)
unfolding round
round_odd c h = ground (arith, bit_and-one c)

bit_xor_left_comm : (a b c : ℕ) → bit_xor a (bit_xor b c) ≡ bit_xor b (bit_xor a c)
bit_xor_left_comm a b c = cc (bit_xor_assoc a b c, bit_xor_assoc b a c, bit_xor_comm a b)

bit_xor_twice : (p a b : ℕ) → bit_xor (bit_xor p a) (bit_xor p b) ≡ bit_xor a b
bit_xor_twice p a b = cc (
  bit_xor_assoc p a (bit_xor p b),
  bit_xor_left_comm a p b,
  bit_xor_assoc p p (bit_xor a b),
  bit_xor_self p,
  zero-bit_xor (bit_xor a b),
)

-- A round is linear: it commutes with exclusive or.
round-bit_xor : (a b : ℕ) → round (bit_xor a b) ≡ bit_xor (round a) (round b)
round-bit_xor a b = ground (
  arith,
  round_even a,
  round_odd a,
  round_even b,
  round_odd b,
  round_even (bit_xor a b),
  round_odd (bit_xor a b),
  bit_xor-half a b,
  bit_xor-parity a b,
  bit_xor_assoc polynomial (a / 2) (b / 2),
  bit_xor_left_comm (a / 2) polynomial (b / 2),
  bit_xor_twice polynomial (a / 2) (b / 2),
)

pub rounds-bit_xor : (n a b : ℕ) → rounds n (bit_xor a b) ≡ bit_xor (rounds n a) (rounds n b)
unfolding rounds
rounds-bit_xor zero a b = refl
rounds-bit_xor (suc n) a b =
    ap (rounds n) (round-bit_xor a b) ∙ rounds-bit_xor n (round a) (round b)

-- A number whose low `n` bits are 0 is only shifted by `n` rounds.
rounds_shifted : (n q : ℕ) → rounds n (q * 2 ^ n) ≡ q
unfolding rounds
rounds_shifted zero q = omega arith
rounds_shifted (suc n) q =
    ap (rounds n) (round_even _ (omega (arith, twice)) ∙ omega (arith, twice)) ∙ rounds_shifted n q
  where
    twice : q * 2 ^ suc n ≡ 2 * (q * 2 ^ n)
    twice = omega (arith, ap (λ (t : ℕ). q * t) (pow-suc 2 n))

-- Bits that come in later may be put in at once, above those that are shifted out.
pub rounds_absorb : (n x y : ℕ) → bit_xor (rounds n x) y ≡ rounds n (bit_xor x (y * 2 ^ n))
rounds_absorb n x y = cc (rounds-bit_xor n x (y * 2 ^ n), rounds_shifted n y)

-- Every entry of the table is eight rounds on its index.
get_or-build_table : (n i k : ℕ) → k < n → get_or (build_table n i) k 0 ≡ rounds 8 (i + k)
unfolding build_table
get_or-build_table zero i k h = elim h [ ]
get_or-build_table (suc n) i zero h = ap (rounds 8) (omega arith)
get_or-build_table (suc n) i (suc k) h =
    get_or-build_table n (i + 1) k (omega arith) ∙ ap (rounds 8) (omega arith)

bit_xor_quarter : (a b : ℕ) → bit_xor a b / 4 ≡ bit_xor (a / 4) (b / 4)
bit_xor_quarter a b = omega (
  arith,
  bit_xor-half a b,
  bit_xor-half (a / 2) (b / 2),
  ap₂ bit_xor (let e : a / 2 / 2 ≡ a / 4 = omega arith in e)
      (let e : b / 2 / 2 ≡ b / 4 = omega arith in e),
)

bit_xor_high : (s b : ℕ) → IsByte b → bit_xor s b / 256 ≡ s / 256
bit_xor_high s b h = omega (
  arith,
  bit_xor_quarter s b,
  bit_xor_quarter (s / 4) (b / 4),
  bit_xor_quarter (s / 4 / 4) (b / 4 / 4),
  bit_xor_quarter (s / 4 / 4 / 4) (b / 4 / 4 / 4),
  ap (λ (t : ℕ). bit_xor (s / 4 / 4 / 4 / 4) t) (let e : b / 4 / 4 / 4 / 4 ≡ 0 = omega arith in e),
  bit_xor-zero (s / 4 / 4 / 4 / 4),
)

-- One turn of `Update` is eight rounds.
pub table_step-rounds : (s b : ℕ) → IsByte b → table_step s b ≡ rounds 8 (bit_xor s b)
unfolding table_step g_table
table_step-rounds s b h =
    ap (λ t. bit_xor (get_or (build_table 256 0) t 0) (s / 256)) (bit_and_byte v)
    ∙ ap (λ t. bit_xor t (s / 256)) (get_or-build_table 256 0 (v % 256) (omega arith))
    ∙ ap (bit_xor (rounds 8 (0 + v % 256))) (sym (bit_xor_high s b h))
    ∙ rounds_absorb 8 (0 + v % 256) (v / 256)
    ∙ ap (rounds 8) whole
  where
    v : ℕ
    v = bit_xor s b

    whole : bit_xor (0 + v % 256) (v / 256 * 2 ^ 8) ≡ v
    whole = omega (arith, bit_xor_fields 8 (v / 256) (0 + v % 256) (omega arith))

-- The checksum register as its definition has it: the lowest bit of the message meets the lowest
-- bit of the register, the register is shifted, and the polynomial is added if they differed.
pub shift_bit : ℕ → ℕ → ℕ
shift_bit s m = if (s + m) % 2 == 1 then bit_xor polynomial (s / 2) else s / 2

-- `n` bits of `b`, lowest first.
pub shift_bits : ℕ → ℕ → ℕ → ℕ
shift_bits zero b s = s
shift_bits (suc n) b s = shift_bits n (b / 2) (shift_bit s (b % 2))

pub serial : List ℕ → ℕ → ℕ
serial [] s = s
serial (b ∷ bytes) s = serial bytes (shift_bits 8 b s)

round-shift_bit : (s b : ℕ) → round (bit_xor s b) ≡ bit_xor (shift_bit s (b % 2)) (b / 2)
unfolding shift_bit
round-shift_bit s b = ground (
  arith,
  round_even (bit_xor s b),
  round_odd (bit_xor s b),
  bit_xor-half s b,
  bit_xor-parity s b,
  bit_xor_assoc polynomial (s / 2) (b / 2),
)

rounds-shift_bits : (n s b : ℕ) → b < 2 ^ n → rounds n (bit_xor s b) ≡ shift_bits n b s
unfolding rounds shift_bits
rounds-shift_bits zero s b h = ap (bit_xor s) (let e : b ≡ 0 = omega arith in e) ∙ bit_xor-zero s
rounds-shift_bits (suc n) s b h =
    ap (rounds n) (round-shift_bit s b)
    ∙ rounds-shift_bits n (shift_bit s (b % 2)) (b / 2) (omega (arith, pow-suc 2 n))

update_loop-serial :
    (bytes : List ℕ) (s : ℕ) → All IsByte bytes → update_loop bytes s ≡ serial bytes s
unfolding update_loop serial
update_loop-serial [] s h = refl
update_loop-serial (b ∷ bytes) s (hb, hs) =
    ap (update_loop bytes) (table_step-rounds s b hb ∙ rounds-shift_bits 8 s b hb)
    ∙ update_loop-serial bytes (shift_bits 8 b s) hs

-- The table-driven `Update` runs the bit-serial checksum register over the bytes, from any state.
pub update-serial :
    (c : Crc32) (bytes : List ℕ) → All IsByte bytes → (update c bytes).state ≡ serial bytes c.state
unfolding update
update-serial c bytes h = update_loop-serial bytes c.state h

-- Checksumming a sequence in two pieces is checksumming it at once.
pub update-append : (c : Crc32) (xs ys : List ℕ) → update c (xs ++ ys) ≡ update (update c xs) ys
unfolding update
update-append c xs ys = ap (λ (s : ℕ). record { state = s }) (loop xs c.state)
  where
    loop : (zs : List ℕ) (s : ℕ) → update_loop (zs ++ ys) s ≡ update_loop ys (update_loop zs s)
    loop [] s = refl
    loop (z ∷ zs) s = loop zs (table_step s z)
