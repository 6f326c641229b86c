-- ===== src/Crc/Burst.antt =====
-- What the checksum detects: every change that lies within four neighbouring bytes.
use xfer.Base.{
  ℕ, zero, suc, ◌+◌, ◌*◌, ◌/◌, ◌^◌, ◌≤◌, ◌<◌, bit_xor, ◌≡◌, refl, ap, ap₂, sym, ◌∙◌, arith,
}
use xfer.Base.{List, [], ◌∷◌, ◌++◌, length, All}
use xfer.Base.Bits.{
  bit_xor_assoc, bit_xor_comm, bit_xor_self, bit_xor-zero, bit_xor-lt, bit_xor_fields,
  bit_xor_cancel,
}
use xfer.Crc.{polynomial, round, rounds, Crc32, table_step, update_loop, init, update, compute}
use xfer.Crc.Serial.{
  IsByte, IsU32, round_even, round_odd, rounds_absorb, table_step-rounds, update-append,
}

round-IsU32 : (c : ℕ) → IsU32 c → IsU32 (round c)
round-IsU32 c h =
    ground (arith, round_even c, round_odd c, bit_xor-lt 32 polynomial (c / 2) (omega arith))

rounds-IsU32 : (n c : ℕ) → IsU32 c → IsU32 (rounds n c)
unfolding rounds
rounds-IsU32 zero c h = h
rounds-IsU32 (suc n) c h = rounds-IsU32 n (round c) (round-IsU32 c h)

-- The polynomial has the highest bit, so a round that adds it shows.
polynomial-le : (x : ℕ) → x < 2 ^ 31 → 2 ^ 31 ≤ bit_xor polynomial x
polynomial-le x h = grind (
  arith,
  bit_xor-lt 31 (bit_xor polynomial x) x,
  bit_xor_assoc polynomial x x,
  ap (bit_xor polynomial) (bit_xor_self x),
  bit_xor-zero polynomial,
)

round_injective : (a b : ℕ) → IsU32 a → IsU32 b → round a ≡ round b → a ≡ b
round_injective a b ha hb e = ground (
  arith,
  round_even a,
  round_odd a,
  round_even b,
  round_odd b,
  polynomial-le (a / 2),
  polynomial-le (b / 2),
  bit_xor_cancel (a / 2) (b / 2) polynomial,
  bit_xor_comm (a / 2) polynomial,
  bit_xor_comm (b / 2) polynomial,
)

rounds_injective : (n a b : ℕ) → IsU32 a → IsU32 b → rounds n a ≡ rounds n b → a ≡ b
unfolding rounds
rounds_injective zero a b ha hb e = e
rounds_injective (suc n) a b ha hb e =
    round_injective a b ha hb
      (rounds_injective n (round a) (round b) (round-IsU32 a ha) (round-IsU32 b hb) e)

rounds-zero : (x : ℕ) → rounds 0 x ≡ x
unfolding rounds
rounds-zero x = refl

rounds-add : (m n x : ℕ) → rounds (m + n) x ≡ rounds n (rounds m x)
unfolding rounds
rounds-add zero n x = ap (λ t. rounds t x) (let e : zero + n ≡ n = omega arith in e)
rounds-add (suc m) n x =
    ap (λ t. rounds t x) (let e : suc m + n ≡ suc (m + n) = omega arith in e)
    ∙ rounds-add m n (round x)

-- A few bytes as one number, lowest byte first.
abbrev pub word : List ℕ → ℕ
word [] = 0
word (b ∷ bytes) = b + 256 * word bytes

word-lt : (bytes : List ℕ) → All IsByte bytes → length bytes ≤ 4 → IsU32 (word bytes)
word-lt [] h k = omega arith
word-lt (a ∷ []) h k = omega arith
word-lt (a ∷ b ∷ []) h k = omega arith
word-lt (a ∷ b ∷ c ∷ []) h k = omega arith
word-lt (a ∷ b ∷ c ∷ d ∷ []) h k = omega arith
word-lt (a ∷ b ∷ c ∷ d ∷ e ∷ bytes) h k = absurd (omega arith)

word_injective :
    (xs ys : List ℕ)
    → All IsByte xs
    → All IsByte ys
    → length xs ≡ length ys
    → word xs ≡ word ys
    → xs ≡ ys
word_injective [] [] hx hy n e = refl
word_injective (x ∷ xs) [] hx hy n e = absurd (omega arith)
word_injective [] (y ∷ ys) hx hy n e = absurd (omega arith)
word_injective (x ∷ xs) (y ∷ ys) (hx, hxs) (hy, hys) n e =
    ap₂ (λ z zs. z ∷ zs) (omega arith) (word_injective xs ys hxs hys (omega arith) (omega arith))

-- All bytes of a sequence may be put into the register at once.
update_loop-word :
    (bytes : List ℕ) (s : ℕ)
    → All IsByte bytes
    → update_loop bytes s ≡ rounds (8 * length bytes) (bit_xor s (word bytes))
unfolding update_loop
update_loop-word [] s h = sym (ap (rounds 0) (bit_xor-zero s) ∙ rounds-zero s)
update_loop-word (b ∷ bytes) s (hb, hs) =
    ap (update_loop bytes) (table_step-rounds s b hb)
    ∙ update_loop-word bytes (rounds 8 (bit_xor s b)) hs
    ∙ ap (rounds (8 * length bytes)) (rounds_absorb 8 (bit_xor s b) (word bytes))
    ∙ sym (rounds-add 8 (8 * length bytes) (bit_xor (bit_xor s b) (word bytes * 2 ^ 8)))
    ∙ ap₂ rounds count joined
  where
    count : 8 + 8 * length bytes ≡ 8 * suc (length bytes)
    count = omega arith

    joined : bit_xor (bit_xor s b) (word bytes * 2 ^ 8) ≡ bit_xor s (b + 256 * word bytes)
    joined =
        bit_xor_assoc s b (word bytes * 2 ^ 8)
        ∙ ap (bit_xor s) (omega (arith, bit_xor_fields 8 (word bytes) b hb))

table_step-IsU32 : (s b : ℕ) → IsU32 s → IsByte b → IsU32 (table_step s b)
table_step-IsU32 s b hs hb =
    rw (table_step-rounds s b hb) (rounds-IsU32 8 _ (bit_xor-lt 32 s b hs (omega arith)))

update_loop-IsU32 :
    (bytes : List ℕ) (s : ℕ) → IsU32 s → All IsByte bytes → IsU32 (update_loop bytes s)
unfolding update_loop
update_loop-IsU32 [] s hs h = hs
update_loop-IsU32 (b ∷ bytes) s hs (hb, h) =
    update_loop-IsU32 bytes (table_step s b) (table_step-IsU32 s b hs hb) h

-- The register never leaves 32 bits, and neither does the checksum that is returned.
pub compute-IsU32 : (bytes : List ℕ) → All IsByte bytes → IsU32 (compute bytes)
unfolding compute
compute-IsU32 bytes h =
    bit_xor-lt 32 _ 0xffff_ffff (update_loop-IsU32 bytes 0xffff_ffff (omega arith) h) (omega arith)

-- Two registers that differ still differ after the same bytes.
update_loop_injective :
    (bytes : List ℕ) (s t : ℕ)
    → All IsByte bytes
    → IsU32 s
    → IsU32 t
    → update_loop bytes s ≡ update_loop bytes t
    → s ≡ t
unfolding update_loop
update_loop_injective [] s t h hs ht e = e
update_loop_injective (b ∷ bytes) s t (hb, h) hs ht e = bit_xor_cancel s t b (
    rounds_injective 8 (bit_xor s b) (bit_xor t b) (bit_xor-lt 32 s b hs (omega arith))
      (bit_xor-lt 32 t b ht (omega arith))
      (sym (table_step-rounds s b hb)
        ∙ update_loop_injective bytes (table_step s b) (table_step t b) h
            (table_step-IsU32 s b hs hb) (table_step-IsU32 t b ht hb) e
        ∙ table_step-rounds t b hb))

-- The register after a window of at most four bytes tells the window.
window_injective :
    (xs ys : List ℕ) (s : ℕ)
    → IsU32 s
    → All IsByte xs
    → All IsByte ys
    → length xs ≡ length ys
    → length xs ≤ 4
    → update_loop xs s ≡ update_loop ys s
    → xs ≡ ys
window_injective xs ys s hs hx hy n short e = word_injective xs ys hx hy n words
  where
    mixed : bit_xor s (word xs) ≡ bit_xor s (word ys)
    mixed =
        rounds_injective (8 * length xs) _ _ (bit_xor-lt 32 s (word xs) hs (word-lt xs hx short))
          (bit_xor-lt 32 s (word ys) hs (word-lt ys hy (omega arith)))
          (sym (update_loop-word xs s hx)
            ∙ e
            ∙ update_loop-word ys s hy
            ∙ ap (λ k. rounds (8 * k) (bit_xor s (word ys))) (sym n))

    words : word xs ≡ word ys
    words =
        bit_xor_cancel (word xs) (word ys) s
          (bit_xor_comm (word xs) s ∙ mixed ∙ bit_xor_comm s (word ys))

-- Two messages that agree outside a window of at most four bytes, and have the same checksum, are
-- the same message.
pub compute_burst :
    (front xs ys back : List ℕ)
    → All IsByte front
    → All IsByte xs
    → All IsByte ys
    → All IsByte back
    → length xs ≡ length ys
    → length xs ≤ 4
    → compute (front ++ (xs ++ back)) ≡ compute (front ++ (ys ++ back))
    → xs ≡ ys
unfolding compute
compute_burst front xs ys back hf hx hy hb n short e = window_injective xs ys s hs hx hy n short (
    update_loop_injective back (update_loop xs s) (update_loop ys s) hb
      (update_loop-IsU32 xs s hs hx) (update_loop-IsU32 ys s hs hy)
      (sym (after xs) ∙ bit_xor_cancel _ _ 0xffff_ffff e ∙ after ys))
  where
    s : ℕ
    s = update_loop front 0xffff_ffff

    hs : IsU32 s
    hs = update_loop-IsU32 front 0xffff_ffff (omega arith) hf

    after :
        (zs : List ℕ)
        → update_loop (front ++ (zs ++ back)) 0xffff_ffff ≡ update_loop back (update_loop zs s)
    after zs =
        ap (λ (c : Crc32). c.state)
          (update-append init front (zs ++ back) ∙ update-append (update init front) zs back)
