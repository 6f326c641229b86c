-- ===== src/Wire/Words/RoundTrip.antt =====
-- Decoding is the number in base 256, and inverts encoding.
use xfer.Base.{ℕ, ◌+◌, ◌*◌, ◌/◌, ◌^◌, ◌<◌, bit_and, bit_or, ◌≡◌, refl, ap, ◌∙◌, arith}
use xfer.Base.{List, [], ◌∷◌, ◌++◌, length, All}
use xfer.Base.Bits.{bit_and_byte, bit_or_fields}
use xfer.Crc.Serial.{IsByte}
use xfer.Wire.Words.{encode_u16, encode_u32, encode_u64, decode_u16, decode_u32, decode_u64}

-- One more byte goes in above the bits that are there.
or_field : (k x y b : ℕ) → x ≡ y → y < 2 ^ k → bit_or x (b * 2 ^ k) ≡ y + b * 2 ^ k
or_field k x y b e h = ap (λ t. bit_or t (b * 2 ^ k)) e ∙ bit_or_fields k b y h

is_byte : (x : ℕ) → IsByte (bit_and x 0xff)
is_byte x = omega (arith, bit_and_byte x)

-- What two, four and eight bytes stand for.
decode_u16-sum :
    (a b : ℕ) (rest : List ℕ) → IsByte a → IsByte b → decode_u16 (a ∷ b ∷ rest) ≡ a + b * 2 ^ 8
unfolding decode_u16
decode_u16-sum a b rest ha hb = or_field 8 a a b refl (omega arith)

decode_u32-sum :
    (a b c d : ℕ) (rest : List ℕ)
    → IsByte a
    → IsByte b
    → IsByte c
    → IsByte d
    → decode_u32 (a ∷ b ∷ c ∷ d ∷ rest) ≡ a + b * 2 ^ 8 + c * 2 ^ 16 + d * 2 ^ 24
unfolding decode_u32
decode_u32-sum a b c d rest ha hb hc hd =
    or_field 24 _ _ d
      (or_field 16 _ _ c (or_field 8 _ _ b (or_field 0 0 0 a refl (omega arith)) (omega arith))
        (omega arith))
      (omega arith)
    ∙ omega arith

decode_u64-sum :
    (a b c d e f g h : ℕ) (rest : List ℕ)
    → IsByte a
    → IsByte b
    → IsByte c
    → IsByte d
    → IsByte e
    → IsByte f
    → IsByte g
    → IsByte h
    → decode_u64 (a ∷ b ∷ c ∷ d ∷ e ∷ f ∷ g ∷ h ∷ rest)
      ≡ a + b * 2 ^ 8 + c * 2 ^ 16 + d * 2 ^ 24 + e * 2 ^ 32 + f * 2 ^ 40 + g * 2 ^ 48 + h * 2 ^ 56
unfolding decode_u64
decode_u64-sum a b c d e f g h rest ha hb hc hd he hf hg hh =
    or_field 56 _ _ h
      (or_field 48 _ _ g
        (or_field 40 _ _ f
          (or_field 32 _ _ e
            (or_field 24 _ _ d
              (or_field 16 _ _ c
                (or_field 8 _ _ b (or_field 0 0 0 a refl (omega arith)) (omega arith))
                (omega arith))
              (omega arith))
            (omega arith))
          (omega arith))
        (omega arith))
      (omega arith)
    ∙ omega arith

pub decode_u16-encode_u16 :
    (v : ℕ) (rest : List ℕ) → v < 2 ^ 16 → decode_u16 (encode_u16 v ++ rest) ≡ v
unfolding encode_u16
decode_u16-encode_u16 v rest h =
    decode_u16-sum _ _ rest (is_byte _) (is_byte _)
    ∙ omega (arith, bit_and_byte v, bit_and_byte (v / 2 ^ 8))

pub encode_u16-IsByte : (v : ℕ) → All IsByte (encode_u16 v)
unfolding encode_u16
encode_u16-IsByte v = (is_byte _, (is_byte _, tt))

pub length-encode_u16 : (v : ℕ) → length (encode_u16 v) ≡ 2
unfolding encode_u16
length-encode_u16 v = refl

pub decode_u32-encode_u32 :
    (v : ℕ) (rest : List ℕ) → v < 2 ^ 32 → decode_u32 (encode_u32 v ++ rest) ≡ v
unfolding encode_u32
decode_u32-encode_u32 v rest h =
    decode_u32-sum _ _ _ _ rest (is_byte _) (is_byte _) (is_byte _) (is_byte _)
    ∙ omega (
      arith,
      bit_and_byte (v / 2 ^ 0),
      bit_and_byte (v / 2 ^ 8),
      bit_and_byte (v / 2 ^ 16),
      bit_and_byte (v / 2 ^ 24),
    )

pub encode_u32-IsByte : (v : ℕ) → All IsByte (encode_u32 v)
unfolding encode_u32
encode_u32-IsByte v = (is_byte _, (is_byte _, (is_byte _, (is_byte _, tt))))

pub length-encode_u32 : (v : ℕ) → length (encode_u32 v) ≡ 4
unfolding encode_u32
length-encode_u32 v = refl

-- Eight bytes written little-endian are read back as the number that was written, if it fits 64 bits,
-- whatever comes behind them.
pub decode_u64-encode_u64 :
    (v : ℕ) (rest : List ℕ) → v < 2 ^ 64 → decode_u64 (encode_u64 v ++ rest) ≡ v
unfolding encode_u64
decode_u64-encode_u64 v rest h =
    decode_u64-sum _ _ _ _ _ _ _ _ rest (is_byte _) (is_byte _) (is_byte _) (is_byte _) (is_byte _)
      (is_byte _) (is_byte _) (is_byte _)
    ∙ omega (
      arith,
      bit_and_byte (v / 2 ^ 0),
      bit_and_byte (v / 2 ^ 8),
      bit_and_byte (v / 2 ^ 16),
      bit_and_byte (v / 2 ^ 24),
      bit_and_byte (v / 2 ^ 32),
      bit_and_byte (v / 2 ^ 40),
      bit_and_byte (v / 2 ^ 48),
      bit_and_byte (v / 2 ^ 56),
    )

pub encode_u64-IsByte : (v : ℕ) → All IsByte (encode_u64 v)
unfolding encode_u64
encode_u64-IsByte v = (
  is_byte _,
  (is_byte _, (is_byte _, (is_byte _, (is_byte _, (is_byte _, (is_byte _, (is_byte _, tt))))))),
)

pub length-encode_u64 : (v : ℕ) → length (encode_u64 v) ≡ 8
unfolding encode_u64
length-encode_u64 v = refl

-- Two bytes make a number of 16 bits, also where some are missing.
pub decode_u16-lt : (p : List ℕ) → All IsByte p → decode_u16 p < 2 ^ 16
unfolding decode_u16
decode_u16-lt [] h = omega arith
decode_u16-lt (a ∷ []) h = omega (arith, bit_or_fields 8 0 a (omega arith))
decode_u16-lt (a ∷ b ∷ p) h = omega (arith, bit_or_fields 8 b a (omega arith))
