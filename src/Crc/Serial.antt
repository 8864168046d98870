-- ===== src/Crc/Serial.antt =====
-- The CRC one bit at a time, and the table-driven loop against it.
use Prim.Native.Nat.{bit_xor}
use mathlib.Core.Bool.{xor}
use mathlib.Core.Logic.{◌↔◌}
use picowal.Prelude.{
  ℕ, zero, suc, ◌*◌, ◌/◌, ◌%◌, ◌<◌, ◌≡◌, ◌≢◌, ◌++◌, refl, ap, ◌∙◌, Bool, true, false, ◌||◌, List,
  [], ◌∷◌, arith, get_or, ◌==◌, if◌then◌else◌,
}
use picowal.Prelude.Bits.{
  all_below, all_below_sound, bit_xor_comm, bit_xor_assoc, bit_xor_self, bit_xor-disjoint,
  bit_xor-half, bit_xor-parity, bit_xor-zero, bit_xor-div_byte, bit_xor-cancel,
}
use picowal.Crc.{crc32_tab, crc32_step, crc32_loop, crc32}

-- The reversed polynomial of IEEE 802.3.
abbrev pub polynomial : ℕ
polynomial = 0xEDB8_8320

-- One step of the shift register.
pub shift_bit : ℕ → ℕ
shift_bit c = if c % 2 == 1 then bit_xor (c / 2) polynomial else c / 2

pub shift_bits : ℕ → ℕ → ℕ
shift_bits zero c = c
shift_bits (suc n) c = shift_bits n (shift_bit c)

pub serial_loop : ℕ → List ℕ → ℕ
serial_loop crc [] = crc
serial_loop crc (byte ∷ rest) = serial_loop (shift_bits 8 (bit_xor crc byte)) rest

pub serial_crc32 : List ℕ → ℕ
serial_crc32 bytes = bit_xor (serial_loop 0xFFFF_FFFF bytes) 0xFFFF_FFFF

shift_bit-bit_xor : (a b : ℕ) → shift_bit (bit_xor a b) ≡ bit_xor (shift_bit a) (shift_bit b)
unfolding shift_bit
shift_bit-bit_xor a b = ground (
  arith,
  bit_xor-parity a b,
  bit_xor-half a b,
  bit_xor_assoc (a / 2) (b / 2) polynomial,
  bit_xor_assoc (a / 2) polynomial (b / 2),
  bit_xor_assoc (bit_xor (a / 2) polynomial) (b / 2) polynomial,
  bit_xor_comm polynomial (b / 2),
  bit_xor_assoc (bit_xor (a / 2) (b / 2)) polynomial polynomial,
  bit_xor_assoc (a / 2) (bit_xor (b / 2) polynomial) polynomial,
  bit_xor_assoc (b / 2) polynomial polynomial,
  bit_xor_self polynomial,
  bit_xor-zero (b / 2) (b / 2),
)

shift_bits-bit_xor :
    (n a b : ℕ) → shift_bits n (bit_xor a b) ≡ bit_xor (shift_bits n a) (shift_bits n b)
unfolding shift_bits
shift_bits-bit_xor zero a b = refl
shift_bits-bit_xor (suc n) a b =
    ap (shift_bits n) (shift_bit-bit_xor a b) ∙ shift_bits-bit_xor n (shift_bit a) (shift_bit b)

shift_bit-double : (m : ℕ) → shift_bit (m * 2) ≡ m
unfolding shift_bit
shift_bit-double m = ground arith

shift_bits_high : (m : ℕ) → shift_bits 8 (m * 256) ≡ m
unfolding shift_bits
shift_bits_high m = cc (
  shift_bit-double m,
  shift_bit-double (m * 2),
  shift_bit-double (m * 4),
  shift_bit-double (m * 8),
  shift_bit-double (m * 16),
  shift_bit-double (m * 32),
  shift_bit-double (m * 64),
  shift_bit-double (m * 128),
  twice m 2,
  twice m 4,
  twice m 8,
  twice m 16,
  twice m 32,
  twice m 64,
  twice m 128,
)
  where
    twice : (m k : ℕ) → m * k * 2 ≡ m * (k * 2)
    twice m' k = omega arith

-- The twelve places of the table that do not hold the value of their index.
unfoldable pub is_misprinted : ℕ → Bool
is_misprinted i =
    i == 10
    || i == 13
    || i == 14
    || i == 15
    || i == 42
    || i == 43
    || i == 52
    || i == 111
    || i == 127
    || i == 210
    || i == 217
    || i == 245

table_checked :
    all_below 256 (λ x. xor (get_or crc32_tab x 0 == shift_bits 8 x) (is_misprinted x)) ≡ true
unfolding all_below crc32_tab shift_bits shift_bit is_misprinted xor
table_checked = refl

table-shift_bits :
    (x : ℕ) → x < 256 → (is_misprinted x ≡ false) ↔ (get_or crc32_tab x 0 ≡ shift_bits 8 x)
unfolding xor
table-shift_bits x h = (
  λ good. ground (arith, all_below_sound 256 _ table_checked x h),
  λ same. ground (arith, all_below_sound 256 _ table_checked x h),
)

-- Eight bits at once: the low byte goes through the register, the rest is shifted down.
shift_bits_split : (c : ℕ) → shift_bits 8 c ≡ bit_xor (shift_bits 8 (c % 256)) (c / 256)
shift_bits_split c =
    ap (shift_bits 8) whole
    ∙ shift_bits-bit_xor 8 (c % 256) (c / 256 * 256)
    ∙ ap (bit_xor (shift_bits 8 (c % 256))) (shift_bits_high (c / 256))
  where
    whole : c ≡ bit_xor (c % 256) (c / 256 * 256)
    whole = omega (arith, bit_xor-disjoint 8 (c % 256) (c / 256) (omega arith))

high-bit_xor : (crc byte : ℕ) → byte < 256 → bit_xor crc byte / 256 ≡ crc / 256
high-bit_xor crc byte h =
    let low : byte / 256 ≡ 0 = omega arith in
    cc (bit_xor-div_byte crc byte, low, bit_xor-zero (crc / 256) (crc / 256) (omega arith))

-- One step of the loop of `crc32` shifts eight bits of the polynomial's register exactly when the
-- table entry that it reads is not one of the twelve.
crc32_step-serial :
    (crc byte : ℕ)
    → byte < 256
    → (is_misprinted (bit_xor crc byte % 256) ≡ false)
      ↔ (crc32_step crc byte ≡ shift_bits 8 (bit_xor crc byte))
unfolding crc32_step
crc32_step-serial crc byte h = (
  λ good. cc (shift_bits_split c, high-bit_xor crc byte h, (table-shift_bits i small).0 good),
  λ same.
      (table-shift_bits i small).1
        (bit_xor-cancel _ _ (c / 256) (cc (same, shift_bits_split c, high-bit_xor crc byte h))),
)
  where
    c : ℕ
    c = bit_xor crc byte

    i : ℕ
    i = c % 256

    small : i < 256
    small = omega arith

-- The bytes of a message, and the table places that its run reads.
abbrev pub Bytes : List ℕ → Type 0
Bytes [] = Unit
Bytes (b ∷ bs) = (b < 256) × Bytes bs

abbrev pub AvoidsMisprints : ℕ → List ℕ → Type 0
AvoidsMisprints crc [] = Unit
AvoidsMisprints crc (b ∷ bs) =
    (is_misprinted (bit_xor crc b % 256) ≡ false) × AvoidsMisprints (crc32_step crc b) bs

serial_loop-eq :
    (crc : ℕ) (bytes : List ℕ)
    → Bytes bytes
    → AvoidsMisprints crc bytes
    → crc32_loop crc bytes ≡ serial_loop crc bytes
unfolding crc32_loop serial_loop
serial_loop-eq crc [] h a = refl
serial_loop-eq crc (b ∷ bs) h a =
    let e : crc32_step crc b ≡ shift_bits 8 (bit_xor crc b) = (crc32_step-serial crc b h.0).0 a.0 in
    serial_loop-eq (crc32_step crc b) bs h.1 a.1 ∙ ap (λ c. serial_loop c bs) e

-- For a message of bytes whose run reads none of the twelve misprinted table entries, `crc32` is the
-- CRC-32 of the IEEE 802.3 polynomial, as the serial shift register computes it.
pub crc32-eq-serial :
    (bytes : List ℕ)
    → Bytes bytes
    → AvoidsMisprints 0xFFFF_FFFF bytes
    → crc32 bytes ≡ serial_crc32 bytes
unfolding crc32 serial_crc32
crc32-eq-serial bytes h a = ap (λ c. bit_xor c 0xFFFF_FFFF) (serial_loop-eq 0xFFFF_FFFF bytes h a)

crc32_loop-append :
    (crc : ℕ) (xs ys : List ℕ) → crc32_loop crc (xs ++ ys) ≡ crc32_loop (crc32_loop crc xs) ys
unfolding crc32_loop
crc32_loop-append crc [] ys = refl
crc32_loop-append crc (x ∷ xs) ys = crc32_loop-append (crc32_step crc x) xs ys

serial_loop-append :
    (crc : ℕ) (xs ys : List ℕ) → serial_loop crc (xs ++ ys) ≡ serial_loop (serial_loop crc xs) ys
unfolding serial_loop
serial_loop-append crc [] ys = refl
serial_loop-append crc (x ∷ xs) ys = serial_loop-append (shift_bits 8 (bit_xor crc x)) xs ys

-- A message whose run reads a misprinted entry at its last byte, and at none before, gets another
-- checksum than the CRC-32 of the polynomial.
pub crc32-ne-serial :
    (bytes : List ℕ) (last : ℕ)
    → Bytes bytes
    → last < 256
    → AvoidsMisprints 0xFFFF_FFFF bytes
    → is_misprinted (bit_xor (crc32_loop 0xFFFF_FFFF bytes) last % 256) ≡ true
    → crc32 (bytes ++ last ∷ []) ≢ serial_crc32 (bytes ++ last ∷ [])
unfolding crc32 serial_crc32
crc32-ne-serial bytes last h hl a bad same =
    let run : crc32_loop 0xFFFF_FFFF (bytes ++ last ∷ [])
        ≡ serial_loop 0xFFFF_FFFF (bytes ++ last ∷ []) =
      bit_xor-cancel _ _ 0xFFFF_FFFF same in
    let c = crc32_loop 0xFFFF_FFFF bytes in
    let step : crc32_step c last ≡ shift_bits 8 (bit_xor c last) =
      unfold crc32_loop serial_loop in
      cc (
        run,
        crc32_loop-append 0xFFFF_FFFF bytes (last ∷ []),
        serial_loop-append 0xFFFF_FFFF bytes (last ∷ []),
        serial_loop-eq 0xFFFF_FFFF bytes h a,
      ) in
    cc (bad, (crc32_step-serial c last hl).1 step)
