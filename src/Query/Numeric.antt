-- ===== src/Query/Numeric.antt =====
-- The numeric types of src/query.c: the number that the text of a field shows and the one that is
-- compared directly.
use picowal.Prelude.{
  ℕ, ◌-◌, ◌*◌, ◌^◌, ◌<◌, ◌≤◌, ◌≡◌, refl, Bool, true, false, ◌⊎◌, some, List, length, take, ltb,
  arith, if_intro, inl, inr,
}
use picowal.Query.Field.{
  ℤ, pos, negsuc, Decimal, signed, value8, value16, value32, print_in, field_text, field_int32,
}

-- The integers of 32 bits
abbrev pub InInt32 : ℤ → Type 0
InInt32 (pos n) = n < 2 ^ 31
InInt32 (negsuc n) = n < 2 ^ 31

-- The text of a number of 32 bits, with or without a sign, has at most 11 characters, and `strtol`
-- gives back the number, or the largest `long` if it is larger.
pub record DecimalLaws (lib : Decimal) : Type 0 where
  pub length-print : (z : ℤ) → InInt32 z → length (lib.print z) ≤ 11
  pub length-print_word : (n : ℕ) → n < 2 ^ 32 → length (lib.print (pos n)) ≤ 11
  pub strtol-print : (z : ℤ) → InInt32 z → lib.strtol (lib.print z) ≡ z
  pub strtol-print_large :
      (n : ℕ) → 2 ^ 31 ≤ n → n < 2 ^ 32 → lib.strtol (lib.print (pos n)) ≡ pos (2 ^ 31 - 1)

-- The numeric types and their codes.
pub data NumericType : Type 0 where
  u8 : NumericType
  u16 : NumericType
  u32 : NumericType
  i8 : NumericType
  i16 : NumericType
  i32 : NumericType
  lookup : NumericType

abbrev pub type_code : NumericType → ℕ
type_code u8 = 0x01
type_code u16 = 0x02
type_code u32 = 0x03
type_code i8 = 0x04
type_code i16 = 0x05
type_code i32 = 0x06
type_code lookup = 0x12

-- The number that the text of a field shows.
abbrev pub shown : NumericType → ℕ → List ℕ → ℤ
shown u8 flen bytes = pos (value8 flen bytes)
shown u16 flen bytes = pos (value16 flen bytes)
shown u32 flen bytes = pos (value32 flen bytes)
shown i8 flen bytes = signed 8 (value8 flen bytes)
shown i16 flen bytes = signed 16 (value16 flen bytes)
shown i32 flen bytes = signed 32 (value32 flen bytes)
shown lookup flen bytes = pos (value32 flen bytes)

value8-lt : (flen : ℕ) (bytes : List ℕ) → value8 flen bytes < 2 ^ 8
unfolding value8
value8-lt flen bytes = ground arith

value16-lt : (flen : ℕ) (bytes : List ℕ) → value16 flen bytes < 2 ^ 16
unfolding value16
value16-lt flen bytes = ground arith

pub value32-lt : (flen : ℕ) (bytes : List ℕ) → value32 flen bytes < 2 ^ 32
unfolding value32
value32-lt flen bytes = ground arith

signed-InInt32 :
    (w v : ℕ)
    → 0 < w
    → w ≤ 32
    → v < 2 ^ w
    → 2 ^ w ≤ 2 ^ 32
    → 2 ^ (w - 1) ≤ 2 ^ 31
    → 2 ^ w ≡ 2 * 2 ^ (w - 1)
    → InInt32 (signed w v)
unfolding signed
signed-InInt32 w v a b c d e f =
    if_intro InInt32 (ltb v (2 ^ (w - 1))) (λ h. ground arith) (λ h. ground arith)

pub field_text-numeric :
    (lib : Decimal) (t : NumericType) (flen : ℕ) (bytes : List ℕ)
    → field_text lib 64 (type_code t) flen bytes ≡ take 63 (lib.print (shown t flen bytes))
unfolding field_text print_in
field_text-numeric lib u8 flen bytes = refl
field_text-numeric lib u16 flen bytes = refl
field_text-numeric lib u32 flen bytes = refl
field_text-numeric lib i8 flen bytes = refl
field_text-numeric lib i16 flen bytes = refl
field_text-numeric lib i32 flen bytes = refl
field_text-numeric lib lookup flen bytes = refl

-- The number that the scan compares.
abbrev pub taken : NumericType → ℕ → List ℕ → ℤ
taken u32 flen bytes = signed 32 (value32 flen bytes)
taken lookup flen bytes = signed 32 (value32 flen bytes)
taken t flen bytes = shown t flen bytes

pub field_int32-numeric :
    (t : NumericType) (flen : ℕ) (bytes : List ℕ)
    → field_int32 (type_code t) flen bytes ≡ some (taken t flen bytes)
unfolding field_int32
field_int32-numeric u8 flen bytes = refl
field_int32-numeric u16 flen bytes = refl
field_int32-numeric u32 flen bytes = refl
field_int32-numeric i8 flen bytes = refl
field_int32-numeric i16 flen bytes = refl
field_int32-numeric i32 flen bytes = refl
field_int32-numeric lookup flen bytes = refl

-- The types without a sign of 32 bits.
abbrev pub is_word : NumericType → Bool
is_word u32 = true
is_word lookup = true
is_word t = false

signed-pos : (v : ℕ) → v < 2 ^ 31 → signed 32 v ≡ pos v
unfolding signed
signed-pos v h = let e : ltb v (2 ^ 31) ≡ true = ground arith in rw e refl

signed-negsuc : (v : ℕ) → 2 ^ 31 ≤ v → signed 32 v ≡ negsuc (2 ^ 32 - 1 - v)
unfolding signed
signed-negsuc v h = let e : ltb v (2 ^ 31) ≡ false = ground arith in rw e refl

pub taken-shown :
    (t : NumericType) (flen : ℕ) (bytes : List ℕ)
    → (is_word t ≡ false) ⊎ (value32 flen bytes < 2 ^ 31)
    → taken t flen bytes ≡ shown t flen bytes
taken-shown u8 flen bytes h = refl
taken-shown u16 flen bytes h = refl
taken-shown u32 flen bytes (inl h) = absurd (cc h)
taken-shown u32 flen bytes (inr h) = signed-pos (value32 flen bytes) h
taken-shown i8 flen bytes h = refl
taken-shown i16 flen bytes h = refl
taken-shown i32 flen bytes h = refl
taken-shown lookup flen bytes (inl h) = absurd (cc h)
taken-shown lookup flen bytes (inr h) = signed-pos (value32 flen bytes) h

pub taken-InInt32 : (t : NumericType) (flen : ℕ) (bytes : List ℕ) → InInt32 (taken t flen bytes)
taken-InInt32 u8 flen bytes = omega (arith, value8-lt flen bytes)
taken-InInt32 u16 flen bytes = omega (arith, value16-lt flen bytes)
taken-InInt32 u32 flen bytes =
    signed-InInt32 32 (value32 flen bytes) (omega arith) (omega arith) (value32-lt flen bytes)
      (omega arith) (omega arith) (omega arith)
taken-InInt32 i8 flen bytes =
    signed-InInt32 8 (value8 flen bytes) (omega arith) (omega arith) (value8-lt flen bytes)
      (omega arith) (omega arith) (omega arith)
taken-InInt32 i16 flen bytes =
    signed-InInt32 16 (value16 flen bytes) (omega arith) (omega arith) (value16-lt flen bytes)
      (omega arith) (omega arith) (omega arith)
taken-InInt32 i32 flen bytes =
    signed-InInt32 32 (value32 flen bytes) (omega arith) (omega arith) (value32-lt flen bytes)
      (omega arith) (omega arith) (omega arith)
taken-InInt32 lookup flen bytes =
    signed-InInt32 32 (value32 flen bytes) (omega arith) (omega arith) (value32-lt flen bytes)
      (omega arith) (omega arith) (omega arith)

pub word_values :
    (t : NumericType) (flen : ℕ) (bytes : List ℕ)
    → is_word t ≡ true
    → 2 ^ 31 ≤ value32 flen bytes
    → (shown t flen bytes ≡ pos (value32 flen bytes))
      × (taken t flen bytes ≡ negsuc (2 ^ 32 - 1 - value32 flen bytes))
word_values u8 flen bytes w h = absurd (cc w)
word_values u16 flen bytes w h = absurd (cc w)
word_values u32 flen bytes w h = (refl, signed-negsuc (value32 flen bytes) h)
word_values i8 flen bytes w h = absurd (cc w)
word_values i16 flen bytes w h = absurd (cc w)
word_values i32 flen bytes w h = absurd (cc w)
word_values lookup flen bytes w h = (refl, signed-negsuc (value32 flen bytes) h)
