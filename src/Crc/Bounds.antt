-- ===== src/Crc/Bounds.antt =====
-- `crc32` of src/kv_flash.c as a 32-bit word.
use picowal.Prelude.{ℕ, ◌%◌, ◌^◌, ◌<◌, ◌≡◌, refl, true, List, [], ◌∷◌, arith, get_or, ltb}
use picowal.Prelude.Bits.{bit_xor-lt, all_below, all_below_sound}
use picowal.Crc.{crc32_tab, crc32_step, crc32_loop, crc32}
use Prim.Native.Nat.{bit_xor}

entries_fit : all_below 256 (λ x. ltb (get_or crc32_tab x 0) (2 ^ 32)) ≡ true
unfolding all_below crc32_tab
entries_fit = refl

entry-lt : (x : ℕ) → x < 256 → get_or crc32_tab x 0 < 2 ^ 32
entry-lt x h = ground (arith, all_below_sound 256 _ entries_fit x h)

crc32_step-lt : (crc byte : ℕ) → crc < 2 ^ 32 → crc32_step crc byte < 2 ^ 32
unfolding crc32_step
crc32_step-lt crc byte h =
    bit_xor-lt 32 _ _ (entry-lt (bit_xor crc byte % 256) (omega arith)) (omega arith)

crc32_loop-lt : (crc : ℕ) (bytes : List ℕ) → crc < 2 ^ 32 → crc32_loop crc bytes < 2 ^ 32
unfolding crc32_loop
crc32_loop-lt crc [] h = h
crc32_loop-lt crc (b ∷ bs) h = crc32_loop-lt (crc32_step crc b) bs (crc32_step-lt crc b h)

pub crc32-lt : (bytes : List ℕ) → crc32 bytes < 2 ^ 32
unfolding crc32
crc32-lt bytes = bit_xor-lt 32 _ _ (crc32_loop-lt 0xFFFF_FFFF bytes (omega arith)) (omega arith)
