-- ===== src/KvFlash/Hw.antt =====
-- What src/kv_flash.c takes from elsewhere: the flash of the Pico SDK (hardware/flash.h), read through
-- its memory map, and the coder of lib/picocompress.
use picowal.Prelude.{ℕ, ◌+◌, ◌-◌, ◌≤◌, ◌<◌, ◌≡◌, Option, some, List, length, get_or}

-- The bytes of the flash by their offset.
abbrev pub Mem : Type 0
Mem = ℕ → ℕ

-- `flash_range_erase(off, len)`, `flash_range_program(off, data, len)`, and
-- `pc_compress_buffer(in, len, out, cap)`, `pc_decompress_buffer(in, len, out, cap)`, whose result is
-- the output if they answer PC_OK.
pub record Hw : Type 0 where
  pub erase : Mem → ℕ → ℕ → Mem
  pub program : Mem → ℕ → List ℕ → Mem
  pub compress : List ℕ → ℕ → Option (List ℕ)
  pub decompress : List ℕ → ℕ → Option (List ℕ)

-- Erasing sets every byte of the range to 0xFF. Programming stores a byte where the flash is erased,
-- and leaves a byte alone where it programs 0xFF, which clears no bit. Neither touches anything
-- outside its range. What the coder compressed it decompresses to the same bytes.
pub record HwLaws (hw : Hw) : Type 0 where
  pub erase_in : (m : Mem) (off len a : ℕ) → off ≤ a → a < off + len → hw.erase m off len a ≡ 0xFF
  pub erase_below : (m : Mem) (off len a : ℕ) → a < off → hw.erase m off len a ≡ m a
  pub erase_above : (m : Mem) (off len a : ℕ) → off + len ≤ a → hw.erase m off len a ≡ m a
  pub program_blank :
      (m : Mem) (off : ℕ) (bytes : List ℕ) (a : ℕ)
      → off ≤ a
      → a < off + length bytes
      → m a ≡ 0xFF
      → hw.program m off bytes a ≡ get_or bytes (a - off) 0xFF
  pub program_ones :
      (m : Mem) (off : ℕ) (bytes : List ℕ) (a : ℕ)
      → off ≤ a
      → get_or bytes (a - off) 0xFF ≡ 0xFF
      → hw.program m off bytes a ≡ m a
  pub program_below :
      (m : Mem) (off : ℕ) (bytes : List ℕ) (a : ℕ) → a < off → hw.program m off bytes a ≡ m a
  pub decompress-compress :
      (bytes out : List ℕ) (cap : ℕ)
      → hw.compress bytes cap ≡ some out
      → hw.decompress out (length bytes) ≡ some bytes
