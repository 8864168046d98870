-- ===== src/Crc/Tests.antt =====
-- Concrete runs of the checksum.
use Prim.Native.Nat.{bit_xor}
use picowal.Prelude.{ℕ, ◌%◌, ◌≡◌, ◌≢◌, ◌++◌, refl, true, List, [], ◌∷◌, arith}
use picowal.Crc.{crc32_tab, crc32_step, crc32_loop, crc32}
use picowal.Crc.Serial.{
  serial_crc32, is_misprinted, Bytes, AvoidsMisprints, crc32-eq-serial, crc32-ne-serial,
}

abbrev hello : List ℕ
hello = 104 ∷ 101 ∷ 108 ∷ 108 ∷ 111 ∷ []

avoids : AvoidsMisprints 0xFFFF_FFFF hello
unfolding is_misprinted crc32_step crc32_tab
avoids = (refl, (refl, (refl, (refl, (refl, tt)))))

hello-Bytes : Bytes hello
hello-Bytes = (omega arith, (omega arith, (omega arith, (omega arith, (omega arith, tt)))))

crc32-eq-serial_example : crc32 hello ≡ serial_crc32 hello
crc32-eq-serial_example = crc32-eq-serial hello hello-Bytes avoids

hits : is_misprinted (bit_xor (crc32_loop 0xFFFF_FFFF []) 245 % 256) ≡ true
unfolding is_misprinted crc32_loop
hits = refl

crc32-ne-serial_example : crc32 ([] ++ 245 ∷ []) ≢ serial_crc32 ([] ++ 245 ∷ [])
crc32-ne-serial_example = crc32-ne-serial [] 245 tt (omega arith) tt hits
