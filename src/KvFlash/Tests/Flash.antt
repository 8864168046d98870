-- ===== src/KvFlash/Tests/Flash.antt =====
-- A flash and a coder that keep their laws: the coder knows runs of zeros.
use picowal.Prelude.{
  ℕ, ◌+◌, ◌-◌, ◌≡◌, refl, Bool, true, Option, some, none, List, [], ◌∷◌, ◌&&◌, arith, length,
  get_or, replicate, ltb, leb, ◌==◌, if◌then◌else◌,
}
use picowal.KvFlash.Hw.{Mem, Hw, HwLaws}

unfoldable pub toy_erase : Mem → ℕ → ℕ → Mem
toy_erase m off len a = if leb off a && ltb a (off + len) then 0xFF else m a

unfoldable pub toy_program : Mem → ℕ → List ℕ → Mem
toy_program m off bytes a =
    if ltb a off
    then m a
    else if get_or bytes (a - off) 0xFF == 0xFF
    then m a
    else if m a == 0xFF
    then get_or bytes (a - off) 0xFF
    else m a

unfoldable pub is_zeros : List ℕ → Bool
is_zeros [] = true
is_zeros (b ∷ bs) = (b == 0) && is_zeros bs

unfoldable pub toy_compress : List ℕ → ℕ → Option (List ℕ)
toy_compress bytes cap = if is_zeros bytes then some [] else none

unfoldable pub toy_decompress : List ℕ → ℕ → Option (List ℕ)
toy_decompress bytes n = some (replicate n 0)

zeros : (bs : List ℕ) → is_zeros bs ≡ true → replicate (length bs) 0 ≡ bs
unfolding is_zeros
zeros [] h = refl
zeros (b ∷ bs) h = ground (arith, zeros bs)

abbrev pub toy : Hw
toy = record {
  erase = toy_erase;
  program = toy_program;
  compress = toy_compress;
  decompress = toy_decompress;
}

pub toy-HwLaws : HwLaws toy
unfolding toy_erase toy_program toy_compress toy_decompress
toy-HwLaws = record {
  erase_in = λ m off len a p q. ground arith;
  erase_below = λ m off len a p. ground arith;
  erase_above = λ m off len a p. ground arith;
  program_blank = λ m off bytes a p q h. ground arith;
  program_ones = λ m off bytes a p h. ground arith;
  program_below = λ m off bytes a p. ground arith;
  decompress-compress = λ bytes out cap' h. ground (arith, zeros bytes);
}
