-- ===== src/KvFlash/Page/Program.antt =====
-- The flash after `flash_program_aligned` of src/kv_flash.c.
use picowal.Prelude.{
  ℕ, ◌+◌, ◌-◌, ◌*◌, ◌/◌, ◌%◌, ◌<◌, ◌≤◌, ◌≡◌, List, ◌++◌, arith, length, get_or, replicate, ltb,
  if◌then◌else◌, get_or-append, get_or-replicate, get_or_beyond, length-append, length-replicate,
}
use picowal.KvFlash.Hw.{Mem, Hw, HwLaws}
use picowal.KvFlash.Bytes.{Holds, Holds-get_or}
use picowal.KvFlash.Page.{padded, prog_len, flash_program_aligned}

-- The padding programs 0xFF, the bytes stand at their place.
get_or-padded :
    (intra : ℕ) (bytes : List ℕ) (n i : ℕ)
    → get_or (padded intra bytes n) i 0xFF
      ≡ (if ltb i intra then 0xFF else get_or bytes (i - intra) 0xFF)
unfolding padded
get_or-padded intra bytes n i = ground (
  arith,
  get_or-append (replicate intra 0xFF) (bytes ++ replicate (n - intra - length bytes) 0xFF) i 0xFF,
  get_or-append bytes (replicate (n - intra - length bytes) 0xFF) (i - intra) 0xFF,
  get_or-replicate {A = ℕ} intra i 0xFF,
  length-replicate {A = ℕ} intra 0xFF,
  get_or-replicate {A = ℕ} (n - intra - length bytes) (i - intra - length bytes) 0xFF,
  get_or_beyond bytes (i - intra) 0xFF,
)

length-padded :
    (intra : ℕ) (bytes : List ℕ) (n : ℕ)
    → intra + length bytes ≤ n
    → length (padded intra bytes n) ≡ n
unfolding padded
length-padded intra bytes n h = omega (
  arith,
  length-append (replicate intra 0xFF) (bytes ++ replicate (n - intra - length bytes) 0xFF),
  length-append bytes (replicate (n - intra - length bytes) 0xFF),
  length-replicate {A = ℕ} intra 0xFF,
  length-replicate {A = ℕ} (n - intra - length bytes) 0xFF,
)

module _ {hw : Hw} (laws : HwLaws hw) (m : Mem) (off : ℕ) (bytes : List ℕ) where
  abbrev m' : Mem
  m' = flash_program_aligned hw m off bytes

  -- A blank place takes its byte.
  program_at :
      (a : ℕ)
      → off % 256 + length bytes ≤ 768
      → off ≤ a
      → a < off + length bytes
      → m a ≡ 0xFF
      → m' a ≡ get_or bytes (a - off) 0xFF
  unfolding flash_program_aligned
  program_at a fits lo hi blank = ground (
    arith,
    laws.program_blank m (off / 256 * 256) (padded (off % 256) bytes n) a,
    length-padded (off % 256) bytes n,
    get_or-padded (off % 256) bytes n (a - off / 256 * 256),
    same,
  )
    where
      n : ℕ
      n = prog_len (off % 256) (length bytes)

      same : get_or bytes (a - off / 256 * 256 - off % 256) 0xFF ≡ get_or bytes (a - off) 0xFF
      same = let e : a - off / 256 * 256 - off % 256 ≡ a - off = omega arith in rw e

  pub program_below_same : (a : ℕ) → a < off → m' a ≡ m a
  unfolding flash_program_aligned
  program_below_same a h = ground (
    arith,
    laws.program_below m (off / 256 * 256) (padded (off % 256) bytes n) a,
    laws.program_ones m (off / 256 * 256) (padded (off % 256) bytes n) a,
    get_or-padded (off % 256) bytes n (a - off / 256 * 256),
  )
    where
      n : ℕ
      n = prog_len (off % 256) (length bytes)

  pub program_above_same : (a : ℕ) → off + length bytes ≤ a → m' a ≡ m a
  unfolding flash_program_aligned
  program_above_same a h = ground (
    arith,
    laws.program_ones m (off / 256 * 256) (padded (off % 256) bytes n) a,
    get_or-padded (off % 256) bytes n (a - off / 256 * 256),
    get_or_beyond bytes (a - off / 256 * 256 - off % 256) 0xFF,
  )
    where
      n : ℕ
      n = prog_len (off % 256) (length bytes)

  -- On a blank stretch the bytes can be read back.
  pub program_Holds :
      off % 256 + length bytes ≤ 768
      → ((a : ℕ) → off ≤ a → a < off + length bytes → m a ≡ 0xFF)
      → Holds m' off bytes
  program_Holds fits blank = Holds-get_or m' off bytes λ i p q. program_at i fits p q (blank i p q)

  -- A range that is too long for the buffer is not written at all.
  pub program_dropped : 768 < off % 256 + length bytes → length bytes < 60000 → m' ≡ m
  unfolding flash_program_aligned
  program_dropped h k = ground arith
