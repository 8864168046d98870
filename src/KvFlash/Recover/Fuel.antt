-- ===== src/KvFlash/Recover/Fuel.antt =====
-- The rounds of the inner loop of the recovery in src/kv_flash.c.
use picowal.Prelude.{
  ℕ, zero, suc, ◌+◌, ◌*◌, ◌%◌, ◌^◌, ◌<◌, ◌≤◌, ◌≡◌, refl, false, Option, some, arith, leb,
  Bool-cases, Option-cases, inl, inr,
}
use picowal.KvFlash.Hw.{Mem}
use picowal.KvFlash.Bytes.{read16}
use picowal.KvFlash.Index.{Index}
use picowal.KvFlash.State.{sector_size, commit_rec_size, page_addr}
use picowal.KvFlash.Record.{align4}
use picowal.KvFlash.Recover.{Pending, scan_round, scan_page, scan_fuel}

-- A round that does not break found a length that it can step over.
scan_round_steps :
    (m : Mem) (page off : ℕ) (pending : Option Pending) (ix : Index) (q : Option Pending × Index)
    → scan_round m page off pending ix ≡ some q
    → (14 ≤ read16 m (page_addr page + off)) × (off + read16 m (page_addr page + off) ≤ sector_size)
unfolding scan_round
scan_round_steps m page off pending ix q e = ground arith

align4-step :
    (len : ℕ)
    → 14 ≤ len
    → len ≤ 4096
    → (len ≤ align4 len) × (16 ≤ align4 len) × (align4 len < len + 4)
unfolding align4
align4-step len p q = omega arith

scan_page-outside :
    (fuel : ℕ) (m : Mem) (page off : ℕ) (pending : Option Pending) (ix : Index)
    → sector_size < off + commit_rec_size
    → scan_page fuel m page off pending ix ≡ (off, ix)
unfolding scan_page
scan_page-outside zero m page off pending ix h = refl
scan_page-outside (suc fuel) m page off pending ix h =
    let outside : leb (off + commit_rec_size) sector_size ≡ false = ground arith in
    rw (outside, scan_page) refl

scan_page-more :
    (fuel more : ℕ) (m : Mem) (page off : ℕ) (pending : Option Pending) (ix : Index)
    → fuel ≤ more
    → sector_size ≤ off + 16 * fuel
    → scan_page more m page off pending ix ≡ scan_page fuel m page off pending ix
unfolding scan_page
scan_page-more zero more m page off pending ix h g =
    scan_page-outside more m page off pending ix (omega arith)
scan_page-more (suc fuel) zero m page off pending ix h g = absurd (omega arith)
scan_page-more (suc fuel) (suc more) m page off pending ix h g =
    elim (Bool-cases (leb (off + commit_rec_size) sector_size)) [
      | inr outside ↦ rw (outside, scan_page) refl
      | inl inside ↦
          rw (inside, scan_page)
            (elim (Option-cases (scan_round m page off pending ix)) [
              | inl e ↦ rw e refl
              | inr ((pending', ix'), e) ↦
                  let len = read16 m (page_addr page + off) in
                  let steps = scan_round_steps m page off pending ix (pending', ix') e in
                  let bounds = align4-step len steps.0 (omega arith) in
                  rw e (
                    scan_page-more fuel more m page ((off + align4 len) % 2 ^ 16) pending' ix'
                      (omega arith) (omega arith))
            ])
    ]

-- The fuel of the inner loop is enough: from any offset, more fuel gives the same result.
pub scan_page-enough :
    (more : ℕ) (m : Mem) (page off : ℕ) (pending : Option Pending) (ix : Index)
    → scan_fuel ≤ more
    → scan_page more m page off pending ix ≡ scan_page scan_fuel m page off pending ix
scan_page-enough more m page off pending ix h =
    scan_page-more scan_fuel more m page off pending ix h (omega arith)
