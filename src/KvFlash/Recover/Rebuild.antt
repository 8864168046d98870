-- ===== src/KvFlash/Recover/Rebuild.antt =====
-- The index that `kv_init` of src/kv_flash.c leaves.
use picowal.Prelude.{
  ℕ, zero, suc, ◌+◌, ◌<◌, ◌≤◌, ◌≡◌, ◌&&◌, Option, none, some, ltb, leb, ◌==◌, arith, Option-cases,
  inl, inr, if_intro,
}
use Prim.Native.Nat.{bit_and}
use mathlib.Core.Path.{subst}
use picowal.KvFlash.Hw.{Mem}
use picowal.KvFlash.Bytes.{read16, read32, read_bytes}
use picowal.Crc.{crc32}
use picowal.KvFlash.Page.{header_valid}
use picowal.KvFlash.Loc.{clamp10, pack_loc, unpack_loc}
use picowal.KvFlash.Index.{Index, idx_find_linear, page_of}
use picowal.KvFlash.Index.Refs.{sector_count, IsCounted}
use picowal.KvFlash.Index.Idle.{Reach, empty_index, start, store, drop_key, Reach-IsCounted}
use picowal.KvFlash.State.{
  Kv, page_addr, flag_tomb, sector_size, commit_rec_size, page_hdr_size, rec_prefix_size,
  record_magic, commit_magic,
}
use picowal.KvFlash.Record.{align4}
use picowal.KvFlash.Recover.{
  Pending, apply_pending, supersedes, scan_commit, scan_data, scan_round, scan_page, scan_fuel,
  Scan, init_page, init_pages, kv_init,
}

pub page_of-pack_loc : (page off len : ℕ) → page < 4096 → page_of (pack_loc page off len) ≡ page
unfolding pack_loc clamp10 unpack_loc
page_of-pack_loc page off len h = ground arith

-- The page of what is pending is a page of the region.
OnRegion : Option Pending → Type 0
OnRegion none = Unit
OnRegion (some p) = page_of p.loc < sector_count

apply_pending-Reach :
    (ix : Index) (p : Pending)
    → page_of p.loc < sector_count
    → Reach ix
    → Reach (apply_pending ix p)
unfolding apply_pending
apply_pending-Reach ix p h r =
    if_intro Reach (supersedes ix (idx_find_linear ix.entries p.key) p.version)
      (λ _.
        if_intro Reach (bit_and p.flags flag_tomb == 0)
          (λ _. store p.key p.loc p.version p.flags h r) (λ _. drop_key p.key r))
      (λ _. r)

scan_commit-Reach :
    (m : Mem) (r : ℕ) (pending : Option Pending) (ix : Index)
    → OnRegion pending
    → Reach ix
    → Reach (scan_commit m r pending ix)
unfolding scan_commit OnRegion
scan_commit-Reach m r none ix h reach = reach
scan_commit-Reach m r (some p) ix h reach =
    if_intro Reach
      ((read32 m (r + 10) == crc32 (read_bytes m (r + 2) 8))
        && (read32 m (r + 2) == p.mutation_group))
      (λ _. apply_pending-Reach ix p h reach) (λ _. reach)

OnRegion-some : (p : Pending) → page_of p.loc < sector_count → OnRegion (some p)
unfolding OnRegion
OnRegion-some p h = h

OnRegion-none : OnRegion none
unfolding OnRegion
OnRegion-none = tt

scan_data-OnRegion :
    (m : Mem) (page off : ℕ) (pending : Option Pending)
    → page < sector_count
    → OnRegion pending
    → OnRegion (scan_data m page off pending)
unfolding scan_data
scan_data-OnRegion m page off pending h on =
    let r = page_addr page + off in
    let loc = pack_loc page off (align4 (read16 m r)) in
    let on_page : page_of loc < sector_count =
      rw (page_of-pack_loc page off (align4 (read16 m r)) (omega arith)) h in
    if_intro OnRegion
      (crc32 (read_bytes m (r + rec_prefix_size) (read16 m (r + 16))) == read32 m (r + 22))
      (λ _.
        OnRegion-some
          (record {
            key = read32 m (r + 10);
            loc = loc;
            version = read16 m (r + 18);
            flags = m (r + 20);
            mutation_group = read32 m (r + 2);
          })
          on_page)
      (λ _. on)

-- What a round leaves, if it does not break.
Good : Option (Option Pending × Index) → Type 0
Good none = Unit
Good (some (pending, ix)) = OnRegion pending × Reach ix

Good-none : Good none
unfolding Good
Good-none = tt

Good-some :
    (pending : Option Pending) (ix : Index)
    → OnRegion pending
    → Reach ix
    → Good (some (pending, ix))
unfolding Good
Good-some pending ix on reach = (on, reach)

Good-parts :
    (pending : Option Pending) (ix : Index)
    → Good (some (pending, ix))
    → OnRegion pending × Reach ix
unfolding Good
Good-parts pending ix good = good

scan_round-Good :
    (m : Mem) (page off : ℕ) (pending : Option Pending) (ix : Index)
    → page < sector_count
    → OnRegion pending
    → Reach ix
    → Good (scan_round m page off pending ix)
unfolding scan_round
scan_round-Good m page off pending ix h on reach =
    let r = page_addr page + off in
    let rec_len = read16 m r in
    let ends = ltb sector_size (off + rec_len) in
    let committed =
      Good-some none (scan_commit m r pending ix) OnRegion-none
        (scan_commit-Reach m r pending ix on reach) in
    let staged =
      Good-some (scan_data m page off pending) ix (scan_data-OnRegion m page off pending h on)
        reach in
    if_intro Good (rec_len == 0xFFFF) (λ _. Good-none)
      λ _.
        if_intro Good (rec_len == 0) (λ _. Good-none)
          λ _.
            if_intro Good (read32 m (r + 6) == commit_magic)
              (λ _.
                if_intro Good (ltb rec_len commit_rec_size) (λ _. Good-none)
                  λ _. if_intro Good ends (λ _. Good-none) (λ _. committed))
              (λ _.
                if_intro Good (read32 m (r + 6) == record_magic)
                  (λ _.
                    if_intro Good (ltb rec_len rec_prefix_size) (λ _. Good-none)
                      λ _.
                        if_intro Good ends (λ _. Good-none)
                          λ _.
                            if_intro Good (ltb rec_len (rec_prefix_size + read16 m (r + 16)))
                              (λ _. Good-none) (λ _. staged))
                  (λ _. Good-none))

scan_page-Reach :
    (fuel : ℕ) (m : Mem) (page off : ℕ) (pending : Option Pending) (ix : Index)
    → page < sector_count
    → OnRegion pending
    → Reach ix
    → Reach (scan_page fuel m page off pending ix).1
unfolding scan_page
scan_page-Reach zero m page off pending ix h on reach = reach
scan_page-Reach (suc fuel) m page off pending ix h on reach =
    if_intro (λ (q : ℕ × Index). Reach q.1) (leb (off + commit_rec_size) sector_size)
      (λ _. elim (Option-cases (scan_round m page off pending ix)) [
        | inl e ↦ rw e reach
        | inr ((pending', ix'), e) ↦
            let good =
              Good-parts pending' ix'
                (subst Good e (scan_round-Good m page off pending ix h on reach)) in
            rw e (scan_page-Reach fuel m page _ pending' ix' h good.0 good.1)
      ])
      (λ _. reach)

init_page-Reach :
    (m : Mem) (s : Scan) (page : ℕ)
    → page < sector_count
    → Reach s.index
    → Reach (init_page m s page).index
unfolding init_page
init_page-Reach m s page h r =
    if_intro (λ (t : Scan). Reach t.index) (header_valid m page)
      (λ _. scan_page-Reach scan_fuel m page page_hdr_size none s.index h OnRegion-none r) (λ _. r)

init_pages-Reach :
    (n : ℕ) (m : Mem) (s : Scan) (page : ℕ)
    → page + n ≤ sector_count
    → Reach s.index
    → Reach (init_pages n m s page).index
unfolding init_pages
init_pages-Reach zero m s page h r = r
init_pages-Reach (suc n) m s page h r =
    init_pages-Reach n m (init_page m s page) (page + 1) (omega arith)
      (init_page-Reach m s page (omega arith) r)

-- Whatever stands on the flash, the recovery gives an index that `idx_set` and `idx_remove` can build
-- from the empty one: it is sorted, within its arrays, and its page counts are right.
pub kv_init-IsCounted : (s : Kv) → Reach (kv_init s).index × IsCounted (kv_init s).index
unfolding kv_init
kv_init-IsCounted s =
    let reach =
      init_pages-Reach sector_count s.mem
        (record { index = empty_index; page_sequence = 0; last = none }) 0 (omega arith) start in
    (reach, Reach-IsCounted reach)
