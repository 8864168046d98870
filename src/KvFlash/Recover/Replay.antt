-- ===== src/KvFlash/Recover/Replay.antt =====
-- What the recovery makes of a record that `append_record` wrote, whole or torn.
use picowal.Prelude.{
  ℕ, zero, suc, ◌∙◌, Bool-cases, inl, inr, true, ◌+◌, ◌%◌, ◌^◌, ◌<◌, ◌≤◌, ◌≡◌, refl, Option, none,
  some, arith, length, leb,
}
use picowal.KvFlash.Hw.{Mem}
use picowal.KvFlash.Bytes.{read16, read32, Holds}
use picowal.KvFlash.Loc.{pack_loc}
use picowal.KvFlash.Index.{Index}
use picowal.KvFlash.State.{
  sector_size, rec_prefix_size, commit_rec_size, commit_aligned, max_value, page_addr,
}
use picowal.KvFlash.Record.{Stored, align4, program_buf}
use picowal.KvFlash.Record.Layout.{IsRecord, Holds-IsRecord}
use picowal.KvFlash.Record.Append.{footprint, align4_bounds}
use picowal.KvFlash.Recover.{Pending, apply_pending, scan_commit, scan_data, scan_round, scan_page}
use picowal.KvFlash.Recover.Marker.{IsMarker, program_buf-group, program_buf-IsMarker}

scan_page-goes :
    (m : Mem) (page off next fuel len : ℕ) (pending pending' : Option Pending) (ix ix' : Index)
    → off + commit_rec_size ≤ sector_size
    → scan_round m page off pending ix ≡ some (pending', ix')
    → read16 m (page_addr page + off) ≡ len
    → (off + align4 len) % 2 ^ 16 ≡ next
    → scan_page (suc fuel) m page off pending ix ≡ scan_page fuel m page next pending' ix'
unfolding scan_page
scan_page-goes m page off next fuel len pending pending' ix ix' h e f g =
    let inside : leb (off + commit_rec_size) sector_size ≡ true = ground arith in
    rw (inside, scan_page) (rw (e, f, g) refl)

scan_page-stops :
    (m : Mem) (page off fuel : ℕ) (pending : Option Pending) (ix : Index)
    → scan_round m page off pending ix ≡ none
    → scan_page fuel m page off pending ix ≡ (off, ix)
unfolding scan_page
scan_page-stops m page off zero pending ix e = refl
scan_page-stops m page off (suc fuel) pending ix e =
    elim (Bool-cases (leb (off + commit_rec_size) sector_size)) [
      | inl inside ↦ rw (inside, scan_page) (rw e refl)
      | inr outside ↦ rw (outside, scan_page) refl
    ]

align4-marker : align4 commit_aligned ≡ commit_aligned
unfolding align4
align4-marker = refl

module _ (m : Mem) (page off mg key raw_len version : ℕ) (stored : Stored) where
  abbrev r : ℕ
  r = page_addr page + off

  abbrev rec_len : ℕ
  rec_len = rec_prefix_size + length stored.bytes

  -- What the record is while it is pending.
  abbrev pub staged : Pending
  staged = record {
    key = key;
    loc = pack_loc page off (align4 rec_len);
    version = version;
    flags = stored.flags;
    mutation_group = mg;
  }

  module _ (small : length stored.bytes ≤ max_value)
      (room : off + footprint stored ≤ sector_size) where
    scan_data-IsRecord :
        (pending : Option Pending)
        → IsRecord m r key raw_len version stored
        → read32 m (r + 2) ≡ mg
        → scan_data m page off pending ≡ some staged
    unfolding scan_data
    scan_data-IsRecord pending is group =
        rw
          (
            is.rec_len, is.key_field, is.store_len, is.version_field, is.flags, is.stored_bytes,
            is.checksum, group,
          )
          (ground arith)

    round_of_record :
        (pending : Option Pending) (ix : Index)
        → IsRecord m r key raw_len version stored
        → read32 m (r + 2) ≡ mg
        → scan_round m page off pending ix ≡ some (some staged, ix)
    unfolding scan_round
    round_of_record pending ix is group = ground (
      arith,
      is.rec_len,
      is.magic,
      is.store_len,
      align4_bounds rec_len (omega arith),
      scan_data-IsRecord pending is group,
    )

    abbrev off' : ℕ
    off' = off + align4 rec_len

    scan_commit-IsMarker :
        (c : ℕ) (ix : Index)
        → IsMarker m c mg
        → scan_commit m c (some staged) ix ≡ apply_pending ix staged
    unfolding scan_commit
    scan_commit-IsMarker c ix is = ground (arith, is.checksum, is.group)

    round_of_marker :
        (ix : Index)
        → IsMarker m (r + align4 rec_len) mg
        → scan_round m page off' (some staged) ix ≡ some (none, apply_pending ix staged)
    unfolding scan_round
    round_of_marker ix is =
        let e : page_addr page + off' ≡ r + align4 rec_len = omega arith in
        rw e (ground (arith, is.rec_len, is.magic, scan_commit-IsMarker (r + align4 rec_len) ix is))

    erased :
        (ix : Index)
        → read16 m (r + align4 rec_len) ≡ 0xFFFF
        → scan_round m page off' (some staged) ix ≡ none
    unfolding scan_round
    erased ix blank =
        let e : page_addr page + off' ≡ r + align4 rec_len = omega arith in
        rw e (ground (arith, blank))

    -- Where the flash holds a record, and is still erased where its marker would begin, the recovery
    -- stops there and leaves the index as it is: a write that was cut off is not seen.
    pub scan_page-torn :
        (fuel : ℕ) (pending : Option Pending) (ix : Index)
        → IsRecord m r key raw_len version stored
        → read32 m (r + 2) ≡ mg
        → read16 m (r + align4 rec_len) ≡ 0xFFFF
        → scan_page (suc fuel) m page off pending ix ≡ (off + align4 rec_len, ix)
    scan_page-torn fuel pending ix is group blank =
        scan_page-goes m page off off' fuel rec_len pending (some staged) ix ix (omega arith)
          (round_of_record pending ix is group) is.rec_len (omega arith)
        ∙ scan_page-stops m page off' fuel (some staged) ix (erased ix blank)

    module _ (mg_in : mg < 2 ^ 32) (key_in : key < 2 ^ 32) (raw_in : raw_len ≤ max_value)
        (version_in : version < 2 ^ 16) where
      round_of_program_buf :
          (pending : Option Pending) (ix : Index)
          → Holds m r (program_buf mg key raw_len version stored)
          → scan_round m page off pending ix ≡ some (some staged, ix)
      round_of_program_buf pending ix h =
          round_of_record pending ix
            (Holds-IsRecord m r mg key raw_len version stored mg_in key_in raw_in version_in small
              h)
            (program_buf-group m r mg key raw_len version stored mg_in small h)

      -- Where the flash holds a record and its marker, as `append_record` programs them, the recovery
      -- passes over both and applies the record to the index; nothing is pending afterwards.
      pub scan_page-program_buf :
          (fuel : ℕ) (pending : Option Pending) (ix : Index)
          → Holds m r (program_buf mg key raw_len version stored)
          → scan_page (suc (suc fuel)) m page off pending ix
            ≡ scan_page fuel m page (off + footprint stored) none (apply_pending ix staged)
      scan_page-program_buf fuel pending ix h =
          let is =
            Holds-IsRecord m r mg key raw_len version stored mg_in key_in raw_in version_in small
              h in
          let marker : IsMarker m (page_addr page + off') mg =
            let e : page_addr page + off' ≡ r + align4 rec_len = omega arith in
            rw e (program_buf-IsMarker m r mg key raw_len version stored mg_in small h) in
          scan_page-goes m page off off' (suc fuel) rec_len pending (some staged) ix ix
            (omega arith) (round_of_program_buf pending ix h) is.rec_len (omega arith)
          ∙ scan_page-goes m page off' (off + footprint stored) fuel commit_aligned (some staged)
              none ix (apply_pending ix staged) (omega arith)
              (round_of_marker ix
                (program_buf-IsMarker m r mg key raw_len version stored mg_in small h))
              marker.rec_len (omega (arith, align4-marker))
