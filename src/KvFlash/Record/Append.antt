-- ===== src/KvFlash/Record/Append.antt =====
-- `append_record` of src/kv_flash.c on a prepared page with room.
use picowal.Prelude.{ℕ, ◌+◌, ◌%◌, ◌^◌, ◌<◌, ◌≤◌, ◌≡◌, ap, ◌∙◌, List, some, true, arith, length}
use picowal.KvFlash.Hw.{Mem, Hw, HwLaws}
use picowal.KvFlash.Bytes.{Holds, Holds-agree}
use picowal.KvFlash.Loc.{pack_loc}
use picowal.KvFlash.Index.Refs.{sector_count}
use picowal.KvFlash.State.{Kv, sector_size, rec_prefix_size, commit_aligned, max_value, page_addr}
use picowal.KvFlash.Page.{
  header_valid, select_append_page, flash_program_aligned, ensure_page_ready,
  prewarm_next_append_page,
}
use picowal.KvFlash.Page.Program.{program_Holds, program_dropped}
use picowal.KvFlash.Page.Frame.{mem-prewarm, index-prewarm}
use picowal.KvFlash.Record.{Stored, align4, program_buf, encode, append_record}
use picowal.KvFlash.Record.Layout.{length-program_buf}
use picowal.KvFlash.Record.Readback.{length-encode}

-- The write page is prepared, has `need` bytes left at an aligned offset, and is blank from there on.
pub record IsReady (s : Kv) (need : ℕ) : Type 0 where
  pub page_in : s.write_page < sector_count
  pub header : header_valid s.mem s.write_page ≡ true
  pub aligned : s.write_off % 4 ≡ 0
  pub room : s.write_off + need ≤ sector_size
  pub blank :
      (a : ℕ)
      → page_addr s.write_page + s.write_off ≤ a
      → a < page_addr s.write_page + sector_size
      → s.mem a ≡ 0xFF

-- The bytes of the page that a record of this stored form takes, its marker included.
abbrev pub footprint : Stored → ℕ
footprint stored = align4 (rec_prefix_size + length stored.bytes) + commit_aligned

pub align4_bounds : (n : ℕ) → n ≤ 1000 → (n ≤ align4 n) × (align4 n < n + 4)
unfolding align4
align4_bounds n h = omega arith

pub select_append_page-IsReady :
    (s : Kv) (need : ℕ) → IsReady s need → select_append_page s need ≡ (true, s)
unfolding select_append_page header_valid
select_append_page-IsReady s need r = ground arith

pub ensure_page_ready-valid :
    (hw : Hw) (s : Kv) (page : ℕ) → header_valid s.mem page ≡ true → ensure_page_ready hw s page ≡ s
unfolding ensure_page_ready
ensure_page_ready-valid hw s page h = rw h

module _ {hw : Hw} (laws : HwLaws hw) (s : Kv) (key : ℕ) (raw : List ℕ) (version mg : ℕ)
    (ready : IsReady s (footprint (encode hw raw 0))) where
  abbrev stored : Stored
  stored = encode hw raw 0

  abbrev r : ℕ
  r = page_addr s.write_page + s.write_off

  abbrev buf : List ℕ
  buf = program_buf mg key (length raw) version stored

  -- The state before the next page is prepared.
  abbrev programmed : Kv
  programmed = record s {
    mem = flash_program_aligned hw s.mem r buf;
    write_off = (s.write_off + footprint stored) % 2 ^ 16;
  }

  pub append_record-eq : append_record hw s key raw version 0 mg ≡ (
    some (pack_loc s.write_page s.write_off (align4 (rec_prefix_size + length stored.bytes))),
    prewarm_next_append_page hw programmed,
  )
  unfolding append_record
  append_record-eq = rw (
    select_append_page-IsReady s (footprint stored) ready,
    ensure_page_ready-valid hw s s.write_page ready.header,
  )

  pub index-append_record : (append_record hw s key raw version 0 mg).1.index ≡ s.index
  index-append_record = rw append_record-eq (index-prewarm laws programmed)

  -- The record and its marker stand in the flash, if the programming buffer takes them.
  pub append_record-Holds :
      s.write_off % 256 + footprint stored ≤ 768
      → length raw ≤ max_value
      → Holds (append_record hw s key raw version 0 mg).1.mem r buf
  append_record-Holds fits hr =
      let n : length buf ≡ footprint stored =
        length-program_buf mg key (length raw) version stored
          (omega (arith, length-encode laws raw)) in
      let written : Holds programmed.mem r buf =
        program_Holds laws s.mem r buf (omega arith)
          (λ a lo hi. ready.blank a lo (omega (arith, ready.room))) in
      rw append_record-eq (
        Holds-agree programmed.mem (prewarm_next_append_page hw programmed).mem r buf
          (λ a lo hi. mem-prewarm laws programmed a (omega arith) (omega (arith, ready.room)))
          written)

  -- If it does not take them, nothing is written: the page stays blank from the old offset on.
  pub append_record-dropped :
      768 < s.write_off % 256 + footprint stored
      → length raw ≤ max_value
      → (a : ℕ) → r ≤ a
      → a < page_addr s.write_page + sector_size
      → (append_record hw s key raw version 0 mg).1.mem a ≡ 0xFF
  append_record-dropped over hr a lo hi =
      let small : length stored.bytes ≤ 508 = omega (arith, length-encode laws raw) in
      let n : length buf ≡ footprint stored =
        length-program_buf mg key (length raw) version stored small in
      let same : programmed.mem ≡ s.mem =
        program_dropped laws s.mem r buf (omega arith)
          (omega (arith, align4_bounds (rec_prefix_size + length stored.bytes))) in
      rw append_record-eq (
        mem-prewarm laws programmed a (omega arith) (omega (arith, ready.room))
        ∙ ap (λ (m : Mem). m a) same
        ∙ ready.blank a lo hi)
