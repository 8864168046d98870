-- ===== src/KvFlash/Deadlog/Frame.antt =====
-- The parts of the flash outside the dead log of src/kv_flash.c, under its operations.
use picowal.Prelude.{
  ℕ, zero, suc, ◌+◌, ◌%◌, ◌<◌, ◌≡◌, refl, ◌++◌, arith, Bool-cases, inl, inr, leb, ◌==◌,
  if◌then◌else◌, ◌∙◌,
}
use picowal.KvFlash.Hw.{Mem, Hw, HwLaws}
use picowal.KvFlash.Bytes.{le16}
use picowal.KvFlash.State.{Kv, sector_size, deadlog_start, deadlog_addr}
use picowal.KvFlash.Page.Program.{program_below_same}
use picowal.KvFlash.Deadlog.{
  deadlog_hdrbuf, deadlog_reset_page, deadlog_init_page_if_needed, deadlog_put, deadlog_restart,
  deadlog_append_loop, deadlog_append, deadlog_hdr_size, skip_entries, skip_fuel,
}

-- The records' region and the index are the same in both states.
pub record SameStore (s t : Kv) : Type 0 where
  pub mem : (a : ℕ) → a < deadlog_start → t.mem a ≡ s.mem a
  pub index : t.index ≡ s.index

SameStore-trans : {s t u : Kv} → SameStore s t → SameStore t u → SameStore s u
SameStore-trans p q = record { mem = λ a h. q.mem a h ∙ p.mem a h; index = q.index ∙ p.index }

module _ {hw : Hw} (laws : HwLaws hw) where
  mem-init :
      (m : Mem) (p a : ℕ) → a < deadlog_start → (deadlog_init_page_if_needed hw m p).1 a ≡ m a
  unfolding deadlog_init_page_if_needed
  mem-init m p a h = ground (arith, laws.program_below m (deadlog_addr p) deadlog_hdrbuf a)

  deadlog_put-SameStore :
      (s : Kv) (p off page_idx : ℕ) → SameStore s (deadlog_put hw s p off page_idx)
  unfolding deadlog_put
  deadlog_put-SameStore s p off page_idx = record {
    mem = λ a h.
        program_below_same laws s.mem (deadlog_addr p + off) (le16 page_idx ++ le16 0) a
          (omega arith);
    index = refl;
  }

  SameStore-put :
      (s s' : Kv) (p off page_idx : ℕ)
      → SameStore s s'
      → SameStore s (deadlog_put hw s' p off page_idx)
  SameStore-put s s' p off page_idx same =
      SameStore-trans same (deadlog_put-SameStore s' p off page_idx)

  deadlog_restart-SameStore :
      (s : Kv) (page_idx : ℕ) → SameStore s (deadlog_restart hw s page_idx).1
  unfolding deadlog_restart deadlog_reset_page
  deadlog_restart-SameStore s page_idx =
      elim (Bool-cases (deadlog_init_page_if_needed hw erased p).0) [
        | inl e ↦ rw (e, deadlog_restart) (SameStore-put s s' p deadlog_hdr_size page_idx same)
        | inr e ↦ rw (e, deadlog_restart) same
      ]
    where
      p : ℕ
      p = s.deadlog_write_page

      erased : Mem
      erased = deadlog_reset_page hw s.mem p

      s' : Kv
      s' = record s {
        mem = (deadlog_init_page_if_needed hw erased p).1;
        deadlog_write_off = deadlog_hdr_size;
      }

      same : SameStore s s'
      same = record {
        mem = λ a h.
            mem-init erased p a h
            ∙ laws.erase_below s.mem (deadlog_addr p) sector_size a (omega arith);
        index = refl;
      }

  loop-SameStore :
      (n : ℕ) (s : Kv) (start start_off i page_idx : ℕ)
      → SameStore s (deadlog_append_loop hw n s start start_off i page_idx).1
  unfolding deadlog_append_loop
  loop-SameStore zero s start start_off i page_idx = deadlog_restart-SameStore s page_idx
  loop-SameStore (suc n) s start start_off i page_idx =
      elim (Bool-cases (deadlog_init_page_if_needed hw s.mem p).0) [
        | inr e ↦
            rw (e, deadlog_append_loop)
              (SameStore-trans same (loop-SameStore n s' start start_off (i + 1) page_idx))
        | inl e ↦
            rw (e, deadlog_append_loop)
              (elim (Bool-cases (leb (off + 4) sector_size)) [
                | inl f ↦ rw f (SameStore-put s s' p off page_idx same)
                | inr f ↦
                    rw f
                      (SameStore-trans same (loop-SameStore n s' start start_off (i + 1) page_idx))
              ])
      ]
    where
      p : ℕ
      p = (start + i) % 4

      s' : Kv
      s' = record s { mem = (deadlog_init_page_if_needed hw s.mem p).1 }

      off : ℕ
      off =
          skip_entries skip_fuel s'.mem (deadlog_addr p)
            (if p == start then start_off else deadlog_hdr_size)

      same : SameStore s s'
      same = record { mem = λ a h. mem-init s.mem p a h; index = refl }

  pub deadlog_append-SameStore :
      (s : Kv) (page_idx : ℕ) → SameStore s (deadlog_append hw s page_idx).1
  unfolding deadlog_append
  deadlog_append-SameStore s page_idx =
      loop-SameStore 4 s s.deadlog_write_page s.deadlog_write_off 0 page_idx
