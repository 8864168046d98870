-- ===== src/KvFlash/Store/Roundtrip.antt =====
-- `kv_put` and `kv_get_copy` of src/kv_flash.c, one after the other.
use picowal.Prelude.{
  ℕ, ◌+◌, ◌*◌, ◌/◌, ◌%◌, ◌^◌, ◌<◌, ◌≤◌, ◌≡◌, refl, ap, ◌∙◌, ◌⊎◌, List, Option, none, some, true,
  false, arith, length, ltb, ◌==◌, ◌&&◌,
}
use mathlib.Core.Bool.{not}
use picowal.KvFlash.Hw.{Mem, Hw, HwLaws}
use picowal.KvFlash.Bytes.{read32, read32-blank, Holds, Holds-agree}
use picowal.KvFlash.Loc.{pack_loc, unpack_loc, unpack_loc-pack_loc}
use picowal.KvFlash.Index.{Entry, entry, index_capacity, page_of, idx_get, idx_set}
use picowal.KvFlash.Index.Table.{IsTable, idx_set_lem}
use picowal.KvFlash.State.{Kv, rec_prefix_size, max_value, version_any, page_addr}
use picowal.KvFlash.Record.{Stored, align4, program_buf, encode, append_record, read_record}
use picowal.KvFlash.Record.Layout.{length-program_buf, Holds-IsRecord}
use picowal.KvFlash.Record.Readback.{length-encode, encode-IsEncoding, read_record-IsRecord}
use picowal.KvFlash.Record.Append.{
  IsReady, footprint, align4_bounds, append_record-dropped, append_record-eq, index-append_record,
  append_record-Holds,
}
use picowal.KvFlash.Deadlog.Frame.{SameStore, deadlog_append-SameStore}
use picowal.KvFlash.Store.{next_version, version_of, bury_old, kv_put_if_version, kv_get_copy}

bury_old-SameStore :
    {hw : Hw} → HwLaws hw → (s : Kv) (old : Option Entry) → SameStore s (bury_old hw s old)
unfolding bury_old
bury_old-SameStore laws s none = record { mem = λ a h. refl; index = refl }
bury_old-SameStore laws s (some old) = deadlog_append-SameStore laws s (page_of old.loc)

kv_get_copy-found :
    (hw : Hw) (s : Kv) (key cap' : ℕ) (e : Entry)
    → idx_get s.index key ≡ some e
    → kv_get_copy hw s key cap' ≡ read_record hw s.mem e.loc key cap'
unfolding kv_get_copy
kv_get_copy-found hw s key cap' e h = rw (h, kv_get_copy)

-- Erased flash is no record.
read_record-blank :
    (hw : Hw) (m : Mem) (loc page off len key cap' : ℕ)
    → unpack_loc loc ≡ record { page = page; off_bytes = off; len_bytes = len }
    → ((a : ℕ) → page_addr page + off ≤ a → a < page_addr page + off + 10 → m a ≡ 0xFF)
    → read_record hw m loc key cap' ≡ none
unfolding read_record
read_record-blank hw m loc page off len key cap' hl blank =
    let empty : read32 m (page_addr page + off + 6) ≡ 0xFFFF_FFFF =
      read32-blank m _ (λ a lo hi. blank a (omega arith) (omega arith)) in
    rw hl (ground (arith, empty))

module _ {hw : Hw} (laws : HwLaws hw) (s : Kv) (key : ℕ) (value : List ℕ) (expected : ℕ) where
  abbrev old : Option Entry
  old = idx_get s.index key

  abbrev mg : ℕ
  mg = (s.mutation_group + 1) % 2 ^ 32

  abbrev s0 : Kv
  s0 = record s { mutation_group = mg }

  abbrev ver : ℕ
  ver = next_version (version_of old)

  abbrev s1 : Kv
  s1 = (append_record hw s0 key value ver 0 mg).1

  abbrev stored : Stored
  stored = encode hw value 0

  abbrev new_loc : ℕ
  new_loc = pack_loc s.write_page s.write_off (align4 (rec_prefix_size + length stored.bytes))

  abbrev s2 : Kv
  s2 = record s1 { index = (idx_set s1.index key new_loc ver 0).1 }

  module _ (table : IsTable s.index) (room : length s.index.entries < index_capacity)
      (version : (expected ≡ version_any) ⊎ (expected ≡ version_of old)) (key_in : key < 2 ^ 32)
      (len_in : length value ≤ max_value) (ready : IsReady s (footprint stored)) where
    ready0 : IsReady s0 (footprint stored)
    ready0 = record {
      page_in = ready.page_in;
      header = ready.header;
      aligned = ready.aligned;
      room = ready.room;
      blank = ready.blank;
    }

    index_s1 : s1.index ≡ s.index
    index_s1 = index-append_record laws s0 key value ver mg ready0

    idx_set_ok : (idx_set s1.index key new_loc ver 0).0 ≡ true
    idx_set_ok = rw index_s1 (ground (arith, (idx_set_lem s.index key new_loc ver 0 table).0))

    short : ltb max_value (length value) ≡ false
    short = ground arith

    agreed : (not (expected == version_any) && not (expected == version_of old)) ≡ false
    agreed = ground arith

    loc_eq : (append_record hw s0 key value ver 0 mg).0 ≡ some new_loc
    loc_eq = ap (λ (q : Option ℕ × Kv). q.0) (append_record-eq laws s0 key value ver mg ready0)

    put_eq : kv_put_if_version hw s key value expected ≡ (some ver, bury_old hw s2 old)
    unfolding kv_put_if_version
    put_eq = rw (short, kv_put_if_version) (rw agreed (rw loc_eq (rw idx_set_ok refl)))

    get_set : idx_get (idx_set s.index key new_loc ver 0).1 key ≡ some (entry key new_loc ver 0)
    get_set = ground (
      arith,
      (idx_set_lem s.index key new_loc ver 0 table).0,
      (idx_set_lem s.index key new_loc ver 0 table).1 key,
    )

    get_after : idx_get (bury_old hw s2 old).index key ≡ some (entry key new_loc ver 0)
    get_after =
        ap (λ i. idx_get i key) (bury_old-SameStore laws s2 old).index
        ∙ ap (λ i. idx_get (idx_set i key new_loc ver 0).1 key) index_s1
        ∙ get_set

    small : length stored.bytes ≤ max_value
    small = omega (arith, length-encode laws value)

    -- The location that the index holds unpacks to the place of the record.
    loc_unpacks : unpack_loc new_loc ≡ record {
      page = s.write_page;
      off_bytes = s.write_off;
      len_bytes = (align4 (rec_prefix_size + length stored.bytes) + 3) / 4 * 4;
    }
    loc_unpacks =
        let q : s.write_off ≡ s.write_off / 4 * 4 = omega (arith, ready.aligned) in
        rw q
          (unpack_loc-pack_loc s.write_page (s.write_off / 4)
            (align4 (rec_prefix_size + length stored.bytes)) (omega (arith, ready.page_in))
            (omega (arith, ready.room)) (omega (arith, ready.room))).0

    holds :
        s.write_off % 256 + footprint stored ≤ 768
        → Holds
            (bury_old hw s2 old).mem
            (page_addr s.write_page + s.write_off)
            (program_buf mg key (length value) ver stored)
    holds fits =
        Holds-agree s2.mem (bury_old hw s2 old).mem _ _
          (λ a lo hi. (bury_old-SameStore laws s2 old).mem a (
            omega (
              arith,
              ready.room,
              ready.page_in,
              length-program_buf mg key (length value) ver stored small,
            )))
          (append_record-Holds laws s0 key value ver mg ready0 fits len_in)

    ver_in : ver < 2 ^ 16
    unfolding next_version
    ver_in = ground arith

    -- A value that is put on a prepared page with room, whose record the programming buffer takes, is
    -- read back, with the version that the put returned.
    pub kv_get_copy-kv_put :
        (cap' : ℕ)
        → length value ≤ cap'
        → s.write_off % 256 + footprint stored ≤ 768
        → ((kv_put_if_version hw s key value expected).0 ≡ some ver)
          × (kv_get_copy hw (kv_put_if_version hw s key value expected).1 key cap'
              ≡ some (value, ver))
    kv_get_copy-kv_put cap' hc fits =
        let s3 = bury_old hw s2 old in
        let back : read_record hw s3.mem new_loc key cap' ≡ some (value, ver) =
          read_record-IsRecord hw s3.mem new_loc s.write_page s.write_off _ key ver cap' value
            stored loc_unpacks ready.page_in
            (omega
              (arith, ready.room, small, align4_bounds (rec_prefix_size + length stored.bytes)))
            small len_in hc
            (Holds-IsRecord s3.mem _ mg key (length value) ver stored (omega arith) key_in len_in
              ver_in small (holds fits))
            (encode-IsEncoding laws value) in
        rw put_eq
          (refl, kv_get_copy-found hw s3 key cap' (entry key new_loc ver 0) get_after ∙ back)

    -- On such a page, a value whose record the programming buffer does not take is lost: the put
    -- returns its version, and the key can no longer be read.
    pub kv_put_loses_value :
        (cap' : ℕ)
        → 768 < s.write_off % 256 + footprint stored
        → ((kv_put_if_version hw s key value expected).0 ≡ some ver)
          × (kv_get_copy hw (kv_put_if_version hw s key value expected).1 key cap' ≡ none)
    kv_put_loses_value cap' over =
        let s3 = bury_old hw s2 old in
        let lost : read_record hw s3.mem new_loc key cap' ≡ none =
          read_record-blank hw s3.mem new_loc s.write_page s.write_off _ key cap' loc_unpacks
            λ a lo hi.
              (bury_old-SameStore laws s2 old).mem a (
                omega (
                  arith,
                  ready.page_in,
                  ready.room,
                  small,
                  align4_bounds (rec_prefix_size + length stored.bytes),
                ))
              ∙ append_record-dropped laws s0 key value ver mg ready0 over len_in a lo (
                  omega (
                    arith,
                    ready.room,
                    small,
                    align4_bounds (rec_prefix_size + length stored.bytes),
                  )) in
        rw put_eq
          (refl, kv_get_copy-found hw s3 key cap' (entry key new_loc ver 0) get_after ∙ lost)
