-- ===== src/KvFlash/Tests/Index.antt =====
-- Concrete runs of the index and of the locations.
use picowal.Prelude.{
  ℕ, ◌+◌, ◌*◌, ◌/◌, ◌^◌, ◌<◌, ◌≡◌, ◌≢◌, refl, true, false, ◌&&◌, none, some, [], ◌∷◌, arith, length,
  ltb, ◌==◌, if◌then◌else◌,
}
use picowal.KvFlash.Loc.{pack_loc, unpack_loc, unpack_loc-pack_loc}
use picowal.KvFlash.Index.{
  entry, Index, page_of, idx_find_linear, idx_set, idx_remove, idx_get, insert_at, ref_inc, ref_dec,
  index_capacity, page_has_live_refs,
}
use picowal.KvFlash.Index.Find.{Locates, IsSorted, idx_find_linear-Locates}
use picowal.KvFlash.Index.Sorted.{IsSorted-Ascending}
use picowal.KvFlash.Index.Table.{IsTable, idx_set_lem, idx_remove_lem}
use picowal.KvFlash.Index.Refs.{sector_count}
use picowal.KvFlash.Index.Idle.{Reach, start, store, empty_index, idle_page_is_free}

unpack_loc-pack_loc_example :
    (unpack_loc (pack_loc 7 (16 * 4) 61)
      ≡ record { page = 7; off_bytes = 16 * 4; len_bytes = (61 + 3) / 4 * 4 })
    × (pack_loc 7 (16 * 4) 61 < 2 ^ 32)
unpack_loc-pack_loc_example = unpack_loc-pack_loc 7 16 61 (omega arith) (omega arith) (omega arith)

abbrev three : Index
three = record {
  entries = entry 3 0 1 0 ∷ entry 8 1024 1 0 ∷ entry 90 2048 4 0 ∷ [];
  refs = 3 ∷ 0 ∷ [];
}

three-IsTable : IsTable three
three-IsTable = record {
  ascending = ((omega arith, (omega arith, tt)), ((omega arith, tt), (tt, tt)));
  fits = omega arith;
}

three-IsSorted : IsSorted three.entries
three-IsSorted = IsSorted-Ascending three.entries three-IsTable.ascending

idx_find_linear-Locates_example : Locates three.entries 50 (idx_find_linear three.entries 50)
idx_find_linear-Locates_example = idx_find_linear-Locates three.entries 50 three-IsSorted

idx_set_lem_example :
    let (ok, ix') = idx_set three 50 2 1 0 in
    (ok ≡ (elim (idx_get three 50) [
      | none ↦ ltb (length three.entries) index_capacity
      | some _ ↦ true
    ]))
    × ((j : ℕ) → idx_get ix' j ≡ (if ok && 50 == j then some (entry 50 2 1 0) else idx_get three j))
    × IsTable ix'
idx_set_lem_example = idx_set_lem three 50 2 1 0 three-IsTable

idx_remove_lem_example :
    ((j : ℕ) → idx_get (idx_remove three 8) j ≡ (if 8 == j then none else idx_get three j))
    × IsTable (idx_remove three 8)
idx_remove_lem_example = idx_remove_lem three 8 three-IsTable

abbrev loc_of_page : ℕ → ℕ
loc_of_page p = p * 1048576

abbrev moved : Index
moved = (idx_set (idx_set empty_index 5 0 1 0).1 5 (loc_of_page 2) 2 0).1

page_two : page_of (loc_of_page 2) < sector_count
unfolding unpack_loc
page_two = omega arith

page_zero : page_of 0 < sector_count
unfolding unpack_loc
page_zero = omega arith

moved-Reach : Reach moved
moved-Reach = store 5 (loc_of_page 2) 2 0 page_two (store 5 0 1 0 page_zero start)

moved_idle : page_has_live_refs moved 0 ≡ false
unfolding page_has_live_refs idx_set ref_inc ref_dec unpack_loc insert_at
moved_idle = refl

moved_get : idx_get moved 5 ≡ some (entry 5 (loc_of_page 2) 2 0)
unfolding idx_get idx_set unpack_loc insert_at
moved_get = refl

idle_page_is_free_example : page_of (loc_of_page 2) ≢ 0
idle_page_is_free_example =
    idle_page_is_free 5 0 (entry 5 (loc_of_page 2) 2 0) moved-Reach (omega arith) moved_idle
      moved_get
