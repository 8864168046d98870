-- ===== src/KvFlash/Index.antt =====
-- The in-memory index of src/kv_flash.c. The parallel arrays g_keys, g_locs, g_versions and g_flags,
-- in their part below g_count, are one list of entries, so that g_count is its length and the four
-- `memmove`s of one insertion or removal are one insertion or removal in the list.
pub mod Find
pub mod Sorted
pub mod Table
pub mod Refs
pub mod Idle
use picowal.Prelude.{
  ℕ, zero, suc, ◌+◌, ◌-◌, ◌/◌, Bool, true, false, ◌&&◌, Option, none, some, List, [], ◌∷◌, length,
  get_or, set, ltb, leb, ◌==◌, if◌then◌else◌,
}
use picowal.KvFlash.Loc.{Loc, unpack_loc}

pub record Entry : Type 0 where
  pub key : ℕ
  pub loc : ℕ
  pub version : ℕ
  pub flags : ℕ

abbrev pub entry : ℕ → ℕ → ℕ → ℕ → Entry
entry key loc version flags = record { key = key; loc = loc; version = version; flags = flags }

-- `refs` is g_page_ref_count.
pub record Index : Type 0 where
  pub entries : List Entry
  pub refs : List ℕ

abbrev pub index_capacity : ℕ
index_capacity = 4096

-- What the code reads beyond the entries; no operation below does.
abbrev pub blank : Entry
blank = record { key = 0; loc = 0; version = 0; flags = 0 }

abbrev pub entry_at : List Entry → ℕ → Entry
entry_at es i = get_or es i blank

abbrev pub page_of : ℕ → ℕ
page_of loc = (unpack_loc loc).page

-- The result of the search: an int, the position `i` or -(lo + 1).
pub data Found : Type 0 where
  found : ℕ → Found
  absent : ℕ → Found

-- The loop of the binary search. `hi` can become -1 in the code: it is kept as `top`, hi + 1.
unfoldable pub find_loop : ℕ → List Entry → ℕ → ℕ → ℕ → Found
find_loop zero es key lo top = absent lo
find_loop (suc fuel) es key lo top = elim (ltb lo top) [
  | false ↦ absent lo
  | true ↦
      let mid = lo + (top - 1 - lo) / 2 in
      let k = (entry_at es mid).key in
      let right = find_loop fuel es key (mid + 1) top in
      let left = find_loop fuel es key lo mid in
      if k == key then found mid else if ltb k key then right else left
]

unfoldable pub idx_find_linear : List Entry → ℕ → Found
unfolding find_loop
idx_find_linear es key = find_loop (length es) es key 0 (length es)

unfoldable pub insert_at : ℕ → Entry → List Entry → List Entry
insert_at zero e es = e ∷ es
insert_at (suc p) e [] = e ∷ []
insert_at (suc p) e (x ∷ es) = x ∷ insert_at p e es

unfoldable pub remove_at : ℕ → List Entry → List Entry
remove_at p [] = []
remove_at zero (x ∷ es) = es
remove_at (suc p) (x ∷ es) = x ∷ remove_at p es

-- `if (g_page_ref_count[p] > 0 && g_page_ref_count[p] < 255) g_page_ref_count[p]--;`
unfoldable pub ref_dec : List ℕ → ℕ → List ℕ
ref_dec refs p =
    let r = get_or refs p 0 in if ltb 0 r && ltb r 255 then set refs p (r - 1) else refs

-- `if (g_page_ref_count[p] < 255) g_page_ref_count[p]++;`
unfoldable pub ref_inc : List ℕ → ℕ → List ℕ
ref_inc refs p = let r = get_or refs p 0 in if ltb r 255 then set refs p (r + 1) else refs

-- `page_has_live_refs`
unfoldable pub page_has_live_refs : Index → ℕ → Bool
page_has_live_refs ix page = ltb 0 (get_or ix.refs page 0)

unfoldable pub idx_set_at : Found → Index → Entry → Bool × Index
idx_set_at (found f) ix e =
    let old_page = page_of (entry_at ix.entries f).loc in
    let refs = ref_dec ix.refs old_page in
    let old = entry_at ix.entries f in
    (
      true,
      record {
        entries = set ix.entries f (record e { key = old.key });
        refs = ref_inc refs (page_of e.loc);
      },
    )
idx_set_at (absent pos) ix e = if leb index_capacity (length ix.entries) then (false, ix) else (
  true,
  record { entries = insert_at pos e ix.entries; refs = ref_inc ix.refs (page_of e.loc) },
)

unfoldable pub idx_set : Index → ℕ → ℕ → ℕ → ℕ → Bool × Index
unfolding idx_find_linear idx_set_at
idx_set ix key loc version flags =
    idx_set_at (idx_find_linear ix.entries key) ix (entry key loc version flags)

unfoldable pub idx_remove_at : Found → Index → Index
idx_remove_at (found i) ix = record {
  entries = remove_at i ix.entries;
  refs = ref_dec ix.refs (page_of (entry_at ix.entries i).loc);
}
idx_remove_at (absent _) ix = ix

unfoldable pub idx_remove : Index → ℕ → Index
unfolding idx_find_linear idx_remove_at
idx_remove ix key = idx_remove_at (idx_find_linear ix.entries key) ix

unfoldable pub idx_get : Index → ℕ → Option Entry
unfolding idx_find_linear
idx_get ix key = elim (idx_find_linear ix.entries key) [
  | found i ↦ some (entry_at ix.entries i)
  | absent _ ↦ none
]
