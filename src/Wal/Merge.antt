-- ===== src/Wal/Merge.antt =====
-- The overlay of a delta's fields on a record, in `wal_do_append`: both are runs of fields
-- [field_id:2][data_len:2][data], little-endian. Where the code loops for ever, or reads or writes
-- outside its buffer of 508 bytes, the model says so instead of a result.
pub mod Fields
pub mod Place
pub mod Update
pub mod Ends
pub mod Overrun
use picowal.Prelude.{
  ℕ, zero, suc, ◌+◌, ◌*◌, ◌%◌, ◌^◌, ◌-◌, Bool, List, ◌++◌, length, get_or, take, drop, ltb, leb,
  ◌==◌, if◌then◌else◌,
}
use picowal.KvFlash.Bytes.{le16}
use picowal.KvFlash.State.{max_value}

-- How a run of the code goes: it returns, it never ends, or it leaves its buffer.
pub data Outcome {ℓ} (A : Type ℓ) : Type ℓ where
  done : A → Outcome A
  hangs : Outcome A
  overruns : Outcome A

-- The steps that follow a run.
unfoldable pub and_then {ℓ κ} : {A : Type ℓ} {B : Type κ} → Outcome A → (A → Outcome B) → Outcome B
and_then (done a) next = next a
and_then hangs next = hangs
and_then overruns next = overruns

-- The uint16 at `pos`.
unfoldable pub word_at : List ℕ → ℕ → ℕ
word_at bytes pos = get_or bytes pos 0 + 256 * get_or bytes (pos + 1) 0

-- The bytes of one field.
unfoldable pub field_bytes : ℕ → List ℕ → List ℕ
field_bytes field_id value = le16 field_id ++ (le16 (length value) ++ value)

-- How the search for a field stands: it found the place, ended without, or still runs.
pub data Search : Type 0 where
  hit : ℕ → Search
  miss : Search
  running : Search

-- The inner loop, from `mpos` on, which is a uint16.
unfoldable pub find_field : ℕ → List ℕ → ℕ → ℕ → Search
find_field zero merged field_id mpos = running
find_field (suc fuel) merged field_id mpos =
    let next = find_field fuel merged field_id ((mpos + 4 + word_at merged (mpos + 2)) % 2 ^ 16) in
    if leb (mpos + 4) (length merged)
    then (if word_at merged mpos == field_id then hit mpos else next)
    else miss

-- size_diff, an int16, by its bits: the sizes of the two entries are uint16.
abbrev pub size_diff : ℕ → ℕ → ℕ
size_diff old_entry_size new_entry_size = (new_entry_size + (2 ^ 16 - old_entry_size)) % 2 ^ 16

-- `merged_len + size_diff > KV_MAX_VALUE`
unfoldable pub is_too_long : ℕ → ℕ → ℕ → Bool
is_too_long merged_len old_entry_size new_entry_size =
    let d = size_diff old_entry_size new_entry_size in
    if ltb d (2 ^ 15)
    then ltb max_value (merged_len + d)
    else ltb (max_value + 2 ^ 16) (merged_len + d)

-- The field put in the place of the one at `mpos`, the tail shifted. Without a tail that starts within
-- the record, tail_len wraps around: only where the sizes agree, and nothing is shifted, does the
-- code stay in its buffer.
unfoldable pub replace_field : List ℕ → ℕ → ℕ → List ℕ → Outcome (List ℕ)
replace_field merged mpos field_id value =
    let old_entry_size = (4 + word_at merged (mpos + 2)) % 2 ^ 16 in
    let new_entry_size = (4 + length value) % 2 ^ 16 in
    let tail_start = (mpos + old_entry_size) % 2 ^ 16 in
    let tail_len = length merged - tail_start in
    let written = field_bytes field_id value in
    if ltb max_value (mpos + 4 + length value)
    then overruns
    else if ltb (length merged) tail_start
    then (if size_diff old_entry_size new_entry_size == 0
        then done (take (length merged) (take mpos merged ++ written))
        else overruns)
    else if ltb max_value (mpos + new_entry_size + tail_len)
    then overruns
    else done (take mpos merged ++ (written ++ drop tail_start merged))

-- The field put behind the buffer, if there is room.
unfoldable pub append_field : List ℕ → ℕ → List ℕ → List ℕ
append_field merged field_id value =
    if leb (length merged + 4 + length value) max_value
    then merged ++ field_bytes field_id value
    else merged

-- What the search leads to; a replacement that does not fit falls through to the append.
unfoldable pub place_field : Search → List ℕ → ℕ → List ℕ → Outcome (List ℕ)
place_field (hit mpos) merged field_id value =
    let old_entry_size = (4 + word_at merged (mpos + 2)) % 2 ^ 16 in
    let new_entry_size = (4 + length value) % 2 ^ 16 in
    if is_too_long (length merged) old_entry_size new_entry_size
    then done (append_field merged field_id value)
    else replace_field merged mpos field_id value
place_field miss merged field_id value = done (append_field merged field_id value)
place_field running merged field_id value = hangs

-- One field of the delta. A search that ends is at each position of the buffer at most once.
unfoldable pub merge_field : List ℕ → ℕ → List ℕ → Outcome (List ℕ)
merge_field merged field_id value =
    place_field (find_field (length merged + 1) merged field_id 0) merged field_id value

-- The loop over the fields of the delta, from `dpos` on.
unfoldable pub merge_loop : ℕ → List ℕ → ℕ → List ℕ → Outcome (List ℕ)
merge_loop zero delta dpos merged = done merged
merge_loop (suc fuel) delta dpos merged =
    let field_id = word_at delta dpos in
    let data_len = word_at delta (dpos + 2) in
    let value = take data_len (drop (dpos + 4) delta) in
    let rest =
      and_then (merge_field merged field_id value)
        (λ m. merge_loop fuel delta (dpos + 4 + data_len) m) in
    if leb (dpos + 4) (length delta)
    then (if ltb (length delta) (dpos + 4 + data_len) then done merged else rest)
    else done merged

-- A round takes at least the four bytes of a field's header.
unfoldable pub merge : List ℕ → List ℕ → Outcome (List ℕ)
merge delta merged = merge_loop (length delta) delta 0 merged
