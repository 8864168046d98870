-- ===== src/Wal/Compact.antt =====
-- The background compaction of src/wal_engine.c: the live entries of one key are marked, the one of
-- the largest seq left out, which is marked too if it is a tombstone.
use Prim.Native.Nat.{bit_and}
use picowal.Prelude.{
  ℕ, zero, suc, ◌+◌, ◌-◌, ◌%◌, ◌^◌, Bool, ◌&&◌, Option, none, some, List, [], ◌∷◌, set, ltb, leb,
  ◌==◌, if◌then◌else◌,
}
use mathlib.Core.Bool.{not}
use picowal.Wal.State.{
  WalEntry, KvStore, Wal, max_entries, entry_compacted, entry_tombstone, is_live,
}
use picowal.Wal.Engine.{entry_at}

-- The loop from the cursor on, `n` rounds left: the index of a live entry.
unfoldable pub find_anchor : ℕ → List WalEntry → ℕ → ℕ → Option ℕ
find_anchor zero entries cursor i = none
find_anchor (suc n) entries cursor i =
    let idx = (cursor + i) % max_entries in
    let rest = find_anchor n entries cursor (i + 1) in
    if is_live (entry_at entries idx) then some idx else rest

unfoldable pub is_dup : ℕ → WalEntry → Bool
is_dup key_hash e = (e.key_hash == key_hash) && is_live e

-- latest_seq, latest_idx and dup_count of the second loop.
pub record Latest : Type 0 where
  pub seq : ℕ
  pub idx : ℕ
  pub dup_count : ℕ

-- The second loop, from index `i` on.
unfoldable pub latest_loop : List WalEntry → ℕ → ℕ → Latest → Latest
latest_loop [] i key_hash l = l
latest_loop (e ∷ es) i key_hash l =
    let l1 = record l { dup_count = l.dup_count + 1 } in
    let l2 = if ltb l.seq e.seq then record l1 { seq = e.seq; idx = i } else l1 in
    latest_loop es (i + 1) key_hash (if is_dup key_hash e then l2 else l)

abbrev pub dropped : WalEntry → WalEntry
dropped e = record e { flags = entry_compacted; seq = 0 }

-- The third loop drops the entries of the key but the latest,
unfoldable pub drop_dups : List WalEntry → ℕ → ℕ → ℕ → List WalEntry
drop_dups [] i key_hash latest = []
drop_dups (e ∷ es) i key_hash latest =
    (if not (i == latest) && is_dup key_hash e then dropped e else e)
    ∷ drop_dups es (i + 1) key_hash latest

-- frees their slots,
unfoldable pub free_dups : List WalEntry → ℕ → ℕ → ℕ → List ℕ → List ℕ
free_dups [] i key_hash latest slot_free = slot_free
free_dups (e ∷ es) i key_hash latest slot_free =
    free_dups es (i + 1) key_hash latest
      (if not (i == latest) && is_dup key_hash e then set slot_free e.slot 1 else slot_free)

-- and counts them.
unfoldable pub count_dups : List WalEntry → ℕ → ℕ → ℕ → ℕ
count_dups [] i key_hash latest = 0
count_dups (e ∷ es) i key_hash latest =
    (if not (i == latest) && is_dup key_hash e then 1 else 0)
    + count_dups es (i + 1) key_hash latest

-- `n` steps down of a uint32.
abbrev pub down : ℕ → ℕ → ℕ
down x n = (x + (2 ^ 32 - n)) % 2 ^ 32

module _ (kv : KvStore) where
  -- A tombstone goes with the entries that it covers.
  unfoldable pub drop_tombstone : Wal kv → ℕ → Wal kv
  drop_tombstone s idx =
      let e = entry_at s.entries idx in
      if bit_and e.flags entry_tombstone == 0 then s else record s {
        slot_free = set s.slot_free e.slot 1;
        entries = set s.entries idx (dropped e);
        entry_count = down s.entry_count 1;
        slots_reclaimed = (s.slots_reclaimed + 1) % 2 ^ 32;
      }

  unfoldable pub compact_key : Wal kv → ℕ → Wal kv
  compact_key s key_hash =
      let l = latest_loop s.entries 0 key_hash (record { seq = 0; idx = 0; dup_count = 0 }) in
      let n = count_dups s.entries 0 key_hash l.idx in
      let s' = record s {
        slot_free = free_dups s.entries 0 key_hash l.idx s.slot_free;
        entries = drop_dups s.entries 0 key_hash l.idx;
        entry_count = down s.entry_count n;
        compactions = (s.compactions + n) % 2 ^ 32;
        slots_reclaimed = (s.slots_reclaimed + n) % 2 ^ 32;
      } in
      if leb l.dup_count 1 then s else drop_tombstone s' l.idx

  unfoldable pub wal_compact_step : Wal kv → Wal kv
  wal_compact_step s = elim (find_anchor max_entries s.entries s.compact_cursor 0) [
    | none ↦ record s { compact_cursor = 0 }
    | some idx ↦
        compact_key (record s { compact_cursor = (idx + 1) % max_entries })
          (entry_at s.entries idx).key_hash
  ]
