-- ===== src/Wal/Tests.antt =====
-- Concrete runs of the log, over a store that holds one record.
use picowal.Prelude.{
  ℕ, zero, suc, ◌<◌, ◌≤◌, ◌≡◌, refl, true, Option, some, none, List, [], ◌∷◌, arith, length, leb,
  ◌==◌, if◌then◌else◌, ◌++◌, get_or, inr,
}
use picowal.KvFlash.Hw.{Mem}
use picowal.KvFlash.Bytes.{le16, read16, read32}
use picowal.KvFlash.State.{max_value}
use picowal.Wal.State.{KvStore, Wal, op_append, op_kv_get, blit}
use picowal.Wal.Engine.{existing, handle, blank_request, blank_response}
use picowal.Wal.Engine.Answer.{IsAnswered, IsMergeable, handle-IsAnswered}
use picowal.Wal.Merge.{done, running, find_field, merge_field, merge, field_bytes}
use picowal.Wal.Merge.Fields.{Field, bytes_of, update}
use picowal.Wal.Merge.Update.{merge_field-update, find_field-runs}
use picowal.Wal.Merge.Ends.{IsRun, merge-IsRun}

abbrev two_fields : List Field
two_fields = record { id = 1; value = 10 ∷ 11 ∷ [] } ∷ record { id = 2; value = 20 ∷ [] } ∷ []

two_fields-short : length (bytes_of two_fields) ≤ max_value
unfolding bytes_of field_bytes le16
two_fields-short = omega arith

merge_field-update_example :
    merge_field (bytes_of two_fields) 1 (7 ∷ [])
    ≡ done (
        if leb (length (bytes_of (update two_fields 1 (7 ∷ [])))) max_value
        then bytes_of (update two_fields 1 (7 ∷ []))
        else bytes_of two_fields)
merge_field-update_example =
    merge_field-update two_fields 1 (7 ∷ [])
      (omega arith, omega arith, (omega arith, omega arith, tt)) two_fields-short (omega arith)

find_field-runs_example : find_field 1000 (le16 5 ++ le16 65532) 6 0 ≡ running
find_field-runs_example = find_field-runs 1000 6 5 (omega arith) (omega arith)

-- A store of at most one record.
abbrev one_record : KvStore
one_record = record {
  Store = Option (ℕ × List ℕ);
  put = λ s k v. (true, some (k, v));
  get_copy = λ s k c. elim s [ none ↦ none | some (k', v) ↦ if k == k' then some (v, 1) else none ];
  delete = λ s k. (true, none);
}

abbrev asked : Wal one_record
asked = record {
  store = some (9, 1 ∷ 2 ∷ []);
  pool = λ a. 0;
  slot_free = 0 ∷ 1 ∷ [];
  entries = [];
  entry_count = 0;
  next_seq = 1;
  requests =
      blank_request
      ∷ record { ready = 1; op = op_kv_get; slot = 0; len = 0; key_hash = 9; zc_data = [] }
      ∷ [];
  responses = blank_response ∷ blank_response ∷ [];
  compactions = 0;
  slots_reclaimed = 0;
  req_appends = 0;
  req_reads = 0;
  req_total = 0;
  compact_cursor = 0;
  signals = [];
  fifo_ready = true;
}

-- The delta of one field in slot 0 for the record 9.
abbrev delta_pool : Mem
delta_pool a =
    if a == 0
    then 9
    else if a == 4
    then 5
    else if a == 8
    then 1
    else if a == 10
    then 1
    else if a == 12
    then 77
    else 0

abbrev appended : Wal one_record
unfolding bytes_of field_bytes le16
appended = record asked {
  store = some (9, bytes_of two_fields);
  pool = delta_pool;
  requests =
      blank_request
      ∷ record { ready = 1; op = op_append; slot = 0; len = 13; key_hash = 9; zc_data = [] }
      ∷ [];
}

delta_pool-bytes : (i : ℕ) → delta_pool i < 256
delta_pool-bytes i = ground arith

no_data : (i : ℕ) → blit delta_pool 8 [] i ≡ delta_pool i
unfolding blit
no_data i = ground arith

appended-IsMergeable : IsMergeable one_record appended.store (blit delta_pool 8 []) 0
unfolding existing read32 read16 blit bytes_of field_bytes le16
appended-IsMergeable = record {
  fields = two_fields;
  words = (omega arith, omega arith, (omega arith, omega arith, tt));
  small = two_fields-short;
  stored = refl;
  bytes = λ i. omega (arith, no_data i, delta_pool-bytes i);
  short = omega arith;
}

handle-IsAnswered_example :
    (t : Wal one_record) × (handle one_record appended 257 ≡ done t) × IsAnswered appended 1 t
unfolding appended
handle-IsAnswered_example =
    handle-IsAnswered one_record appended 257 (omega arith) (inr appended-IsMergeable)

small_bytes : (i : ℕ) → get_or (1 ∷ 0 ∷ 1 ∷ 0 ∷ 77 ∷ []) i 0 < 256
small_bytes zero = omega arith
small_bytes (suc zero) = omega arith
small_bytes (suc (suc zero)) = omega arith
small_bytes (suc (suc (suc zero))) = omega arith
small_bytes (suc (suc (suc (suc zero)))) = omega arith
small_bytes (suc (suc (suc (suc (suc i))))) = omega arith

merge-IsRun_example : IsRun (merge (1 ∷ 0 ∷ 1 ∷ 0 ∷ 77 ∷ []) (bytes_of two_fields))
merge-IsRun_example =
    merge-IsRun (1 ∷ 0 ∷ 1 ∷ 0 ∷ 77 ∷ []) two_fields (omega arith) small_bytes
      (omega arith, omega arith, (omega arith, omega arith, tt)) two_fields-short
