-- ===== src/Wal/Engine.antt =====
-- The handlers of src/wal_engine.c. An append may hang, or leave the buffer of its overlay, and then has
-- no result. The memory barriers have no counterpart.
pub mod Answer
use Prim.Native.Nat.{bit_or}
use picowal.Prelude.{
  ℕ, zero, suc, ◌+◌, ◌%◌, ◌^◌, Bool, true, false, ◌&&◌, Option, none, some, List, [], ◌∷◌, ◌++◌,
  length, get_or, set, ltb, leb, ◌==◌, if◌then◌else◌,
}
use picowal.KvFlash.Hw.{Mem}
use picowal.KvFlash.Bytes.{read16, read32, read_bytes}
use picowal.KvFlash.State.{max_value}
use picowal.Wal.State.{
  WalEntry, Request, Response, KvStore, Wal, slot_size, req_ring_size, op_append, op_read,
  op_kv_get, op_kv_put, req_done, resp_ok, resp_err, entry_active, entry_tombstone,
  delta_header_size, delta_delete, slot_addr, blit, is_live,
}
use picowal.Wal.Merge.{Outcome, done, and_then, merge}

abbrev pub blank_request : Request
blank_request = record { ready = 0; op = 0; slot = 0; len = 0; key_hash = 0; zc_data = [] }

-- `memset(resp, 0, sizeof(*resp))`
abbrev pub blank_response : Response
blank_response = record { status = 0; result_slot = 0; result_len = 0; seq = 0; delta_count = 0 }

abbrev pub err_response : Response
err_response = record blank_response { status = resp_err }

-- The first entry from `i` on that is not in use.
unfoldable pub wal_alloc_entry : List WalEntry → ℕ → Option ℕ
wal_alloc_entry [] i = none
wal_alloc_entry (e ∷ es) i =
    let rest = wal_alloc_entry es (i + 1) in if e.seq == 0 then some i else rest

-- The first free slot from `i` on, which is taken.
unfoldable pub wal_alloc_slot : List ℕ → ℕ → Option ℕ × List ℕ
wal_alloc_slot [] i = (none, [])
wal_alloc_slot (f ∷ fs) i =
    let (slot, fs') = wal_alloc_slot fs (i + 1) in
    if f == 0 then (slot, 0 ∷ fs') else (some i, 0 ∷ fs)

-- A live entry of the key in the list: its seq and its index.
abbrev pub Match : Type 0
Match = ℕ × ℕ

unfoldable pub collect : List WalEntry → ℕ → ℕ → List Match
collect [] i key_hash = []
collect (e ∷ es) i key_hash =
    let rest = collect es (i + 1) key_hash in
    if (e.key_hash == key_hash) && is_live e then (e.seq, i) ∷ rest else rest

-- The inner loop of the sort, on the sorted part with its last element first.
unfoldable pub insert_match : Match → List Match → List Match
insert_match x [] = x ∷ []
insert_match x (y ∷ ys) = if ltb x.0 y.0 then y ∷ insert_match x ys else x ∷ y ∷ ys

unfoldable pub sort_loop : List Match → List Match → List Match
sort_loop [] sorted = sorted
sort_loop (x ∷ xs) sorted = sort_loop xs (insert_match x sorted)

unfoldable pub reverse_onto : List Match → List Match → List Match
reverse_onto [] acc = acc
reverse_onto (x ∷ xs) acc = reverse_onto xs (x ∷ acc)

-- The arrays match_seqs and match_idxs after the sort.
unfoldable pub sort_matches : List Match → List Match
sort_matches ms = reverse_onto (sort_loop ms []) []

abbrev pub entry_at : List WalEntry → ℕ → WalEntry
entry_at es i = get_or es i (record { seq = 0; key_hash = 0; slot = 0; len = 0; flags = 0 })

-- The deltas copied into the response's slot, up to the first that does not fit; and their length.
unfoldable pub pack_loop : List Match → List WalEntry → ℕ → Mem → ℕ → Mem × ℕ
pack_loop [] entries out pool out_pos = (pool, out_pos)
pack_loop (x ∷ xs) entries out pool out_pos =
    let e = entry_at entries x.1 in
    let pool' = blit pool (out + out_pos) (read_bytes pool (slot_addr e.slot) e.len) in
    let rest = pack_loop xs entries out pool' (out_pos + e.len) in
    if ltb slot_size (out_pos + e.len) then (pool, out_pos) else rest

module _ (kv : KvStore) where
  abbrev pub request_at : Wal kv → ℕ → Request
  request_at s req_id = get_or s.requests req_id blank_request

  -- The response is filled, `ready` set to REQ_DONE, and the id pushed, which the FIFO may not take.
  unfoldable pub answer : Wal kv → ℕ → Response → Wal kv
  answer s req_id resp = record s {
    responses = set s.responses req_id resp;
    requests = set s.requests req_id (record (request_at s req_id) { ready = req_done });
    signals = if s.fifo_ready then req_id ∷ s.signals else s.signals;
  }

  -- The record that the delta is laid over.
  unfoldable pub existing : kv.Store → ℕ → List ℕ
  existing store key_hash = elim (kv.get_copy store key_hash max_value) [
    | none ↦ []
    | some (v, _) ↦ if leb (length v) max_value then v else []
  ]

  -- What the delta at `a` in the pool does to the store.
  unfoldable pub apply_delta : kv.Store → Mem → ℕ → Outcome kv.Store
  apply_delta store pool a =
      let key_hash = read32 pool a in
      let value_len = read16 pool (a + 4) in
      if pool (a + 6) == delta_delete
      then done (kv.delete store key_hash).1
      else and_then
          (merge (read_bytes pool (a + delta_header_size) value_len) (existing store key_hash))
          (λ merged. done (kv.put store key_hash merged).1)

  -- The write enters the index of the log; with that full, its slot is free again.
  unfoldable pub register : Wal kv → ℕ → ℕ → ℕ → ℕ → Wal kv
  register s slot len key_hash op = elim (wal_alloc_entry s.entries 0) [
    | none ↦ record s { slot_free = set s.slot_free slot 1 }
    | some idx ↦ record s {
      entries = set s.entries idx (record {
        seq = s.next_seq;
        key_hash = key_hash;
        slot = slot;
        len = len;
        flags = if op == delta_delete then bit_or entry_active entry_tombstone else entry_active;
      });
      entry_count = (s.entry_count + 1) % 2 ^ 32;
    }
  ]

  -- What follows the change of the store.
  unfoldable pub finish_append : Wal kv → ℕ → Wal kv
  finish_append s req_id =
      let req = request_at s req_id in
      let a = slot_addr req.slot in
      let s' = register s req.slot req.len (read32 s.pool a) (s.pool (a + 6)) in
      answer (record s' { next_seq = (s.next_seq + 1) % 2 ^ 32 }) req_id
        (record blank_response { status = resp_ok; seq = s.next_seq })

  unfoldable pub wal_do_append : Wal kv → ℕ → Outcome (Wal kv)
  wal_do_append s req_id =
      let req = request_at s req_id in
      let a = slot_addr req.slot in
      let pool = blit s.pool (a + delta_header_size) req.zc_data in
      if ltb req.len delta_header_size
      then done (answer s req_id err_response)
      else and_then (apply_delta s.store pool a)
          (λ store. done (finish_append (record s { pool = pool; store = store }) req_id))

  -- The answer to a read with the sorted matches; its seq is that of the last one.
  unfoldable pub read_answer : Wal kv → ℕ → List Match → Wal kv
  read_answer s req_id [] = answer s req_id (record blank_response { status = resp_ok })
  read_answer s req_id (first ∷ others) =
      let (slot, slot_free) = wal_alloc_slot s.slot_free 0 in
      elim slot [
        | none ↦ answer s req_id err_response
        | some rslot ↦
            let (pool, out_pos) = pack_loop (first ∷ others) s.entries (slot_addr rslot) s.pool 0 in
            answer (record s { pool = pool; slot_free = slot_free }) req_id
              (record {
                status = resp_ok;
                result_slot = rslot;
                result_len = out_pos;
                seq = (get_or (first ∷ others) (length others) first).0;
                delta_count = length (first ∷ others);
              })
      ]

  unfoldable pub wal_do_read : Wal kv → ℕ → Wal kv
  wal_do_read s req_id =
      read_answer s req_id (sort_matches (collect s.entries 0 (request_at s req_id).key_hash))

  unfoldable pub wal_do_kv_get : Wal kv → ℕ → Wal kv
  wal_do_kv_get s req_id =
      let (slot, slot_free) = wal_alloc_slot s.slot_free 0 in
      elim slot [
        | none ↦ answer s req_id err_response
        | some rslot ↦ elim (kv.get_copy s.store (request_at s req_id).key_hash slot_size) [
          | none ↦ answer (record s { slot_free = set slot_free rslot 1 }) req_id err_response
          | some (v, _) ↦
              answer (record s { pool = blit s.pool (slot_addr rslot) v; slot_free = slot_free })
                req_id
                (record blank_response {
                  status = resp_ok;
                  result_slot = rslot;
                  result_len = length v;
                })
        ]
      ]

  unfoldable pub wal_do_kv_put : Wal kv → ℕ → Wal kv
  wal_do_kv_put s req_id =
      let req = request_at s req_id in
      let (ok, store) =
        kv.put s.store req.key_hash (read_bytes s.pool (slot_addr req.slot) req.len) in
      answer (record s { store = store; slot_free = set s.slot_free req.slot 1 }) req_id
        (record blank_response { status = if ok then resp_ok else resp_err })

  -- The counters of the main loop.
  abbrev pub count_append : Wal kv → Wal kv
  count_append s = record s {
    req_appends = (s.req_appends + 1) % 2 ^ 32;
    req_total = (s.req_total + 1) % 2 ^ 32;
  }

  abbrev pub count_read : Wal kv → Wal kv
  count_read s = record s {
    req_reads = (s.req_reads + 1) % 2 ^ 32;
    req_total = (s.req_total + 1) % 2 ^ 32;
  }

  -- The default of the switch changes the status only.
  unfoldable pub wal_do_noop : Wal kv → ℕ → Wal kv
  wal_do_noop s req_id =
      let s' =
        answer s req_id (record (get_or s.responses req_id blank_response) { status = resp_ok }) in
      record s' { req_total = (s.req_total + 1) % 2 ^ 32 }

  -- One word of the FIFO in the main loop of `wal_engine_run`.
  unfoldable pub handle : Wal kv → ℕ → Outcome (Wal kv)
  handle s word =
      let req_id = word % 256 in
      let op = (request_at s req_id).op in
      if leb req_ring_size req_id
      then done s
      else if op == op_append
      then and_then (wal_do_append s req_id) (λ s'. done (count_append s'))
      else if op == op_read
      then done (count_read (wal_do_read s req_id))
      else if op == op_kv_get
      then done (count_read (wal_do_kv_get s req_id))
      else if op == op_kv_put
      then done (count_append (wal_do_kv_put s req_id))
      else done (wal_do_noop s req_id)
