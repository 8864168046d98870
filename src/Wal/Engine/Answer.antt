-- ===== src/Wal/Engine/Answer.antt =====
-- What the handlers of src/wal_engine.c do to the requests and to the signals.
use picowal.Prelude.{
  ℕ, zero, suc, ◌+◌, ◌%◌, ◌<◌, ◌≤◌, ◌≡◌, ◌⊎◌, refl, ◌∙◌, List, [], ◌∷◌, arith, length, set, get_or,
  ltb, leb, ◌==◌, if◌then◌else◌, if_intro, Option-cases, inl, inr, false,
}
use picowal.KvFlash.Hw.{Mem}
use picowal.KvFlash.Bytes.{read16, read32, read_bytes}
use picowal.KvFlash.State.{max_value}
use picowal.Wal.State.{
  KvStore, Wal, Response, slot_size, req_ring_size, req_done, op_append, op_read, op_kv_get,
  op_kv_put, delta_header_size, delta_delete, slot_addr, blit,
}
use picowal.Wal.Merge.{Outcome, done, and_then}
use picowal.Wal.Merge.Fields.{Field, bytes_of, Words}
use picowal.Wal.Merge.Ends.{merge-IsRun}
use picowal.Wal.Engine.{
  request_at, answer, register, wal_alloc_entry, wal_alloc_slot, existing, apply_delta,
  finish_append, read_answer, wal_do_append, wal_do_read, wal_do_kv_get, wal_do_kv_put, wal_do_noop,
  handle, Match, blank_request, err_response,
}

-- The request is given back, no other request changes, and its id is signalled if the FIFO takes it.
pub record IsAnswered {kv : KvStore} (s : Wal kv) (req_id : ℕ) (t : Wal kv) : Type 0 where
  pub requests :
      t.requests
      ≡ set s.requests req_id (record (get_or s.requests req_id blank_request) { ready = req_done })
  pub signals : t.signals ≡ (if s.fifo_ready then req_id ∷ s.signals else s.signals)

-- The overlay of the delta at `a`: its bytes are bytes, its length is below 32764, and the record of its
-- key is a run of fields.
pub record IsMergeable (kv : KvStore) (store : kv.Store) (pool : Mem) (a : ℕ) : Type 0 where
  pub fields : List Field
  pub words : Words fields
  pub small : length (bytes_of fields) ≤ max_value
  pub stored : existing kv store (read32 pool a) ≡ bytes_of fields
  pub bytes : (i : ℕ) → pool i < 256
  pub short : read16 pool (a + 4) < 32764

get_or-read_bytes :
    (m : Mem) (a n i : ℕ) → ((j : ℕ) → m j < 256) → get_or (read_bytes m a n) i 0 < 256
unfolding read_bytes
get_or-read_bytes m a zero i h = omega arith
get_or-read_bytes m a (suc n) zero h = h a
get_or-read_bytes m a (suc n) (suc i) h = get_or-read_bytes m (a + 1) n i h

length-read_bytes : (m : Mem) (a n : ℕ) → length (read_bytes m a n) ≡ n
unfolding read_bytes
length-read_bytes m a zero = refl
length-read_bytes m a (suc n) = omega (arith, length-read_bytes m (a + 1) n)

apply_delta-ends :
    (kv : KvStore) (store : kv.Store) (pool : Mem) (a : ℕ)
    → IsMergeable kv store pool a
    → (store' : kv.Store) × (apply_delta kv store pool a ≡ done store')
unfolding apply_delta and_then
apply_delta-ends kv store pool a m =
    let key_hash = read32 pool a in
    let delta = read_bytes pool (a + 8) (read16 pool (a + 4)) in
    let run =
      merge-IsRun delta m.fields
        (omega (arith, length-read_bytes pool (a + 8) (read16 pool (a + 4)), m.short))
        (λ i. get_or-read_bytes pool (a + 8) (read16 pool (a + 4)) i m.bytes) m.words m.small in
    if_intro (λ (o : Outcome kv.Store). (store' : kv.Store) × (o ≡ done store'))
      (pool (a + 6) == delta_delete) (λ _. ((kv.delete store key_hash).1, refl))
      (λ _. (
        (kv.put store key_hash (bytes_of run.fields)).1,
        rw m.stored (rw (run.result, and_then) refl),
      ))

module _ (kv : KvStore) (s : Wal kv) (req_id : ℕ) where
  -- The same requests and signals as before.
  abbrev Untouched : Wal kv → Type 0
  Untouched t = (t.requests ≡ s.requests) × (t.signals ≡ s.signals) × (t.fifo_ready ≡ s.fifo_ready)

  answer-IsAnswered :
      (t : Wal kv) (resp : Response) → Untouched t → IsAnswered s req_id (answer kv t req_id resp)
  unfolding answer
  answer-IsAnswered t resp u = record { requests = rw u.0 refl; signals = rw u.1 (rw u.2 refl) }

  register-Untouched :
      (t : Wal kv) (slot len key_hash op : ℕ)
      → Untouched t
      → Untouched (register kv t slot len key_hash op)
  unfolding register
  register-Untouched t slot len key_hash op u = elim (Option-cases (wal_alloc_entry t.entries 0)) [
    | inl e ↦ rw (e, register) u
    | inr (idx, e) ↦ rw (e, register) u
  ]

  finish-IsAnswered :
      (pool : Mem) (store : kv.Store)
      → IsAnswered s req_id (finish_append kv (record s { pool = pool; store = store }) req_id)
  unfolding finish_append
  finish-IsAnswered pool store =
      answer-IsAnswered _ _ (register-Untouched _ _ _ _ _ (refl, refl, refl))

  -- The run returns, with the request answered.
  abbrev pub Answers : Outcome (Wal kv) → Type 0
  Answers o = (t : Wal kv) × (o ≡ done t) × IsAnswered s req_id t

  append-Answers :
      let req = request_at kv s req_id in
      IsMergeable kv s.store
        (blit s.pool (slot_addr req.slot + delta_header_size) req.zc_data)
        (slot_addr req.slot)
      → Answers (wal_do_append kv s req_id)
  unfolding wal_do_append and_then
  append-Answers m =
      let req = request_at kv s req_id in
      let pool = blit s.pool (slot_addr req.slot + delta_header_size) req.zc_data in
      let (store, e) = apply_delta-ends kv s.store pool (slot_addr req.slot) m in
      if_intro Answers (ltb req.len delta_header_size)
        (λ _. (_, refl, answer-IsAnswered s err_response (refl, refl, refl)))
        (λ _. rw (e, and_then) (_, refl, finish-IsAnswered pool store))

  read_answer-IsAnswered : (ms : List Match) → IsAnswered s req_id (read_answer kv s req_id ms)
  unfolding read_answer
  read_answer-IsAnswered [] = answer-IsAnswered s _ (refl, refl, refl)
  read_answer-IsAnswered (first ∷ others) = elim (Option-cases (wal_alloc_slot s.slot_free 0).0) [
    | inl e ↦ rw (e, read_answer) (answer-IsAnswered s _ (refl, refl, refl))
    | inr (rslot, e) ↦ rw (e, read_answer) (answer-IsAnswered _ _ (refl, refl, refl))
  ]

  read-IsAnswered : IsAnswered s req_id (wal_do_read kv s req_id)
  unfolding wal_do_read
  read-IsAnswered = read_answer-IsAnswered _

  kv_get-IsAnswered : IsAnswered s req_id (wal_do_kv_get kv s req_id)
  unfolding wal_do_kv_get
  kv_get-IsAnswered = elim (Option-cases (wal_alloc_slot s.slot_free 0).0) [
    | inl e ↦ rw (e, wal_do_kv_get) (answer-IsAnswered s _ (refl, refl, refl))
    | inr (rslot, e) ↦
        elim (Option-cases (kv.get_copy s.store (request_at kv s req_id).key_hash slot_size)) [
          | inl f ↦ rw (e, wal_do_kv_get) (rw f (answer-IsAnswered _ _ (refl, refl, refl)))
          | inr (v, f) ↦ rw (e, wal_do_kv_get) (rw f (answer-IsAnswered _ _ (refl, refl, refl)))
        ]
  ]

  kv_put-IsAnswered : IsAnswered s req_id (wal_do_kv_put kv s req_id)
  unfolding wal_do_kv_put
  kv_put-IsAnswered = answer-IsAnswered _ _ (refl, refl, refl)

  -- Only the counters differ.
  counted :
      (t u : Wal kv)
      → u.requests ≡ t.requests
      → u.signals ≡ t.signals
      → IsAnswered s req_id t
      → IsAnswered s req_id u
  counted t u p q a = record { requests = p ∙ a.requests; signals = q ∙ a.signals }

  noop-IsAnswered : IsAnswered s req_id (wal_do_noop kv s req_id)
  unfolding wal_do_noop
  noop-IsAnswered = counted _ _ refl refl (answer-IsAnswered s _ (refl, refl, refl))

-- A word of the FIFO whose low byte is the id of a place in the ring is answered: the handler returns,
-- `ready` of that request becomes REQ_DONE, no other request changes, and the id is signalled once if
-- the FIFO takes it. For an append, the record of the key is to be a run of fields of at most 508 bytes
-- and the delta shorter than 32764 bytes.
pub handle-IsAnswered :
    (kv : KvStore) (s : Wal kv) (word : ℕ)
    → word % 256 < req_ring_size
    → let req = request_at kv s (word % 256) in
      ((req.op == op_append) ≡ false)
        ⊎ IsMergeable kv s.store
            (blit s.pool (slot_addr req.slot + delta_header_size) req.zc_data)
            (slot_addr req.slot)
      → (t : Wal kv) × (handle kv s word ≡ done t) × IsAnswered s (word % 256) t
unfolding handle and_then
handle-IsAnswered kv s word h ends =
    let id = word % 256 in
    let op = (request_at kv s id).op in
    let inside : leb req_ring_size id ≡ false = ground arith in
    rw inside (
      if_intro (Answers kv s id) (op == op_append)
        (λ is_append. elim ends [
          | inl other ↦ absurd (cc (is_append, other))
          | inr m ↦
              let (t, e, a) = append-Answers kv s id m in
              rw (e, and_then) (_, refl, counted kv s id _ _ refl refl a)
        ])
        λ _.
          if_intro (Answers kv s id) (op == op_read)
            (λ _. (_, refl, counted kv s id _ _ refl refl (read-IsAnswered kv s id)))
            λ _.
              if_intro (Answers kv s id) (op == op_kv_get)
                (λ _. (_, refl, counted kv s id _ _ refl refl (kv_get-IsAnswered kv s id)))
                λ _.
                  if_intro (Answers kv s id) (op == op_kv_put)
                    (λ _. (_, refl, counted kv s id _ _ refl refl (kv_put-IsAnswered kv s id)))
                    (λ _. (_, refl, noop-IsAnswered kv s id)))
