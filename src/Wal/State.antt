-- ===== src/Wal/State.antt =====
-- The state that the two cores share, of src/wal_defs.h, and the interface of the store.
use Prim.Native.Nat.{bit_and}
use picowal.Prelude.{
  ℕ, ◌+◌, ◌-◌, ◌*◌, Bool, ◌&&◌, List, Option, ltb, leb, ◌==◌, if◌then◌else◌, length, get_or,
}
use mathlib.Core.Bool.{not}
use picowal.KvFlash.Hw.{Mem}

-- wal_entry_t
pub record WalEntry : Type 0 where
  pub seq : ℕ
  pub key_hash : ℕ
  pub slot : ℕ
  pub len : ℕ
  pub flags : ℕ

-- wal_request_t; the zero-copy payload is zc_data with its length zc_len, `[]` for none.
pub record Request : Type 0 where
  pub ready : ℕ
  pub op : ℕ
  pub slot : ℕ
  pub len : ℕ
  pub key_hash : ℕ
  pub zc_data : List ℕ

-- wal_response_t
pub record Response : Type 0 where
  pub status : ℕ
  pub result_slot : ℕ
  pub result_len : ℕ
  pub seq : ℕ
  pub delta_count : ℕ

-- What the engine calls of src/kv_flash.h.
pub record KvStore : Type 1 where
  pub Store : Type 0
  pub put : Store → ℕ → List ℕ → Bool × Store
  pub get_copy : Store → ℕ → ℕ → Option (List ℕ × ℕ)
  pub delete : Store → ℕ → Bool × Store

-- wal_state_t. The buffer pool data[32][512] is one stretch of bytes, slot after slot. `signals` are
-- the request ids pushed to the other core, the last one first; `fifo_ready` is whether the FIFO takes a
-- word within the millisecond that `fifo_push_timeout` waits.
pub record Wal (kv : KvStore) : Type 0 where
  pub store : kv.Store
  pub pool : Mem
  pub slot_free : List ℕ
  pub entries : List WalEntry
  pub entry_count : ℕ
  pub next_seq : ℕ
  pub requests : List Request
  pub responses : List Response
  pub compactions : ℕ
  pub slots_reclaimed : ℕ
  pub req_appends : ℕ
  pub req_reads : ℕ
  pub req_total : ℕ
  pub compact_cursor : ℕ
  pub signals : List ℕ
  pub fifo_ready : Bool

abbrev pub slot_count : ℕ
slot_count = 32

abbrev pub slot_size : ℕ
slot_size = 512

abbrev pub req_ring_size : ℕ
req_ring_size = 32

abbrev pub max_entries : ℕ
max_entries = 32

-- WAL_OP_NOOP, .., WAL_OP_KV_PUT
abbrev pub op_append : ℕ
op_append = 1

abbrev pub op_read : ℕ
op_read = 2

abbrev pub op_kv_get : ℕ
op_kv_get = 3

abbrev pub op_kv_put : ℕ
op_kv_put = 4

abbrev pub req_done : ℕ
req_done = 2

abbrev pub resp_ok : ℕ
resp_ok = 0

abbrev pub resp_err : ℕ
resp_err = 1

abbrev pub entry_active : ℕ
entry_active = 1

abbrev pub entry_compacted : ℕ
entry_compacted = 2

abbrev pub entry_tombstone : ℕ
entry_tombstone = 4

-- sizeof(delta_header_t), and DELTA_OP_DELETE
abbrev pub delta_header_size : ℕ
delta_header_size = 8

abbrev pub delta_delete : ℕ
delta_delete = 1

abbrev pub slot_addr : ℕ → ℕ
slot_addr slot = slot * slot_size

-- `memcpy` into the pool
unfoldable pub blit : Mem → ℕ → List ℕ → Mem
blit m at bytes a = if leb at a && ltb a (at + length bytes) then get_or bytes (a - at) 0 else m a

-- `e->seq != 0 && (e->flags & WAL_ENTRY_ACTIVE) && !(e->flags & WAL_ENTRY_COMPACTED)`
unfoldable pub is_live : WalEntry → Bool
is_live e =
    not (e.seq == 0)
    && not (bit_and e.flags entry_active == 0)
    && (bit_and e.flags entry_compacted == 0)
