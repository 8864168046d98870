-- ===== src/Routing.antt =====
-- The stores behind one interface, src/kv_store.h: packs 0 and 1 stay on the flash, the others go to
-- the card when it is ready.
use picowal.Prelude.{
  ℕ, ◌+◌, ◌/◌, ◌%◌, ◌^◌, Bool, true, false, ◌&&◌, Option, none, some, List, length, ltb,
  if◌then◌else◌,
}

-- What the interface calls of src/kv_flash.h and of src/kv_sd.h.
pub record Backend : Type 1 where
  pub Store : Type 0
  pub put : Store → ℕ → List ℕ → Bool × Store
  pub get_copy : Store → ℕ → ℕ → Option (List ℕ × ℕ)
  pub delete : Store → ℕ → Bool × Store
  -- The stored bytes, their decoded length, and whether they are compressed.
  pub get_raw : Store → ℕ → Option (List ℕ × ℕ × Bool)
  pub range : Store → ℕ → ℕ → ℕ → List (ℕ × ℕ)
  pub record_count : Store → ℕ

-- KVSD_MAX_PAYLOAD
abbrev pub max_payload : ℕ
max_payload = 508

-- `KV_PACK_FROM_KEY(key)`
unfoldable pub pack_from_key : ℕ → ℕ
pack_from_key key = key / 2 ^ 22 % 2 ^ 10

module _ (flash card : Backend) where
  -- Both stores; `ready` is `kvsd_ready()`.
  pub record Stores : Type 0 where
    pub on_flash : flash.Store
    pub on_card : card.Store
    pub ready : Bool

  unfoldable pub kv_use_sd_pack : Stores → ℕ → Bool
  kv_use_sd_pack s pack = s.ready && ltb 1 pack

  unfoldable pub kv_use_sd : Stores → ℕ → Bool
  kv_use_sd s key = kv_use_sd_pack s (pack_from_key key)

  unfoldable pub kv_store_put : Stores → ℕ → List ℕ → Bool × Stores
  kv_store_put s key value =
      let (card_ok, on_card) = card.put s.on_card key value in
      let (flash_ok, on_flash) = flash.put s.on_flash key value in
      if kv_use_sd s key
      then (if ltb max_payload (length value)
          then (false, s)
          else (card_ok, record s { on_card = on_card }))
      else (flash_ok, record s { on_flash = on_flash })

  unfoldable pub kv_store_get_copy : Stores → ℕ → ℕ → Option (List ℕ × ℕ)
  kv_store_get_copy s key cap =
      if kv_use_sd s key then card.get_copy s.on_card key cap else flash.get_copy s.on_flash key cap

  -- What stands on the card is always compressed.
  unfoldable pub kv_store_get_raw : Stores → ℕ → Option (List ℕ × ℕ × Bool)
  kv_store_get_raw s key =
      if kv_use_sd s key
      then (elim (card.get_raw s.on_card key) [
        | none ↦ none
        | some (bytes, raw_len, _) ↦ some (bytes, raw_len, true)
      ])
      else flash.get_raw s.on_flash key

  unfoldable pub kv_store_delete : Stores → ℕ → Bool × Stores
  kv_store_delete s key =
      let (card_ok, on_card) = card.delete s.on_card key in
      let (flash_ok, on_flash) = flash.delete s.on_flash key in
      if kv_use_sd s key
      then (card_ok, record s { on_card = on_card })
      else (flash_ok, record s { on_flash = on_flash })

  unfoldable pub kv_store_range : Stores → ℕ → ℕ → ℕ → List (ℕ × ℕ)
  kv_store_range s prefix mask max =
      if kv_use_sd_pack s (pack_from_key prefix)
      then card.range s.on_card prefix mask max
      else flash.range s.on_flash prefix mask max

  unfoldable pub kv_store_record_count : Stores → ℕ
  kv_store_record_count s =
      let n = flash.record_count s.on_flash in
      if s.ready then (n + card.record_count s.on_card) % 2 ^ 32 else n
