-- ===== src/Users/OnFlash.antt =====
-- src/user_auth.c over src/kv_flash.c: the calls of the users' code are those of the flash.
use picowal.Prelude.{
  ℕ, ◌+◌, ◌%◌, ◌^◌, ◌<◌, ◌≤◌, ◌≡◌, refl, ap, ◌∙◌, true, none, some, List, [], ◌∷◌, arith, length,
  inl,
}
use picowal.KvFlash.Hw.{Hw, HwLaws}
use picowal.KvFlash.Index.{index_capacity}
use picowal.KvFlash.Index.Table.{IsTable}
use picowal.KvFlash.State.{Kv, version_any}
use picowal.KvFlash.Record.{encode}
use picowal.KvFlash.Record.Append.{IsReady, footprint}
use picowal.KvFlash.Store.{kv_put, kv_get_copy, kv_exists}
use picowal.KvFlash.Store.Roundtrip.{kv_get_copy-kv_put}
use picowal.KvFlash.Report.{kv_range}
use picowal.Users.State.{AuthEnv, UserSession, pack_key, schema_key}
use picowal.Users.Access.{
  SchemaField, build_schema_card_full, reference_module, put_schema, seed_schema_public,
  user_auth_can_read, pack_in_list,
}
use picowal.Users.Access.Public.{can_read-put, or-true}

abbrev pub first_keys : List (ℕ × ℕ) → List ℕ
first_keys [] = []
first_keys (r ∷ rs) = r.0 ∷ first_keys rs

-- The store of the users is the flash.
abbrev pub on_flash : Hw → (List ℕ → List ℕ) → AuthEnv
on_flash hw hash = record {
  Store = Kv;
  put = kv_put hw;
  get_copy = λ s k cap. elim (kv_get_copy hw s k cap) [ none ↦ none | some (v, _) ↦ some v ];
  range = λ s prefix mask max. first_keys (kv_range s prefix mask max);
  exists = kv_exists;
  sha256 = hash;
}

module _ {hw : Hw} (laws : HwLaws hw) (hash : List ℕ → List ℕ) (s : Kv) where
  back-on_flash :
      (key : ℕ) (value : List ℕ)
      → IsTable s.index
      → length s.index.entries < index_capacity
      → key < 2 ^ 32
      → length value ≤ 128
      → IsReady s (footprint (encode hw value 0))
      → s.write_off % 256 + footprint (encode hw value 0) ≤ 768
      → (on_flash hw hash).get_copy (kv_put hw s key value).1 key 128 ≡ some value
  unfolding kv_put
  back-on_flash key value table room key_in small ready fits =
      let back =
        kv_get_copy-kv_put laws s key value version_any table room (inl refl) key_in (omega arith)
          ready 128 small fits in
      rw (back.1, on_flash) refl

  -- On the flash of kv_flash.c: a pack that `seed_schema_public` seeds can be read in each session, if the
  -- schema card has at most 128 bytes, the index has room, and the page is prepared, with room for
  -- the record, which the programming buffer takes.
  pub user_auth_can_read-on_flash :
      (pack : ℕ) (name : List ℕ) (fields : List SchemaField) (card : List ℕ) (session : UserSession)
      → build_schema_card_full 256 name fields 1 reference_module ≡ some card
      → length card ≤ 128
      → IsTable s.index
      → length s.index.entries < index_capacity
      → IsReady s (footprint (encode hw card 0))
      → s.write_off % 256 + footprint (encode hw card 0) ≤ 768
      → user_auth_can_read
          (on_flash hw hash)
          (seed_schema_public (on_flash hw hash) s pack name fields).1
          session
          pack
        ≡ true
  unfolding seed_schema_public pack_key
  user_auth_can_read-on_flash pack name fields card session h small table room ready fits =
      let env = on_flash hw hash in
      let back = back-on_flash (schema_key pack) card table room (omega arith) small ready fits in
      ap (λ c. user_auth_can_read env (put_schema env s pack c).1 session pack) h
      ∙ can_read-put env s pack session name fields 1 reference_module card h back
      ∙ or-true (pack_in_list session.read_packs pack)
