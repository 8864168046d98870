-- ===== src/Users/Card.antt =====
-- User cards of src/user_auth.c: [magic:2][version:2] and then fields, each [ord:1][len:1][bytes]. A
-- pointer into a card is the bytes from there on; through the pointers to the hash and to the salt the
-- code reads 32 and 16 bytes, so these are what the model keeps of them.
pub mod Rounds
pub mod Roundtrip
use picowal.Prelude.{
  ℕ, zero, suc, ◌+◌, ◌-◌, ◌*◌, ◌/◌, ◌%◌, ◌^◌, Bool, true, false, ◌&&◌, Option, none, some, List, [],
  ◌∷◌, ◌++◌, length, take, drop, ltb, leb, ◌==◌, if◌then◌else◌,
}

abbrev pub user_hash_len : ℕ
user_hash_len = 32

abbrev pub user_salt_len : ℕ
user_salt_len = 16

-- CARD_MAGIC_LO, CARD_MAGIC_HI and version 1
abbrev pub card_header : List ℕ
card_header = 0x7D ∷ 0xCA ∷ 1 ∷ 0 ∷ []

-- The guard on the size of the buffer, and the bytes that it is for.
unfoldable pub fit : ℕ → List ℕ → List ℕ → Option (List ℕ)
fit buf_size bytes buf =
    if ltb buf_size (length buf + length bytes) then none else some (buf ++ bytes)

-- A field of bytes, and one whose bytes have their length in front.
unfoldable pub plain_field : ℕ → List ℕ → List ℕ
plain_field ord bytes = ord ∷ (length bytes % 256) ∷ bytes

unfoldable pub prefixed_field : ℕ → List ℕ → List ℕ
prefixed_field ord bytes = ord ∷ ((1 + length bytes) % 256) ∷ (length bytes % 256) ∷ bytes

unfoldable pub pack_bytes : List ℕ → List ℕ
pack_bytes [] = []
pack_bytes (p ∷ ps) = (p % 256) ∷ (p / 256 % 256) ∷ pack_bytes ps

-- What a card is built from.
pub record User : Type 0 where
  pub username : List ℕ
  pub hash : List ℕ
  pub salt : List ℕ
  pub flags : ℕ
  pub fail_count : ℕ
  pub read_packs : List ℕ
  pub write_packs : List ℕ
  pub delete_packs : List ℕ

-- The fields of the card in their order.
unfoldable pub card_fields : User → List (List ℕ)
card_fields u =
    prefixed_field 0 u.username
    ∷ plain_field 1 u.hash
    ∷ plain_field 2 u.salt
    ∷ plain_field 3 (u.flags ∷ [])
    ∷ plain_field 4 (u.fail_count ∷ [])
    ∷ prefixed_field 5 (pack_bytes u.read_packs)
    ∷ prefixed_field 6 (pack_bytes u.write_packs)
    ∷ prefixed_field 7 (pack_bytes u.delete_packs)
    ∷ []

-- The parts one behind the other, each behind its guard; the code returns 0 for `none`.
unfoldable pub fit_all : ℕ → List (List ℕ) → List ℕ → Option (List ℕ)
fit_all buf_size [] buf = some buf
fit_all buf_size (f ∷ fs) buf = elim (fit buf_size f buf) [
  | none ↦ none
  | some buf' ↦ fit_all buf_size fs buf'
]

unfoldable pub build_user_card : ℕ → User → Option (List ℕ)
build_user_card buf_size u = fit_all buf_size (card_header ∷ card_fields u) []

-- `parse_field` at the bytes that are left: the ordinal, the length, the bytes from the field's data
-- on, and the bytes behind the field.
pub record Parsed : Type 0 where
  pub ord : ℕ
  pub flen : ℕ
  pub at : List ℕ
  pub next : List ℕ

unfoldable pub parse_field : List ℕ → Option Parsed
parse_field [] = none
parse_field (o ∷ []) = none
parse_field (o ∷ flen ∷ rest) =
    if ltb (length rest) flen
    then none
    else some (record { ord = o % 32; flen = flen; at = rest; next = drop flen rest })

-- parsed_user_t: a null pointer is `none`; without the bytes of an array its count is 0.
pub record Fields : Type 0 where
  pub username : Option (List ℕ)
  pub hash : Option (List ℕ)
  pub salt : Option (List ℕ)
  pub flags : ℕ
  pub fail_count : ℕ
  pub read_bytes : List ℕ
  pub write_bytes : List ℕ
  pub del_bytes : List ℕ

abbrev pub no_fields : Fields
no_fields = record {
  username = none;
  hash = none;
  salt = none;
  flags = 0;
  fail_count = 0;
  read_bytes = [];
  write_bytes = [];
  del_bytes = [];
}

-- The bytes behind their length, of which there are at most `flen - 1`.
unfoldable pub counted : ℕ → List ℕ → List ℕ
counted flen [] = []
counted flen (n ∷ rest) = take (if ltb (flen - 1) n then flen - 1 else n) rest

unfoldable pub first_byte : ℕ → List ℕ → ℕ
first_byte flen [] = 0
first_byte flen (b ∷ rest) = if leb 1 flen then b else 0

-- The switch on the ordinal.
unfoldable pub take_field : Parsed → Fields → Fields
take_field p out =
    let some_bytes = leb 1 p.flen in
    if p.ord == 0
    then (if some_bytes then record out { username = some (counted p.flen p.at) } else out)
    else if p.ord == 1
    then record out { hash = some (take user_hash_len p.at) }
    else if p.ord == 2
    then record out { salt = some (take user_salt_len p.at) }
    else if p.ord == 3
    then record out { flags = first_byte p.flen p.at }
    else if p.ord == 4
    then record out { fail_count = first_byte p.flen p.at }
    else if p.ord == 5
    then (if some_bytes then record out { read_bytes = counted p.flen p.at } else out)
    else if p.ord == 6
    then (if some_bytes then record out { write_bytes = counted p.flen p.at } else out)
    else if p.ord == 7
    then (if some_bytes then record out { del_bytes = counted p.flen p.at } else out)
    else out

-- The loop over the bytes that are left: a round takes at least two of them.
unfoldable pub parse_loop : ℕ → List ℕ → Fields → Fields
parse_loop zero rest out = out
parse_loop (suc fuel) rest out = elim (parse_field rest) [
  | none ↦ out
  | some p ↦ parse_loop fuel p.next (take_field p out)
]

-- The words of an array, an odd byte at its end left out.
unfoldable pub pack_words : List ℕ → List ℕ
pack_words [] = []
pack_words (lo ∷ []) = []
pack_words (lo ∷ hi ∷ rest) = (lo + 256 * hi) ∷ pack_words rest

-- `username != NULL && hash != NULL && salt != NULL`
unfoldable pub complete : Fields → Option (List ℕ) → Option (List ℕ) → Option (List ℕ) → Option User
complete f (some username) (some hash) (some salt) = some (record {
  username = username;
  hash = hash;
  salt = salt;
  flags = f.flags;
  fail_count = f.fail_count;
  read_packs = pack_words f.read_bytes;
  write_packs = pack_words f.write_bytes;
  delete_packs = pack_words f.del_bytes;
})
complete f (some username) (some hash) none = none
complete f (some username) none salt = none
complete f none hash salt = none

-- The magic, and the fields behind the version.
unfoldable pub parse_user_card : List ℕ → Option User
parse_user_card [] = none
parse_user_card (m ∷ []) = none
parse_user_card (m ∷ m' ∷ []) = none
parse_user_card (m ∷ m' ∷ v ∷ []) = none
parse_user_card (m ∷ m' ∷ v ∷ v' ∷ rest) =
    let f = parse_loop (length rest) rest no_fields in
    if (m == 0x7D) && (m' == 0xCA) then complete f f.username f.hash f.salt else none

-- The first `max` words.
unfoldable pub extract_packs : List ℕ → ℕ → List ℕ
extract_packs bytes max = take max (pack_words bytes)
