-- ===== src/Users/Tests/Alice.antt =====
-- A user for the runs of src/user_auth.c.
use picowal.Prelude.{ℕ, ◌≤◌, refl, none, some, List, [], ◌∷◌, ◌++◌, arith, replicate, codes}
use picowal.Users.Tests.ListStore.{list_store}
use picowal.Users.Card.{
  User, build_user_card, fit_all, fit, card_fields, plain_field, prefixed_field, pack_bytes,
  parse_user_card, parse_loop, parse_field, take_field, counted, first_byte, complete, pack_words,
}
use picowal.Users.Card.Rounds.{IsUser}
use picowal.Users.Card.Roundtrip.{card_size}
use picowal.Users.State.{Auth, pack_key, user_key, same_bytes}
use picowal.Users.Login.{find_user_by_name, user_loop, user_at, blank_slot}
use picowal.Users.Known.{IsKnown}

abbrev pub salt : List ℕ
salt = replicate 16 7

abbrev pub alice : User
alice = record {
  username = codes "alice";
  hash = list_store.sha256 (salt ++ codes "secret");
  salt = salt;
  flags = 0;
  fail_count = 8;
  read_packs = 2 ∷ 300 ∷ [];
  write_packs = 2 ∷ [];
  delete_packs = [];
}

pub alice-IsUser : IsUser alice
alice-IsUser = record {
  username_in = omega arith;
  hash_in = refl;
  salt_in = refl;
  read_in = omega arith;
  write_in = omega arith;
  delete_in = omega arith;
  read_words = (omega arith, (omega arith, tt));
  write_words = (omega arith, tt);
  delete_words = tt;
}

pub alice-size : card_size alice ≤ 256
unfolding card_size
alice-size = omega arith

abbrev pub cards : list_store.Store
unfolding build_user_card fit_all fit card_fields plain_field prefixed_field pack_bytes pack_key
cards = elim (build_user_card 256 alice) [ none ↦ [] | some card ↦ (user_key 5, card) ∷ [] ]

abbrev pub auth : Auth list_store
auth = record { store = cards; sessions = replicate 8 blank_slot }

pub alice-IsKnown : IsKnown list_store auth.store 5 alice
unfolding build_user_card fit_all fit card_fields plain_field prefixed_field pack_bytes pack_key
    find_user_by_name user_loop user_at parse_user_card parse_loop parse_field take_field counted
    first_byte complete pack_words same_bytes
alice-IsKnown = record { found = refl; id_in = omega arith; user = alice-IsUser; fits = alice-size }
