-- ===== src/Users/Access/Public.antt =====
-- The public-read flag of the schema cards of src/user_auth.c.
use Prim.Native.Nat.{bit_and}
use mathlib.Core.Bool.{not}
use mathlib.Core.List.{append_assoc, append-nil}
use picowal.Prelude.{
  ℕ, zero, suc, ◌+◌, ◌*◌, ◌%◌, ◌<◌, ◌≤◌, ◌≡◌, ◌≢◌, refl, sym, ap, ◌∙◌, Bool, true, false, ◌||◌,
  none, some, List, [], ◌∷◌, ◌++◌, arith, length, take, length-take, ltb, ◌==◌, Bool-cases,
  Option-cases, inl, inr, length-append, drop-append,
}
use picowal.Users.Card.{fit, fit_all, first_byte}
use picowal.Users.Card.Rounds.{joined}
use picowal.Users.Card.Roundtrip.{fit_all-joined}
use picowal.Users.State.{AuthEnv, UserSession, schema_key}
use picowal.Users.Access.{
  SchemaField, names_total, reference_module, put_schema, seed_schema, seed_schema_public,
  build_schema_card, build_schema_card_ex, pack_in_list, pack_is_public_read, user_auth_can_read,
  user_auth_seed_schema, string_field, field_defs, field_names, add_module, add_names, schema_parts,
  build_schema_card_full, public_loop, public_card,
}

length-field_defs : (fs : List SchemaField) → length (field_defs fs) ≡ 3 * length fs
unfolding field_defs
length-field_defs [] = omega arith
length-field_defs (f ∷ fs) = omega (arith, length-field_defs fs)

-- A field of another ordinal is passed over.
public_loop-pass :
    (fuel o : ℕ) (bytes rest : List ℕ)
    → o % 32 ≢ 3
    → public_loop (suc fuel) (o ∷ length bytes ∷ (bytes ++ rest)) ≡ public_loop fuel rest
unfolding public_loop
public_loop-pass fuel o bytes rest ne =
    let inside : ltb (length (bytes ++ rest)) (length bytes) ≡ false =
      ground (arith, length-append bytes rest) in
    let other : (o % 32 == 3) ≡ false = ground arith in
    rw (inside, public_loop) (rw other (rw drop-append refl))

public_loop-found :
    (fuel flags : ℕ) (rest : List ℕ)
    → public_loop (suc fuel) (3 ∷ 1 ∷ flags ∷ rest) ≡ not (bit_and flags 1 == 0)
unfolding public_loop first_byte
public_loop-found fuel flags rest =
    let inside : ltb (length (flags ∷ rest)) 1 ≡ false = ground arith in
    rw (inside, public_loop) refl

fit_all-size :
    (buf_size : ℕ) (fs : List (List ℕ)) (buf card : List ℕ)
    → length buf ≤ buf_size
    → fit_all buf_size fs buf ≡ some card
    → length card ≤ buf_size
unfolding fit_all fit
fit_all-size buf_size [] buf card small h = ground (arith, ap (λ c. c) h)
fit_all-size buf_size (f ∷ fs) buf card small h =
    elim (Bool-cases (ltb buf_size (length buf + length f))) [
      | inl over ↦ ground arith
      | inr within ↦
          fit_all-size buf_size fs (buf ++ f) card (ground (arith, length-append buf f))
            (ground arith)
    ]

-- What the loop meets behind the header.
abbrev parts_after : List ℕ → List SchemaField → ℕ → List ℕ → List ℕ
parts_after name fields flags more =
    string_field 0 name
    ++ (1
        ∷ 1
        ∷ length fields
        ∷ 2
        ∷ (3 * length fields % 256)
        ∷ (field_defs fields ++ (3 ∷ 1 ∷ flags ∷ more)))

parts_after-public :
    (fuel : ℕ) (name : List ℕ) (fields : List SchemaField) (flags : ℕ) (more : List ℕ)
    → length name % 256 < 255
    → 3 * length fields < 256
    → 4 ≤ fuel
    → public_loop fuel (parts_after name fields flags more) ≡ not (bit_and flags 1 == 0)
unfolding string_field
parts_after-public zero name fields flags more n d h = absurd (omega arith)
parts_after-public (suc zero) name fields flags more n d h = absurd (omega arith)
parts_after-public (suc (suc zero)) name fields flags more n d h = absurd (omega arith)
parts_after-public (suc (suc (suc zero))) name fields flags more n d h = absurd (omega arith)
parts_after-public (suc (suc (suc (suc k)))) name fields flags more n d h =
    let len = length name % 256 in
    let bytes : List ℕ = len ∷ take len name in
    let e : (1 + len) % 256 ≡ length bytes = omega (arith, length-take name len (omega arith)) in
    let f : 3 * length fields % 256 ≡ length (field_defs fields) =
      omega (arith, length-field_defs fields) in
    rw e (
      public_loop-pass (suc (suc (suc k))) 0 bytes _ (λ q. absurd (omega arith))
      ∙ public_loop-pass (suc (suc k)) 1 (length fields ∷ []) _ (λ q. absurd (omega arith))
      ∙ (rw f (public_loop-pass (suc k) 2 (field_defs fields) _ (λ q. absurd (omega arith))))
      ∙ public_loop-found k flags more)

add_module-more :
    (buf_size : ℕ) (name buf : List ℕ)
    → (more : List ℕ) × (add_module buf_size name buf ≡ buf ++ more)
unfolding add_module fit
add_module-more buf_size [] buf = ([], sym (append-nil buf))
add_module-more buf_size (c ∷ cs) buf =
    elim (Bool-cases (ltb buf_size (length buf + length (string_field 4 (c ∷ cs))))) [
      | inl over ↦ ([], rw (over, add_module) (sym (append-nil buf)))
      | inr within ↦ (string_field 4 (c ∷ cs), rw (within, add_module) refl)
    ]

add_names-more :
    (buf_size : ℕ) (fields : List SchemaField) (buf card : List ℕ)
    → add_names buf_size fields buf ≡ some card
    → (more : List ℕ) × (card ≡ buf ++ more)
unfolding add_names
add_names-more buf_size fields buf card h =
    let total = names_total fields in
    elim (Bool-cases (ltb buf_size (length buf + 2 + total) || ltb 255 total)) [
      | inl over ↦ let q : none ≡ some card = sym (rw (over, add_names) refl) ∙ h in absurd (cc q)
      | inr within ↦
          let more = 5 ∷ (total % 256) ∷ field_names fields in
          let q : some (buf ++ more) ≡ some card = sym (rw (within, add_names) refl) ∙ h in
          (more, sym (cc q))
    ]

-- The parser finds the flags that a card of at most 256 bytes was built with.
public_card-parts :
    (name : List ℕ) (fields : List SchemaField) (flags : ℕ) (more : List ℕ)
    → length (joined (schema_parts name fields flags)) ≤ 256
    → public_card (joined (schema_parts name fields flags) ++ more) ≡ not (bit_and flags 1 == 0)
unfolding public_card joined schema_parts string_field
public_card-parts name fields flags more small =
    let len = length name % 256 in
    let bytes = take len name in
    let rest =
      1
      ∷ 1
      ∷ length fields
      ∷ 2
      ∷ (3 * length fields % 256)
      ∷ (field_defs fields ++ (3 ∷ 1 ∷ flags ∷ [])) in
    let l = length-take name len (omega arith) in
    let a = length-append bytes rest in
    let b = length-append (field_defs fields) (3 ∷ 1 ∷ flags ∷ []) in
    let d = length-field_defs fields in
    let behind =
      1
      ∷ 1
      ∷ length fields
      ∷ 2
      ∷ (3 * length fields % 256)
      ∷ (field_defs fields ++ (3 ∷ 1 ∷ flags ∷ more)) in
    let same : (bytes ++ rest) ++ more ≡ bytes ++ behind =
      append_assoc bytes rest more
      ∙ ap (λ t. bytes ++ (1 ∷ 1 ∷ length fields ∷ 2 ∷ (3 * length fields % 256) ∷ t))
          (append_assoc (field_defs fields) (3 ∷ 1 ∷ flags ∷ []) more) in
    rw same (
      parts_after-public _ name fields flags more (omega (arith, l, a, b, d, small))
        (omega (arith, l, a, b, d, small)) (omega (arith, length-append bytes behind)))

public_card-build :
    (name : List ℕ) (fields : List SchemaField) (flags : ℕ) (module_name card : List ℕ)
    → build_schema_card_full 256 name fields flags module_name ≡ some card
    → public_card card ≡ not (bit_and flags 1 == 0)
unfolding build_schema_card_full
public_card-build name fields flags module_name card h =
    let parts = schema_parts name fields flags in
    elim (Option-cases (fit_all 256 parts [])) [
      | inl e ↦
          let q : none ≡ some card = sym (rw (e, build_schema_card_full) refl) ∙ h in absurd (cc q)
      | inr (buf, e) ↦
          let q : add_names 256 fields (add_module 256 module_name buf) ≡ some card =
            sym (rw (e, build_schema_card_full) refl) ∙ h in
          let (more, f) = add_module-more 256 module_name buf in
          let (more', g) = add_names-more 256 fields (add_module 256 module_name buf) card q in
          let all : buf ≡ joined parts = fit_all-joined 256 parts [] buf e in
          let size : length (joined parts) ≤ 256 =
            ground (arith, all, fit_all-size 256 parts [] buf (omega arith) e) in
          ap public_card (
            g
            ∙ ap (λ b. b ++ more') f
            ∙ append_assoc buf more more'
            ∙ ap (λ b. b ++ (more ++ more')) all)
          ∙ public_card-parts name fields flags (more ++ more') size
    ]

module _ (env : AuthEnv) (store : env.Store) (pack : ℕ) (s : UserSession) where
  pub can_read-put :
      (name : List ℕ) (fields : List SchemaField) (flags : ℕ) (module_name card : List ℕ)
      → build_schema_card_full 256 name fields flags module_name ≡ some card
      → env.get_copy (env.put store (schema_key pack) card).1 (schema_key pack) 128 ≡ some card
      → user_auth_can_read env (put_schema env store pack (some card)).1 s pack
        ≡ (pack_in_list s.read_packs pack || not (bit_and flags 1 == 0))
  unfolding user_auth_can_read pack_is_public_read put_schema
  can_read-put name fields flags module_name card h back =
      let flag = public_card-build name fields flags module_name card h in
      rw (back, user_auth_can_read, pack_is_public_read)
        (elim (Bool-cases (pack_in_list s.read_packs pack)) [
          | inl e ↦ rw e refl
          | inr e ↦ rw e flag
        ])

pub or-true : (b : Bool) → (b || true) ≡ true
or-true true = refl
or-true false = refl

or-false : (b : Bool) → (b || false) ≡ b
or-false true = refl
or-false false = refl

-- Of a pack whose schema card, once put, is read back into a buffer of 128 bytes: seeded by
-- `seed_schema_public`, each session can read the pack; seeded by `user_auth_seed_schema`, a session
-- can read it if and only if its list of readable packs has it.
pub user_auth_can_read-seeded :
    (env : AuthEnv) (store : env.Store) (pack : ℕ) (name : List ℕ) (fields : List SchemaField)
    (card card' : List ℕ) (s : UserSession)
    → build_schema_card_full 256 name fields 1 reference_module ≡ some card
    → env.get_copy (env.put store (schema_key pack) card).1 (schema_key pack) 128 ≡ some card
    → build_schema_card 256 name fields ≡ some card'
    → env.get_copy (env.put store (schema_key pack) card').1 (schema_key pack) 128 ≡ some card'
    → (user_auth_can_read env (seed_schema_public env store pack name fields).1 s pack ≡ true)
      × (user_auth_can_read env (user_auth_seed_schema env store pack name fields).1 s pack
          ≡ pack_in_list s.read_packs pack)
unfolding build_schema_card build_schema_card_ex user_auth_seed_schema seed_schema
    seed_schema_public
user_auth_can_read-seeded env store pack name fields card card' s h back h' back' = (
  ap (λ c. user_auth_can_read env (put_schema env store pack c).1 s pack) h
      ∙ can_read-put env store pack s name fields 1 reference_module card h back
      ∙ or-true (pack_in_list s.read_packs pack),
  ap (λ c. user_auth_can_read env (put_schema env store pack c).1 s pack) h'
      ∙ can_read-put env store pack s name fields 0 [] card' h' back'
      ∙ or-false (pack_in_list s.read_packs pack),
)
