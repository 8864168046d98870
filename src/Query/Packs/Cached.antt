-- ===== src/Query/Packs/Cached.antt =====
-- The cache of pack schemas in src/query.c, asked again.
use picowal.Prelude.{
  ℕ, zero, suc, ◌%◌, ◌^◌, ◌<◌, ◌≤◌, ◌≡◌, refl, sym, ap, ◌∙◌, Bool, true, Option, none, some, List,
  [], ◌∷◌, ◌++◌, length, take, drop, get_or, ltb, leb, ◌==◌, ◌&&◌, ◌||◌, if◌then◌else◌, arith,
  if_intro, Bool-cases, Option-cases, inl, inr, length-take_le, take_all,
}
use mathlib.Core.Bool.{not}
use picowal.Query.Field.{until_zero}
use picowal.Query.Packs.{
  QueryStore, PackSchema, pack_cache_size, same_name, cached_pack, Scanned, scan_field, scan_fields,
  scan_card, scan_packs, resolve_pack,
}

length-until_zero : (cs : List ℕ) → length (until_zero cs) ≤ length cs
unfolding until_zero
length-until_zero [] = omega arith
length-until_zero (c ∷ cs) = ground (arith, length-until_zero cs)

pname_short : (n : ℕ) (cs : List ℕ) → n ≤ 31 → length (until_zero (take n cs)) ≤ 31
pname_short n cs h = omega (arith, length-until_zero (take n cs), length-take_le n cs)

scan_field-short :
    (ord flen : ℕ) (bytes : List ℕ) (s : Scanned)
    → length s.pname ≤ 31
    → length (scan_field ord flen bytes s).pname ≤ 31
unfolding scan_field
scan_field-short ord flen bytes s h =
    let nl = get_or bytes 0 0 in
    let n = if ltb 31 nl then 31 else nl in
    if_intro (λ (r : Scanned). length r.pname ≤ 31) (ord == 0)
      (λ _.
        if_intro (λ (r : Scanned). length r.pname ≤ 31) (leb 1 flen)
          (λ _. pname_short n (drop 1 bytes) (ground arith)) (λ _. h))
      (λ _.
        if_intro (λ (r : Scanned). length r.pname ≤ 31) (ord == 1)
          (λ _. if_intro (λ (r : Scanned). length r.pname ≤ 31) (leb 1 flen) (λ _. h) (λ _. h))
          (λ _.
            if_intro (λ (r : Scanned). length r.pname ≤ 31) (ord == 2) (λ _. h)
              (λ _. if_intro (λ (r : Scanned). length r.pname ≤ 31) (ord == 5) (λ _. h) (λ _. h))))

scan_fields-short :
    (fuel : ℕ) (rest : List ℕ) (s : Scanned)
    → length s.pname ≤ 31
    → length (scan_fields fuel rest s).pname ≤ 31
unfolding scan_fields
scan_fields-short zero rest s h = h
scan_fields-short (suc fuel) [] s h = h
scan_fields-short (suc fuel) (o ∷ []) s h = h
scan_fields-short (suc fuel) (o ∷ flen ∷ rest) s h =
    if_intro (λ (r : Scanned). length r.pname ≤ 31) (ltb (length rest) flen) (λ _. h)
      (λ _.
        scan_fields-short fuel (drop flen rest) (scan_field (o % 32) flen rest s)
          (scan_field-short (o % 32) flen rest s h))

scan_card-short :
    (card : List ℕ) (ps : PackSchema) (s : Scanned)
    → scan_card card ps ≡ some s
    → length s.pname ≤ 31
unfolding scan_card
scan_card-short card ps s e =
    let first : Scanned = record { pname = []; fc = 0; ps = ps } in
    let bad = ltb (length card) 6 || not ((get_or card 0 0 == 0x7D) && (get_or card 1 0 == 0xCA)) in
    elim (Bool-cases bad) [
      | inl h ↦ let q : none ≡ some s = sym (rw (h, scan_card) refl) ∙ e in absurd (cc q)
      | inr h ↦
          let s' = scan_fields (length card) (drop 4 card) first in
          let q : some s' ≡ some s = sym (rw (h, scan_card) refl) ∙ e in
          let same : s' ≡ s = cc q in
          omega (
            arith,
            ap (λ (r : Scanned). length r.pname) same,
            scan_fields-short (length card) (drop 4 card) first (omega arith),
          )
    ]

module _ (env : QueryStore) (store : env.Store) (name : List ℕ) where
  scan_packs-none :
      (k : ℕ) (ks : List ℕ) (ps : PackSchema)
      → env.get_copy store k 256 ≡ none
      → scan_packs env store (k ∷ ks) name ps ≡ scan_packs env store ks name ps
  unfolding scan_packs
  scan_packs-none k ks ps e = rw (e, scan_packs) refl

  scan_packs-bad :
      (k : ℕ) (ks card : List ℕ) (ps : PackSchema)
      → env.get_copy store k 256 ≡ some card
      → scan_card card ps ≡ none
      → scan_packs env store (k ∷ ks) name ps ≡ scan_packs env store ks name ps
  unfolding scan_packs
  scan_packs-bad k ks card ps e f = rw (e, scan_packs) (rw f refl)

  schema_of : ℕ → Scanned → PackSchema
  schema_of k s =
      let read = s.ps in
      record read { ord = k % 2 ^ 22 % 2 ^ 16; field_count = s.fc; name = take 31 s.pname }

  scan_packs-card :
      (k : ℕ) (ks card : List ℕ) (ps : PackSchema) (s : Scanned)
      → env.get_copy store k 256 ≡ some card
      → scan_card card ps ≡ some s
      → scan_packs env store (k ∷ ks) name ps ≡ (
          if same_name s.pname name
          then some (schema_of k s)
          else scan_packs env store ks name s.ps)
  unfolding scan_packs schema_of
  scan_packs-card k ks card ps s e f = rw (e, scan_packs) (rw f refl)

  -- The schema that is found has the name.
  scan_packs-name :
      (ks : List ℕ) (ps p : PackSchema)
      → scan_packs env store ks name ps ≡ some p
      → same_name p.name name ≡ true
  unfolding scan_packs schema_of
  scan_packs-name [] ps p h = absurd (cc h)
  scan_packs-name (k ∷ ks) ps p h = elim (Option-cases (env.get_copy store k 256)) [
    | inl e ↦ scan_packs-name ks ps p (sym (scan_packs-none k ks ps e) ∙ h)
    | inr (card, e) ↦ elim (Option-cases (scan_card card ps)) [
      | inl f ↦ scan_packs-name ks ps p (sym (scan_packs-bad k ks card ps e f) ∙ h)
      | inr (s, f) ↦
          let step = sym (scan_packs-card k ks card ps s e f) ∙ h in
          elim (Bool-cases (same_name s.pname name)) [
            | inl g ↦
                let q : some (schema_of k s) ≡ some p =
                  ap
                    (λ (b : Bool).
                      if b then some (schema_of k s) else scan_packs env store ks name s.ps)
                    (sym g)
                  ∙ step in
                let same : schema_of k s ≡ p = cc q in
                let whole : take 31 s.pname ≡ s.pname =
                  take_all 31 s.pname (scan_card-short card ps s f) in
                ap (λ (r : PackSchema). same_name r.name name) (sym same)
                ∙ ap (λ n. same_name n name) whole
                ∙ g
            | inr g ↦ scan_packs-name ks s.ps p (
                ap
                  (λ (b : Bool).
                    if b then some (schema_of k s) else scan_packs env store ks name s.ps)
                  (sym g)
                ∙ step)
          ]
    ]
  ]

cached_pack-append :
    (cache : List PackSchema) (name : List ℕ) (p : PackSchema)
    → cached_pack cache name ≡ none
    → same_name p.name name ≡ true
    → cached_pack (cache ++ (p ∷ [])) name ≡ some p
unfolding cached_pack
cached_pack-append [] name p e h = rw (h, cached_pack) refl
cached_pack-append (c ∷ cache) name p e h = elim (Bool-cases (same_name c.name name)) [
  | inl f ↦ let q : some c ≡ none = sym (rw (f, cached_pack) refl) ∙ e in absurd (cc q)
  | inr f ↦
      let rest : cached_pack cache name ≡ none = sym (rw (f, cached_pack) refl) ∙ e in
      rw (f, cached_pack) (cached_pack-append cache name p rest h)
]

resolve_pack-hit :
    (env : QueryStore) (store : env.Store) (cache : List PackSchema) (name : List ℕ)
    (ps p : PackSchema)
    → cached_pack cache name ≡ some p
    → resolve_pack env store cache name ps ≡ (some p, cache)
unfolding resolve_pack
resolve_pack-hit env store cache name ps p e = rw (e, resolve_pack) refl

resolve_pack-missing :
    (env : QueryStore) (store : env.Store) (cache : List PackSchema) (name : List ℕ)
    (ps : PackSchema)
    → cached_pack cache name ≡ none
    → scan_packs env store (env.range store 0 0xFFC0_0000 64) name ps ≡ none
    → resolve_pack env store cache name ps ≡ (none, cache)
unfolding resolve_pack
resolve_pack-missing env store cache name ps e f = rw (e, resolve_pack) (rw f refl)

resolve_pack-scanned :
    (env : QueryStore) (store : env.Store) (cache : List PackSchema) (name : List ℕ)
    (ps p : PackSchema)
    → length cache < 8
    → cached_pack cache name ≡ none
    → scan_packs env store (env.range store 0 0xFFC0_0000 64) name ps ≡ some p
    → resolve_pack env store cache name ps ≡ (some p, cache ++ (p ∷ []))
unfolding resolve_pack
resolve_pack-scanned env store cache name ps p room e f =
    let more : ltb (length cache) pack_cache_size ≡ true = ground arith in
    rw (e, resolve_pack) (rw f (rw more refl))

-- A pack that was resolved with room in the cache is resolved to the same schema ever after, whatever
-- the store holds by then.
pub resolve_pack_again :
    (env : QueryStore) (store store' : env.Store) (cache cache' : List PackSchema) (name : List ℕ)
    (ps ps' p : PackSchema)
    → length cache < 8
    → resolve_pack env store cache name ps ≡ (some p, cache')
    → resolve_pack env store' cache' name ps' ≡ (some p, cache')
resolve_pack_again env store store' cache cache' name ps ps' p room h =
    elim (Option-cases (cached_pack cache name)) [
      | inr (c, e) ↦
          let q : (some c, cache) ≡ (some p, cache') =
            sym (resolve_pack-hit env store cache name ps c e) ∙ h in
          let first : some c ≡ some p = ap (λ (r : Option PackSchema × List PackSchema). r.0) q in
          let same : cache ≡ cache' = ap (λ (r : Option PackSchema × List PackSchema). r.1) q in
          resolve_pack-hit env store' cache' name ps' p
            (ap (λ t. cached_pack t name) (sym same) ∙ e ∙ first)
      | inl e ↦
          elim (Option-cases (scan_packs env store (env.range store 0 0xFFC0_0000 64) name ps)) [
            | inl f ↦
                let q : Path (Option PackSchema × List PackSchema) (none, cache) (some p, cache') =
                  sym (resolve_pack-missing env store cache name ps e f) ∙ h in
                let first : Path (Option PackSchema) none (some p) =
                  ap (λ (r : Option PackSchema × List PackSchema). r.0) q in
                absurd (cc first)
            | inr (c, f) ↦
                let q : (some c, cache ++ (c ∷ [])) ≡ (some p, cache') =
                  sym (resolve_pack-scanned env store cache name ps c room e f) ∙ h in
                let first : some c ≡ some p =
                  ap (λ (r : Option PackSchema × List PackSchema). r.0) q in
                let same : cache ++ (c ∷ []) ≡ cache' =
                  ap (λ (r : Option PackSchema × List PackSchema). r.1) q in
                let named =
                  scan_packs-name env store name (env.range store 0 0xFFC0_0000 64) ps c f in
                resolve_pack-hit env store' cache' name ps' p (
                  ap (λ t. cached_pack t name) (sym same)
                  ∙ cached_pack-append cache name c e named
                  ∙ first)
          ]
    ]
