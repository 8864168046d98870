-- ===== src/Query/Fanout.antt =====
-- The fanout cache of src/query.c: the 16 entries with their count as a list; every entry that counts
-- is valid.
use picowal.Prelude.{
  ℕ, ◌/◌, ◌<◌, ◌≡◌, refl, sym, ap, ◌∙◌, Bool, true, false, ◌&&◌, Option, none, some, List, [], ◌∷◌,
  ◌++◌, length, set, ltb, ◌==◌, if◌then◌else◌, arith, Bool-cases, inl, inr, Option-cases,
}

pub record Fanout : Type 0 where
  pub child_pack : ℕ
  pub link_ord : ℕ
  pub parent_pack : ℕ
  pub total_children : ℕ
  pub distinct_parents : ℕ

abbrev pub fanout_cache_max : ℕ
fanout_cache_max = 16

unfoldable pub is_link : Fanout → ℕ → ℕ → Bool
is_link f child_pack link_ord = (f.child_pack == child_pack) && (f.link_ord == link_ord)

-- The first entry of the link gets the new counts; `none` if there is no entry of it.
unfoldable pub update_link : List Fanout → Fanout → Option (List Fanout)
update_link [] new = none
update_link (f ∷ fs) new =
    let rest = update_link fs new in
    if is_link f new.child_pack new.link_ord
    then some (
        record f { total_children = new.total_children; distinct_parents = new.distinct_parents }
        ∷ fs)
    else (elim rest [ none ↦ none | some fs' ↦ some (f ∷ fs') ])

unfoldable pub fanout_update : List Fanout → Fanout → List Fanout
fanout_update fs new = elim (update_link fs new) [
  | some fs' ↦ fs'
  | none ↦ if ltb (length fs) fanout_cache_max then fs ++ (new ∷ []) else set fs 0 new
]

unfoldable pub fanout_estimate : List Fanout → ℕ → ℕ → ℕ
fanout_estimate [] child_pack link_ord = 0
fanout_estimate (f ∷ fs) child_pack link_ord =
    let rest = fanout_estimate fs child_pack link_ord in
    if is_link f child_pack link_ord && ltb 0 f.distinct_parents
    then f.total_children / f.distinct_parents
    else rest

module _ (new : Fanout) (some_parents : 0 < new.distinct_parents) where
  abbrev estimate : List Fanout → ℕ
  estimate fs = fanout_estimate fs new.child_pack new.link_ord

  abbrev average : ℕ
  average = new.total_children / new.distinct_parents

  abbrev here : Fanout → Bool
  here f = is_link f new.child_pack new.link_ord

  here_self : here new ≡ true
  unfolding is_link
  here_self = ground arith

  estimate_first :
      (f : Fanout) (fs : List Fanout)
      → here f ≡ true
      → f.total_children ≡ new.total_children
      → f.distinct_parents ≡ new.distinct_parents
      → estimate (f ∷ fs) ≡ average
  unfolding fanout_estimate
  estimate_first f fs h t d =
      let counted : ltb 0 f.distinct_parents ≡ true = ground (arith, d, some_parents) in
      rw (h, fanout_estimate) (rw counted (rw t (rw d refl)))

  estimate_next : (f : Fanout) (fs : List Fanout) → here f ≡ false → estimate (f ∷ fs) ≡ estimate fs
  unfolding fanout_estimate
  estimate_next f fs h = rw (h, fanout_estimate) refl

  updated : Fanout → Fanout
  updated f = record f {
    total_children = new.total_children;
    distinct_parents = new.distinct_parents;
  }

  updated_first :
      (f : Fanout) (fs : List Fanout) → here f ≡ true → estimate (updated f ∷ fs) ≡ average
  unfolding updated is_link
  updated_first f fs h = estimate_first (updated f) fs h refl refl

  update_link-here :
      (f : Fanout) (fs : List Fanout)
      → here f ≡ true
      → update_link (f ∷ fs) new ≡ some (updated f ∷ fs)
  unfolding update_link updated
  update_link-here f fs h = rw (h, update_link) refl

  update_link-none :
      (f : Fanout) (fs : List Fanout)
      → here f ≡ false
      → update_link fs new ≡ none
      → update_link (f ∷ fs) new ≡ none
  unfolding update_link
  update_link-none f fs h e = rw (h, update_link) (rw e refl)

  update_link-some :
      (f : Fanout) (fs fs' : List Fanout)
      → here f ≡ false
      → update_link fs new ≡ some fs'
      → update_link (f ∷ fs) new ≡ some (f ∷ fs')
  unfolding update_link
  update_link-some f fs fs' h e = rw (h, update_link) (rw e refl)

  estimate_updated : (fs fs' : List Fanout) → update_link fs new ≡ some fs' → estimate fs' ≡ average
  unfolding update_link
  estimate_updated [] fs' e = absurd (cc e)
  estimate_updated (f ∷ fs) fs' e = elim (Bool-cases (here f)) [
    | inl h ↦
        let q : some (updated f ∷ fs) ≡ some fs' = sym (update_link-here f fs h) ∙ e in
        let same : updated f ∷ fs ≡ fs' = cc q in ap estimate (sym same) ∙ updated_first f fs h
    | inr h ↦ elim (Option-cases (update_link fs new)) [
      | inl g ↦ let q : none ≡ some fs' = sym (update_link-none f fs h g) ∙ e in absurd (cc q)
      | inr (gs, g) ↦
          let q : some (f ∷ gs) ≡ some fs' = sym (update_link-some f fs gs h g) ∙ e in
          let same : f ∷ gs ≡ fs' = cc q in
          ap estimate (sym same) ∙ estimate_next f gs h ∙ estimate_updated fs gs g
    ]
  ]

  estimate_appended :
      (fs : List Fanout) → update_link fs new ≡ none → estimate (fs ++ (new ∷ [])) ≡ average
  estimate_appended [] e = estimate_first new [] here_self refl refl
  estimate_appended (f ∷ fs) e = elim (Bool-cases (here f)) [
    | inl h ↦
        let q : some (updated f ∷ fs) ≡ none = sym (update_link-here f fs h) ∙ e in absurd (cc q)
    | inr h ↦ elim (Option-cases (update_link fs new)) [
      | inl g ↦ estimate_next f (fs ++ (new ∷ [])) h ∙ estimate_appended fs g
      | inr (gs, g) ↦
          let q : some (f ∷ gs) ≡ none = sym (update_link-some f fs gs h g) ∙ e in absurd (cc q)
    ]
  ]

  estimate_replaced : (fs : List Fanout) → 0 < length fs → estimate (set fs 0 new) ≡ average
  estimate_replaced [] h = absurd (omega arith)
  estimate_replaced (f ∷ fs) h = estimate_first new fs here_self refl refl

  -- After an update with the counts of a link, of some parents, the estimate for the link is the
  -- average of these counts, also when the cache was full.
  pub fanout_estimate-update : (fs : List Fanout) → estimate (fanout_update fs new) ≡ average
  unfolding fanout_update
  fanout_estimate-update fs = elim (Option-cases (update_link fs new)) [
    | inr (fs', e) ↦ rw (e, fanout_update) (estimate_updated fs fs' e)
    | inl e ↦ elim (Bool-cases (ltb (length fs) fanout_cache_max)) [
      | inl h ↦ rw (e, fanout_update) (rw h (estimate_appended fs e))
      | inr h ↦ rw (e, fanout_update) (rw h (estimate_replaced fs (ground arith)))
    ]
  ]
