-- ===== src/Dedispersion/Masks.antt =====
-- Which counter fills the masks of the assembled chunks.
use ch_frb_l.Base.{
  ◌<◌, ◌≡◌, ◌⊎◌, refl, sym, ap, ◌∙◌, true, false, ◌||◌, List, [], ◌∷◌, ◌++◌, none, some, length,
  length-append, arith, Option-cases, Bool-cases, inl, inr, ltb, All, int_eq, text_eq, pair_eq,
}
use ch_frb_l.Dedispersion.{MaskCounter, Stage, Found, is_clipper, find_mask_counters, visit}

module _ {Ring : Type 0} where
  -- Neither a clipper nor a mask counter.
  abbrev pub Quiet : Stage Ring → Type 0
  Quiet p = (is_clipper p ≡ false) × (p.mask_counter ≡ none)

  -- The last mask counter of the chain, with no clipper after it.
  pub record IsLast (stages : List (Stage Ring)) (counter : MaskCounter Ring) : Type 0 where
    pub before : List (Stage Ring)
    pub stage : Stage Ring
    pub after : List (Stage Ring)
    pub split : stages ≡ before ++ stage ∷ after
    pub is_counter : (is_clipper stage ≡ false) × (stage.mask_counter ≡ some counter)
    pub quiet : All Quiet after

  -- The visit has found no counter in these stages.
  abbrev pub NoCounter : List (Stage Ring) → Found Ring → Type 0
  NoCounter stages f =
      ((visit stages f).mask_counters ≡ f.mask_counters)
      × (f.clippers_after_mask_counters ≡ false)
      × (0 < length f.mask_counters → All Quiet stages)

  -- The visit has found counters, this one last.
  pub record LastFound (stages : List (Stage Ring)) (f : Found Ring) : Type 0 where
    pub earlier : List (MaskCounter Ring)
    pub counter : MaskCounter Ring
    pub finds : (visit stages f).mask_counters ≡ earlier ++ counter ∷ []
    pub is_last : IsLast stages counter

  at_clipper :
      (p : Stage Ring) (f : Found Ring)
      → is_clipper p ≡ true
      → (find_mask_counters p f).mask_counters ≡ f.mask_counters
        × ((find_mask_counters p f).clippers_after_mask_counters
            ≡ (f.clippers_after_mask_counters || ltb 0 (length f.mask_counters)))
  unfolding find_mask_counters
  at_clipper p f h = rw h (refl, refl)

  at_counter :
      (p : Stage Ring) (f : Found Ring) (counter : MaskCounter Ring)
      → is_clipper p ≡ false
      → p.mask_counter ≡ some counter
      → (find_mask_counters p f).mask_counters ≡ f.mask_counters ++ counter ∷ []
  unfolding find_mask_counters
  at_counter p f counter h e = rw (h, e) refl

  at_quiet :
      (p : Stage Ring) (f : Found Ring)
      → is_clipper p ≡ false
      → p.mask_counter ≡ none
      → find_mask_counters p f ≡ f
  unfolding find_mask_counters
  at_quiet p f h e = rw (h, e) refl

  pub visit_last :
      (stages : List (Stage Ring)) (f : Found Ring)
      → (visit stages f).clippers_after_mask_counters ≡ false
      → NoCounter stages f ⊎ LastFound stages f
  unfolding visit
  visit_last [] f h = inl (refl, h, λ _. tt)
  visit_last (p ∷ stages) f h = elim (visit_last stages (find_mask_counters p f) h) [
    | inr last ↦ inr (record {
      earlier = last.earlier;
      counter = last.counter;
      finds = last.finds;
      is_last = record {
        before = p ∷ last.is_last.before;
        stage = last.is_last.stage;
        after = last.is_last.after;
        split = ap (◌∷◌ p) last.is_last.split;
        is_counter = last.is_last.is_counter;
        quiet = last.is_last.quiet;
      };
    })
    | inl (same, clear, quiet) ↦ elim (Bool-cases (is_clipper p)) [
      | inl clipper ↦
          let (kept, noted) = at_clipper p f clipper in
          inl (
            same ∙ kept,
            ground (arith, clear, noted),
            λ some_before. absurd (ground (arith, clear, noted, some_before)),
          )
      | inr other ↦ elim (Option-cases p.mask_counter) [
        | inl plain ↦
            let skip = at_quiet p f other plain in
            inl (
              same ∙ ap (λ g. g.mask_counters) skip,
              sym (ap (λ g. g.clippers_after_mask_counters) skip) ∙ clear,
              λ some_before. ((other, plain), quiet (rw skip some_before)),
            )
        | inr (counter, e) ↦
            let more = at_counter p f counter other e in
            inr (record {
              earlier = f.mask_counters;
              counter = counter;
              finds = same ∙ more;
              is_last = record {
                before = [];
                stage = p;
                after = stages;
                split = refl;
                is_counter = (other, e);
                quiet =
                    quiet (rw more (omega (arith, length-append f.mask_counters (counter ∷ []))));
              };
            })
      ]
    ]
  ]
