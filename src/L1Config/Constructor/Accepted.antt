-- ===== src/L1Config/Constructor/Accepted.antt =====
-- A configuration that the constructor accepts satisfies the conditions that the server relies on.
use ch_frb_l.Base.{
  ◌≡◌, refl, sym, ◌∙◌, subst, ok_injective, nat_beq_iff, ◌⊎◌, inl, inr, Bool, true, false, not,
  List, [], ◌∷◌, Option, ok, err, Failure, if◌then◌else◌, length, ℤ, pos, pos_part, map, arith, All,
  nat_beq, Result-cases, Text, text_eq, int_eq, throw_if, txt,
}
use ch_frb_l.FileUtils.System.{FileSystem}
use ch_frb_l.Util.{vcontains, vrange}
use ch_frb_l.ParamFile.{lift, check_for_unused_params, read_vector_or}
use ch_frb_l.ParamFile.Returns.{Returns, step, lifted, anything, pure_lem}
use ch_frb_l.L1Config.{Options, Arguments, BonsaiConfig, Settings}
use ch_frb_l.L1Config.Checks.{set_streams, check_settings}
use ch_frb_l.L1Config.Checks.Sane.{IsSane, check_settings-IsSane}
use ch_frb_l.L1Config.Derived.{derive_buffers, pipe_capacity}
use ch_frb_l.L1Config.Environment.{
  Environment, L1Config, load_files, warned, have_warnings, map_addresses,
}
use ch_frb_l.L1Config.Read.{read_settings}
use ch_frb_l.L1Config.Parameters.{read_config, subset, stream_params, wrong_length, no_subset}
use ch_frb_l.L1Config.Constructor.{open_params, configure, set_pattern, l1_config}

subset_iff : (beams bs : List ℤ) → subset beams bs ≡ true → All (λ b. vcontains beams b ≡ true) bs
unfolding subset
subset_iff beams [] h = tt
subset_iff beams (b ∷ bs) h = ground (arith, subset_iff beams bs)

set_streams-ports :
    {D : Type 0} (name : Text) (given s : Settings D)
    → set_streams name given ≡ ok s
    → length s.ipaddr ≡ length s.port
unfolding set_streams
set_streams-ports name given s h = ground arith

passes : (b : Bool) (e : Failure) → throw_if b e ≡ ok tt → b ≡ false
passes true e h = cc
passes false e h = refl

not-false : (b : Bool) → not b ≡ false → b ≡ true
not-false true h = refl
not-false false h = cc

module _ {Node D : Type 0} (env : Environment Node D) where
  -- What is true of the object after `read_config`. The last condition: there were no warnings but for
  -- unused parameters, unless -f is given.
  pub record IsAccepted (c : L1Config D) : Type 0 where
    pub sane : IsSane env.io env.num c.bonsai c.settings
    pub ports : length c.settings.ipaddr ≡ length c.settings.port
    pub beams : length c.beam_ids ≡ pos_part c.settings.nbeams
    pub streamed : All (λ b. vcontains c.beam_ids b ≡ true) c.stream_beam_ids
    pub derived : derive_buffers env.io env.slab_size env.num c.settings ≡ ok c.buffers
    pub capacity : pipe_capacity c.bonsai c.settings ≡ ok c.l1b_pipe_capacity
    pub quiet : (c.options.fflag ≡ true) ⊎ (warned env c.bonsai c.settings true ≡ false)

  settled :
      (o : Options) (bonsai : Option BonsaiConfig) (s : Settings D) (clean : Bool)
      → (if warned env bonsai s clean then have_warnings o else ok tt) ≡ ok tt
      → (o.fflag ≡ true) ⊎ (warned env bonsai s true ≡ false)
  unfolding warned have_warnings
  settled o bonsai s clean h = ground arith

  Returns-accepted :
      (bonsai : Option BonsaiConfig) (a : Arguments) → Returns IsAccepted (read_config env bonsai a)
  unfolding read_config
  Returns-accepted bonsai a =
      let name = a.options.l1_config_filename in
      step (λ given. Unit) (read_settings env.num env.scalars a.options.tflag) _ (anything _)
        λ given _.
          step (λ mapped. map_addresses env given ≡ ok mapped) (lift (map_addresses env given)) _
            (lifted _)
            λ mapped _.
              step (λ s. set_streams name mapped ≡ ok s) (lift (set_streams name mapped)) _
                (lifted _)
                λ s ports.
                  step (λ u. check_settings env.io env.num bonsai name s ≡ ok u)
                    (lift (check_settings env.io env.num bonsai name s)) _ (lifted _)
                    λ u checked.
                      step (λ ids. Unit) (lift (vrange 0 (pos_part s.nbeams))) _ (anything _)
                        λ ids _.
                          step (λ beams. Unit)
                            (read_vector_or env.scalars.int (txt "beam_ids") (map pos ids)) _
                            (anything _)
                            λ beams _.
                              step
                                (λ v.
                                  throw_if (not (nat_beq (length beams) (pos_part s.nbeams)))
                                    (wrong_length name)
                                  ≡ ok v)
                                (lift (
                                  throw_if (not (nat_beq (length beams) (pos_part s.nbeams)))
                                    (wrong_length name)))
                                _ (lifted _)
                                λ v kept.
                                  step (λ stream. Unit) (stream_params env a.acq beams) _
                                    (anything _)
                                    λ stream _.
                                      step
                                        (λ v.
                                          throw_if (not (subset beams stream.2)) (no_subset name)
                                          ≡ ok v)
                                        (lift
                                          (throw_if (not (subset beams stream.2)) (no_subset name)))
                                        _ (lifted _)
                                        λ v within.
                                          step
                                            (λ b.
                                              derive_buffers env.io env.slab_size env.num s ≡ ok b)
                                            (lift (derive_buffers env.io env.slab_size env.num s)) _
                                            (lifted _)
                                            λ buffers derived.
                                              step (λ k. pipe_capacity bonsai s ≡ ok k)
                                                (lift (pipe_capacity bonsai s)) _ (lifted _)
                                                λ capacity pipe.
                                                  step (λ clean. Unit)
                                                    (check_for_unused_params false) _ (anything _)
                                                    λ clean _.
                                                      step
                                                        (λ w.
                                                          (if warned env bonsai s clean
                                                            then have_warnings a.options
                                                            else ok tt)
                                                          ≡ ok w)
                                                        (lift (
                                                          if warned env bonsai s clean
                                                          then have_warnings a.options
                                                          else ok tt))
                                                        _ (lifted _)
                                                        λ w quiet. pure_lem IsAccepted _ (record {
                                                          sane =
                                                            (check_settings-IsSane env.io env.num
                                                            bonsai s name).0
                                                            checked;
                                                          ports =
                                                            set_streams-ports name mapped s ports;
                                                          beams =
                                                            (nat_beq_iff (length beams)
                                                            (pos_part s.nbeams)).0
                                                            (not-false
                                                            (nat_beq (length beams)
                                                            (pos_part s.nbeams))
                                                            (passes _ _ kept));
                                                          streamed = subset_iff beams stream.2 (
                                                            not-false (subset beams stream.2)
                                                            (passes _ _ within));
                                                          derived = derived;
                                                          capacity = pipe;
                                                          quiet =
                                                            settled a.options bonsai s clean quiet;
                                                        })

  module _ (fs : FileSystem) where
    open fs use {State}

    configure-IsAccepted :
        (st : State) (a : Arguments) (c : L1Config D) → configure env fs st a ≡ ok c → IsAccepted c
    unfolding configure
    configure-IsAccepted st a c h = elim (Result-cases (load_files env a.options)) [
      | inr (x, e) ↦ let no : configure env fs st a ≡ err x = rw (configure, e) refl in cc
      | inl (bonsai, e) ↦ elim (Result-cases (open_params env fs st a.options)) [
        | inr (x, f) ↦ let no : configure env fs st a ≡ err x = rw (configure, e, f) refl in cc
        | inl (p, f) ↦ elim (Result-cases (read_config env bonsai a p)) [
          | inr (x, g) ↦ let no : configure env fs st a ≡ err x = rw (configure, e, f, g) refl in cc
          | inl ((d, q), g) ↦
              let same : configure env fs st a ≡ ok d = rw (configure, e, f, g) refl in
              subst IsAccepted (ok_injective (sym same ∙ h))
                ((Returns-accepted bonsai a).returns p q d g)
        ]
      ]
    ]

    -- Either the constructor throws (or exits) and no directory has been made, or what it has read satisfies
    -- every condition of `IsAccepted`, and only the directories of the acquisition remain to be made.
    pub l1_config-cases :
        (st : State) (a : Arguments)
        → ((e : Failure) × (l1_config env fs st a ≡ (err e, st)))
          ⊎ ((c : L1Config D) × IsAccepted c × (l1_config env fs st a ≡ set_pattern env fs st c))
    unfolding l1_config
    l1_config-cases st a = elim (Result-cases (configure env fs st a)) [
      | inl (c, e) ↦ inr (c, configure-IsAccepted st a c e, rw (l1_config, e) refl)
      | inr (x, e) ↦ inl (x, rw (l1_config, e) refl)
    ]
