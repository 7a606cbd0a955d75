-- ===== src/L1Server/Ending/Joined.antt =====
-- The order of join_all_threads().
use ch_frb_l.Base.{
  ℕ, ◌≡◌, refl, ◌∙◌, Bool, List, [], ◌++◌, map, arith, inl, inr, length, append-nil,
}
use ch_frb_l.Util.{counted}
use ch_frb_l.L1Server.{L1Server}
use ch_frb_l.L1Server.Ending.{
  Ending, joined_dedispersion, shut_down, joined_rpc, reset_prometheus, end_devices,
  join_all_threads,
}
use ch_frb_l.L1Server.Ending.Stages.{
  InStages, indices, is_joined_dedispersion, is_ended_stream, is_joined_device, is_shut_down,
  is_joined_rpc, is_reset, IsOrderly, indices-append, all_of, none_of, of_devices, not_devices,
  InStages-map, InStages-last, InStages-devices,
}

module _ {D Bonsai Pipeline : Type 0} (s : L1Server D Bonsai Pipeline) where
  join_all_threads-InStages : InStages 0 (join_all_threads s)
  unfolding join_all_threads
  join_all_threads-InStages =
      let d = counted 0 (length s.dedispersion_threads) in
      let o = counted 0 (length s.output_devices) in
      let r = counted 0 (length s.rpc_servers) in
      let p = counted 0 (length s.prometheus_servers) in
      InStages-map 0 0 joined_dedispersion d _ (omega arith) (λ i. refl)
        (InStages-devices 0 o _ (omega arith) (
          InStages-map 1 2 shut_down r _ (omega arith) (λ i. refl)
            (InStages-map 2 3 joined_rpc r _ (omega arith) (λ i. refl)
              (InStages-last 3 4 reset_prometheus p (omega arith) (λ i. refl)))))

  -- The calls that a test selects, from those of each loop.
  in_parts :
      (is : Ending → Bool) (a b c e f : List ℕ)
      → indices is (map joined_dedispersion (counted 0 (length s.dedispersion_threads))) ≡ a
      → indices is (end_devices (counted 0 (length s.output_devices))) ≡ b
      → indices is (map shut_down (counted 0 (length s.rpc_servers))) ≡ c
      → indices is (map joined_rpc (counted 0 (length s.rpc_servers))) ≡ e
      → indices is (map reset_prometheus (counted 0 (length s.prometheus_servers))) ≡ f
      → indices is (join_all_threads s) ≡ a ++ (b ++ (c ++ (e ++ f)))
  unfolding join_all_threads
  in_parts is a b c e f ha hb hc he hf = simp (indices-append, ha, hb, hc, he, hf)

  pub join_all_threads-IsOrderly :
      IsOrderly
        (length s.dedispersion_threads)
        (length s.output_devices)
        (length s.rpc_servers)
        (length s.prometheus_servers)
        (join_all_threads s)
  join_all_threads-IsOrderly =
      let d = counted 0 (length s.dedispersion_threads) in
      let o = counted 0 (length s.output_devices) in
      let r = counted 0 (length s.rpc_servers) in
      let p = counted 0 (length s.prometheus_servers) in
      record {
        staged = join_all_threads-InStages;
        dedispersers =
            let is = is_joined_dedispersion in
            in_parts is d [] [] [] [] (all_of is joined_dedispersion d (λ i. (refl, refl)))
              (not_devices is o (λ i. (refl, refl))) (none_of is shut_down r (λ i. refl))
              (none_of is joined_rpc r (λ i. refl)) (none_of is reset_prometheus p (λ i. refl))
            ∙ append-nil d;
        streams =
            let is = is_ended_stream in
            in_parts is [] o [] [] [] (none_of is joined_dedispersion d (λ i. refl))
              (of_devices is o (inl (λ i. (refl, refl)))) (none_of is shut_down r (λ i. refl))
              (none_of is joined_rpc r (λ i. refl)) (none_of is reset_prometheus p (λ i. refl))
            ∙ append-nil o;
        devices =
            let is = is_joined_device in
            in_parts is [] o [] [] [] (none_of is joined_dedispersion d (λ i. refl))
              (of_devices is o (inr (λ i. (refl, refl)))) (none_of is shut_down r (λ i. refl))
              (none_of is joined_rpc r (λ i. refl)) (none_of is reset_prometheus p (λ i. refl))
            ∙ append-nil o;
        servers =
            let is = is_shut_down in
            in_parts is [] [] r [] [] (none_of is joined_dedispersion d (λ i. refl))
              (not_devices is o (λ i. (refl, refl))) (all_of is shut_down r (λ i. (refl, refl)))
              (none_of is joined_rpc r (λ i. refl)) (none_of is reset_prometheus p (λ i. refl))
            ∙ append-nil r;
        rpcs =
            let is = is_joined_rpc in
            in_parts is [] [] [] r [] (none_of is joined_dedispersion d (λ i. refl))
              (not_devices is o (λ i. (refl, refl))) (none_of is shut_down r (λ i. refl))
              (all_of is joined_rpc r (λ i. (refl, refl)))
              (none_of is reset_prometheus p (λ i. refl))
            ∙ append-nil r;
        webs =
            let is = is_reset in
            in_parts is [] [] [] [] p (none_of is joined_dedispersion d (λ i. refl))
              (not_devices is o (λ i. (refl, refl))) (none_of is shut_down r (λ i. refl))
              (none_of is joined_rpc r (λ i. refl))
              (all_of is reset_prometheus p (λ i. (refl, refl)));
      }
