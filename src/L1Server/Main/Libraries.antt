-- ===== src/L1Server/Main/Libraries.antt =====
-- How the start of the server depends on the libraries' constructors.
use ch_frb_l.FrbIo.{FrbIo}
use ch_frb_l.L1Server.{L1Server, Makers}
use ch_frb_l.L1Server.Phases.{make_mask_stats}
use ch_frb_l.L1Server.Phases.Libraries.{
  Leads, Below, bind-Leads, after-Leads, pipes-Leads, devices-Leads, pools-Leads, inputs-Leads,
  webs-Leads,
}
use ch_frb_l.L1Server.Main.{start}

-- What the start returns, it returns with any constructors that return as much.
pub start-Leads :
    {D Bonsai Pipeline : Type 0} (mk more : Makers D)
    → Below mk more
    → (io : FrbIo) (s : L1Server D Bonsai Pipeline) → Leads (start mk io s) (start more io s)
unfolding start
start-Leads mk more b io s = bind-Leads _ _ _ _ (pipes-Leads mk more b s) λ s1.
    bind-Leads _ _ _ _ (devices-Leads mk more b s1) λ s2.
      bind-Leads _ _ _ _ (pools-Leads mk more b s2) λ s3.
        bind-Leads _ _ _ _ (inputs-Leads mk more b io s3) λ s4.
          after-Leads (make_mask_stats s4)
            λ s5. bind-Leads _ _ _ _ (webs-Leads mk more b s5) (λ s6 t e. e)
