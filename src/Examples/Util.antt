-- ===== src/Examples/Util.antt =====
-- The helpers of ch_frb_l1.hpp.
use ch_frb_l.Base.{ℕ, ◌^◌, ◌≡◌, ◌↔◌, true, List, [], ◌∷◌, ok, err, assertion, nat_eq}
use ch_frb_l.Util.{is_power_of_two}
use ch_frb_l.Util.Power.{is_power_of_two_iff}

abbrev beams : List ℕ
beams = 3 ∷ 5 ∷ []

abbrev hundred : ℕ
hundred = 100

is_power_of_two_iff_example :
    ((is_power_of_two hundred ≡ ok true) ↔ ((k : ℕ) × (hundred ≡ 2 ^ k)))
    × ((is_power_of_two hundred ≡ err assertion) ↔ (hundred ≡ 0))
is_power_of_two_iff_example = is_power_of_two_iff hundred
