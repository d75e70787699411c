-- ===== src/Overload/Tests.antt =====
-- A queue limit of four requests.
use confidential_model_route.Common.{◌≡◌, refl, ◌↔◌, true, false, [], ◌∷◌}
use confidential_model_route.Common.Int.{pos, negsuc}
use confidential_model_route.Overload.{OverloadConfig, marks}
use confidential_model_route.Overload.Hysteresis.{flag_after, flag_after_iff, Tripped}

abbrev four : OverloadConfig
four = record {
  max_requests_waiting = pos 4;
  clear_requests_waiting = pos 9;
  soft_max_requests_running = negsuc 2;
  retry_after_minutes = pos 0;
}

clear_is_half : (marks four).clear ≡ pos 2
unfolding marks
clear_is_half = refl

flag_after_iff_example :
    (flag_after (record { trip = pos 4; clear = pos 2 }) (1 ∷ 5 ∷ 3 ∷ []) false ≡ true)
    ↔ Tripped (record { trip = pos 4; clear = pos 2 }) (1 ∷ 5 ∷ 3 ∷ [])
flag_after_iff_example = flag_after_iff (record { trip = pos 4; clear = pos 2 }) (1 ∷ 5 ∷ 3 ∷ [])
