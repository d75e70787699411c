-- ===== src/Reservations/Tests.antt =====
-- Two organizations that reserved one host of three each, and a host that is not configured.
use confidential_model_route.Common.{
  ℕ, ◌≡◌, refl, true, ◌||◌, none, some, List, ◌∷◌, Text, text_eq, map_at, has_host, map_delete, [],
}
use confidential_model_route.Common.Int.{pos}
use confidential_model_route.Overload.{OverloadConfig}
use confidential_model_route.Selection.{allowed_in}
use confidential_model_route.Reservations.{
  ReservationConfig, Reserved, hosts_of, mark_hosts, reserve_for, org_loop, reservation_loop,
  shared_hosts, apply_reservations, overload_for_host, reservation_pools, enabled_policies,
  spill_policies,
}
use confidential_model_route.Reservations.Isolation.{
  reserved_for, asked, names, apply_reservations-exact, reservation_pools_isolated,
}

abbrev policy : OverloadConfig
policy = record {
  max_requests_waiting = pos 4;
  clear_requests_waiting = pos 1;
  soft_max_requests_running = pos 0;
  retry_after_minutes = pos 2;
}

abbrev host : ℕ → Text
host n = n ∷ []

abbrev org : ℕ → Text
org n = 100 ∷ n ∷ []

abbrev configured : List Text
configured = host 1 ∷ host 2 ∷ host 3 ∷ []

abbrev reservations : List ReservationConfig
reservations =
    record { org_ids = org 1 ∷ []; enclaves = host 1 ∷ host 9 ∷ []; overload = some policy }
    ∷ record { org_ids = org 2 ∷ []; enclaves = host 2 ∷ []; overload = none }
    ∷ []

abbrev expected : Reserved
expected = record {
  by_org = (org 2, host 2 ∷ []) ∷ (org 1, host 1 ∷ []) ∷ [];
  shared = some (host 3 ∷ []);
  overloads = (host 2, none) ∷ (host 1, some policy) ∷ [];
  policies = (org 2, none) ∷ (org 1, some policy) ∷ [];
}

applied : apply_reservations none reservations configured ≡ expected
unfolding apply_reservations reservation_loop org_loop reserve_for mark_hosts shared_hosts has_host
    map_at map_delete text_eq
applied = refl

own_policy : overload_for_host none expected (host 1) ≡ some policy
unfolding overload_for_host map_at text_eq
own_policy = refl

spilled : spill_policies expected (host 3) ≡ policy ∷ []
unfolding spill_policies enabled_policies has_host text_eq
spilled = refl

apply_reservations-exact_example :
    reserved_for (apply_reservations none reservations configured).by_org (org 1) (host 9)
    ≡ asked configured reservations (org 1) (host 9)
apply_reservations-exact_example =
    apply_reservations-exact none reservations configured (org 1) (host 9)

in_pool :
    (allowed_in
        (reservation_pools none (apply_reservations none reservations configured) (org 1)).0
        (host 1)
      || has_host
          (hosts_of
            (reservation_pools none (apply_reservations none reservations configured) (org 1)).1)
          (host 1))
    ≡ true
unfolding reservation_pools apply_reservations reservation_loop org_loop reserve_for mark_hosts
    shared_hosts has_host map_at map_delete text_eq
in_pool = refl

has_asked : asked configured reservations (org 1) (host 1) ≡ true
unfolding names has_host text_eq
has_asked = refl

reservation_pools_isolated_example : asked configured reservations (org 1) (host 1) ≡ true
reservation_pools_isolated_example =
    reservation_pools_isolated none reservations configured (org 1) (org 1) (host 1) in_pool
      has_asked
