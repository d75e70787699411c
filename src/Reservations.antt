-- ===== src/Reservations.antt =====
-- manager/manager.go: the hosts that organizations have reserved. A Go map that is only tested for
-- membership is a list of hosts; a nil map of shared hosts is `none`. The log line and the gauge are
-- left out.
pub mod Isolation
pub mod Tests
use confidential_model_route.Common.{
  Bool, true, false, not, ◌||◌, Option, none, some, List, ◌∷◌, if◌then◌else◌, Text, map_at,
  has_host, map_put, map_delete, [],
}
use confidential_model_route.Overload.{OverloadConfig, enabled}

pub record ReservationConfig : Type 0 where
  pub org_ids : List Text
  pub enclaves : List Text
  pub overload : Option OverloadConfig

-- The maps that `applyReservations` builds.
pub record Building : Type 0 where
  pub by_org : List (Text × List Text)
  pub reserved : List Text
  pub overloads : List (Text × Option OverloadConfig)
  pub policies : List (Text × Option OverloadConfig)

abbrev pub is_blank {ℓ} : {A : Type ℓ} → List A → Bool
is_blank [] = true
is_blank (x ∷ xs) = false

-- The loop over the hosts of a reservation, for one organization.
pub record Marked : Type 0 where
  pub set : List Text
  pub reserved : List Text
  pub overloads : List (Text × Option OverloadConfig)
  pub recognized : Bool

pub mark_hosts : List Text → Option OverloadConfig → List Text → Marked → Marked
mark_hosts known overload [] acc = acc
mark_hosts known overload (h ∷ hs) acc = mark_hosts known overload hs (
    if not (has_host known h) then acc else record {
      set = h ∷ acc.set;
      reserved = h ∷ acc.reserved;
      overloads = map_put h overload acc.overloads;
      recognized = true;
    })

abbrev pub hosts_of : Option (List Text) → List Text
hosts_of none = []
hosts_of (some s) = s

-- The body of the loop over the organizations.
pub reserve_for : Option OverloadConfig → List Text → ReservationConfig → Text → Building → Building
unfolding mark_hosts
reserve_for model_policy known res org b =
    if is_blank org
    then b
    else (let policy : Option OverloadConfig = elim res.overload [
      | none ↦ model_policy
      | some c ↦ some c
    ] in
        let marked = mark_hosts known res.overload res.enclaves (record {
          set = hosts_of (map_at org b.by_org);
          reserved = b.reserved;
          overloads = b.overloads;
          recognized = false;
        }) in
        if is_blank marked.set
        then record {
          by_org = map_delete org b.by_org;
          reserved = marked.reserved;
          overloads = marked.overloads;
          policies = b.policies;
        }
        else record {
          by_org = map_put org marked.set b.by_org;
          reserved = marked.reserved;
          overloads = marked.overloads;
          policies = if marked.recognized then map_put org policy b.policies else b.policies;
        })

pub org_loop :
    Option OverloadConfig → List Text → ReservationConfig → List Text → Building → Building
unfolding reserve_for
org_loop model_policy known res [] b = b
org_loop model_policy known res (o ∷ os) b =
    org_loop model_policy known res os (reserve_for model_policy known res o b)

pub reservation_loop :
    Option OverloadConfig → List Text → List ReservationConfig → Building → Building
unfolding org_loop
reservation_loop model_policy known [] b = b
reservation_loop model_policy known (r ∷ rs) b = reservation_loop model_policy known rs (
    if is_blank r.org_ids || is_blank r.enclaves
    then b
    else org_loop model_policy known r r.org_ids b)

-- The fields of `Model` that the reservations decide.
pub record Reserved : Type 0 where
  pub by_org : List (Text × List Text)
  pub shared : Option (List Text)
  pub overloads : List (Text × Option OverloadConfig)
  pub policies : List (Text × Option OverloadConfig)

-- The loop over the hostnames that are left.
pub shared_hosts : List Text → List Text → List Text
shared_hosts reserved [] = []
shared_hosts reserved (h ∷ hs) =
    let rest = shared_hosts reserved hs in if not (has_host reserved h) then h ∷ rest else rest

abbrev pub nothing_reserved : Building
nothing_reserved = record { by_org = []; reserved = []; overloads = []; policies = [] }

pub apply_reservations : Option OverloadConfig → List ReservationConfig → List Text → Reserved
unfolding reservation_loop shared_hosts
apply_reservations model_policy reservations hostnames =
    let b = reservation_loop model_policy hostnames reservations nothing_reserved in
    if is_blank b.by_org
    then record { by_org = []; shared = none; overloads = b.overloads; policies = b.policies }
    else record {
      by_org = b.by_org;
      shared = some (shared_hosts b.reserved hostnames);
      overloads = b.overloads;
      policies = b.policies;
    }

-- `m[k]` of a map to pointers: nil if missing.
abbrev pub pointer_at : Text → List (Text × Option OverloadConfig) → Option OverloadConfig
pointer_at k m = elim (map_at k m) [ none ↦ none | some p ↦ p ]

-- `overloadForHostLocked`
pub overload_for_host : Option OverloadConfig → Reserved → Text → Option OverloadConfig
overload_for_host model_policy r h = elim (pointer_at h r.overloads) [
  | some c ↦ some c
  | none ↦ model_policy
]

-- `ReservationPools`: the primary and the spill pool, nil as `none`, and the policy.
pub reservation_pools :
    Option OverloadConfig
    → Reserved
    → Text
    → Option (List Text) × Option (List Text) × Option OverloadConfig
reservation_pools model_policy r org =
    if is_blank r.by_org
    then (none, none, model_policy)
    else if is_blank org
    then (r.shared, none, model_policy)
    else (elim (map_at org r.by_org) [
      | some hosts ↦ (some hosts, r.shared, pointer_at org r.policies)
      | none ↦ (r.shared, none, model_policy)
    ])

pub enabled_policies : List (Text × Option OverloadConfig) → List OverloadConfig
enabled_policies [] = []
enabled_policies ((o, none) ∷ ps) = enabled_policies ps
enabled_policies ((o, some c) ∷ ps) =
    let rest = enabled_policies ps in if enabled (some c) then c ∷ rest else rest

-- `spillPoliciesLocked`, in the order in which the map is ranged over
pub spill_policies : Reserved → Text → List OverloadConfig
unfolding enabled_policies
spill_policies r h =
    if not (has_host (hosts_of r.shared) h) then [] else enabled_policies r.policies
