-- ===== src/Reservations/Isolation.antt =====
-- Which organization may use which host.
use confidential_model_route.Common.{
  ◌≡◌, refl, ap, inl, inr, Bool, true, false, not, ◌&&◌, ◌||◌, Option, none, List, ◌∷◌, arith,
  Bool-cases, Text, text_eq, text_eq-eq, text_eq_iff, has_host, map_put, map_at, map_at-delete,
  map_at-put, [],
}
use confidential_model_route.Overload.{OverloadConfig}
use confidential_model_route.Selection.{allowed_in}
use confidential_model_route.Reservations.{
  ReservationConfig, Building, Marked, is_blank, mark_hosts, hosts_of, reserve_for, org_loop,
  reservation_loop, shared_hosts, nothing_reserved, apply_reservations, reservation_pools,
}

-- The organization has the host in its set.
abbrev pub reserved_for : List (Text × List Text) → Text → Text → Bool
reserved_for by_org o h = has_host (hosts_of (map_at o by_org)) h

mark_hosts-set :
    (known : List Text) (p : Option OverloadConfig) (hs : List Text) (acc : Marked) (h : Text)
    → (has_host (mark_hosts known p hs acc).set h
        ≡ (has_host acc.set h || (has_host known h && has_host hs h)))
      × (has_host (mark_hosts known p hs acc).reserved h
          ≡ (has_host acc.reserved h || (has_host known h && has_host hs h)))
unfolding mark_hosts has_host
mark_hosts-set known p [] acc h = ground arith
mark_hosts-set known p (k ∷ hs) acc h = ground (
  arith,
  mark_hosts-set known p hs acc h,
  mark_hosts-set known p hs
      (record {
        set = k ∷ acc.set;
        reserved = k ∷ acc.reserved;
        overloads = map_put k p acc.overloads;
        recognized = true;
      })
      h,
  text_eq_iff k h,
)

blank-has_host : (s : List Text) (h : Text) → is_blank s ≡ true → has_host s h ≡ false
unfolding has_host
blank-has_host [] h e = refl
blank-has_host (k ∷ s) h e = cc

abbrev started : List Text → Building → Text → Marked
started set b o = record {
  set = set;
  reserved = b.reserved;
  overloads = b.overloads;
  recognized = false;
}

same_org : (o j : Text) (m : List (Text × List Text)) → text_eq o j ≡ true → map_at o m ≡ map_at j m
same_org o j m e = ap (λ k. map_at k m) (text_eq-eq o j e)

reserve_for-lem :
    (p : Option OverloadConfig) (known : List Text) (res : ReservationConfig) (o : Text)
    (b : Building) (j h : Text)
    → (reserved_for (reserve_for p known res o b).by_org j h ≡ (
        reserved_for b.by_org j h
        || (not (is_blank o) && text_eq o j && has_host known h && has_host res.enclaves h)))
      × (has_host (reserve_for p known res o b).reserved h ≡ (
          has_host b.reserved h
          || (not (is_blank o) && has_host known h && has_host res.enclaves h)))
unfolding reserve_for
reserve_for-lem p known res o b j h =
    let m0 = started (hosts_of (map_at o b.by_org)) b o in
    let m = mark_hosts known res.overload res.enclaves m0 in
    ground (
      arith,
      mark_hosts-set known res.overload res.enclaves m0 h,
      blank-has_host m.set h,
      blank-has_host [] h refl,
      map_at-delete o j b.by_org,
      map_at-put o j m.set b.by_org,
      same_org o j b.by_org,
    )

same_blank : (o j : Text) → text_eq o j ≡ true → is_blank o ≡ is_blank j
same_blank o j e = ap is_blank (text_eq-eq o j e)

same_member : (k h : Text) (s : List Text) → text_eq k h ≡ true → has_host s k ≡ has_host s h
same_member k h s e = ap (has_host s) (text_eq-eq k h e)

org_loop-lem :
    (p : Option OverloadConfig) (known : List Text) (res : ReservationConfig) (os : List Text)
    (b : Building) (j h : Text)
    → reserved_for (org_loop p known res os b).by_org j h ≡ (
        reserved_for b.by_org j h
        || (not (is_blank j) && has_host os j && has_host known h && has_host res.enclaves h))
unfolding org_loop has_host
org_loop-lem p known res [] b j h = ground arith
org_loop-lem p known res (o ∷ os) b j h = ground (
  arith,
  org_loop-lem p known res os (reserve_for p known res o b) j h,
  reserve_for-lem p known res o b j h,
  text_eq-eq o j,
  same_blank o j,
)

-- Some reservation names the organization and the host.
unfoldable pub names : List ReservationConfig → Text → Text → Bool
names [] o h = false
names (r ∷ rs) o h = has_host r.org_ids o && has_host r.enclaves h || names rs o h

-- A named organization asked for a host that is configured.
abbrev pub asked : List Text → List ReservationConfig → Text → Text → Bool
asked known rs o h = not (is_blank o) && has_host known h && names rs o h

reservation_loop-lem :
    (p : Option OverloadConfig) (known : List Text) (rs : List ReservationConfig) (b : Building)
    (j h : Text)
    → reserved_for (reservation_loop p known rs b).by_org j h
      ≡ (reserved_for b.by_org j h || asked known rs j h)
unfolding reservation_loop names
reservation_loop-lem p known [] b j h = ground arith
reservation_loop-lem p known (r ∷ rs) b j h = ground (
  arith,
  reservation_loop-lem p known rs b j h,
  reservation_loop-lem p known rs (org_loop p known r r.org_ids b) j h,
  org_loop-lem p known r r.org_ids b j h,
  blank-has_host r.org_ids j,
  blank-has_host r.enclaves h,
)

blank-map_at : (m : List (Text × List Text)) (o : Text) → is_blank m ≡ true → map_at o m ≡ none
unfolding map_at
blank-map_at [] o e = refl
blank-map_at ((k, v) ∷ m) o e = cc

-- What an organization has reserved is not shared.
abbrev Covers : Text → Text → Building → Type 0
Covers j h b = reserved_for b.by_org j h ≡ true → has_host b.reserved h ≡ true

org_loop-Covers :
    (p : Option OverloadConfig) (known : List Text) (res : ReservationConfig) (os : List Text)
    (b : Building) (j h : Text)
    → Covers j h b
    → Covers j h (org_loop p known res os b)
unfolding org_loop
org_loop-Covers p known res [] b j h v = v
org_loop-Covers p known res (o ∷ os) b j h v =
    org_loop-Covers p known res os (reserve_for p known res o b) j h
      (λ e. ground (arith, v, reserve_for-lem p known res o b j h))

reservation_loop-Covers :
    (p : Option OverloadConfig) (known : List Text) (rs : List ReservationConfig) (b : Building)
    (j h : Text)
    → Covers j h b
    → Covers j h (reservation_loop p known rs b)
unfolding reservation_loop
reservation_loop-Covers p known [] b j h v = v
reservation_loop-Covers p known (r ∷ rs) b j h v =
    elim (Bool-cases (is_blank r.org_ids || is_blank r.enclaves)) [
      | inl e ↦ rw (e, reservation_loop) (reservation_loop-Covers p known rs b j h v)
      | inr e ↦
          rw (e, reservation_loop)
            (reservation_loop-Covers p known rs (org_loop p known r r.org_ids b) j h
              (org_loop-Covers p known r r.org_ids b j h v))
    ]

shared_hosts-lem :
    (reserved hs : List Text) (h : Text)
    → has_host (shared_hosts reserved hs) h ≡ (has_host hs h && not (has_host reserved h))
unfolding shared_hosts has_host
shared_hosts-lem reserved [] h = refl
shared_hosts-lem reserved (k ∷ hs) h =
    ground (arith, shared_hosts-lem reserved hs h, text_eq-eq k h, same_member k h reserved)

-- The set of an organization is exactly what the configuration gives it: the configured hosts that
-- some reservation names together with the organization.
pub apply_reservations-exact :
    (p : Option OverloadConfig) (rs : List ReservationConfig) (hostnames : List Text) (o h : Text)
    → reserved_for (apply_reservations p rs hostnames).by_org o h ≡ asked hostnames rs o h
unfolding apply_reservations
apply_reservations-exact p rs hostnames o h =
    let b = reservation_loop p hostnames rs nothing_reserved in
    ground (
      arith,
      reservation_loop-lem p hostnames rs nothing_reserved o h,
      blank-map_at b.by_org o,
      blank-map_at [] o refl,
      blank-has_host [] h refl,
    )

-- A host that another organization reserved is in an organization's pools only if it reserved the
-- host as well.
pub reservation_pools_isolated :
    (p : Option OverloadConfig) (rs : List ReservationConfig) (hostnames : List Text)
    (org other h : Text)
    → (allowed_in (reservation_pools p (apply_reservations p rs hostnames) org).0 h
        || has_host (hosts_of (reservation_pools p (apply_reservations p rs hostnames) org).1) h)
      ≡ true
    → asked hostnames rs other h ≡ true
    → asked hostnames rs org h ≡ true
unfolding reservation_pools apply_reservations
reservation_pools_isolated p rs hostnames org other h i a =
    let b = reservation_loop p hostnames rs nothing_reserved in
    let none_yet : Covers other h nothing_reserved =
      λ e. ground (arith, blank-map_at [] other refl, blank-has_host [] h refl) in
    ground (
      arith,
      reservation_loop-lem p hostnames rs nothing_reserved org h,
      reservation_loop-lem p hostnames rs nothing_reserved other h,
      reservation_loop-Covers p hostnames rs nothing_reserved other h none_yet,
      shared_hosts-lem b.reserved hostnames h,
      blank-map_at b.by_org other,
      blank-map_at b.by_org org,
      blank-map_at [] org refl,
      blank-map_at [] other refl,
      blank-has_host [] h refl,
    )
