-- ===== src/RouteContext/Decisions.antt =====
-- route_context.go: the countdown of a rejection, and the priority that a request is given.
use confidential_model_route.Common.{
  ℕ, ◌-◌, ◌/◌, ◌≡◌, refl, ap, ◌⊎◌, inl, inr, true, false, none, some, arith, Option-cases, text_eq,
  text_eq-eq, text_eq_iff,
}
use confidential_model_route.Common.Int.{ℤ, pos, ◌-ℤ◌, ◌≤ℤ◌, ◌<ℤ◌, -ℤ_parts}
use confidential_model_route.RouteContext.{
  RateLimit, decision_rejected, decision_demote, rate_limit_valid, countdown, decision_allowed,
}

-- Whole seconds since a decision was observed.
abbrev pub elapsed : ℕ → RateLimit → ℕ
elapsed now d = (now - d.observed_at) / 1_000_000_000

not_allowed : text_eq decision_rejected decision_allowed ≡ false
unfolding text_eq
not_allowed = refl

not_demote : text_eq decision_rejected decision_demote ≡ false
unfolding text_eq
not_demote = refl

valid-positive :
    (d : RateLimit)
    → rate_limit_valid (some d) ≡ true
    → text_eq d.decision decision_rejected ≡ true
    → (n : ℤ) × (d.retry_after_seconds ≡ some n) × (pos 0 <ℤ n)
unfolding rate_limit_valid
valid-positive d v h =
    let same = text_eq-eq d.decision decision_rejected h in
    elim (Option-cases d.retry_after_seconds) [
      | inl e ↦ absurd (ground arith)
      | inr (n, e) ↦ (
        n,
        e,
        ground (
          arith,
          not_allowed,
          not_demote,
          ap (λ t. text_eq t decision_allowed) same,
          ap (λ t. text_eq t decision_demote) same,
        ),
      )
    ]

countdown_from :
    (now : ℕ) (d : RateLimit) (n : ℤ)
    → d.retry_after_seconds ≡ some n
    → text_eq d.decision decision_rejected ≡ true
    → ((n ≤ℤ pos (elapsed now d)) × (countdown now d ≡ some none))
      ⊎ ((pos (elapsed now d) <ℤ n)
          × (countdown now d
              ≡ some (some (record d { retry_after_seconds = some (n -ℤ pos (elapsed now d)) }))))
unfolding countdown
countdown_from now d n e hit = ground (arith, -ℤ_parts n (pos (elapsed now d)))

-- A valid rejection, read `s` whole seconds after it was observed, still rejects exactly while `s`
-- is below its retry hint `n`, and then the client is told to wait the `n - s` seconds that are left.
pub countdown_exact :
    (now : ℕ) (d : RateLimit)
    → rate_limit_valid (some d) ≡ true
    → d.decision ≡ decision_rejected
    → (n : ℤ) × (d.retry_after_seconds ≡ some n)
      × (((n ≤ℤ pos (elapsed now d)) × (countdown now d ≡ some none))
          ⊎ ((pos (elapsed now d) <ℤ n)
              × (countdown now d
                  ≡ some
                      (some (record d { retry_after_seconds = some (n -ℤ pos (elapsed now d)) })))))
countdown_exact now d v h =
    let hit = (text_eq_iff d.decision decision_rejected).1 h in
    let (n, e, p) = valid-positive d v hit in (n, e, countdown_from now d n e hit)
