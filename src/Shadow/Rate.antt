-- ===== src/Shadow/Rate.antt =====
-- The request rate of a key.
use confidential_model_route.Common.{
  ℕ, zero, suc, ◌-◌, ◌*◌, ◌/◌, ◌%◌, ◌≤◌, ◌≡◌, inl, inr, some, arith, ◌==◌, Bool-cases,
}
use confidential_model_route.Shadow.{Entry, minute, bump_rate, peek_rate}

-- A peek right after an arrival reads the rate that the arrival returned.
pub peek_rate-bump : (now : ℕ) (e : Entry) → peek_rate now (bump_rate now e).1 ≡ (bump_rate now e).0
unfolding peek_rate bump_rate
peek_rate-bump now e = ground arith

mul_mono : (c : ℕ) {a b : ℕ} → a ≤ b → c * a ≤ c * b
mul_mono zero h = omega arith
mul_mono (suc c) h = omega (arith, mul_mono c h)

-- Without arrivals the rate never rises: a later peek reads at most what an earlier one read, once
-- the window has started.
pub peek_rate_falls :
    (now later m : ℕ) (e : Entry)
    → e.window_start ≡ some m
    → m ≤ now
    → now ≤ later
    → peek_rate later e ≤ peek_rate now e
unfolding peek_rate
peek_rate_falls now later m e w k h = elim (Bool-cases (now / minute == later / minute)) [
  | inl same ↦ ground (
    arith,
    w,
    mul_mono e.prev_count {a = minute - later % minute} {b = minute - now % minute} (ground arith),
    mul_mono e.cur_count {a = minute - later % minute} {b = minute - now % minute} (ground arith),
  )
  | inr other ↦
      ground
        (arith, w, mul_mono e.cur_count {a = minute - later % minute} {b = minute} (ground arith))
]
