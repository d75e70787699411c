-- ===== src/Metrics/Flags.antt =====
-- The stored flags follow `queueMarks.overloaded` sample by sample.
use confidential_model_route.Common.{
  ℕ, ◌≡◌, refl, Bool, true, false, not, ◌&&◌, ◌||◌, List, ◌∷◌, arith, if◌then◌else◌, [],
}
use confidential_model_route.Common.Int.{eq_of_parts}
use confidential_model_route.Overload.{QueueMarks, overloaded}
use confidential_model_route.Overload.Hysteresis.{flag_after}
use confidential_model_route.Metrics.{
  EnclaveMetrics, RequestCounts, FlagTable, marks_eq, flag_of, refresh_flags, accept_sample,
  publish_overload,
}

-- The table has the marks for a key.
unfoldable pub tracked : QueueMarks → FlagTable → Bool
tracked q [] = false
tracked q ((p, b) ∷ t) = marks_eq p q || tracked q t

marks_eq-eq : (p q : QueueMarks) → marks_eq p q ≡ true → p ≡ q
unfolding marks_eq
marks_eq-eq p q h = λ i. record {
  trip = eq_of_parts p.trip q.trip (ground arith) i;
  clear = eq_of_parts p.clear q.clear (ground arith) i;
}

flag_of-refresh :
    (q : QueueMarks) (w : ℕ) (t : FlagTable)
    → tracked q t ≡ true
    → (flag_of q (refresh_flags w t) ≡ overloaded q w (flag_of q t))
      × (tracked q (refresh_flags w t) ≡ true)
unfolding tracked flag_of refresh_flags
flag_of-refresh q w [] h = cc
flag_of-refresh q w ((p, b) ∷ t) h = ground (arith, marks_eq-eq p q, flag_of-refresh q w t)

-- Samples with their times, oldest first.
pub accept_all : List (RequestCounts × ℕ) → EnclaveMetrics → EnclaveMetrics
accept_all [] m = m
accept_all ((c, ts) ∷ rest) m = accept_all rest (accept_sample c ts m)

-- The queue depths of the samples that are complete for the configured policies.
pub depths : Bool → List (RequestCounts × ℕ) → List ℕ
depths needs [] = []
depths needs ((c, ts) ∷ rest) =
    if c.has_waiting && (not needs || c.has_running)
    then c.waiting ∷ depths needs rest
    else depths needs rest

-- For marks that are configured, the stored flag after any samples is what `overloaded` makes of
-- the queue depths of the complete ones, in order, from the flag that was stored.
pub flag_of-accept_all :
    (q : QueueMarks) (samples : List (RequestCounts × ℕ)) (m : EnclaveMetrics)
    → tracked q m.queue_overloads ≡ true
    → flag_of q (accept_all samples m).queue_overloads
      ≡ flag_after q (depths m.requires_running samples) (flag_of q m.queue_overloads)
unfolding accept_all depths accept_sample publish_overload flag_after
flag_of-accept_all q [] m h = refl
flag_of-accept_all q ((c, ts) ∷ rest) m h = ground (
  arith,
  flag_of-refresh q c.waiting m.queue_overloads,
  flag_of-accept_all q rest (accept_sample c ts m),
)
