-- ===== src/Citations/Stream/Bounds.antt =====
-- toolruntime/citations/stream.go: how much is held back.
use mathlib.Core.List.{append-nil, map-append}
use confidential_model_route.Common.{
  ℕ, zero, suc, ◌+◌, ◌≤◌, ◌<◌, ◌≡◌, refl, sym, ap, ◌∙◌, Bool, true, false, Option, List, [], ◌∷◌,
  ◌++◌, map, arith, length, length-append, Text,
}
use confidential_model_route.Citations.{State, resolve_harmony}
use confidential_model_route.Citations.Stream.{
  Emitter, new_emitter, Drained, find_next_open, match_link, matched, link_text, drain_loop, drain,
  push, flush, max_link_buffer,
}
use confidential_model_route.Citations.Stream.Rounds.{Round, plain, link, wait, skip, round}
use confidential_model_route.Citations.Stream.Parts.{match_link_parts}
use confidential_model_route.Citations.Stream.Conserved.{
  held_parts, IsPlain, content_of, push_all, concat, push_all-ascii, ascii, drain-ascii,
  push_all-state,
}

-- What follows a round is shorter than what was held.
pub rest_shorter :
    (held before rs : Text) (o : ℕ)
    → find_next_open held ≡ (before, o ∷ rs)
    → length before + length rs + 1 ≡ length held
rest_shorter held before rs o h =
    omega
      (arith, ap (λ t. length t) (held_parts held before (o ∷ rs) h), length-append before (o ∷ rs))

pub after_shorter :
    (held before rs label url after : Text) (o c : ℕ)
    → find_next_open held ≡ (before, o ∷ rs)
    → match_link (o ∷ rs) ≡ matched label c url after
    → length before + length (link_text o label c url) + length after ≡ length held
after_shorter held before rs label url after o c h m = omega (
  arith,
  rest_shorter held before rs o h,
  ap (λ t. length t) (match_link_parts o c rs label url after m).1,
  length-append (link_text o label c url) after,
)

module _ (normalize : Text → Text) (st : Option State) (final : Bool) where
  abbrev Settled : Drained → Type 0
  Settled d = (length d.held ≤ max_link_buffer) × (final ≡ true → d.held ≡ [])

  abbrev Settles : ℕ → Type 0
  Settles fuel =
      (at : ℕ) (t : Text) → length t < fuel → Settled (drain_loop normalize st final fuel at t)

  Round-Settled :
      (fuel at : ℕ) (held : Text) (d : Drained)
      → Round normalize st final fuel at held d
      → length held < suc fuel
      → Settles fuel
      → Settled d
  Round-Settled fuel at held d (plain before h) l ih = (omega arith, λ f. refl)
  Round-Settled fuel at held d (wait before o rs h m f l') l ih = (l', λ t. cc)
  Round-Settled fuel at held d (skip before o rs h m) l ih =
      ih (at + length before + 1) rs (omega (arith, rest_shorter held before rs o h))
  Round-Settled fuel at held d (link before o rs label c url after h m) l ih =
      ih (at + length before + length (link_text o label c url)) after
        (omega (arith, after_shorter held before rs label url after o c h m))

  -- With a round more than there are runes, a drain settles.
  pub drain_loop-Settles : (fuel : ℕ) → Settles fuel
  drain_loop-Settles zero at held l = absurd (omega arith)
  drain_loop-Settles (suc fuel) at held l =
      Round-Settled fuel at held _ (round normalize st final fuel at held) l
        (drain_loop-Settles fuel)

push_bound :
    (normalize : Text → Text) (t : Text) (e : Emitter)
    → length e.held ≤ max_link_buffer
    → length (push normalize t e).1.held ≤ max_link_buffer
unfolding push drain
push_bound normalize [] e h = h
push_bound normalize (r ∷ rs) e h =
    let held = resolve_harmony e.state (e.held ++ r ∷ rs) in
    (drain_loop-Settles normalize e.state false (suc (length held)) (length e.sent) held
      (omega arith)).0

-- A flush holds nothing back, whatever the emitter's state is.
pub flush_empty : (normalize : Text → Text) (e : Emitter) → (flush normalize e).1.held ≡ []
unfolding flush drain
flush_empty normalize e =
    let held = resolve_harmony e.state e.held in
    (drain_loop-Settles normalize e.state true (suc (length held)) (length e.sent) held
        (omega arith)).1
      refl

push_all_bound :
    (normalize : Text → Text) (ts : List Text) (e : Emitter)
    → length e.held ≤ max_link_buffer
    → length (push_all normalize ts e).1.held ≤ max_link_buffer
unfolding push_all
push_all_bound normalize [] e h = h
push_all_bound normalize (t ∷ ts) e h =
    push_all_bound normalize ts (push normalize t e).1 (push_bound normalize t e h)

-- However many deltas a fresh emitter is given, and whatever they are, it holds back at most 4096
-- runes after the last of them, in Harmony mode too, and a flush then holds nothing back.
pub held_bound :
    (normalize : Text → Text) (st : Option State) (ts : List Text)
    → let e = (push_all normalize ts (new_emitter st)).1 in
      (length e.held ≤ max_link_buffer) × ((flush normalize e).1.held ≡ [])
held_bound normalize st ts = (
  push_all_bound normalize ts (new_emitter st) (omega arith),
  flush_empty normalize (push_all normalize ts (new_emitter st)).1,
)

flush-ascii :
    (normalize : Text → Text) (e : Emitter)
    → IsPlain e.state
    → map ascii (content_of (flush normalize e)) ≡ map ascii e.held
flush-ascii normalize e h =
    ap (map ascii) (sym (append-nil (content_of (flush normalize e))))
    ∙ rw (← flush_empty normalize e) (unfold flush in drain-ascii normalize true e h)

-- The deltas `ts` are pushed to a fresh emitter, which is flushed at the end. What the client has
-- received then is the model's text, every rune once and in order, up to the shape of brackets: the
-- two texts are equal when each lenticular bracket of either is read as the ASCII one. The state is
-- not in Harmony mode.
pub stream-ascii :
    (normalize : Text → Text) (st : Option State) (ts : List Text)
    → IsPlain st
    → map ascii (
        content_of (push_all normalize ts (new_emitter st))
        ++ content_of (flush normalize (push_all normalize ts (new_emitter st)).1))
      ≡ map ascii (concat ts)
stream-ascii normalize st ts h =
    let e = (push_all normalize ts (new_emitter st)).1 in
    let h' : IsPlain e.state = rw (push_all-state normalize ts (new_emitter st)) h in
    map-append ascii (content_of (push_all normalize ts (new_emitter st)))
      (content_of (flush normalize e))
    ∙ rw (flush-ascii normalize e h') (
        sym (map-append ascii (content_of (push_all normalize ts (new_emitter st))) e.held)
        ∙ push_all-ascii normalize ts (new_emitter st) h)
