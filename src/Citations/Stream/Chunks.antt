-- ===== src/Citations/Stream/Chunks.antt =====
-- toolruntime/citations/stream.go: how the text is cut into deltas does not matter.
use mathlib.Core.List.{append-nil, append_assoc}
use confidential_model_route.Common.{
  ℕ, suc, ◌+◌, ◌≤◌, ◌≡◌, refl, sym, ap, ◌∙◌, false, List, [], ◌∷◌, ◌++◌, arith, length,
  length-append, Text,
}
use confidential_model_route.Citations.Stream.{
  Emitter, Drained, Chunk, prepend, drain_loop, drain, push, max_link_buffer,
}
use confidential_model_route.Citations.Stream.Conserved.{
  ascii, push-ascii, push-state, IsPlain, resolve_harmony-IsPlain, push_all, concat,
}
use confidential_model_route.Citations.Stream.Resume.{drain_loop-append, length-map}

abbrev after_drain : Emitter → Drained → Chunk × Emitter
after_drain e d =
    ((d.content, d.annotations), record e { sent = e.sent ++ d.content; held = d.held })

-- Two pushes in a row, and what they deliver together.
abbrev push_two : (Text → Text) → Text → Text → Emitter → Chunk × Emitter
push_two normalize t u e =
    let (c, e') = push normalize t e in
    let (c', e'') = push normalize u e' in ((c.0 ++ c'.0, c.1 ++ c'.1), e'')

abbrev after_two : Chunk → Chunk × Emitter → Chunk × Emitter
after_two c (c', e) = ((c.0 ++ c'.0, c.1 ++ c'.1), e)

after_twice :
    (e : Emitter) (d : Drained) (f : ℕ → Drained)
    → after_two
        (d.content, d.annotations)
        (after_drain (after_drain e d).1 (f (length (e.sent ++ d.content))))
      ≡ after_drain e (prepend d.content d.annotations (f (length e.sent + length d.content)))
after_twice e d f =
    let x = f (length e.sent + length d.content) in
    rw (length-append e.sent d.content, append_assoc e.sent d.content x.content) refl

module _ (normalize : Text → Text) where
  push_lem :
      (r : ℕ) (rs : Text) (e : Emitter)
      → IsPlain e.state
      → push normalize (r ∷ rs) e
        ≡ after_drain e (
            drain_loop normalize e.state false
              (suc (length (e.held ++ r ∷ rs)))
              (length e.sent)
              (e.held ++ r ∷ rs))
  unfolding push drain
  push_lem r rs e h =
      ap
        (λ t. after_drain e (drain_loop normalize e.state false (suc (length t)) (length e.sent) t))
        (resolve_harmony-IsPlain e.state (e.held ++ r ∷ rs) h)

  push_empty : (e : Emitter) → push normalize [] e ≡ (([], []), e)
  unfolding push
  push_empty e = refl

  push_two_lem :
      (r q : ℕ) (rs qs : Text) (e : Emitter)
      → IsPlain e.state
      → let d =
          drain_loop normalize e.state false
            (suc (length (e.held ++ r ∷ rs)))
            (length e.sent)
            (e.held ++ r ∷ rs) in
        push_two normalize (r ∷ rs) (q ∷ qs) e
        ≡ after_drain e (
            prepend d.content d.annotations (
              drain_loop normalize e.state false
                (suc (length (d.held ++ q ∷ qs)))
                (length e.sent + length d.content)
                (d.held ++ q ∷ qs)))
  push_two_lem r q rs qs e h =
      let d =
        drain_loop normalize e.state false (suc (length (e.held ++ r ∷ rs))) (length e.sent)
          (e.held ++ r ∷ rs) in
      let e' = (after_drain e d).1 in
      ap (λ p. after_two p.0 (push normalize (q ∷ qs) p.1)) (push_lem r rs e h)
      ∙ ap (after_two (d.content, d.annotations)) (push_lem q qs e' h)
      ∙ after_twice e d (λ n.
        drain_loop normalize e.state false (suc (length (d.held ++ q ∷ qs))) n (d.held ++ q ∷ qs))

  push-append :
      (t u : Text) (e : Emitter)
      → IsPlain e.state
      → length e.held + length (t ++ u) ≤ max_link_buffer
      → push normalize (t ++ u) e ≡ push_two normalize t u e
  push-append [] u e h m = unfold push in refl
  push-append (r ∷ rs) [] e h m =
      let p = push normalize (r ∷ rs) e in
      ap (λ t. push normalize (r ∷ t) e) (append-nil rs)
      ∙ rw (push_empty p.1, append-nil p.0.0, append-nil p.0.1) refl
  push-append (r ∷ rs) (q ∷ qs) e h m =
      let held = e.held ++ r ∷ rs in
      push_lem r (rs ++ q ∷ qs) e h
      ∙ ap
          (λ t.
            after_drain e (drain_loop normalize e.state false (suc (length t)) (length e.sent) t))
          (sym (append_assoc e.held (r ∷ rs) (q ∷ qs)))
      ∙ ap (after_drain e) (
          drain_loop-append normalize e.state (length e.sent) held (q ∷ qs) (
            omega (
              arith,
              m,
              length-append e.held (r ∷ rs),
              length-append held (q ∷ qs),
              length-append (r ∷ rs) (q ∷ qs),
            )))
      ∙ sym (push_two_lem r q rs qs e h)

  length-push :
      (t : Text) (e : Emitter)
      → IsPlain e.state
      → length (push normalize t e).1.held ≤ length e.held + length t
  length-push t e h =
      let p = push normalize t e in
      omega (
        arith,
        ap (λ x. length x) (push-ascii normalize t e h),
        length-map ascii (p.0.0 ++ p.1.held),
        length-map ascii (e.held ++ t),
        length-append p.0.0 p.1.held,
        length-append e.held t,
      )

  -- Without Harmony mode, and as long as the runes held back and those pushed are 4096 at most, it
  -- does not matter how the model's text is cut into deltas: pushing them one by one delivers, in
  -- all, the same content with the same annotations as pushing the whole text at once, and leaves
  -- the emitter in the same state.
  pub push_all-concat :
      (ts : List Text) (e : Emitter)
      → IsPlain e.state
      → length e.held + length (concat ts) ≤ max_link_buffer
      → push_all normalize ts e ≡ push normalize (concat ts) e
  unfolding push_all concat
  push_all-concat [] e h m = sym (push_empty e)
  push_all-concat (t ∷ ts) e h m =
      let p = push normalize t e in
      ap (after_two p.0) (
        push_all-concat ts p.1 (rw (push-state normalize t e) h)
          (omega (arith, m, length-push t e h, length-append t (concat ts))))
      ∙ sym (push-append t (concat ts) e h m)
