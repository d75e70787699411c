-- ===== src/Citations/Stream/Conserved.antt =====
-- toolruntime/citations/stream.go: no rune of the model's text is lost, doubled or moved.
use mathlib.Core.List.{map-append, append_assoc, append-nil}
use confidential_model_route.Common.{
  ℕ, zero, suc, ◌+◌, ◌≡◌, refl, sym, ap, ◌∙◌, Bool, false, Option, none, some, List, [], ◌∷◌, ◌++◌,
  map, arith, ◌==◌, if◌then◌else◌, length, Text,
}
use confidential_model_route.Citations.{
  State, open_ascii, open_wide, close_wide, close_ascii, resolve_harmony,
}
use confidential_model_route.Citations.Stream.{
  Annotation, find_next_open, replace_close, normalize_brackets, link_text, Drained, Chunk, prepend,
  annotation_at, drain_loop, prepend, drain, Emitter, push,
}
use confidential_model_route.Citations.Stream.Rounds.{Round, plain, link, wait, skip, round}
use confidential_model_route.Citations.Stream.Parts.{match_link_parts, find_next_open_parts}

-- A rune with the lenticular brackets as ASCII ones.
pub ascii : ℕ → ℕ
ascii r = if r == open_wide then open_ascii else if r == close_wide then close_ascii else r

pub replace_close-ascii : (t : Text) → map ascii (replace_close t) ≡ map ascii t
unfolding replace_close ascii
replace_close-ascii [] = refl
replace_close-ascii (r ∷ rs) = ground (arith, replace_close-ascii rs)

normalize_brackets-ascii : (t : Text) → map ascii (normalize_brackets t) ≡ map ascii t
unfolding normalize_brackets ascii
normalize_brackets-ascii [] = refl
normalize_brackets-ascii (o ∷ rs) = ground (arith, replace_close-ascii rs)

prepend-ascii :
    (t u v : Text) (d : Drained) (notes : List Annotation)
    → map ascii t ≡ map ascii v
    → map ascii (d.content ++ d.held) ≡ map ascii u
    → map ascii ((prepend t notes d).content ++ (prepend t notes d).held) ≡ map ascii (v ++ u)
prepend-ascii t u v d notes k h = simp (append_assoc, map-append) (rw (k, ← map-append, h) refl)

-- What stands before the next opening bracket, and from it, are the runes held.
pub held_parts :
    (held before rest : Text) → find_next_open held ≡ (before, rest) → before ++ rest ≡ held
held_parts held before rest h = ap (λ p. p.0 ++ p.1) (sym h) ∙ find_next_open_parts held

module _ (normalize : Text → Text) (st : Option State) (final : Bool) where
  abbrev Kept : ℕ → Type 0
  Kept fuel =
      (at : ℕ) (t : Text)
      → map ascii (
          (drain_loop normalize st final fuel at t).content
          ++ (drain_loop normalize st final fuel at t).held)
        ≡ map ascii t

  Round-ascii :
      (fuel at : ℕ) (held : Text) (d : Drained)
      → Round normalize st final fuel at held d
      → Kept fuel
      → map ascii (d.content ++ d.held) ≡ map ascii held
  Round-ascii fuel at held d (plain before h) ih = ap (map ascii) (held_parts held before [] h)
  Round-ascii fuel at held d (wait before o rs h m f l) ih =
      ap (map ascii) (held_parts held before (o ∷ rs) h)
  Round-ascii fuel at held d (skip before o rs h m) ih =
      prepend-ascii (before ++ o ∷ []) rs (before ++ o ∷ [])
        (drain_loop normalize st final fuel (at + length before + 1) rs) [] refl
        (ih (at + length before + 1) rs)
      ∙ ap (map ascii) (append_assoc before (o ∷ []) rs ∙ held_parts held before (o ∷ rs) h)
  Round-ascii fuel at held d (link before o rs label c url after h m) ih =
      prepend-ascii (before ++ normalize_brackets (link_text o label c url)) after
        (before ++ link_text o label c url)
        (drain_loop normalize st final fuel (at + length before + length (link_text o label c url))
          after)
        (annotation_at normalize st (at + length before) label url)
        (rw (map-append, normalize_brackets-ascii (link_text o label c url))
          (sym (map-append ascii before (link_text o label c url))))
        (ih (at + length before + length (link_text o label c url)) after)
      ∙ ap (map ascii) (
          append_assoc before (link_text o label c url) after
          ∙ rw (← (match_link_parts o c rs label url after m).1)
              (held_parts held before (o ∷ rs) h))

  -- What a drain delivers and still holds are the runes that it held, in their order.
  pub drain_loop-ascii : (fuel : ℕ) → Kept fuel
  drain_loop-ascii zero at held = unfold drain_loop in refl
  drain_loop-ascii (suc fuel) at held =
      Round-ascii fuel at held _ (round normalize st final fuel at held) (drain_loop-ascii fuel)

-- No citation tokens are rewritten: there is no state, or it is not in Harmony mode.
abbrev pub IsPlain : Option State → Type 0
IsPlain none = Unit {0}
IsPlain (some c) = c.harmony ≡ false

pub resolve_harmony-IsPlain : (st : Option State) (t : Text) → IsPlain st → resolve_harmony st t ≡ t
unfolding resolve_harmony
resolve_harmony-IsPlain none t h = refl
resolve_harmony-IsPlain (some c) t h = ground (arith, h)

abbrev pub content_of : Chunk × Emitter → Text
content_of r = r.0.0

-- Each delta is pushed, and what comes out is put together.
unfoldable pub push_all : (Text → Text) → List Text → Emitter → Chunk × Emitter
push_all normalize [] e = (([], []), e)
push_all normalize (t ∷ ts) e =
    let (c, e') = push normalize t e in
    let (c', e'') = push_all normalize ts e' in ((c.0 ++ c'.0, c.1 ++ c'.1), e'')

unfoldable pub concat : List Text → Text
concat [] = []
concat (t ∷ ts) = t ++ concat ts

chain_append :
    (x y z k u w : Text)
    → map ascii (x ++ k) ≡ map ascii u
    → map ascii (y ++ z) ≡ map ascii (k ++ w)
    → map ascii ((x ++ y) ++ z) ≡ map ascii (u ++ w)
chain_append x y z k u w p q =
    ap (map ascii) (append_assoc x y z)
    ∙ map-append ascii x (y ++ z)
    ∙ rw (q, map-append ascii k w)
        (sym (append_assoc (map ascii x) (map ascii k) (map ascii w))
          ∙ rw (← map-append ascii x k, p) (sym (map-append ascii u w)))

module _ (normalize : Text → Text) where
  pub drain-ascii :
      (final : Bool) (e : Emitter)
      → IsPlain e.state
      → map ascii (content_of (drain normalize final e) ++ (drain normalize final e).1.held)
        ≡ map ascii e.held
  unfolding drain
  drain-ascii final e h =
      drain_loop-ascii normalize e.state final (suc (length (resolve_harmony e.state e.held)))
        (length e.sent) (resolve_harmony e.state e.held)
      ∙ ap (map ascii) (resolve_harmony-IsPlain e.state e.held h)

  pub push-ascii :
      (t : Text) (e : Emitter)
      → IsPlain e.state
      → map ascii (content_of (push normalize t e) ++ (push normalize t e).1.held)
        ≡ map ascii (e.held ++ t)
  unfolding push
  push-ascii [] e h = ap (map ascii) (sym (append-nil e.held))
  push-ascii (r ∷ rs) e h = drain-ascii false (record e { held = e.held ++ r ∷ rs }) h

  pub push-state : (t : Text) (e : Emitter) → (push normalize t e).1.state ≡ e.state
  unfolding push drain
  push-state [] e = refl
  push-state (r ∷ rs) e = refl

  pub push_all-ascii :
      (ts : List Text) (e : Emitter)
      → IsPlain e.state
      → map ascii (content_of (push_all normalize ts e) ++ (push_all normalize ts e).1.held)
        ≡ map ascii (e.held ++ concat ts)
  unfolding push_all concat
  push_all-ascii [] e h = ap (map ascii) (sym (append-nil e.held))
  push_all-ascii (t ∷ ts) e h =
      let e' = (push normalize t e).1 in
      let ih = push_all-ascii ts e' (rw (push-state t e) h) in
      chain_append (content_of (push normalize t e)) (content_of (push_all normalize ts e'))
        (push_all normalize ts e').1.held e'.held (e.held ++ t) (concat ts) (push-ascii t e h) ih
      ∙ ap (map ascii) (append_assoc e.held t (concat ts))

  pub push_all-state : (ts : List Text) (e : Emitter) → (push_all normalize ts e).1.state ≡ e.state
  unfolding push_all
  push_all-state [] e = refl
  push_all-state (t ∷ ts) e = push_all-state ts (push normalize t e).1 ∙ push-state t e
