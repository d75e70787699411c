-- ===== src/Sse/Tests.antt =====
-- toolruntime/sse_reader.go: runs of the reader, and the theorems at concrete streams.
use confidential_model_route.Common.{
  ◌≡◌, refl, Bool, true, false, some, List, [], ◌∷◌, arith, Text, text, text_eq,
}
use confidential_model_route.Sse.{
  Frame, no_pending, frame, split_field, cut, trim_space, take_field, is_comment, next_loop, next,
  join,
}
use confidential_model_route.Sse.Comments.{drop_comments, next_loop-drop_comments}
use confidential_model_route.Sse.Reads.{read_all, read_all_total}
use confidential_model_route.Sse.Print.{
  print, print_open, print_all, split_lines, read_all-print_all,
}

abbrev delta : Frame
delta = record { event = text "delta"; payload = text "{}" }

abbrev done : Frame
done = record { event = []; payload = text "[DONE]" }

-- A comment, a frame whose event line stands alone, two data lines, and no blank line at the end.
abbrev stream : List Text
stream =
    text ": ping" ∷ text "event: stray" ∷ [] ∷ text "data: a" ∷ text "id: 7" ∷ text "data:b" ∷ []

next_of_stream : next (record { lines = stream; failed = false }) ≡ (
  frame (record { event = []; payload = 97 ∷ 10 ∷ 98 ∷ [] }),
  record { lines = []; failed = false },
)
unfolding next cut trim_space text_eq split_field take_field is_comment join next_loop
next_of_stream = refl

no_colon : split_field (text "data") ≡ (text "data", [])
unfolding split_field
no_colon = refl

read_all_of_failed :
    read_all 9 (record { lines = text "data: x" ∷ [] ∷ text "data: y" ∷ []; failed = true })
    ≡ some (record { event = []; payload = text "x" } ∷ [], true)
unfolding read_all next cut trim_space text_eq split_field take_field is_comment join next_loop
read_all_of_failed = refl

print_of_delta : print delta ≡ text "event: delta" ∷ text "data: {}" ∷ [] ∷ []
unfolding print print_open split_lines
print_of_delta = refl

read_all_total_example :
    (fs : List Frame) × (e : Bool) × (read_all 7 (record { lines = stream; failed = false })
      ≡ some (fs, e))
read_all_total_example = read_all_total 7 (record { lines = stream; failed = false }) (omega arith)

read_all-print_all_example :
    read_all 3 (record { lines = print_all (delta ∷ done ∷ []); failed = false })
    ≡ some (delta ∷ done ∷ [], false)
read_all-print_all_example = read_all-print_all (delta ∷ done ∷ []) 3 (omega arith)

next_loop-drop_comments_example :
    next_loop false (drop_comments stream) no_pending
    ≡ ((next_loop false stream no_pending).0, drop_comments (next_loop false stream no_pending).1)
next_loop-drop_comments_example = next_loop-drop_comments false stream no_pending
