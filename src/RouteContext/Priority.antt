-- ===== src/RouteContext/Priority.antt =====
-- route_context.go, `applyPriority`: who decides on the engine's priority.
use confidential_model_route.Common.{
  ◌≡◌, inl, inr, none, some, arith, if◌then◌else◌, Option-cases, Text, text_eq,
}
use confidential_model_route.Json.{int, Fields, lookup, remove, lookup-remove, lookup-assign}
use confidential_model_route.RouteContext.{
  RouteContext, priority_field, priority_path, priority_of, apply_priority,
}

-- Whatever the client put there, the forwarded priority is the control plane's grant, on the
-- endpoints that take one, and missing elsewhere or without a grant; all other fields stay.
pub apply_priority_lem :
    (r : RouteContext) (path : Text) (body : Fields) (forwarded : Fields) (k : Text)
    → apply_priority r path (some body) ≡ some forwarded
    → lookup k forwarded ≡ (
        if text_eq priority_field k
        then (elim (priority_of r) [
          | some p ↦ if priority_path path then some (int p) else none
          | none ↦ none
        ])
        else lookup k body)
unfolding apply_priority
apply_priority_lem r path body forwarded k h = elim (Option-cases (priority_of r)) [
  | inl e ↦ rw e (ground (arith, e, lookup-remove priority_field k body))
  | inr (p, e) ↦ rw e (
      ground (
        arith,
        e,
        lookup-remove priority_field k body,
        lookup-assign priority_field k (int p) (remove priority_field body),
      ))
]
