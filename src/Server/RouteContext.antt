-- ===== src/Server/RouteContext.antt =====
-- internal/server/route_context.go. The loop that looks for a writer with SetRouteID runs on fuel, one for
-- each round; none is a loop that is still running.
use go_mini_gateway.Common.{
  ℕ, zero, suc, ◌≡◌, ◌↔◌, ◌||◌, refl, Text, Option, none, some, is_empty, has_prefix, text_eq,
  codes, if◌then◌else◌,
}
use go_mini_gateway.Server.Recorder.{StatusRecorder, set_route_id}

-- A writer: none, one with SetRouteID, one with Unwrap, or another one.
pub data ResponseWriter : Type 0 where
  nil_writer : ResponseWriter
  setter : StatusRecorder → ResponseWriter
  wrapper : ResponseWriter → ResponseWriter
  other_writer : ResponseWriter

-- The statements behind the loop run for nil alone, which has no Unwrap.
unfoldable pub set_route_id_to_response_writer : ℕ → ResponseWriter → Text → Option ResponseWriter
unfolding set_route_id
set_route_id_to_response_writer zero w route_id = none
set_route_id_to_response_writer (suc rounds) nil_writer route_id = some nil_writer
set_route_id_to_response_writer (suc rounds) (setter r) route_id =
    some (setter (set_route_id r route_id))
set_route_id_to_response_writer (suc rounds) (wrapper w) route_id =
    set_route_id_to_response_writer rounds (wrapper w) route_id
set_route_id_to_response_writer (suc rounds) other_writer route_id =
    set_route_id_to_response_writer rounds other_writer route_id

-- The value in the context, if it is no empty text, and else what the path says.
unfoldable pub route_id_from_request : Option Text → Text → Text
unfolding has_prefix text_eq
route_id_from_request value path =
    let by_path =
      if has_prefix path (codes "/admin/") || text_eq path (codes "/metrics")
      then codes "admin"
      else if text_eq path (codes "/ping")
          || text_eq path (codes "/health")
          || text_eq path (codes "/version")
      then codes "system"
      else codes "unknown" in
    elim value [ none ↦ by_path | some route_id ↦ if is_empty route_id then by_path else route_id ]

abbrev pub IsSettable : ResponseWriter → Type 0
IsSettable nil_writer = Unit
IsSettable (setter _) = Unit
IsSettable (wrapper _) = ⊥
IsSettable other_writer = ⊥

wrapper_runs :
    (rounds : ℕ) (w : ResponseWriter) (id : Text)
    → set_route_id_to_response_writer rounds (wrapper w) id ≡ none
unfolding set_route_id_to_response_writer
wrapper_runs zero w id = refl
wrapper_runs (suc rounds) w id = wrapper_runs rounds w id

other_runs :
    (rounds : ℕ) (id : Text) → set_route_id_to_response_writer rounds other_writer id ≡ none
unfolding set_route_id_to_response_writer
other_runs zero id = refl
other_runs (suc rounds) id = other_runs rounds id

-- The loop ends, after any number of rounds, exactly for nil and for a writer that has SetRouteID itself: a
-- writer that wraps such a one is never unwrapped.
set_route_id-ends_iff :
    (w : ResponseWriter) (id : Text)
    → ((rounds : ℕ) × (v : ResponseWriter) × (set_route_id_to_response_writer rounds w id ≡ some v))
      ↔ IsSettable w
unfolding set_route_id_to_response_writer
set_route_id-ends_iff nil_writer id = (λ _. tt, λ _. (1, nil_writer, refl))
set_route_id-ends_iff (setter r) id = (λ _. tt, λ _. (1, setter (set_route_id r id), refl))
set_route_id-ends_iff (wrapper w) id =
    (λ (rounds, v, e). let n = wrapper_runs rounds w id in cc, λ h. absurd h)
set_route_id-ends_iff other_writer id =
    (λ (rounds, v, e). let n = other_runs rounds id in cc, λ h. absurd h)
