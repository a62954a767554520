-- ===== src/Server/Recorder/Examples.antt =====
-- The theorems on the recorder, the access log and the route context at a handler that sends a status and
-- some bytes.
use go_mini_gateway.Common.{◌%◌, ◌≡◌, ◌⊎◌, refl, Option, some, List, [], ◌∷◌, codes, arith}
use go_mini_gateway.Metrics.Registry.{i64, Registry, new_registry}
use go_mini_gateway.Server.Recorder.{
  Call, header, data_, Op, op_write_header, op_write, op_set_route_id, new_status_recorder,
  perform_all, status_code,
}
use go_mini_gateway.Server.Recorder.Laws.{taken, HeaderFree, recorder_lem}
use go_mini_gateway.Server.Recorder.Client.{client_status, informational_hides_status}
use go_mini_gateway.Server.RouteContext.{ResponseWriter, setter, wrapper}

abbrev ops : List Op
ops =
    op_set_route_id (codes "a")
    ∷ op_write_header 404
    ∷ op_write (codes "no") 2
    ∷ op_write_header 500
    ∷ []

calls_test : (perform_all new_status_recorder ops).1 ≡ header 404 ∷ data_ (codes "no") 2 ∷ []
unfolding perform_all new_status_recorder
calls_test = refl

recorder_lem_example :
    let (r, calls) = perform_all new_status_recorder ops in
    (r.bytes_written ≡ taken calls % i64)
    × (((calls ≡ []) × (status_code r ≡ 200))
        ⊎ ((rest : List Call) × (calls ≡ header (status_code r) ∷ rest) × HeaderFree rest))
recorder_lem_example =
    recorder_lem ops (tt, (λ e. omega (arith, e), (tt, (λ e. omega (arith, e), tt))))

informational_hides_status_example :
    let (r, calls) =
      perform_all new_status_recorder
        (op_write_header 103 ∷ op_write_header 404 ∷ op_write (codes "no") 2 ∷ []) in
    (client_status calls ≡ 200) × (status_code r ≡ 103)
informational_hides_status_example =
    informational_hides_status 103 (op_write_header 404 ∷ op_write (codes "no") 2 ∷ []) refl
      (tt, (tt, tt))

abbrev registry : Option Registry
registry = some (new_registry 0)

abbrev wrapped : ResponseWriter
wrapped = wrapper (setter new_status_recorder)
