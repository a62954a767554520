-- ===== src/Server/Serving/Recorded.antt =====
-- What the registry is told of a request that goes through the handler of its route.
use go_mini_gateway.Common.{◌%◌, ◌≡◌, ◌⊎◌, pos, Text, List, [], ◌∷◌, ◌==◌, if◌then◌else◌}
use go_mini_gateway.Http.{Response, Reply, reply}
use go_mini_gateway.Metrics.Registry.{i64, Record}
use go_mini_gateway.Proxy.Handler.{Request}
use go_mini_gateway.Server.Recorder.{status_code}
use go_mini_gateway.Server.Routes.{Handler, Mux}
use go_mini_gateway.Server.Serving.{Store, InFlight, Outside, Frame, record_access, back, advance}

-- What the access log counts of an answer, as the client's writer took it: the answer 101 of an upgrade goes
-- past the recorder.
abbrev pub counted : Text → Response → Outside → Record
counted id r o = record {
  route_id = id;
  status_code = pos (if r.status == 101 then 200 else r.status);
  byte_written = if r.status == 101 then 0 else o.taken % i64;
  latency = o.cost;
}

module _ (dispatch : Mux → Request → Reply ⊎ Handler) where
  -- Steps of one request, at none of which the upstream sends an informational status in front of its answer.
  -- The store of each step is open, since other requests change it in between.
  pub data Run (q : InFlight) : InFlight → Type 0 where
    started : Run q q
    stepped :
        {p : InFlight} (s : Store) (o : Outside)
        → Run q p
        → o.early ≡ []
        → Run q (advance dispatch s p o).1

  -- The access log comes next, with an answer to count.
  abbrev pub Logs : InFlight → Response → Type 0
  Logs q a =
      (q.position ≡ back (reply a)) × ((frames : List Frame) × (q.frames ≡ record_access ∷ frames))
