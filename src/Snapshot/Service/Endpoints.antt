-- ===== src/Snapshot/Service/Endpoints.antt =====
-- The counts of endpoints: EndpointSet of internal/snapshot/service.go.
use kubewhy.Base.{◌+◌, ◌≤◌, ◌≡◌, List, [], ◌∷◌, arith, length}
use kubewhy.Snapshot.Service.{
  Endpoint, EndpointSet, count_ready, ready_count, not_ready_count, total_count,
}

count_ready-le : (es : List Endpoint) → count_ready es ≤ length es
count_ready-le [] = omega arith
count_ready-le (e ∷ es) = ground (arith, count_ready-le es)

-- Of the endpoints of a Service, those that are ready and those that are not make up all of them.
ready_count-total : (e : EndpointSet) → ready_count e + not_ready_count e ≡ total_count e
unfolding ready_count not_ready_count total_count
ready_count-total e = omega (arith, count_ready-le e.addresses)
