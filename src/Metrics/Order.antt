-- ===== src/Metrics/Order.antt =====
-- The order of the keys: the Go runtime hands out the keys of a map in any order.
use mathlib.Core.List.{Permᴰ}
use go_mini_gateway.Common.{
  ℕ, ◌≡◌, ap, Text, Time, List, map, sort, text_leb, text_leb-IsOrder, sort-perm,
}
use go_mini_gateway.Metrics.Registry.{Registry}
use go_mini_gateway.Metrics.Snapshot.{snapshot, entries}

-- In whatever order the keys of the routes come out of the map, sorting them and writing an entry for each
-- gives the routes of the snapshot.
snapshot-perm :
    (duration_string : ℕ → Text) (r : Registry) (now : Time) (ids : List Text)
    → Permᴰ ids (map (λ e. e.0) r.routes)
    → entries r.routes (sort text_leb ids) ≡ (snapshot duration_string r now).routes
unfolding snapshot
snapshot-perm duration_string r now ids p =
    ap (entries r.routes) (sort-perm text_leb text_leb-IsOrder ids (map (λ e. e.0) r.routes) p)
