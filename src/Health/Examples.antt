-- ===== src/Health/Examples.antt =====
-- The health on a small history.
use apolysis.Common.{List, [], ◌∷◌}
use apolysis.Queue.{new_stats}
use apolysis.Health.{new, ready, degraded, docker}
use apolysis.Health.Readiness.{
  Update, ebpf, storage, adapts, update_all, Reports, update_all-Reports,
}

abbrev starts : List Update
starts = ebpf ready ∷ adapts docker degraded ∷ storage ready ∷ []

update_all-Reports_example :
    Reports starts (new (new_stats 8)) (update_all starts (new (new_stats 8)))
update_all-Reports_example = update_all-Reports starts (new (new_stats 8))
