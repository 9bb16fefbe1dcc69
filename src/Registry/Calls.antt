-- ===== src/Registry/Calls.antt =====
-- The calls that change a registry, as one step function, for properties of every history.
use apolysis.Common.{ℕ, List, [], ◌∷◌}
use apolysis.Common.Text.{Text}
use apolysis.Intent.{SessionIntent}
use apolysis.Registry.{
  SessionRegistry, register, renew, close, degrade, expire, associate_cgroup, discover_cgroup,
}
use apolysis.Registry.Retention.{apply_retention_for_tenant}

pub data Call : Type 0 where
  registers : SessionIntent → ℕ → Call
  renews : Text → ℕ → ℕ → Call
  closes degrades : Text → Call
  expires : ℕ → Call
  associates discovers : Text → ℕ → Call
  retains : Text → ℕ → Call

unfoldable pub step : Call → SessionRegistry → SessionRegistry
step (registers intent now) r = (register intent now r).0
step (renews session at now) r = (renew session at now r).0
step (closes session) r = (close session r).0
step (degrades session) r = (degrade session r).0
step (expires now) r = (expire now r).0
step (associates session cgroup) r = (associate_cgroup session cgroup r).0
step (discovers session cgroup) r = (discover_cgroup session cgroup r).0
step (retains tenant now) r = (apply_retention_for_tenant tenant now r).0

unfoldable pub run : List Call → SessionRegistry → SessionRegistry
run [] r = r
run (c ∷ cs) r = run cs (step c r)
