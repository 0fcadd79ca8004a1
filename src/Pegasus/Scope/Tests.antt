-- ===== src/Pegasus/Scope/Tests.antt =====
-- apps/pegasus/core/scope.go on one scope.
use pegasus_suite.Prelude.{◌≡◌, refl, some}
use pegasus_suite.Betting.{harness}
use pegasus_suite.Pegasus.Scope.{split_scope_key, cut_slash}

au_harness : split_scope_key "AU/HARNESS" ≡ some ("AU", harness)
unfolding split_scope_key cut_slash
au_harness = refl
