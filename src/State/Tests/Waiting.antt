-- ===== src/State/Tests/Waiting.antt =====
-- The store in memory with time that passes, against the TTLs of crates/af-swarm-state/src/store.rs.
use swarm_runtime.Prelude.{ℕ, ◌+◌, none, refl, if◌then◌else◌}
use swarm_runtime.State.Store.Ttl.{IsTtl, is_over, lessen}
use swarm_runtime.State.Tests.Platform.{
  World, in_memory, in_memory_occ, save_lives_law, save_lives_other_law,
}

abbrev pub rest : ℕ → World → World
rest n w = record w {
  cells = λ j. if is_over n (w.lives j) then none else w.cells j;
  lives = λ j. lessen n (w.lives j);
  clock = w.clock + n;
}

abbrev pub in_memory_ttl : IsTtl in_memory in_memory_occ
in_memory_ttl = record {
  idle = rest;
  left = λ w. w.lives;
  view-idle = λ n w j. refl;
  left-idle = λ n w j. refl;
  left-now = λ w j. refl;
  left-get = λ k w j. refl;
  left-save = save_lives_law;
  left-other = save_lives_other_law;
}
