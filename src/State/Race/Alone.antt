-- ===== src/State/Race/Alone.antt =====
-- The steps of a freeze, taken without a break, and `freeze` of crates/af-swarm-state/src/freeze.rs.
use swarm_runtime.Prelude.{ℕ, arith, zero, suc, ◌≡◌}
use swarm_runtime.State.Store.{Platform}
use swarm_runtime.State.Freeze.{
  FreezeInput, freeze, freeze_state, write_checkpoint, current_timestamp, unix_secs,
}
use swarm_runtime.State.Race.{FreezePc, advance}

module _ (E : Platform) where
  unfoldable pub advances : ℕ → FreezeInput → FreezePc × E.World → FreezePc × E.World
  advances zero input s = s
  advances (suc n) input s = advances n input (advance E input s.0 s.1)

  -- Seven steps from its start a freeze has finished, with the result of `freeze` and the world that
  -- `freeze` leaves.
  pub advances-freeze :
      (input : FreezeInput) (w : E.World)
      → advances 7 input (FreezePc.starting, w)
        ≡ (FreezePc.finished (freeze E input w).0, (freeze E input w).1)
  unfolding advances advance freeze freeze_state write_checkpoint current_timestamp unix_secs
  advances-freeze input w = ground arith
