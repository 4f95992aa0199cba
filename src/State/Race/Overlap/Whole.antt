-- ===== src/State/Race/Overlap/Whole.antt =====
-- What a hydration (crates/af-swarm-state/src/hydrate.rs) returns that overlaps with freezes of its agent
-- (crates/af-swarm-state/src/freeze.rs).
use swarm_runtime.Prelude.{ℕ, ◌≤◌, Bytes, Bool, List, [], ◌∷◌, ◌≡◌, refl, sym, ◌∙◌, ap, inl, inr}
use swarm_runtime.State.Error.{StateResult, ok, err, panic}
use swarm_runtime.State.Exec.{Exec, lift, ◌>>=◌, bind_ok}
use swarm_runtime.State.Keys.{agent_state_key, working_memory_key}
use swarm_runtime.State.Proto.{AgentStateRecord, WorkingMemoryRecord}
use swarm_runtime.State.Store.{ETag, StateRecord, Platform}
use swarm_runtime.State.Store.Laws.{IsOcc, IsLossless}
use swarm_runtime.State.Keeps.{view-IsLook, stale_active_guard-Keeps}
use swarm_runtime.State.Freeze.{FreezeInput}
use swarm_runtime.State.Hydrate.{
  HydrationResult, AgentHydrationManager, decode_found, stale_active_guard, load_working_memory,
}
use swarm_runtime.State.Hydrate.Sound.{decode_found_ok, load_working_memory_ok}
use swarm_runtime.State.Race.{Freezers, Action, act, init}
use swarm_runtime.State.Race.Winner.{IsRace}
use swarm_runtime.State.Race.Crash.{Answers}
use swarm_runtime.State.Race.Stopped.{IsWhole}
use swarm_runtime.State.Race.Overlap.{
  HydratePc, after_part, result_of, hydrate_advance, Overlap, Event, overlap_step, overlap,
}
use swarm_runtime.State.Race.Overlap.Ended.{hydrating_calls, overlap_ends}
use swarm_runtime.State.Race.Overlap.Reading.{SamePair, Phase, look-Phase, freeze_step-Phase}
use swarm_runtime.State.Race.Overlap.Seen.{
  IsNewPair, look-IsNewPair, freeze_step-IsNewPair, read_state,
}
use swarm_runtime.State.Race.Overlap.Loaded.{IsStored, IsSeen, IsWholeOfSome, loaded-IsWhole}

module _ (E : Platform) (occ : IsOcc E) (answers : Answers E) (lossless : IsLossless E)
    (recover : Bytes → Bytes → Exec E.World WorkingMemoryRecord) (manager : AgentHydrationManager)
    (w0 : E.World) {t a : Bytes} {e : ETag} (inputs : ℕ → FreezeInput) (race : IsRace t a e inputs)
    (sr mr : StateRecord E.Wire) (s : AgentStateRecord) (m : WorkingMemoryRecord)
    (stored : IsStored E occ w0 t a inputs sr mr s m) where
  abbrev Reads : Freezers E → AgentStateRecord → Type 0
  Reads f s' =
      Phase E occ answers w0 inputs race f
      × IsSeen E occ answers lossless recover w0 inputs race sr mr s m f s'

  -- What holds of a hydration wherever it is.
  abbrev pub IsSound : Freezers E → HydratePc → Type 0
  IsSound f HydratePc.begun = Phase E occ answers w0 inputs race f
  IsSound f (HydratePc.state_read s') = Reads f s'
  IsSound f (HydratePc.state_free s') = Reads f s'
  IsSound f (HydratePc.returned (ok r)) =
      IsWholeOfSome E occ answers lossless recover w0 inputs race sr mr s m r
  IsSound f (HydratePc.returned (err x)) = Unit
  IsSound f (HydratePc.returned panic) = Unit

  moved :
      (f f' : Freezers E) (p : HydratePc)
      → (Phase E occ answers w0 inputs race f → Phase E occ answers w0 inputs race f')
      → ((s' : AgentStateRecord)
          → IsNewPair E occ answers lossless w0 inputs race f s'
          → IsNewPair E occ answers lossless w0 inputs race f' s')
      → IsSound f p
      → IsSound f' p
  moved f f' HydratePc.begun phase pair h = phase h
  moved f f' (HydratePc.state_read s') phase pair (h, inl old) = (phase h, inl old)
  moved f f' (HydratePc.state_read s') phase pair (h, inr new) = (phase h, inr (pair s' new))
  moved f f' (HydratePc.state_free s') phase pair (h, inl old) = (phase h, inl old)
  moved f f' (HydratePc.state_free s') phase pair (h, inr new) = (phase h, inr (pair s' new))
  moved f f' (HydratePc.returned (ok r)) phase pair h = h
  moved f f' (HydratePc.returned (err x)) phase pair h = h
  moved f f' (HydratePc.returned panic) phase pair h = h

  look-IsSound :
      (f : Freezers E) (w : E.World) (p : HydratePc)
      → SamePair E occ answers w0 inputs race w f.world
      → IsSound f p
      → IsSound (record f { world = w }) p
  look-IsSound f w p same =
      moved f (record f { world = w }) p (look-Phase E occ answers w0 inputs race f w same)
        (λ s'. look-IsNewPair E occ answers lossless w0 inputs race f w s' same)

  pub act-IsSound :
      (f : Freezers E) (x : Action) (p : HydratePc) → IsSound f p → IsSound (act E inputs f x) p
  unfolding act
  act-IsSound f (Action.freeze_step k) p =
      moved f (act E inputs f (Action.freeze_step k)) p
        (freeze_step-Phase E occ answers w0 inputs race f k)
        (freeze_step-IsNewPair E occ answers lossless w0 inputs race f k)
  act-IsSound f (Action.read_key k) p = look-IsSound f (E.get_state k f.world).1 p (
    occ.view-get k f.world (working_memory_key t a),
    occ.view-get k f.world (agent_state_key t a),
  )
  act-IsSound f Action.read_clock p =
      look-IsSound f (E.now f.world).1 p
        (occ.view-now f.world (working_memory_key t a), occ.view-now f.world (agent_state_key t a))

  -- The first call of the hydration, the second and the last.
  first_read :
      (f : Freezers E) (r : StateResult AgentStateRecord) (w : E.World)
      → (E.get_state (agent_state_key t a) >>= λ o. lift (decode_found E a o)) f.world ≡ (r, w)
      → Phase E occ answers w0 inputs race f
      → IsSound (record f { world = w }) (after_part HydratePc.state_read r)
  first_read f (err x) w h phase = tt
  first_read f panic w h phase = tt
  first_read f (ok s') w h phase =
      let sk = agent_state_key t a in
      bind_ok (E.get_state sk) _ f.world h λ o w1 read h1.
        let (rec, is_rec, decoded) = decode_found_ok E a o (ap (λ p. p.0) h1) in
        let there = sym (occ.get_ok sk f.world o (ap (λ p. p.0) read)) ∙ is_rec in
        let after : (E.get_state sk f.world).1 ≡ w = ap (λ p. p.1) read ∙ ap (λ p. p.1) h1 in
        look-IsSound f w (HydratePc.state_read s')
          (rw (← after)
            (occ.view-get sk f.world (working_memory_key t a), occ.view-get sk f.world sk))
          (
            phase,
            read_state E occ answers lossless w0 inputs race f s s' sr rec phase stored.state_stored
                stored.state_decoded there decoded,
          )

  guarded :
      (f : Freezers E) (s' : AgentStateRecord) (r : StateResult (Unit {0}))
      → Reads f s'
      → IsSound f (after_part (λ u. HydratePc.state_free s') r)
  guarded f s' (ok u) h = h
  guarded f s' (err x) h = tt
  guarded f s' panic h = tt

  last_read :
      (f f' : Freezers E) (s' : AgentStateRecord) (r : StateResult (WorkingMemoryRecord × Bool))
      (w : E.World)
      → (E.get_state (working_memory_key t a) >>= λ o. load_working_memory E recover t a s' o)
          f.world
        ≡ (r, w)
      → Reads f s'
      → IsSound f' (after_part (result_of s') r)
  last_read f f' s' (err x) w h reads = tt
  last_read f f' s' panic w h reads = tt
  last_read f f' s' (ok (m', recovered)) w h (phase, seen) =
      let mk = working_memory_key t a in
      bind_ok (E.get_state mk) _ f.world h λ held w1 read h1.
        loaded-IsWhole E occ answers lossless recover w0 inputs race sr mr s m stored f held w1
          (record { state = s'; working_memory = m'; recovered_from_checkpoint = recovered })
          (occ.get_ok mk f.world held (ap (λ p. p.0) read))
          (load_working_memory_ok E recover t a s' held w1 w m' recovered h1) phase seen

  pub hydrate_advance-IsSound :
      (f : Freezers E) (p : HydratePc)
      → let (p', w) = hydrate_advance E recover manager t a p f.world in
        IsSound f p → IsSound (record f { world = w }) p'
  unfolding hydrate_advance
  hydrate_advance-IsSound f HydratePc.begun h = first_read f _ _ refl h
  hydrate_advance-IsSound f (HydratePc.state_read s') h =
      let w = (stale_active_guard E manager t a s' f.world).1 in
      let keeps = λ (j : Bytes).
        stale_active_guard-Keeps E j (λ w. occ.view w j) (view-IsLook E occ j) manager t a s'
          f.world in
      guarded (record f { world = w }) s' _
        (look-IsSound f w (HydratePc.state_read s')
          (keeps (working_memory_key t a), keeps (agent_state_key t a)) h)
  hydrate_advance-IsSound f (HydratePc.state_free s') h = last_read f _ s' _ _ refl h
  hydrate_advance-IsSound f (HydratePc.returned r) h = h

  overlap-IsSound :
      (o : Overlap E) (events : List Event)
      → IsSound o.freezers o.hydration
      → let o' = overlap E recover manager t a inputs o events in IsSound o'.freezers o'.hydration
  unfolding overlap overlap_step
  overlap-IsSound o [] h = h
  overlap-IsSound o (Event.freezing x ∷ events) h =
      overlap-IsSound (overlap_step E recover manager t a inputs o (Event.freezing x)) events
        (act-IsSound o.freezers x o.hydration h)
  overlap-IsSound o (Event.hydrating ∷ events) h =
      overlap-IsSound (overlap_step E recover manager t a inputs o Event.hydrating) events
        (hydrate_advance-IsSound o.freezers o.hydration h)

  -- While any number of freezes of an agent are under way whose records agree at a version that fits
  -- `u64`, each from the working
  -- memory that is stored and with the same ETag of it, on a store that answers its writes: a hydration
  -- whose calls come anywhere between theirs has ended after three of its own, and if it returns the
  -- agent, then as before the freezes, or as one of them leaves it, or with the state from before and the
  -- working memory that recovery returned.
  pub overlap-IsWhole :
      (events : List Event)
      → 3 ≤ hydrating_calls events
      → (result : StateResult HydrationResult) × ((overlap E recover manager t a inputs
            (record { freezers = init E w0; hydration = HydratePc.begun })
            events).hydration
          ≡ HydratePc.returned result)
        × ((r : HydrationResult) → result ≡ ok r → (i : ℕ) × IsWhole E recover (inputs i) s m r)
  overlap-IsWhole events enough =
      let o : Overlap E = record { freezers = init E w0; hydration = HydratePc.begun } in
      let sound = overlap-IsSound o events (inl ((λ j. tt), (refl, refl))) in
      let (result, ended) = overlap_ends E recover manager t a inputs o events enough in
      (result, ended, λ r is_ok. rw (ended ∙ ap HydratePc.returned is_ok) at sound)
