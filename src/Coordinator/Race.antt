-- ===== src/Coordinator/Race.antt =====
-- Barrier calls that overlap: the calls of subtask_coordinator.py await the history and the bus
-- between their tests and the flag that they set, and other sessions run meanwhile.
use fairy_claw.Base.{ℕ, String, ◌≡◌, refl, ◌∙◌, true, none, some, [], ◌∷◌, ◌++◌, arith, ap}
use fairy_claw.Subtask.{
  SessionSubTaskState, is_all_subtasks_terminal, has_aggregation_emitted, mark_aggregation_emitted,
  register_task, mark_terminal,
}
use fairy_claw.Coordinator.{
  stored, barrier_published, World, both_done, state_of, set_state, main_of, bind_sub_session,
  Barrier, begin_barrier, finish_barrier, mark_emitted, log,
}
use fairy_claw.Subtask.Batch.{IsWellFormed}
use fairy_claw.Subtask.Reopen.{has_aggregation_emitted-mark}
use fairy_claw.Subtask.Opening.{register_task_over, mark_terminal-closes}
use fairy_claw.Coordinator.Publish.{
  state_of-set_state, main_of-set_state, begin_barrier_emitted, begin_barrier_ready,
  effects-finish_barrier,
}

-- Two calls of `publish_subtask_barrier_if_ready` for one main session, the second begun before
-- the first is done, publish two barrier events of the same message.
pub overlap_publishes_twice :
    (w : World) (sub sub' : String) (b : Barrier)
    → begin_barrier w sub ≡ some b
    → main_of w sub' ≡ some b.main
    → (begin_barrier w sub' ≡ some b)
      × ((finish_barrier (finish_barrier w sub b both_done) sub' b both_done).effects
          ≡ (w.effects ++ stored b.main b.message ∷ barrier_published b.main sub b.aggregated ∷ [])
            ++ stored b.main b.message ∷ barrier_published b.main sub' b.aggregated ∷ [])
unfolding begin_barrier
overlap_publishes_twice w sub sub' b h m = (
  ground arith,
  effects-finish_barrier (finish_barrier w sub b both_done) sub' b
      ∙ ap (λ es. es ++ stored b.main b.message ∷ barrier_published b.main sub' b.aggregated ∷ [])
          (effects-finish_barrier w sub b),
)

mark_terminal-emitted :
    (s : SessionSubTaskState) (k status summary : String)
    → has_aggregation_emitted (mark_terminal s k status summary).0 ≡ has_aggregation_emitted s
unfolding mark_terminal has_aggregation_emitted
mark_terminal-emitted s k status summary = ground arith

state_of-finish :
    (w : World) (sub : String) (b : Barrier)
    → state_of (finish_barrier w sub b both_done) b.main
      ≡ mark_aggregation_emitted (state_of w b.main)
unfolding finish_barrier mark_emitted
state_of-finish w sub b =
    state_of-set_state _ b.main (mark_aggregation_emitted (state_of _ b.main))
    ∙ unfold state_of log in refl

main_of-finish :
    (w : World) (sub sub' : String) (b : Barrier)
    → main_of (finish_barrier w sub b both_done) sub' ≡ main_of w sub'
unfolding finish_barrier mark_emitted main_of set_state log
main_of-finish w sub sub' b = refl

-- A task `k` is registered for the main session and bound to it while a barrier of that session is being published,
-- the publishing call ends, with both awaited calls done, and then the task is marked terminal. In the
-- state after that the batch that the registration opened is over, and yet a call through any subtask
-- of the main session, the new one included, begins no barrier: the call that was
-- under way marked the new batch as emitted.
pub overlap_loses_barrier :
    (w : World) (sub sub' k instruction status summary : String) (t : ℕ) (b : Barrier)
    → begin_barrier w sub ≡ some b
    → main_of (bind_sub_session w b.main k) sub' ≡ some b.main
    → IsWellFormed (state_of w b.main)
    → let bound = bind_sub_session w b.main k in
      let delegated = set_state bound b.main (register_task (state_of w b.main) k instruction t) in
      let published = finish_barrier delegated sub b both_done in
      let s = (mark_terminal (state_of published b.main) k status summary).0 in
      let ended = set_state published b.main s in
      (is_all_subtasks_terminal (state_of ended b.main) ≡ true) × (begin_barrier ended sub' ≡ none)
overlap_loses_barrier w sub sub' k instruction status summary t b h m f =
    let s₀ = state_of w b.main in
    let (_, over, _, _) = begin_barrier_ready w sub b h in
    let bound = bind_sub_session w b.main k in
    let delegated = set_state bound b.main (register_task s₀ k instruction t) in
    let published = finish_barrier delegated sub b both_done in
    let s₂ = state_of published b.main in
    let r = register_task_over s₀ k instruction t over in
    let same : s₂ ≡ mark_aggregation_emitted (register_task s₀ k instruction t) =
      state_of-finish delegated sub b
      ∙ ap mark_aggregation_emitted
          (state_of-set_state bound b.main (register_task s₀ k instruction t)) in
    let s₃ = (mark_terminal s₂ k status summary).0 in
    (
      ap is_all_subtasks_terminal (state_of-set_state published b.main s₃)
          ∙ mark_terminal-closes s₀ s₂ k instruction status summary t f
              (rw same (unfold mark_aggregation_emitted in r.0))
              (rw same (unfold mark_aggregation_emitted in r.1)),
      begin_barrier_emitted (set_state published b.main s₃) b.main sub'
          (main_of-set_state published b.main sub' s₃
            ∙ main_of-finish delegated sub sub' b
            ∙ main_of-set_state bound b.main sub' _
            ∙ m)
          (ap has_aggregation_emitted (state_of-set_state published b.main s₃)
            ∙ mark_terminal-emitted s₂ k status summary
            ∙ rw same (has_aggregation_emitted-mark (register_task s₀ k instruction t))),
    )
