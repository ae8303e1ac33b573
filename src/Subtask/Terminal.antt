-- ===== src/Subtask/Terminal.antt =====
-- `mark_terminal` of global_state.py: the first terminal status of a task stands.
use fairy_claw.Base.{
  String, ◌≡◌, refl, ◌∙◌, true, false, none, some, inl, inr, arith, Bool-cases, Option-cases,
  str_eq, str_eq_refl, if◌then◌else◌, or_text, is_some,
}
use fairy_claw.Base.Dict.{get, put, get-put, get-put_self}
use fairy_claw.Subtask.{
  SubTaskRecord, SessionSubTaskState, is_terminal_status, mark_terminal, is_terminal,
  normalize_status,
}
use fairy_claw.Subtask.Batch.{normalize_status-IsOver}

-- A task that is there and can still run gets the normalised status, and keeps its old summary if
-- the new one is empty; the call reports the change.
pub mark_terminal_running :
    (s : SessionSubTaskState) (k status summary : String) (r : SubTaskRecord)
    → get s.records k ≡ some r
    → is_terminal_status r.status ≡ false
    → mark_terminal s k status summary ≡ (
      record s {
        records =
            put s.records k
              (record r { status = normalize_status status; summary = or_text summary r.summary });
      },
      true,
    )
unfolding mark_terminal
mark_terminal_running s k status summary r e t = rw (e, mark_terminal, t)

mark_terminal_unknown :
    (s : SessionSubTaskState) (k status summary : String)
    → get s.records k ≡ none
    → mark_terminal s k status summary ≡ (s, false)
unfolding mark_terminal
mark_terminal_unknown s k status summary e = rw (e, mark_terminal)

mark_terminal_over :
    (s : SessionSubTaskState) (k status summary : String) (r : SubTaskRecord)
    → get s.records k ≡ some r
    → is_terminal_status r.status ≡ true
    → mark_terminal s k status summary ≡ (s, false)
unfolding mark_terminal
mark_terminal_over s k status summary r e t = rw (e, mark_terminal, t)

is_terminal-put :
    (s : SessionSubTaskState) (k j : String) (r : SubTaskRecord)
    → is_terminal (record s { records = put s.records k r }) j
      ≡ (if str_eq k j then is_terminal_status r.status else is_terminal s j)
unfolding is_terminal
is_terminal-put s k j r = ground (arith, get-put s.records k j r)

-- After `mark_terminal`, whatever status was asked for, the task is over exactly if it is known; a
-- second call for it changes nothing and reports no change; every other task is over exactly if it
-- was before.
pub mark_terminal_once :
    (s : SessionSubTaskState) (k j status summary status' summary' : String)
    → let (s', changed) = mark_terminal s k status summary in
      (is_terminal s' k ≡ is_some (get s.records k))
      × (mark_terminal s' k status' summary' ≡ (s', false))
      × (str_eq k j ≡ false → is_terminal s' j ≡ is_terminal s j)
mark_terminal_once s k j status summary status' summary' = elim (Option-cases (get s.records k)) [
  | inl e ↦
      let same = mark_terminal_unknown s k status summary e in
      rw (same, e)
        (
          unfold is_terminal in rw (e, is_terminal),
          mark_terminal_unknown s k status' summary' e,
          λ _. refl,
        )
  | inr (r, e) ↦ elim (Bool-cases (is_terminal_status r.status)) [
    | inl t ↦
        let same = mark_terminal_over s k status summary r e t in
        rw (same, e)
          (
            unfold is_terminal in rw (e, is_terminal, t),
            mark_terminal_over s k status' summary' r e t,
            λ _. refl,
          )
    | inr t ↦
        let new : SubTaskRecord = record r {
          status = normalize_status status;
          summary = or_text summary r.summary;
        } in
        let put' = get-put_self s.records k new in
        rw (mark_terminal_running s k status summary r e t, e)
          (
            is_terminal-put s k k new ∙ rw (str_eq_refl k) (normalize_status-IsOver status),
            mark_terminal_over (record s { records = put s.records k new }) k status' summary' new
                put' (normalize_status-IsOver status),
            λ n. is_terminal-put s k j new ∙ rw n,
          )
  ]
]
