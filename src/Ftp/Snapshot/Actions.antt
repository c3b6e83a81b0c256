-- ===== src/Ftp/Snapshot/Actions.antt =====
-- What happens to a snapshot handle, in the order in which it happens.
use pacsys.Prelude.{true, List, [], ◌∷◌, Result, ok, err}
use pacsys.Ftp.Snapshot.{Handle, Item, cancel, ended, monitor_step, on_reply, restart}

-- A reply comes, the monitor thread goes round its loop, or the client calls a method.
pub data Action : Type 0 where
  replying : Item → Action
  monitoring_round : Action
  restarting : Action
  cancelling : Action

-- A call of `restart` that raises has changed nothing.
unfoldable pub after_call : Handle → Result Handle → Handle
after_call h (ok g) = g
after_call h (err e) = h

-- An exception would end the thread.
unfoldable pub after_round : Handle → Result Handle → Handle
unfolding ended
after_round h (ok g) = g
after_round h (err e) = ended true h

unfoldable pub apply : Action → Handle → Handle
unfolding on_reply monitor_step restart cancel after_call after_round
apply (Action.replying item) h = on_reply item h
apply Action.monitoring_round h = after_round h (monitor_step h)
apply Action.restarting h = after_call h (restart h)
apply Action.cancelling h = cancel h

unfoldable pub run : List Action → Handle → Handle
unfolding apply
run [] h = h
run (a ∷ rest) h = run rest (apply a h)
