-- ===== src/Sessions/Runs.antt =====
-- Whatever sequence of calls a session manager answers, its indices agree.
use godiam.Prelude.{ℕ, refl, List, [], ◌∷◌, map}
use godiam.Prelude.Assoc.{lookup}
use godiam.Sessions.{
  SessionId, new_manager, Session, Manager, set_on_terminate, set_timeout, refresh_timeout,
  open_session, handle_timeout, close, register, remove, terminate, close_all,
}
use godiam.Sessions.Indexed.{in_app, Indexed, none_ne_some, log-Indexed, store-Indexed}
use godiam.Sessions.Keeps.{
  register-Indexed, remove-Indexed, terminate-Indexed, terminate_all-Indexed,
  refresh_timeout-Indexed,
}

-- A call of the manager, of a session, or of a session's timer.
pub data Operation : Type 0 where
  registers opens times_out closes terminates : ℕ → Operation
  removes : SessionId → Operation
  sets_timeout : ℕ → ℕ → ℕ → Operation
  refreshes sets_callback : ℕ → ℕ → Operation
  closes_all : Operation

unfoldable pub apply : Operation → Manager → Manager
apply (registers p) m = (register p m).0
apply (opens p) m = open_session p m
apply (times_out p) m = handle_timeout p m
apply (closes p) m = close p m
apply (terminates p) m = terminate p m
apply (removes id) m = remove id m
apply (sets_timeout now p t) m = set_timeout now p t m
apply (refreshes now p) m = refresh_timeout now p m
apply (sets_callback p n) m = set_on_terminate p n m
apply closes_all m = close_all m

unfoldable pub run : List Operation → Manager → Manager
unfolding apply
run [] m = m
run (o ∷ l) m = run l (apply o m)

apply-Indexed : (o : Operation) (m : Manager) → Indexed m → Indexed (apply o m)
unfolding apply open_session handle_timeout close set_timeout set_on_terminate close_all
apply-Indexed (registers p) m h = register-Indexed p m h
apply-Indexed (opens p) m h = store-Indexed p _ m refl refl h
apply-Indexed (times_out p) m h = log-Indexed _ _ (store-Indexed p _ m refl refl h)
apply-Indexed (closes p) m h = store-Indexed p _ m refl refl h
apply-Indexed (terminates p) m h = terminate-Indexed p m h
apply-Indexed (removes id) m h = remove-Indexed id m h
apply-Indexed (sets_timeout now p t) m h = store-Indexed p _ m refl refl h
apply-Indexed (refreshes now p) m h = refresh_timeout-Indexed now p m h
apply-Indexed (sets_callback p n) m h = store-Indexed p _ m refl refl h
apply-Indexed closes_all m h =
    terminate_all-Indexed (map (λ (e : SessionId × ℕ). e.1) m.sessions) m h

pub run-Indexed : (l : List Operation) (m : Manager) → Indexed m → Indexed (run l m)
unfolding run
run-Indexed [] m h = h
run-Indexed (o ∷ l) m h = run-Indexed l (apply o m) (apply-Indexed o m h)

-- Whatever is called, in any order, on a new manager and the sessions of its node: a session that
-- is found under an ID has that ID and is found in its application under it, and a session that is
-- found in an application is found under its ID, and is one of that application.
pub new_manager-Indexed :
    (l : List Operation) (heap : ℕ → Session) → Indexed (run l (new_manager heap))
unfolding new_manager in_app lookup
new_manager-Indexed l heap = run-Indexed l (new_manager heap) (record {
  sound = λ id p e. absurd (none_ne_some e);
  complete = λ a id p e. absurd (none_ne_some e);
})
