-- ===== src/Sessions/Examples.antt =====
-- Two sessions of one application.
use godiam.Prelude.{ℕ, ◌≡◌, refl, List, [], ◌∷◌, some, ℕ_discrete}
use godiam.Prelude.Assoc.{lookup, insert}
use godiam.Sessions.{
  SessionId, SessionId-discrete, Session, Manager, new_manager, new_session_with_id, add_session,
  register, close_all, terminate, set_on_terminate, count,
}
use godiam.Sessions.Indexed.{Indexed, none_ne_some}
use godiam.Sessions.Keeps.{add_session-Indexed}
use godiam.Sessions.Runs.{
  Operation, run, new_manager-Indexed, registers, opens, terminates, sets_callback,
}
use godiam.Sessions.Closing.{IsManaged, add_session-IsManaged}
use godiam.Sessions.CloseAll.{IsEnded, close_all_lem}

abbrev heap : ℕ → Session
heap p = new_session_with_id (p ∷ []) 4

abbrev calls : List Operation
calls = registers 1 ∷ registers 2 ∷ opens 1 ∷ []

new_manager-Indexed_example : Indexed (run calls (new_manager heap))
new_manager-Indexed_example = new_manager-Indexed calls heap

abbrev both : Manager
both = add_session 2 (add_session 1 (new_manager heap))

both_registered : (register 2 (register 1 (new_manager heap)).0).0.sessions ≡ both.sessions
unfolding register new_manager add_session lookup insert SessionId-discrete ℕ_discrete
    new_session_with_id
both_registered = refl

both-Indexed : Indexed both
unfolding run new_manager add_session lookup insert SessionId-discrete ℕ_discrete
    new_session_with_id
both-Indexed =
    add_session-Indexed 2 (add_session 1 (new_manager heap)) refl
      (add_session-Indexed 1 (new_manager heap) refl (new_manager-Indexed [] heap))

new_manager-IsManaged : IsManaged (new_manager heap)
unfolding IsManaged new_manager lookup
new_manager-IsManaged id p x = absurd (none_ne_some x)

close_all_lem_example :
    ((close_all both).sessions ≡ [])
    × ((id : SessionId) (p : ℕ)
        → lookup SessionId-discrete id both.sessions ≡ some p
        → IsEnded ((close_all both).heap p))
close_all_lem_example =
    close_all_lem both both-Indexed
      (add_session-IsManaged 2 _ (add_session-IsManaged 1 _ new_manager-IsManaged))

-- A callback that is set after the registration replaces the manager's, and the session stays.
callback_replaces_removal :
    count (run (registers 1 ∷ sets_callback 1 9 ∷ terminates 1 ∷ []) (new_manager heap)) ≡ 1
unfolding count run terminate set_on_terminate ℕ_discrete register lookup new_manager insert
callback_replaces_removal = refl
