-- ===== src/Sessions.antt =====
-- pkg/core/session: sessions and their manager. A session is a pointer, a number at which `heap` has
-- its fields; what the callbacks see is noted in `log`, newest first.
pub mod Indexed
pub mod Keeps
pub mod Runs
pub mod Closing
pub mod CloseAll
mod Examples
use godiam.Prelude.{
  ℕ, ◌+◌, Bool, true, false, List, [], ◌∷◌, map, Option, none, some, ℕ_discrete, ite, ltb,
  if◌then◌else◌, length,
}
use godiam.Prelude.Assoc.{lookup, insert, delete}

abbrev pub SessionId : Type 0
SessionId = List ℕ

pub SessionId-discrete : Discrete SessionId
SessionId-discrete = hlevel (ℕ_discrete)

pub data State : Type 0 where
  idle opened disconnected pending : State

-- `onTerminate`: not set, the application's, or the manager's around another one.
pub data Callback : Type 0 where
  unset : Callback
  application : ℕ → Callback
  removing : Callback → Callback

pub record Session : Type 0 where
  pub id : SessionId
  pub app_id : ℕ
  pub state : State
  pub expires_at : ℕ
  pub timeout : ℕ
  pub on_terminate : Callback
  pub timer : Bool

pub data Notice : Type 0 where
  created : ℕ → Notice
  closed : ℕ → Notice
  timed_out : ℕ → Notice
  terminated : ℕ → ℕ → Notice

pub record Manager : Type 0 where
  pub sessions : List (SessionId × ℕ)
  pub by_app_id : List (ℕ × List (SessionId × ℕ))
  pub heap : ℕ → Session
  pub log : List Notice

-- `NewManager`
unfoldable pub new_manager : (ℕ → Session) → Manager
new_manager heap = record { sessions = []; by_app_id = []; heap = heap; log = [] }

-- `NewSessionWithID`
unfoldable pub new_session_with_id : SessionId → ℕ → Session
new_session_with_id id app_id = record {
  id = id;
  app_id = app_id;
  state = idle;
  expires_at = 0;
  timeout = 0;
  on_terminate = unset;
  timer = false;
}

abbrev pub store : ℕ → Session → Manager → Manager
store p s m = record m { heap = λ q. ite (ℕ_discrete p q) s (m.heap q) }

unfoldable pub set_on_terminate : ℕ → ℕ → Manager → Manager
set_on_terminate p callback m =
    store p (record (m.heap p) { on_terminate = application callback }) m

unfoldable pub set_timeout : ℕ → ℕ → ℕ → Manager → Manager
set_timeout now p timeout m =
    store p (record (m.heap p) { timeout = timeout; expires_at = now + timeout; timer = true }) m

unfoldable pub refresh_timeout : ℕ → ℕ → Manager → Manager
refresh_timeout now p m =
    let s = m.heap p in
    if ltb 0 s.timeout then store p (record s { expires_at = now + s.timeout }) m else m

unfoldable pub open_session : ℕ → Manager → Manager
open_session p m = store p (record (m.heap p) { state = opened }) m

-- `handleTimeout`; the log stands for the callback.
unfoldable pub handle_timeout : ℕ → Manager → Manager
handle_timeout p m =
    let q : Manager = store p (record (m.heap p) { state = disconnected }) m in
    record q { log = timed_out p ∷ q.log }

unfoldable pub close : ℕ → Manager → Manager
close p m = store p (record (m.heap p) { timer = false; state = disconnected }) m

-- The sessions of an application, none if it has no map yet.
abbrev pub or_empty : Option (List (SessionId × ℕ)) → List (SessionId × ℕ)
or_empty none = []
or_empty (some m) = m

abbrev index : SessionId → ℕ → ℕ → List (ℕ × List (SessionId × ℕ)) → List (ℕ × List (SessionId × ℕ))
index id app p m =
    insert ℕ_discrete app (insert SessionId-discrete id p (or_empty (lookup ℕ_discrete app m))) m

abbrev unindex : SessionId → ℕ → List (ℕ × List (SessionId × ℕ)) → List (ℕ × List (SessionId × ℕ))
unindex id app m = elim (lookup ℕ_discrete app m) [
  | none ↦ m
  | some l ↦ insert ℕ_discrete app (delete SessionId-discrete id l) m
]

-- What `Register` does to a session whose ID is free.
unfoldable pub add_session : ℕ → Manager → Manager
add_session p m =
    let s = m.heap p in
    record (store p (record s { on_terminate = removing s.on_terminate }) m) {
      sessions = insert SessionId-discrete s.id p m.sessions;
      by_app_id = index s.id s.app_id p m.by_app_id;
      log = created p ∷ m.log;
    }

-- `Register`; `false` is the error that the session exists.
unfoldable pub register : ℕ → Manager → Manager × Bool
unfolding add_session
register p m = elim (lookup SessionId-discrete (m.heap p).id m.sessions) [
  | some q ↦ (m, false)
  | none ↦ (add_session p m, true)
]

-- What `Remove` does to a session that it finds.
unfoldable pub drop_session : SessionId → ℕ → Manager → Manager
drop_session id p m = record m {
  sessions = delete SessionId-discrete id m.sessions;
  by_app_id = unindex id (m.heap p).app_id m.by_app_id;
  log = closed p ∷ m.log;
}

unfoldable pub remove : SessionId → Manager → Manager
unfolding drop_session
remove id m = elim (lookup SessionId-discrete id m.sessions) [
  | none ↦ m
  | some p ↦ drop_session id p m
]

-- A termination callback runs.
unfoldable pub call : Callback → ℕ → Manager → Manager
unfolding remove
call unset p m = m
call (application n) p m = record m { log = terminated n p ∷ m.log }
call (removing callback) p m = call callback p (remove (m.heap p).id m)

unfoldable pub terminate : ℕ → Manager → Manager
unfolding call
terminate p m =
    call (m.heap p).on_terminate p
      (store p (record (m.heap p) { state = disconnected; timer = false }) m)

unfoldable pub terminate_all : List ℕ → Manager → Manager
unfolding terminate
terminate_all [] m = m
terminate_all (p ∷ l) m = terminate_all l (terminate p m)

unfoldable pub close_all : Manager → Manager
unfolding terminate_all
close_all m = terminate_all (map (λ (e : SessionId × ℕ). e.1) m.sessions) m

unfoldable pub get : SessionId → Manager → Option ℕ
get id m = lookup SessionId-discrete id m.sessions

unfoldable pub get_by_app_id : ℕ → Manager → List ℕ
get_by_app_id app m =
    map (λ (e : SessionId × ℕ). e.1) (or_empty (lookup ℕ_discrete app m.by_app_id))

unfoldable pub count : Manager → ℕ
count m = length m.sessions
