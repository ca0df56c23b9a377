-- ===== src/Peer/Invariant.antt =====
-- pkg/core/peer/state_machine.go: what holds in each state of the machine.
use godiam.Prelude.{ℕ, ◌≡◌, refl, sym, subst, Bool, true, false, Option, none, some, if◌then◌else◌}
use godiam.Peer.{
  State, closed, wait_conn_ack, wait_i_cea, wait_conn_ack_elect, wait_returns, r_open, i_open,
  closing, suspect, zombie, Event, r_conn_cer, i_rcv_conn_ack, Error, EventMessage, Core, Peer,
}
use godiam.Peer.Connect.{
  set_state, error_cleanup, schedule_reconnect, stop_timeout, stop_watchdog, close_i_conn,
  close_r_conn, clear_pending, close_conn_done,
}
use godiam.Peer.Opening.{give_up}
use godiam.Peer.Keeps.{is_some}

-- Whether the watchdog and the timeout timer are set.
unfoldable pub Timers : Core → Bool → Bool → Type 0
Timers c wd to = (c.watchdog_timer ≡ wd) × (c.timeout_timer ≡ to)

abbrev pub IsHeld {ℓ} : {A : Type ℓ} → Option A → Type 0
IsHeld o = is_some o ≡ true

abbrev pub either : Option ℕ → Option ℕ → Option ℕ
either (some a) b = some a
either none b = b

unfoldable pub In : State → Core → Type 0
unfolding Timers
In closed c = Timers c false false
In wait_conn_ack c = Timers c false true
In wait_i_cea c = IsHeld c.i_conn × Timers c false true
In wait_conn_ack_elect c = IsHeld c.r_conn × IsHeld c.pending_cer × Timers c false true
In wait_returns c = IsHeld c.i_conn × IsHeld c.r_conn × IsHeld c.pending_cer × Timers c false true
In r_open c = IsHeld c.r_conn × Timers c true false
In i_open c = IsHeld c.i_conn × Timers c true false
In closing c = c.watchdog_timer ≡ false
In suspect c = IsHeld (either c.i_conn c.r_conn) × Timers c true false
In zombie c = (c.i_conn ≡ none) × (c.r_conn ≡ none) × Timers c false false

unfoldable pub Holds : Core → Type 0
unfolding In
Holds c = In c.state c

unfoldable pub Inv : Peer → Type 0
unfolding Holds
Inv p = Holds p.control

pub Inv-kept : (a b : Peer) → a.control ≡ b.control → Inv b → Inv a
unfolding Inv
Inv-kept a b e = subst Holds (sym e)

pub i-kept : {a b : Core} → a ≡ b → IsHeld b.i_conn → IsHeld a.i_conn
i-kept e = subst (λ c. IsHeld c.i_conn) (sym e)

pub r-kept : {a b : Core} → a ≡ b → IsHeld b.r_conn → IsHeld a.r_conn
r-kept e = subst (λ c. IsHeld c.r_conn) (sym e)

pub cer-kept : {a b : Core} → a ≡ b → IsHeld b.pending_cer → IsHeld a.pending_cer
cer-kept e = subst (λ c. IsHeld c.pending_cer) (sym e)

pub watchdog-kept : {a b : Core} {t : Bool} → a ≡ b → b.watchdog_timer ≡ t → a.watchdog_timer ≡ t
watchdog-kept {t} e = subst (λ c. c.watchdog_timer ≡ t) (sym e)

pub timeout-kept : {a b : Core} {t : Bool} → a ≡ b → b.timeout_timer ≡ t → a.timeout_timer ≡ t
timeout-kept {t} e = subst (λ c. c.timeout_timer ≡ t) (sym e)

pub give_up-Inv : (e : Option Error) (p : Peer) → Inv (give_up e p).0
unfolding Inv Timers set_state error_cleanup stop_timeout stop_watchdog clear_pending
    close_conn_done close_i_conn close_r_conn
give_up-Inv e p = (refl, refl)

if-Inv : (b : Bool) (x y : Peer) → Inv x → Inv y → Inv (if b then x else y)
if-Inv true x y h k = h
if-Inv false x y h k = k

pub retried-Inv : (p : Peer) → Inv (schedule_reconnect (set_state closed (error_cleanup p)))
unfolding schedule_reconnect Inv Timers set_state error_cleanup stop_timeout stop_watchdog
    clear_pending close_conn_done close_i_conn close_r_conn
retried-Inv p = if-Inv p.config.persistent _ _ (refl, refl) (refl, refl, (refl, refl))

pub split :
    (P : Peer × Option Error → Type 0) (o : Option Error) (bad : Error → Peer × Option Error)
    (good : Peer × Option Error)
    → ((e : Error) → o ≡ some e → P (bad e))
    → (o ≡ none → P good)
    → P (elim o as (λ x. Peer × Option Error) [ some e ↦ bad e | none ↦ good ])
split P none bad good f g = g refl
split P (some e) bad good f g = f e refl

pub split-Inv :
    (o : Option Error) (bad : Error → Peer × Option Error) (good : Peer × Option Error)
    → ((e : Error) → o ≡ some e → Inv (bad e).0)
    → (o ≡ none → Inv good.0)
    → Inv (elim o as (λ x. Peer × Option Error) [ some e ↦ bad e | none ↦ good ]).0
split-Inv = split (λ r. Inv r.0)

-- A state whose demands are met.
pub In-Inv : (s : State) (p : Peer) → p.state ≡ s → In s p.control → Inv p
unfolding Inv
In-Inv s p e k = subst (λ t. In t p.control) (sym e) k

-- What an event promises: an acknowledged dial has its connection, an inbound one comes with its.
unfoldable pub Admits : Event → EventMessage → Peer → Type 0
Admits i_rcv_conn_ack ev p = IsHeld p.i_conn
Admits r_conn_cer ev p = IsHeld ev.conn
Admits _ ev p = Unit
