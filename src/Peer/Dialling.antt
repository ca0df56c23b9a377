-- ===== src/Peer/Dialling.antt =====
-- pkg/core/peer/state_machine.go: what `initiateConnection` comes back with.
use godiam.Prelude.{ℕ, ◌≡◌, refl, ap, sym, ◌∙◌, List, [], ◌∷◌, ◌++◌, some, arith, append-nil}
use godiam.Peer.{Peer, World, refused, connected, i_rcv_conn_ack}
use godiam.Peer.Connect.{post, dial_addresses, dial_peer, event_only, nack}

-- Every address refuses the connection.
unfoldable pub AllRefused : World → List (List ℕ) → Type 0
AllRefused w [] = Unit
AllRefused w (a ∷ l) = (w.dial a ≡ refused) × AllRefused w l

dial_addresses-skip :
    (w : World) (l m : List (List ℕ)) (p : Peer)
    → AllRefused w l
    → dial_addresses w (l ++ m) p ≡ dial_addresses w m p
unfolding dial_addresses AllRefused
dial_addresses-skip w [] m p h = refl
dial_addresses-skip w (a ∷ l) m p h = ground (arith, dial_addresses-skip w l m p h.1, h.0)

connects :
    (w : World) (a : List ℕ) (c : ℕ) (m : List (List ℕ)) (p : Peer)
    → w.dial a ≡ connected c
    → dial_addresses w (a ∷ m) p
      ≡ post
          (event_only i_rcv_conn_ack)
          (record p { control = record p.control { i_conn = some c } })
unfolding dial_addresses
connects w a c m p d = ground arith

-- Dialling connects to the first configured address that does not refuse, whatever the addresses
-- after it do: the initiator connection is that one, and one acknowledgement is posted.
pub dial_peer-first :
    (w : World) (p : Peer) (l m : List (List ℕ)) (a : List ℕ) (c : ℕ)
    → p.config.addresses ≡ l ++ a ∷ m
    → AllRefused w l
    → w.dial a ≡ connected c
    → ((dial_peer w p).i_conn ≡ some c)
      × ((dial_peer w p).queue ≡ p.queue ++ event_only i_rcv_conn_ack ∷ [])
      × ((dial_peer w p).state ≡ p.state)
unfolding dial_peer
dial_peer-first w p l m a c e h d =
    let eq = ap (λ x. dial_addresses w x p) e ∙ dial_addresses-skip w l (a ∷ m) p h in
    let at = eq ∙ connects w a c m p d in
    (ap (λ q. q.i_conn) at, ap (λ q. q.queue) at, ap (λ q. q.state) at)

-- If every configured address refuses, dialling posts one negative acknowledgement with the error,
-- and leaves the connections and the state alone.
dial_peer-nack :
    (w : World) (p : Peer)
    → AllRefused w p.config.addresses
    → ((dial_peer w p).control ≡ p.control) × ((dial_peer w p).queue ≡ p.queue ++ nack ∷ [])
unfolding dial_peer dial_addresses
dial_peer-nack w p h =
    let at =
      ap (λ x. dial_addresses w x p) (sym (append-nil p.config.addresses))
      ∙ dial_addresses-skip w p.config.addresses [] p h in
    (ap (λ q. q.control) at, ap (λ q. q.queue) at)
