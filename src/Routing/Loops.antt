-- ===== src/Routing/Loops.antt =====
-- A request that this node has relayed is not relayed by it again.
use godiam.Prelude.{
  ℕ, ◌≡◌, refl, ap, subst, ◌∙◌, Bool, true, false, ◌&&◌, List, [], ◌∷◌, ◌++◌, Option, some, arith,
  if◌then◌else◌, if_both, keep, bytes_eq, bytes_eq_refl, append_assoc,
}
use godiam.Message.{Message, Avp, new_diameter_identity_avp, flag_mandatory, payload_of}
use godiam.Message.Fields.{is_request, is_proxiable, add_avp, find_all_avps, matches_avp}
use godiam.Routing.{Name, Outside, Router}
use godiam.Routing.Candidates.{is_empty}
use godiam.Routing.Proxy.{
  any_identity, contains_route_record, add_proxy_info, error_answer, loop_detected, route_record,
}
use godiam.Routing.Incoming.{is_local, looped, marked, route_request}

any_identity-keep :
    (p : Avp → Bool) (identity : Name) (a : Avp) (xs ys : List Avp)
    → p a ≡ true
    → payload_of a ≡ identity
    → any_identity identity (keep p (xs ++ a ∷ ys)) ≡ true
unfolding any_identity
any_identity-keep p identity a [] ys h e =
    ground (arith, subst (λ z. bytes_eq (payload_of a) z ≡ true) e (bytes_eq_refl (payload_of a)))
any_identity-keep p identity a (x ∷ xs) ys h e =
    ground (arith, any_identity-keep p identity a xs ys h e)

-- The mark of a message, and what follows it.
marked_avps :
    {W P S : Type 0} (o : Outside W P S) (r : Router W P S) (w : W) (m : Message)
    → (ys : List Avp) × ((marked o r w m).avps
        ≡ m.avps ++ new_diameter_identity_avp route_record flag_mandatory r.local_identity ∷ ys)
unfolding marked add_avp add_proxy_info
marked_avps o r w m =
    if_both Begins (is_request m && is_proxiable m) _ _
      (if_both Begins (is_empty r.local_identity) _ _ ([], refl)
        (_ ∷ [], append_assoc m.avps (own ∷ []) (_ ∷ [])))
      ([], refl)
  where
    own : Avp
    own = new_diameter_identity_avp route_record flag_mandatory r.local_identity

    Begins : Message → Type 0
    Begins x = (ys : List Avp) × (x.avps ≡ m.avps ++ own ∷ ys)

contains_own :
    {W P S : Type 0} (o : Outside W P S) (r : Router W P S) (w : W) (m m' : Message)
    (extra : List Avp)
    → is_empty r.local_identity ≡ false
    → m'.avps ≡ (marked o r w m).avps ++ extra
    → contains_route_record m' r.local_identity ≡ true
unfolding contains_route_record find_all_avps new_diameter_identity_avp matches_avp
contains_own o r w m m' extra named e =
    ap (λ b. if b then false else any_identity r.local_identity found) named
    ∙ ap (λ l. any_identity r.local_identity (keep (matches_avp route_record 0) l)) all
    ∙ any_identity-keep (matches_avp route_record 0) r.local_identity own m.avps
        ((marked_avps o r w m).0 ++ extra) matches refl
  where
    own : Avp
    own = new_diameter_identity_avp route_record flag_mandatory r.local_identity

    found : List Avp
    found = keep (matches_avp route_record 0) m'.avps

    all : m'.avps ≡ m.avps ++ own ∷ ((marked_avps o r w m).0 ++ extra)
    all =
        e
        ∙ ap (λ l. l ++ extra) (marked_avps o r w m).1
        ∙ append_assoc m.avps (own ∷ (marked_avps o r w m).0) extra

    matches : matches_avp route_record 0 own ≡ true
    matches = refl

second :
    {X : Type 0} (b c : Bool) (x y z : X)
    → b ≡ false
    → c ≡ true
    → (if b then x else if c then y else z) ≡ y
second b c x y z h k = ground arith

all_true : (a b c : Bool) → a ≡ true → b ≡ true → c ≡ true → a && b && c ≡ true
all_true a b c p q s = ground arith

-- A request that begins with the AVPs of one that this router marked for relaying, whatever other
-- nodes have added to it, and is not for this node, is answered with a loop error instead of being
-- relayed, if relaying is on and the router has an identity.
pub no_second_relay :
    {W P S : Type 0} (o : Outside W P S) (fuel : ℕ) (p : Option P) (r : Router W P S) (w w' : W)
    (m m' : Message) (extra : List Avp)
    → is_empty r.local_identity ≡ false
    → r.relay_enabled ≡ true
    → is_request m' ≡ true
    → is_local r m' ≡ false
    → m'.avps ≡ (marked o r w m).avps ++ extra
    → route_request o fuel p r w' m' ≡ some (error_answer o p (looped r) w' m' loop_detected)
unfolding route_request
no_second_relay o fuel p r w w' m m' extra named on req far e =
    second (is_local r m') _ _ _ _ far
      (all_true (is_request m') r.relay_enabled _ req on (contains_own o r w m m' extra named e))
