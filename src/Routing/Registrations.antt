-- ===== src/Routing/Registrations.antt =====
-- -- Whatever handlers are registered and removed, they stay in the order of their priorities.
use godiam.Prelude.{
  ℕ, Bool, true, false, refl, List, [], ◌∷◌, Option, none, some, ℕ_discrete, option_both,
}
use godiam.Prelude.Ints.{ℤ}
use godiam.Prelude.Assoc.{lookup, delete}
use godiam.Prelude.Distinct.{IsDistinct, delete-IsDistinct, insert-IsDistinct}
use godiam.Prelude.Sorting.{IsSorted, keep-IsSorted}
use godiam.Message.{Message}
use godiam.Routing.{
  Name, Route, Error, InOutcome, OutOutcome, InHandlerEntry, OutHandlerEntry, Router, new_router,
}
use godiam.Routing.Handlers.{
  in_less, out_less, owned, register_in_handler_with_owner, register_out_handler_with_owner,
  register_post_route_handler_with_owner, register_dispatch_handler_with_owner,
  deregister_in_handler, deregister_out_handler, deregister_dispatch_handler,
  deregister_all_by_owner,
}
use godiam.Routing.Owners.{delete_all-IsDistinct}
use godiam.Routing.Ordered.{
  Ordered, Whole, remove_named-IsSorted, sort_in, sort_out, agree-insert, agree-delete,
  agree-delete_all,
}

-- A call that registers handlers or removes them.
pub data Registration (W P : Type 0) : Type 0 where
  adds_in :
      Name
      → Name
      → ℤ
      → (W → Option P → Message → List Route → W × Message × InOutcome)
      → Registration W P
  adds_out :
      Name → Name → ℤ → (W → Message → List Route → W × Message × OutOutcome) → Registration W P
  adds_post : Name → Name → (W → Message → Name → W × Message) → Registration W P
  adds_dispatch :
      ℕ → Name → (W → Option P → Message → W × Message × Option Error) → Registration W P
  drops_in drops_out drops_owner : Name → Registration W P
  drops_dispatch : ℕ → Registration W P

module _ {W P S : Type 0} where
  unfoldable pub register_one : Registration W P → Router W P S → Router W P S
  register_one (adds_in name owner priority h) r =
      register_in_handler_with_owner name owner priority h r
  register_one (adds_out name owner priority h) r =
      register_out_handler_with_owner name owner priority h r
  register_one (adds_post name owner h) r = register_post_route_handler_with_owner name owner h r
  register_one (adds_dispatch app owner h) r = register_dispatch_handler_with_owner app owner h r
  register_one (drops_in name) r = (deregister_in_handler name r).0
  register_one (drops_out name) r = (deregister_out_handler name r).0
  register_one (drops_owner owner) r = deregister_all_by_owner owner r
  register_one (drops_dispatch app) r = (deregister_dispatch_handler app r).0

  unfoldable pub register_all : List (Registration W P) → Router W P S → Router W P S
  unfolding register_one
  register_all [] r = r
  register_all (c ∷ l) r = register_all l (register_one c r)

  drop_in :
      (r : Router W P S) (l : Option (List (InHandlerEntry W P)))
      → Ordered r
      → Whole (IsSorted in_less) l
      → Ordered (
          (elim l as (λ _. Router W P S × Bool) [
            | none ↦ (r, false)
            | some l ↦ (record r { in_handlers = l }, true)
          ]).0)
  drop_in r none h k = h
  drop_in r (some l) h k = record {
    ins = k;
    outs = h.outs;
    handlers_once = h.handlers_once;
    owners_once = h.owners_once;
    agree = h.agree;
  }

  drop_out :
      (r : Router W P S) (l : Option (List (OutHandlerEntry W)))
      → Ordered r
      → Whole (IsSorted out_less) l
      → Ordered (
          (elim l as (λ _. Router W P S × Bool) [
            | none ↦ (r, false)
            | some l ↦ (record r { out_handlers = l }, true)
          ]).0)
  drop_out r none h k = h
  drop_out r (some l) h k = record {
    ins = h.ins;
    outs = k;
    handlers_once = h.handlers_once;
    owners_once = h.owners_once;
    agree = h.agree;
  }

  drop_dispatch :
      (app : ℕ) (r : Router W P S)
      → Ordered r
      → Ordered (record r {
        dispatch_handlers = delete ℕ_discrete app r.dispatch_handlers;
        dispatch_owner = delete ℕ_discrete app r.dispatch_owner;
      })
  drop_dispatch app r h = record {
    ins = h.ins;
    outs = h.outs;
    handlers_once = delete-IsDistinct ℕ_discrete app r.dispatch_handlers h.handlers_once;
    owners_once = delete-IsDistinct ℕ_discrete app r.dispatch_owner h.owners_once;
    agree = agree-delete app r.dispatch_handlers r.dispatch_owner h.agree;
  }

  deregister_dispatch_handler-Ordered :
      (app : ℕ) (r : Router W P S) → Ordered r → Ordered (deregister_dispatch_handler app r).0
  unfolding deregister_dispatch_handler
  deregister_dispatch_handler-Ordered app r h =
      option_both (λ (z : Router W P S × Bool). Ordered z.0)
        (lookup ℕ_discrete app r.dispatch_handlers) _ _ h (λ _. drop_dispatch app r h)

  register_one-Ordered :
      (c : Registration W P) (r : Router W P S) → Ordered r → Ordered (register_one c r)
  unfolding register_one register_in_handler_with_owner register_out_handler_with_owner
      register_post_route_handler_with_owner register_dispatch_handler_with_owner
      deregister_in_handler deregister_out_handler deregister_all_by_owner
  register_one-Ordered (adds_in name owner priority handler) r h = record {
    ins = sort_in _;
    outs = h.outs;
    handlers_once = h.handlers_once;
    owners_once = h.owners_once;
    agree = h.agree;
  }
  register_one-Ordered (adds_out name owner priority handler) r h = record {
    ins = h.ins;
    outs = sort_out _;
    handlers_once = h.handlers_once;
    owners_once = h.owners_once;
    agree = h.agree;
  }
  register_one-Ordered (adds_post name owner handler) r h = record {
    ins = h.ins;
    outs = h.outs;
    handlers_once = h.handlers_once;
    owners_once = h.owners_once;
    agree = h.agree;
  }
  register_one-Ordered (adds_dispatch app owner handler) r h = record {
    ins = h.ins;
    outs = h.outs;
    handlers_once = insert-IsDistinct ℕ_discrete app handler r.dispatch_handlers h.handlers_once;
    owners_once = insert-IsDistinct ℕ_discrete app owner r.dispatch_owner h.owners_once;
    agree = agree-insert app handler owner r.dispatch_handlers r.dispatch_owner h.agree;
  }
  register_one-Ordered (drops_in name) r h =
      drop_in r _ h (
        remove_named-IsSorted in_less (λ (x : InHandlerEntry W P). x.name) name r.in_handlers h.ins)
  register_one-Ordered (drops_out name) r h = drop_out r _ h (
      remove_named-IsSorted out_less (λ (x : OutHandlerEntry W). x.name) name r.out_handlers h.outs)
  register_one-Ordered (drops_owner owner) r h = record {
    ins = keep-IsSorted _ in_less r.in_handlers h.ins;
    outs = keep-IsSorted _ out_less r.out_handlers h.outs;
    handlers_once =
        delete_all-IsDistinct (owned owner r.dispatch_owner) r.dispatch_handlers h.handlers_once;
    owners_once =
        delete_all-IsDistinct (owned owner r.dispatch_owner) r.dispatch_owner h.owners_once;
    agree =
        agree-delete_all (owned owner r.dispatch_owner) r.dispatch_handlers r.dispatch_owner
          h.agree;
  }
  register_one-Ordered (drops_dispatch app) r h = deregister_dispatch_handler-Ordered app r h

  all-Ordered :
      (l : List (Registration W P)) (r : Router W P S) → Ordered r → Ordered (register_all l r)
  unfolding register_all
  all-Ordered [] r h = h
  all-Ordered (c ∷ l) r h = all-Ordered l (register_one c r) (register_one-Ordered c r h)

  -- Whatever handlers are registered with a new router and removed from it, in any order: the
  -- incoming and the outgoing handlers are in the order of their priorities, each application has at
  -- most one dispatch handler and one owner, and it has a handler just if it has an owner.
  pub register_all-Ordered :
      (l : List (Registration W P)) → Ordered (register_all l (new_router {W = W} {P = P} {S = S}))
  unfolding new_router IsSorted IsDistinct lookup
  register_all-Ordered l =
      all-Ordered l new_router
        (record { ins = tt; outs = tt; handlers_once = tt; owners_once = tt; agree = λ app. refl })
