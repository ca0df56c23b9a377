-- ===== src/Routing/Handlers.antt =====
-- pkg/core/routing/router.go: the registration of handlers and its undoing.
use godiam.Prelude.{
  ℕ, Bool, true, false, not, List, [], ◌∷◌, ◌++◌, Option, none, some, if◌then◌else◌, bytes_eq, keep,
  ℕ_discrete,
}
use godiam.Prelude.Assoc.{lookup, insert, delete}
use godiam.Prelude.Ints.{ℤ, ltz}
use godiam.Prelude.Sorting.{sort}
use godiam.Message.{Message}
use godiam.Routing.{
  Name, Route, Error, InOutcome, OutOutcome, InHandlerEntry, OutHandlerEntry, PostRouteHandlerEntry,
  Router,
}

-- `len(filtered)` is built in place; removing the first of a name cuts the slice around it.
unfoldable pub remove_named {ℓ} : {A : Type ℓ} → (A → Name) → Name → List A → Option (List A)
remove_named name_of name [] = none
remove_named name_of name (h ∷ l) =
    let rest = remove_named name_of name l in
    if bytes_eq (name_of h) name
    then some l
    else elim rest [ none ↦ none | some l' ↦ some (h ∷ l') ]

-- `for appID, o := range r.dispatchOwner`: the applications of an owner.
unfoldable pub owned : Name → List (ℕ × Name) → List ℕ
owned owner [] = []
owned owner ((app, o) ∷ m) =
    let rest = owned owner m in if bytes_eq o owner then app ∷ rest else rest

unfoldable pub delete_all : {V : Type 0} → List ℕ → List (ℕ × V) → List (ℕ × V)
delete_all [] m = m
delete_all (app ∷ l) m = delete_all l (delete ℕ_discrete app m)

unfoldable pub in_less : {W P : Type 0} → InHandlerEntry W P → InHandlerEntry W P → Bool
in_less a b = ltz a.priority b.priority

unfoldable pub out_less : {W : Type 0} → OutHandlerEntry W → OutHandlerEntry W → Bool
out_less a b = ltz a.priority b.priority

module _ {W P S : Type 0} where
  unfoldable pub register_out_handler_with_owner :
      (name owner : Name) (priority : ℤ)
      (handler : W → Message → List Route → W × Message × OutOutcome)
      → Router W P S
      → Router W P S
  register_out_handler_with_owner name owner priority handler r = record r {
    out_handlers = sort out_less (
        r.out_handlers
        ++ record { priority = priority; name = name; owner = owner; handler = handler } ∷ []);
  }

  unfoldable pub register_out_handler :
      (name : Name) (priority : ℤ) (handler : W → Message → List Route → W × Message × OutOutcome)
      → Router W P S
      → Router W P S
  unfolding register_out_handler_with_owner
  register_out_handler name priority handler r =
      register_out_handler_with_owner name name priority handler r

  unfoldable pub register_in_handler_with_owner :
      (name owner : Name) (priority : ℤ)
      (handler : W → Option P → Message → List Route → W × Message × InOutcome)
      → Router W P S
      → Router W P S
  register_in_handler_with_owner name owner priority handler r = record r {
    in_handlers = sort in_less (
        r.in_handlers
        ++ record { priority = priority; name = name; owner = owner; handler = handler } ∷ []);
  }

  unfoldable pub register_in_handler :
      (name : Name) (priority : ℤ)
      (handler : W → Option P → Message → List Route → W × Message × InOutcome)
      → Router W P S
      → Router W P S
  unfolding register_in_handler_with_owner
  register_in_handler name priority handler r =
      register_in_handler_with_owner name name priority handler r

  unfoldable pub register_post_route_handler_with_owner :
      (name owner : Name) (handler : W → Message → Name → W × Message) → Router W P S → Router W P S
  register_post_route_handler_with_owner name owner handler r = record r {
    post_route_handlers =
        r.post_route_handlers ++ record { name = name; owner = owner; handler = handler } ∷ [];
  }

  unfoldable pub register_post_route_handler :
      (name : Name) (handler : W → Message → Name → W × Message) → Router W P S → Router W P S
  unfolding register_post_route_handler_with_owner
  register_post_route_handler name handler r =
      register_post_route_handler_with_owner name name handler r

  unfoldable pub register_dispatch_handler_with_owner :
      (app : ℕ) (owner : Name) (handler : W → Option P → Message → W × Message × Option Error)
      → Router W P S
      → Router W P S
  register_dispatch_handler_with_owner app owner handler r = record r {
    dispatch_handlers = insert ℕ_discrete app handler r.dispatch_handlers;
    dispatch_owner = insert ℕ_discrete app owner r.dispatch_owner;
  }

  unfoldable pub register_dispatch_handler :
      (app : ℕ) (handler : W → Option P → Message → W × Message × Option Error)
      → Router W P S
      → Router W P S
  unfolding register_dispatch_handler_with_owner
  register_dispatch_handler app handler r = register_dispatch_handler_with_owner app [] handler r

  unfoldable pub deregister_in_handler : Name → Router W P S → Router W P S × Bool
  unfolding remove_named
  deregister_in_handler name r =
      elim (remove_named (λ (h : InHandlerEntry W P). h.name) name r.in_handlers) [
        | none ↦ (r, false)
        | some l ↦ (record r { in_handlers = l }, true)
      ]

  unfoldable pub deregister_out_handler : Name → Router W P S → Router W P S × Bool
  unfolding remove_named
  deregister_out_handler name r =
      elim (remove_named (λ (h : OutHandlerEntry W). h.name) name r.out_handlers) [
        | none ↦ (r, false)
        | some l ↦ (record r { out_handlers = l }, true)
      ]

  unfoldable pub deregister_dispatch_handler : ℕ → Router W P S → Router W P S × Bool
  deregister_dispatch_handler app r = elim (lookup ℕ_discrete app r.dispatch_handlers) [
    | none ↦ (r, false)
    | some handler ↦ (
      record r {
        dispatch_handlers = delete ℕ_discrete app r.dispatch_handlers;
        dispatch_owner = delete ℕ_discrete app r.dispatch_owner;
      },
      true,
    )
  ]

  unfoldable pub deregister_all_by_owner : Name → Router W P S → Router W P S
  unfolding owned delete_all
  deregister_all_by_owner owner r = record r {
    in_handlers = keep (λ (h : InHandlerEntry W P). not (bytes_eq h.owner owner)) r.in_handlers;
    out_handlers = keep (λ (h : OutHandlerEntry W). not (bytes_eq h.owner owner)) r.out_handlers;
    post_route_handlers =
        keep (λ (h : PostRouteHandlerEntry W). not (bytes_eq h.owner owner)) r.post_route_handlers;
    dispatch_handlers = delete_all (owned owner r.dispatch_owner) r.dispatch_handlers;
    dispatch_owner = delete_all (owned owner r.dispatch_owner) r.dispatch_owner;
  }
