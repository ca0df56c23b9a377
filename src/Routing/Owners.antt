-- ===== src/Routing/Owners.antt =====
-- Removing the handlers of one owner.
use godiam.Prelude.{
  ℕ, Bool, true, false, not, ◌||◌, ◌≡◌, refl, ap, ◌∙◌, List, [], ◌∷◌, Option, none, some, arith,
  if◌then◌else◌, ◌==◌, bytes_eq, keep, ℕ_discrete, All,
}
use mathlib.Core.List.{Memᴰ}
use godiam.Prelude.Sorting.{All_mem, All-intro, All-keep, mem-keep}
use godiam.Prelude.Assoc.{lookup, delete, lookup-delete}
use godiam.Prelude.Distinct.{IsDistinct, delete-IsDistinct}
use godiam.Routing.{Name, Router, InHandlerEntry, OutHandlerEntry, PostRouteHandlerEntry}
use godiam.Routing.Handlers.{owned, delete_all, deregister_all_by_owner}

abbrev pub has_app : List ℕ → ℕ → Bool
has_app [] app = false
has_app (a ∷ l) app = a == app || has_app l app

-- The application is registered by the owner.
abbrev pub is_owned : Name → Option Name → Bool
is_owned owner none = false
is_owned owner (some o) = bytes_eq o owner

pub lookup-delete_all :
    {V : Type 0} (l : List ℕ) (m : List (ℕ × V)) (app : ℕ)
    → lookup ℕ_discrete app (delete_all l m)
      ≡ (if has_app l app then none else lookup ℕ_discrete app m)
unfolding delete_all
lookup-delete_all [] m app = refl
lookup-delete_all (a ∷ l) m app =
    ground
      (arith, lookup-delete_all l (delete ℕ_discrete a m) app, lookup-delete ℕ_discrete a app m)

pub delete_all-IsDistinct :
    {V : Type 0} (l : List ℕ) (m : List (ℕ × V))
    → IsDistinct ℕ_discrete m
    → IsDistinct ℕ_discrete (delete_all l m)
unfolding delete_all
delete_all-IsDistinct [] m h = h
delete_all-IsDistinct (a ∷ l) m h =
    delete_all-IsDistinct l (delete ℕ_discrete a m) (delete-IsDistinct ℕ_discrete a m h)

has_app-owned :
    (owner : Name) (m : List (ℕ × Name)) (app : ℕ)
    → IsDistinct ℕ_discrete m
    → has_app (owned owner m) app ≡ is_owned owner (lookup ℕ_discrete app m)
unfolding owned IsDistinct lookup
has_app-owned owner [] app h = refl
has_app-owned owner ((a, o) ∷ m) app h = ground (arith, has_app-owned owner m app h.1)

-- The second list has no element of the owner, and every element of another one in the first.
unfoldable pub IsPurged : {A : Type 0} → (A → Name) → Name → List A → List A → Type 0
IsPurged {A} owner_of owner before after =
    All (λ h. bytes_eq (owner_of h) owner ≡ false) after
    × ((h : A) → Memᴰ h before → bytes_eq (owner_of h) owner ≡ false → Memᴰ h after)

keep-IsPurged :
    {A : Type 0} (owner_of : A → Name) (owner : Name) (l : List A)
    → IsPurged owner_of owner l (keep (λ h. not (bytes_eq (owner_of h) owner)) l)
unfolding IsPurged
keep-IsPurged {A} owner_of owner l = (
  All-intro (λ h. bytes_eq (owner_of h) owner ≡ false) others
      (λ h m. not_true _ (All_mem (λ h. is_other h ≡ true) others (All-keep is_other l) m)),
  λ h m e. mem-keep is_other l m (ap not e),
)
  where
    is_other : A → Bool
    is_other h = not (bytes_eq (owner_of h) owner)

    others : List A
    others = keep is_other l

    not_true : (b : Bool) → not b ≡ true → b ≡ false
    not_true b e = ground arith

module _ {W P S : Type 0} where
  -- After DeregisterAllByOwner, if the map of owners has distinct keys: no incoming, outgoing or
  -- post-route handler is the owner's, every handler of another owner is still there, and an
  -- application has the dispatch handler that it had, unless the owner had registered it.
  pub deregister_all_by_owner_lem :
      (owner : Name) (r : Router W P S)
      → IsDistinct ℕ_discrete r.dispatch_owner
      → IsPurged
          (λ (h : InHandlerEntry W P). h.owner)
          owner
          r.in_handlers
          (deregister_all_by_owner owner r).in_handlers
        × IsPurged
            (λ (h : OutHandlerEntry W). h.owner)
            owner
            r.out_handlers
            (deregister_all_by_owner owner r).out_handlers
        × IsPurged
            (λ (h : PostRouteHandlerEntry W). h.owner)
            owner
            r.post_route_handlers
            (deregister_all_by_owner owner r).post_route_handlers
        × ((app : ℕ)
            → lookup ℕ_discrete app (deregister_all_by_owner owner r).dispatch_handlers ≡ (
                if is_owned owner (lookup ℕ_discrete app r.dispatch_owner)
                then none
                else lookup ℕ_discrete app r.dispatch_handlers))
  unfolding deregister_all_by_owner
  deregister_all_by_owner_lem owner r d = (
    keep-IsPurged (λ (h : InHandlerEntry W P). h.owner) owner r.in_handlers,
    keep-IsPurged (λ (h : OutHandlerEntry W). h.owner) owner r.out_handlers,
    keep-IsPurged (λ (h : PostRouteHandlerEntry W). h.owner) owner r.post_route_handlers,
    λ app.
        lookup-delete_all (owned owner r.dispatch_owner) r.dispatch_handlers app
        ∙ ap (λ b. if b then none else lookup ℕ_discrete app r.dispatch_handlers)
            (has_app-owned owner r.dispatch_owner app d),
  )
