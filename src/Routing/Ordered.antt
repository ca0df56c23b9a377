-- ===== src/Routing/Ordered.antt =====
-- What registration and removal do to the order of handlers and to the two maps of applications.
use godiam.Prelude.{
  ℕ, Bool, true, false, ◌≡◌, List, [], ◌∷◌, Option, none, some, arith, bytes_eq, ℕ_discrete, All,
  if_both,
}
use godiam.Prelude.Ints.{ltz_asym, ltz_trans}
use godiam.Prelude.Assoc.{lookup, insert, delete, lookup-insert, lookup-delete}
use godiam.Prelude.Distinct.{IsDistinct}
use godiam.Prelude.Sorting.{IsSorted, sort, sort-IsSorted}
use godiam.Routing.{Name, InHandlerEntry, OutHandlerEntry, Router}
use godiam.Routing.Handlers.{in_less, out_less, remove_named, delete_all}

abbrev pub is_present : {A : Type 0} → Option A → Bool
is_present none = false
is_present (some a) = true

-- The handlers are in the order of their priorities, and the applications with a handler are those
-- with an owner.
pub record Ordered {W P S : Type 0} (r : Router W P S) : Type 0 where
  pub ins : IsSorted in_less r.in_handlers
  pub outs : IsSorted out_less r.out_handlers
  pub handlers_once : IsDistinct ℕ_discrete r.dispatch_handlers
  pub owners_once : IsDistinct ℕ_discrete r.dispatch_owner
  pub agree :
      (app : ℕ)
      → is_present (lookup ℕ_discrete app r.dispatch_handlers)
        ≡ is_present (lookup ℕ_discrete app r.dispatch_owner)

-- A property of the list, if there is one.
abbrev pub Whole : {A : Type 0} → (List A → Type 0) → Option (List A) → Type 0
Whole C none = Unit
Whole C (some l) = C l

Whole-cons :
    {A : Type 0} (C D : List A → Type 0) (x : A) (rest : Option (List A))
    → Whole C rest
    → ((l : List A) → C l → D (x ∷ l))
    → Whole D (elim rest [ none ↦ none | some l ↦ some (x ∷ l) ])
Whole-cons C D x none h f = tt
Whole-cons C D x (some l) h f = f l h

All-remove_named :
    {A : Type 0} (P : A → Type 0) (name_of : A → Name) (name : Name) (l : List A)
    → All P l
    → Whole (All P) (remove_named name_of name l)
unfolding remove_named
All-remove_named P name_of name [] h = tt
All-remove_named P name_of name (x ∷ l) h =
    if_both (Whole (All P)) (bytes_eq (name_of x) name) _ _ h.1 (
      Whole-cons (All P) (All P) x (remove_named name_of name l)
        (All-remove_named P name_of name l h.1) (λ l' k. (h.0, k)))

pub remove_named-IsSorted :
    {A : Type 0} (less : A → A → Bool) (name_of : A → Name) (name : Name) (l : List A)
    → IsSorted less l
    → Whole (IsSorted less) (remove_named name_of name l)
unfolding remove_named IsSorted
remove_named-IsSorted less name_of name [] h = tt
remove_named-IsSorted less name_of name (x ∷ l) h =
    if_both (Whole (IsSorted less)) (bytes_eq (name_of x) name) _ _ h.1 (
      both (remove_named name_of name l)
        (All-remove_named (λ y. less y x ≡ false) name_of name l h.0)
        (remove_named-IsSorted less name_of name l h.1))
  where
    both :
        (rest : Option (List _))
        → Whole (All (λ y. less y x ≡ false)) rest
        → Whole (IsSorted less) rest
        → Whole (IsSorted less) (elim rest [ none ↦ none | some l ↦ some (x ∷ l) ])
    both none p q = tt
    both (some l) p q = (p, q)

pub sort_in : {W P : Type 0} (l : List (InHandlerEntry W P)) → IsSorted in_less (sort in_less l)
unfolding in_less
sort_in l =
    sort-IsSorted in_less (λ a b. ltz_asym a.priority b.priority)
      (λ a b c. ltz_trans a.priority b.priority c.priority) l

pub sort_out : {W : Type 0} (l : List (OutHandlerEntry W)) → IsSorted out_less (sort out_less l)
unfolding out_less
sort_out l =
    sort-IsSorted out_less (λ a b. ltz_asym a.priority b.priority)
      (λ a b c. ltz_trans a.priority b.priority c.priority) l

pub agree-insert :
    {V : Type 0} (app : ℕ) (v : V) (o : Name) (m : List (ℕ × V)) (n : List (ℕ × Name))
    → ((a : ℕ) → is_present (lookup ℕ_discrete a m) ≡ is_present (lookup ℕ_discrete a n))
    → (a : ℕ)
    → is_present (lookup ℕ_discrete a (insert ℕ_discrete app v m))
      ≡ is_present (lookup ℕ_discrete a (insert ℕ_discrete app o n))
agree-insert app v o m n h a =
    ground (arith, h a, lookup-insert ℕ_discrete app a v m, lookup-insert ℕ_discrete app a o n)

pub agree-delete :
    {V : Type 0} (app : ℕ) (m : List (ℕ × V)) (n : List (ℕ × Name))
    → ((a : ℕ) → is_present (lookup ℕ_discrete a m) ≡ is_present (lookup ℕ_discrete a n))
    → (a : ℕ)
    → is_present (lookup ℕ_discrete a (delete ℕ_discrete app m))
      ≡ is_present (lookup ℕ_discrete a (delete ℕ_discrete app n))
agree-delete app m n h a =
    ground (arith, h a, lookup-delete ℕ_discrete app a m, lookup-delete ℕ_discrete app a n)

pub agree-delete_all :
    {V : Type 0} (l : List ℕ) (m : List (ℕ × V)) (n : List (ℕ × Name))
    → ((a : ℕ) → is_present (lookup ℕ_discrete a m) ≡ is_present (lookup ℕ_discrete a n))
    → (a : ℕ)
    → is_present (lookup ℕ_discrete a (delete_all l m))
      ≡ is_present (lookup ℕ_discrete a (delete_all l n))
unfolding delete_all
agree-delete_all [] m n h a = h a
agree-delete_all (app ∷ l) m n h a =
    agree-delete_all l (delete ℕ_discrete app m) (delete ℕ_discrete app n) (agree-delete app m n h)
      a
