-- ===== src/Prelude/Distinct.antt =====
-- Association lists in which each key stands once, as in a Go map.
use Prim.Native.Nat.{suc, ◌≤◌}
use mathlib.Core.Path.{◌≡◌, refl, sym, ap, subst, ◌∙◌}
use mathlib.Core.Logic.{ite, if_neg}
use mathlib.Core.Bool.{Bool}
use mathlib.Core.Option.{Option, none, some}
use mathlib.Core.List.{List, [], ◌∷◌}
use native.Mathlib.Omega.{arith}
use godiam.Prelude.Tests.{if◌then◌else◌, if_both}
use godiam.Prelude.Lists.{length}
use godiam.Prelude.Assoc.{lookup, insert, delete, lookup-insert, lookup-delete}

-- The value found, unless it is to go.
abbrev pub unless {ℓ} : {V : Type ℓ} → (V → Bool) → Option V → Option V
unless gone none = none
unless gone (some v) = if gone v then none else some v

-- `for k, v := range m { if gone(v) { delete(m, k) } }`
unfoldable pub delete_where {ℓ} : {K V : Type ℓ} → (V → Bool) → List (K × V) → List (K × V)
delete_where gone [] = []
delete_where gone ((k, v) ∷ m) =
    let rest = delete_where gone m in if gone v then rest else (k, v) ∷ rest

-- A property of both branches of a decision.
ite_both {ℓ κ} :
    {X : Type ℓ} {Q : Type κ} (C : X → Type ℓ) (d : Dec Q) (x y : X)
    → (Q → C x)
    → (¬ Q → C y)
    → C (ite d x y)
ite_both C (yes q) x y f g = f q
ite_both C (no n) x y f g = g n

module _ {ℓ} {K V : Type ℓ} (dec : Discrete K) where
  unfoldable pub IsDistinct : List (K × V) → Type ℓ
  IsDistinct [] = Unit
  IsDistinct ((k, v) ∷ m) = (lookup dec k m ≡ none) × IsDistinct m

  pub insert-IsDistinct :
      (k : K) (v : V) (m : List (K × V)) → IsDistinct m → IsDistinct (insert dec k v m)
  unfolding IsDistinct insert lookup
  insert-IsDistinct k v [] h = (refl, tt)
  insert-IsDistinct k v ((j, w) ∷ m) h =
      ite_both IsDistinct (dec j k) _ _ (λ e. (subst (λ x. lookup dec x m ≡ none) e h.0, h.1))
        (λ n. (
          lookup-insert dec k j v m ∙ if_neg (dec k j) (λ e. n (sym e)) _ _ ∙ h.0,
          insert-IsDistinct k v m h.1,
        ))

  pub delete-IsDistinct : (k : K) (m : List (K × V)) → IsDistinct m → IsDistinct (delete dec k m)
  unfolding IsDistinct delete
  delete-IsDistinct k [] h = tt
  delete-IsDistinct k ((j, v) ∷ m) h =
      ite_both IsDistinct (dec j k) _ _ (λ e. delete-IsDistinct k m h.1)
        (λ n. (
          lookup-delete dec k j m ∙ if_neg (dec k j) (λ e. n (sym e)) _ _ ∙ h.0,
          delete-IsDistinct k m h.1,
        ))

  pub lookup-delete_where :
      (gone : V → Bool) (k : K) (m : List (K × V))
      → IsDistinct m
      → lookup dec k (delete_where gone m) ≡ unless gone (lookup dec k m)
  unfolding IsDistinct lookup delete_where
  lookup-delete_where gone k [] h = refl
  lookup-delete_where gone k ((j, v) ∷ m) h =
      ground (arith, lookup-delete_where gone k m h.1, lookup-delete_where gone j m h.1)

  pub delete_where-IsDistinct :
      (gone : V → Bool) (m : List (K × V)) → IsDistinct m → IsDistinct (delete_where gone m)
  unfolding IsDistinct delete_where
  delete_where-IsDistinct gone [] h = tt
  delete_where-IsDistinct gone ((j, v) ∷ m) h =
      if_both IsDistinct (gone v) _ _ (delete_where-IsDistinct gone m h.1) (
        lookup-delete_where gone j m h.1 ∙ ap (unless gone) h.0,
        delete_where-IsDistinct gone m h.1,
      )

  pub length-insert_new :
      (k : K) (v : V) (m : List (K × V))
      → lookup dec k m ≡ none
      → length (insert dec k v m) ≡ suc (length m)
  unfolding lookup insert
  length-insert_new k v [] h = refl
  length-insert_new k v ((j, w) ∷ m) h = ground (arith, length-insert_new k v m)

  pub length-insert_old :
      (k : K) (v w : V) (m : List (K × V))
      → lookup dec k m ≡ some w
      → length (insert dec k v m) ≡ length m
  unfolding lookup insert
  length-insert_old k v w [] h = absurd (ground arith)
  length-insert_old k v w ((j, u) ∷ m) h = ground (arith, length-insert_old k v w m)

  pub length-delete_le : (k : K) (m : List (K × V)) → length (delete dec k m) ≤ length m
  unfolding delete
  length-delete_le k [] = omega arith
  length-delete_le k ((j, v) ∷ m) = ground (arith, length-delete_le k m)

  pub length-delete_present :
      (k : K) (w : V) (m : List (K × V))
      → lookup dec k m ≡ some w
      → suc (length (delete dec k m)) ≤ length m
  unfolding lookup delete
  length-delete_present k w [] h = absurd (ground arith)
  length-delete_present k w ((j, v) ∷ m) h =
      ground (arith, length-delete_present k w m, length-delete_le k m)

pub length-delete_where_le {ℓ} :
    {K V : Type ℓ} (gone : V → Bool) (m : List (K × V)) → length (delete_where gone m) ≤ length m
unfolding delete_where
length-delete_where_le gone [] = omega arith
length-delete_where_le gone ((j, v) ∷ m) = ground (arith, length-delete_where_le gone m)

module _ {ℓ} {K V : Type ℓ} (dec : Discrete K) where
  pub length-insert_le :
      (k : K) (v : V) (m : List (K × V)) → length (insert dec k v m) ≤ suc (length m)
  unfolding insert
  length-insert_le k v [] = omega arith
  length-insert_le k v ((j, w) ∷ m) = ground (arith, length-insert_le k v m)

  -- What is stored and deleted again leaves no more than there was.
  pub length-delete-insert_le :
      (k : K) (v : V) (m : List (K × V)) → length (delete dec k (insert dec k v m)) ≤ length m
  unfolding insert delete
  length-delete-insert_le k v [] = ground arith
  length-delete-insert_le k v ((j, w) ∷ m) =
      ground (arith, length-delete-insert_le k v m, length-delete_le dec k m)
