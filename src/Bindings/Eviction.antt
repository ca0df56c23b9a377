-- ===== src/Bindings/Eviction.antt =====
-- `evictOldest` removes a binding that no other one is older than.
use godiam.Prelude.{
  ℕ, suc, ◌≤◌, ◌≡◌, refl, sym, ap, subst, ◌∙◌, ◌⊎◌, inl, inr, List, [], ◌∷◌, none, some, ite,
  if_pos, if_neg, ltb, arith, Bool-cases, ◌≢◌, length,
}
use godiam.Prelude.Assoc.{lookup, delete, lookup-delete}
use godiam.Prelude.Distinct.{IsDistinct, delete-IsDistinct, length-delete_present}
use godiam.Bindings.{Key, Key-discrete, Binding, Store, oldest, evict_oldest, len}

some_inj : {A : Type 0} {a b : A} → some a ≡ some b → a ≡ b
some_inj h = cc

none_ne_some : {A : Type 0} {a : A} → none ≢ some a
none_ne_some h = absurd (ground arith)

-- The entry of a key, at the time that the loop notes.
abbrev Entry : Key → ℕ → List (Key × Binding) → Type 0
Entry k t m = (b : Binding) × (lookup Key-discrete k m ≡ some b) × (b.last_used ≡ t)

-- No binding was used before `t`.
unfoldable pub IsOldest : ℕ → List (Key × Binding) → Type 0
IsOldest t [] = Unit
IsOldest t ((k, b) ∷ m) = (t ≤ b.last_used) × IsOldest t m

IsOldest-lookup :
    (t : ℕ) (k : Key) (b : Binding) (m : List (Key × Binding))
    → IsOldest t m
    → lookup Key-discrete k m ≡ some b
    → t ≤ b.last_used
unfolding IsOldest lookup
IsOldest-lookup t k b [] h e = absurd (ground arith)
IsOldest-lookup t k b ((j, c) ∷ m) h e = elim (Key-discrete j k) [
  | yes q ↦
      (let same = some_inj (sym (if_pos (Key-discrete j k) q _ _) ∙ e) in
        subst (λ (x : Binding). t ≤ x.last_used) same h.0)
  | no n ↦ IsOldest-lookup t k b m h.1 (sym (if_neg (Key-discrete j k) n _ _) ∙ e)
]

Entry-first : (k : Key) (b : Binding) (m : List (Key × Binding)) → Entry k b.last_used ((k, b) ∷ m)
unfolding lookup
Entry-first k b m = (b, if_pos (Key-discrete k k) refl _ _, refl)

Entry-later :
    (k j : Key) (t : ℕ) (c : Binding) (m : List (Key × Binding))
    → lookup Key-discrete j m ≡ none
    → Entry k t m
    → Entry k t ((j, c) ∷ m)
unfolding lookup
Entry-later k j t c m n (b, e, q) = (
  b,
  if_neg (Key-discrete j k) (λ x. none_ne_some (sym n ∙ ap (λ y. lookup Key-discrete y m) x ∙ e)) _
        _
      ∙ e,
  q,
)

first_or_later :
    (r : Key × ℕ) (j : Key) (b : Binding) (m : List (Key × Binding))
    → lookup Key-discrete j m ≡ none
    → (r ≡ (j, b.last_used)) ⊎ Entry r.0 r.1 m
    → Entry r.0 r.1 ((j, b) ∷ m)
first_or_later r j b m n (inl e) =
    subst (λ (x : Key × ℕ). Entry x.0 x.1 ((j, b) ∷ m)) (sym e) (Entry-first j b m)
first_or_later r j b m n (inr h) = Entry-later r.0 j r.1 b m n h

later :
    (r : Key × ℕ) (k : Key) (t : ℕ) (j : Key) (b : Binding) (m : List (Key × Binding))
    → lookup Key-discrete j m ≡ none
    → (r ≡ (k, t)) ⊎ Entry r.0 r.1 m
    → (r ≡ (k, t)) ⊎ Entry r.0 r.1 ((j, b) ∷ m)
later r k t j b m n (inl e) = inl e
later r k t j b m n (inr h) = inr (Entry-later r.0 j r.1 b m n h)

-- Where the loop ends, from the oldest entry so far.
oldest-some :
    (k : Key) (t : ℕ) (m : List (Key × Binding))
    → IsDistinct Key-discrete m
    → (r : Key × ℕ) × (oldest (some (k, t)) m ≡ some r)
      × (r.1 ≤ t)
      × IsOldest r.1 m
      × ((r ≡ (k, t)) ⊎ Entry r.0 r.1 m)
unfolding oldest IsOldest IsDistinct
oldest-some k t [] d = ((k, t), refl, omega arith, tt, inl refl)
oldest-some k t ((j, b) ∷ m) d = elim (Bool-cases (ltb b.last_used t)) [
  | inl e ↦
      (let (r, q, le, all, at) = oldest-some j b.last_used m d.1 in
        (r, rw e q, ground arith, (le, all), inr (first_or_later r j b m d.0 at)))
  | inr e ↦
      (let (r, q, le, all, at) = oldest-some k t m d.1 in
        (r, rw e q, le, (ground arith, all), later r k t j b m d.0 at))
]

oldest-none :
    (m : List (Key × Binding))
    → IsDistinct Key-discrete m
    → 1 ≤ length m
    → (r : Key × ℕ) × (oldest none m ≡ some r) × IsOldest r.1 m × Entry r.0 r.1 m
unfolding oldest IsOldest IsDistinct
oldest-none [] d h = absurd (omega arith)
oldest-none ((k, b) ∷ m) d h =
    let (r, q, le, all, at) = oldest-some k b.last_used m d.1 in
    (r, q, (le, all), first_or_later r k b m d.0 at)

evicted :
    (s : Store) (r : Key × ℕ)
    → oldest none s.bindings ≡ some r
    → (evict_oldest s).bindings ≡ delete Key-discrete r.0 s.bindings
unfolding evict_oldest
evicted s r q = ground arith

-- If keys are distinct and there is a binding, `evictOldest` removes the binding of one key, no
-- other binding was used before it, and every other key is bound as before.
pub evict_oldest_lem :
    (s : Store)
    → IsDistinct Key-discrete s.bindings
    → 1 ≤ len s
    → (key : Key) × (b : Binding) × (lookup Key-discrete key s.bindings ≡ some b)
      × ((j : Key) (c : Binding)
          → lookup Key-discrete j s.bindings ≡ some c
          → b.last_used ≤ c.last_used)
      × ((j : Key)
          → lookup Key-discrete j (evict_oldest s).bindings
            ≡ ite (Key-discrete key j) none (lookup Key-discrete j s.bindings))
      × (suc (len (evict_oldest s)) ≤ len s)
unfolding len
evict_oldest_lem s d h =
    let (r, q, all, (b, e, t)) = oldest-none s.bindings d h in
    let kept = evicted s r q in
    (
      r.0,
      b,
      e,
      (λ j c f. subst (λ x. x ≤ c.last_used) (sym t) (IsOldest-lookup r.1 j c s.bindings all f)),
      (λ j. ap (lookup Key-discrete j) kept ∙ lookup-delete Key-discrete r.0 j s.bindings),
      subst (λ m. suc (length m) ≤ length s.bindings) (sym kept)
          (length-delete_present Key-discrete r.0 b s.bindings e),
    )

pub evict_oldest-IsDistinct :
    (s : Store)
    → IsDistinct Key-discrete s.bindings
    → 1 ≤ len s
    → IsDistinct Key-discrete (evict_oldest s).bindings
unfolding len
evict_oldest-IsDistinct s d h =
    let (r, q, all, at) = oldest-none s.bindings d h in
    subst (IsDistinct Key-discrete) (sym (evicted s r q))
      (delete-IsDistinct Key-discrete r.0 s.bindings d)
