-- ===== src/Extensions/Returns.antt =====
-- What a call that comes back does to the flights.
use godiam.Prelude.{
  ℕ, suc, ◌≡◌, refl, sym, ap, subst, ◌∙◌, inl, inr, Bool, true, false, List, [], ◌∷◌, Option, none,
  some, arith, if◌then◌else◌, Option-cases, Bool-cases, ◌⊎◌, elim_some, elim_none,
}
use godiam.Prelude.Assoc.{lookup-insert}
use godiam.Routing.{Name, Name-discrete}
use godiam.Extensions.{
  State, registered, initializing, active, stopping, stopped, error, ManagedExtension, Manager,
  is_active, is_busy, store, find,
}
use godiam.Extensions.Flights.{
  Flight, enabling, disabling, flight_name, disables, returns, same, take_flight, land, step,
  enablings, disablings, Exclusive, same_yes, same_no, moved-Exclusive, idle,
}

same_sound : (a b : Name) → same a b ≡ true → a ≡ b
same_sound a b h = elim (Name-discrete a b) [ yes e ↦ e | no n ↦ absurd (clash h (same_no a b n)) ]
  where
    clash : {x : Bool} → x ≡ true → x ≡ false → ⊥
    clash p q = cc

active_idle : (s : State) → is_active s ≡ true → is_busy s ≡ false
active_idle registered h = absurd (ground arith)
active_idle initializing h = absurd (ground arith)
active_idle active h = refl
active_idle stopping h = absurd (ground arith)
active_idle stopped h = absurd (ground arith)
active_idle error h = absurd (ground arith)

module _ {C X : Type 0} where
  pub disables_begun :
      (n : Name) (m : Manager C X) (fs : List (Flight C X)) (me : ManagedExtension C X)
      (stop : X → X × Option Name)
      → find n m ≡ some me
      → is_active me.state ≡ true
      → me.extension.stop ≡ some stop
      → step (disables n) (m, fs) ≡ (store n (record me { state = stopping }) m, disabling n ∷ fs)
  unfolding step
  disables_begun n m fs me stop f a s = ground arith

  pub disables_refused :
      (n : Name) (m : Manager C X) (fs : List (Flight C X)) (me : ManagedExtension C X)
      → find n m ≡ some me
      → (is_active me.state ≡ false) ⊎ (me.extension.stop ≡ none)
      → step (disables n) (m, fs) ≡ (m, fs)
  unfolding step
  disables_refused n m fs me f c = ground arith

  pub disables_unknown :
      (n : Name) (m : Manager C X) (fs : List (Flight C X))
      → find n m ≡ none
      → step {C = C} (disables n) (m, fs) ≡ (m, fs)
  unfolding step
  disables_unknown n m fs f = ground arith

  pub disables-Exclusive :
      (n : Name) (m : Manager C X) (fs : List (Flight C X))
      → Exclusive (m, fs)
      → Exclusive (step (disables n) (m, fs))
  disables-Exclusive n m fs h = elim (Option-cases (find n m)) [
    | inl f ↦ subst Exclusive (sym (disables_unknown n m fs f)) h
    | inr (me, f) ↦ elim (Bool-cases (is_active me.state)) [
      | inr a ↦ subst Exclusive (sym (disables_refused n m fs me f (inl a))) h
      | inl a ↦ elim (Option-cases me.extension.stop) [
        | inl s ↦ subst Exclusive (sym (disables_refused n m fs me f (inr s))) h
        | inr (stop, s) ↦
            let none_flies = idle n m fs me f (active_idle me.state a) h in
            subst Exclusive (sym (disables_begun n m fs me stop f a s)) (
              moved-Exclusive n (record me { state = stopping }) m _ fs (disabling n ∷ fs)
                (λ j. lookup-insert Name-discrete n j _ m.extensions)
                (λ j d. (
                  refl,
                  ap (λ b. if b then suc (disablings j fs) else disablings j fs) (same_no n j d),
                ))
                none_flies.0
                (ap (λ b. if b then suc (disablings n fs) else disablings n fs) (same_yes n)
                  ∙ ap suc none_flies.1)
                h)
      ]
    ]
  ]

  take_same :
      (n : Name) (f : Flight C X) (l : List (Flight C X))
      → same (flight_name f) n ≡ true
      → take_flight n (f ∷ l) ≡ (some f, l)
  unfolding take_flight
  take_same n f l e =
      ap (λ b. if b then (some f, l) else ((take_flight n l).0, f ∷ (take_flight n l).1)) e

  take_other :
      (n : Name) (f : Flight C X) (l : List (Flight C X))
      → same (flight_name f) n ≡ false
      → take_flight n (f ∷ l) ≡ ((take_flight n l).0, f ∷ (take_flight n l).1)
  unfolding take_flight
  take_other n f l e =
      ap (λ b. if b then (some f, l) else ((take_flight n l).0, f ∷ (take_flight n l).1)) e

  -- Counts that are one for some flights; `enablings` and `disablings` are two.
  abbrev IsCount : (Name → List (Flight C X) → ℕ) → Type 0
  IsCount k =
      ((j : Name) (f : Flight C X) (l l' : List (Flight C X))
        → k j l ≡ k j l'
        → k j (f ∷ l) ≡ k j (f ∷ l'))
      × ((j : Name) (f g : Flight C X) (l : List (Flight C X)) → k j (f ∷ g ∷ l) ≡ k j (g ∷ f ∷ l))

  enablings_cong :
      (j : Name) (f : Flight C X) (l l' : List (Flight C X))
      → enablings j l ≡ enablings j l'
      → enablings j (f ∷ l) ≡ enablings j (f ∷ l')
  enablings_cong j (enabling k c) l l' h = ap (λ x. if same k j then suc x else x) h
  enablings_cong j (disabling k) l l' h = h

  enablings_swap :
      (j : Name) (f g : Flight C X) (l : List (Flight C X))
      → enablings j (f ∷ g ∷ l) ≡ enablings j (g ∷ f ∷ l)
  enablings_swap j (enabling a c) (enabling b d) l = ground arith
  enablings_swap j (enabling a c) (disabling b) l = refl
  enablings_swap j (disabling a) (enabling b c) l = refl
  enablings_swap j (disabling a) (disabling b) l = refl

  pub enablings-IsCount : IsCount enablings
  enablings-IsCount = (enablings_cong, enablings_swap)

  disablings_cong :
      (j : Name) (f : Flight C X) (l l' : List (Flight C X))
      → disablings j l ≡ disablings j l'
      → disablings j (f ∷ l) ≡ disablings j (f ∷ l')
  disablings_cong j (disabling k) l l' h = ap (λ x. if same k j then suc x else x) h
  disablings_cong j (enabling k c) l l' h = h

  disablings_swap :
      (j : Name) (f g : Flight C X) (l : List (Flight C X))
      → disablings j (f ∷ g ∷ l) ≡ disablings j (g ∷ f ∷ l)
  disablings_swap j (disabling a) (disabling b) l = ground arith
  disablings_swap j (disabling a) (enabling b c) l = refl
  disablings_swap j (enabling a c) (disabling b) l = refl
  disablings_swap j (enabling a c) (enabling b d) l = refl

  pub disablings-IsCount : IsCount disablings
  disablings-IsCount = (disablings_cong, disablings_swap)

  -- The first flight of a name and the others are the flights.
  pub take_cases :
      (n : Name) (fs : List (Flight C X))
      → ((take_flight n fs).0 ≡ none)
        ⊎ ((f : Flight C X) × ((take_flight n fs).0 ≡ some f)
            × (flight_name f ≡ n)
            × ((k : Name → List (Flight C X) → ℕ)
                → IsCount k
                → (j : Name) → k j fs ≡ k j (f ∷ (take_flight n fs).1)))
  unfolding take_flight
  take_cases n [] = inl refl
  take_cases n (g ∷ l) = elim (Bool-cases (same (flight_name g) n)) [
    | inl e ↦
        let t = take_same n g l e in
        inr (
          g,
          ap (λ x. x.0) t,
          same_sound (flight_name g) n e,
          λ k c j. ap (λ x. k j (g ∷ x.1)) (sym t),
        )
    | inr e ↦
        let t = take_other n g l e in
        elim (take_cases n l) [
          | inl q ↦ inl (ap (λ x. x.0) t ∙ q)
          | inr q ↦ inr (
            q.0,
            ap (λ x. x.0) t ∙ q.1,
            q.2,
            λ k c j.
                c.0 j g l (q.0 ∷ (take_flight n l).1) (q.3 k c j)
                ∙ c.1 j g q.0 (take_flight n l).1
                ∙ ap (λ x. k j (q.0 ∷ x.1)) (sym t),
          )
        ]
  ]

  pub returns_nothing :
      (n : Name) (now : ℕ) (e : Option Name) (m : Manager C X) (fs : List (Flight C X))
      → (take_flight n fs).0 ≡ none
      → step (returns n now e) (m, fs) ≡ (m, fs)
  unfolding step
  returns_nothing n now e m fs h = elim_none _ _ h

  pub returns_flight :
      (n : Name) (now : ℕ) (e : Option Name) (m : Manager C X) (fs : List (Flight C X))
      (f : Flight C X)
      → (take_flight n fs).0 ≡ some f
      → step (returns n now e) (m, fs) ≡ (land f now e m, (take_flight n fs).1)
  unfolding step
  returns_flight n now e m fs f h = elim_some _ _ h
