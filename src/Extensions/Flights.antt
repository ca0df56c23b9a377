-- ===== src/Extensions/Flights.antt =====
-- Calls of Enable and Disable that overlap in any way: an extension runs at most one of them.
use godiam.Prelude.{
  ℕ, suc, ◌≡◌, refl, sym, ap, subst, ◌∙◌, inl, inr, Bool, true, false, List, [], ◌∷◌, Option, none,
  some, ite, if_pos, if_neg, arith, if◌then◌else◌, Option-cases, Bool-cases, ◌⊎◌, ◌≢◌,
}
use godiam.Prelude.Assoc.{lookup-insert}
use godiam.Routing.{Name, Name-discrete}
use godiam.Extensions.{
  State, registered, initializing, active, stopping, stopped, error, ManagedExtension, Manager,
  is_active, is_busy, store, find, begin_enable, end_enable, begin_disable, end_disable,
}

-- A call that has let go of the lock: it holds the entry of its extension.
pub data Flight (C X : Type 0) : Type 0 where
  enabling : Name → C → Flight C X
  disabling : Name → Flight C X

abbrev pub flight_name : {C X : Type 0} → Flight C X → Name
flight_name (enabling n c) = n
flight_name (disabling n) = n

-- What may happen next: a call begins, or the first flight of a name comes back at some time.
pub data CallEvent (C : Type 0) : Type 0 where
  enables : Name → C → CallEvent C
  disables : Name → CallEvent C
  returns : Name → ℕ → Option Name → CallEvent C

abbrev pub is_initializing : State → Bool
is_initializing initializing = true
is_initializing _ = false

abbrev pub is_stopping : State → Bool
is_stopping stopping = true
is_stopping _ = false

abbrev pub same : Name → Name → Bool
same a b = ite (Name-discrete a b) true false

abbrev pub System : Type 0 → Type 0 → Type 0
System C X = Manager C X × List (Flight C X)

module _ {C X : Type 0} where
  -- The first flight of a name, and the others.
  unfoldable pub take_flight : Name → List (Flight C X) → Option (Flight C X) × List (Flight C X)
  take_flight n [] = (none, [])
  take_flight n (f ∷ l) =
      let rest = take_flight n l in
      if same (flight_name f) n then (some f, l) else (rest.0, f ∷ rest.1)

  unfoldable pub land : Flight C X → ℕ → Option Name → Manager C X → Manager C X
  unfolding end_enable end_disable
  land (enabling n cfg) now e m = elim (find n m) [
    | none ↦ m
    | some me ↦ end_enable now n cfg e me m
  ]
  land (disabling n) now e m = elim (find n m) [ none ↦ m | some me ↦ end_disable now n e me m ]

  unfoldable pub step : CallEvent C → System C X → System C X
  unfolding take_flight land begin_enable begin_disable
  step (enables n cfg) (m, fs) =
      let out = begin_enable n m in (out.0, elim out.1 [ none ↦ enabling n cfg ∷ fs | some e ↦ fs ])
  step (disables n) (m, fs) =
      let out = begin_disable n m in (out.0, elim out.1 [ none ↦ disabling n ∷ fs | some e ↦ fs ])
  step (returns n now e) (m, fs) =
      let taken = take_flight n fs in
      elim taken.0 [ none ↦ (m, fs) | some f ↦ (land f now e m, taken.1) ]

  unfoldable pub steps : List (CallEvent C) → System C X → System C X
  unfolding step
  steps [] s = s
  steps (e ∷ l) s = steps l (step e s)

  -- How many flights of each kind there are of a name.
  abbrev pub enablings : Name → List (Flight C X) → ℕ
  enablings n [] = 0
  enablings n (enabling j c ∷ l) = if same j n then suc (enablings n l) else enablings n l
  enablings n (disabling j ∷ l) = enablings n l

  abbrev pub disablings : Name → List (Flight C X) → ℕ
  disablings n [] = 0
  disablings n (disabling j ∷ l) = if same j n then suc (disablings n l) else disablings n l
  disablings n (enabling j c ∷ l) = disablings n l

  abbrev pub in_state : (State → Bool) → Option (ManagedExtension C X) → ℕ
  in_state p none = 0
  in_state p (some me) = if p me.state then 1 else 0

  -- An extension that is being initialized has one call of Enable in flight, one that is being
  -- stopped has one of Disable, and there are no others.
  pub record Exclusive (s : System C X) : Type 0 where
    pub enables_one : (n : Name) → enablings n s.1 ≡ in_state is_initializing (find n s.0)
    pub disables_one : (n : Name) → disablings n s.1 ≡ in_state is_stopping (find n s.0)

pub same_yes : (n : Name) → same n n ≡ true
same_yes n = if_pos (Name-discrete n n) refl _ _

pub same_no : (n j : Name) → n ≢ j → same n j ≡ false
same_no n j h = if_neg (Name-discrete n j) h _ _

not_busy : (s : State) → is_busy s ≡ false → (is_initializing s ≡ false) × (is_stopping s ≡ false)
not_busy registered h = (refl, refl)
not_busy initializing h = absurd (ground arith)
not_busy active h = (refl, refl)
not_busy stopping h = absurd (ground arith)
not_busy stopped h = (refl, refl)
not_busy error h = (refl, refl)

module _ {C X : Type 0} where
  -- One extension moves to another state, and its flights with it.
  pub moved-Exclusive :
      (n : Name) (me : ManagedExtension C X) (m m' : Manager C X) (fs fs' : List (Flight C X))
      → ((j : Name) → find j m' ≡ ite (Name-discrete n j) (some me) (find j m))
      → ((j : Name)
          → n ≢ j
          → (enablings j fs' ≡ enablings j fs) × (disablings j fs' ≡ disablings j fs))
      → enablings n fs' ≡ in_state is_initializing (some me)
      → disablings n fs' ≡ in_state is_stopping (some me)
      → Exclusive (m, fs)
      → Exclusive (m', fs')
  moved-Exclusive n me m m' fs fs' at others en dis h = record {
    enables_one = λ j. elim (Name-discrete n j) [
      | yes e ↦
          subst (λ j. enablings j fs' ≡ in_state is_initializing (find j m')) e
            (en ∙ ap (in_state is_initializing) (sym (at n ∙ if_pos (Name-discrete n n) refl _ _)))
      | no d ↦
          (others j d).0
          ∙ h.enables_one j
          ∙ ap (in_state is_initializing) (sym (at j ∙ if_neg (Name-discrete n j) d _ _))
    ];
    disables_one = λ j. elim (Name-discrete n j) [
      | yes e ↦
          subst (λ j. disablings j fs' ≡ in_state is_stopping (find j m')) e
            (dis ∙ ap (in_state is_stopping) (sym (at n ∙ if_pos (Name-discrete n n) refl _ _)))
      | no d ↦
          (others j d).1
          ∙ h.disables_one j
          ∙ ap (in_state is_stopping) (sym (at j ∙ if_neg (Name-discrete n j) d _ _))
    ];
  }

  -- `Enable` begins, on an extension that is neither active nor busy.
  pub enables_begun :
      (n : Name) (cfg : C) (m : Manager C X) (fs : List (Flight C X)) (me : ManagedExtension C X)
      → find n m ≡ some me
      → is_active me.state ≡ false
      → is_busy me.state ≡ false
      → step (enables n cfg) (m, fs)
        ≡ (store n (record me { state = initializing }) m, enabling n cfg ∷ fs)
  unfolding step
  enables_begun n cfg m fs me f a b = ground arith

  pub enables_refused :
      (n : Name) (cfg : C) (m : Manager C X) (fs : List (Flight C X)) (me : ManagedExtension C X)
      → find n m ≡ some me
      → (is_active me.state ≡ true) ⊎ (is_busy me.state ≡ true)
      → step (enables n cfg) (m, fs) ≡ (m, fs)
  unfolding step
  enables_refused n cfg m fs me f c = ground arith

  pub enables_unknown :
      (n : Name) (cfg : C) (m : Manager C X) (fs : List (Flight C X))
      → find n m ≡ none
      → step (enables n cfg) (m, fs) ≡ (m, fs)
  unfolding step
  enables_unknown n cfg m fs f = ground arith

  pub in_state-false :
      (p : State → Bool) (me : ManagedExtension C X) → p me.state ≡ false → in_state p (some me) ≡ 0
  in_state-false p me h = ap (λ b. if b then 1 else 0) h

  pub idle :
      (n : Name) (m : Manager C X) (fs : List (Flight C X)) (me : ManagedExtension C X)
      → find n m ≡ some me
      → is_busy me.state ≡ false
      → Exclusive (m, fs)
      → (enablings n fs ≡ 0) × (disablings n fs ≡ 0)
  idle n m fs me f b h = (
    h.enables_one n
        ∙ ap (in_state is_initializing) f
        ∙ in_state-false is_initializing me (not_busy me.state b).0,
    h.disables_one n
        ∙ ap (in_state is_stopping) f
        ∙ in_state-false is_stopping me (not_busy me.state b).1,
  )

  pub enables-Exclusive :
      (n : Name) (cfg : C) (m : Manager C X) (fs : List (Flight C X))
      → Exclusive (m, fs)
      → Exclusive (step (enables n cfg) (m, fs))
  enables-Exclusive n cfg m fs h = elim (Option-cases (find n m)) [
    | inl f ↦ subst Exclusive (sym (enables_unknown n cfg m fs f)) h
    | inr (me, f) ↦ elim (Bool-cases (is_active me.state)) [
      | inl a ↦ subst Exclusive (sym (enables_refused n cfg m fs me f (inl a))) h
      | inr a ↦ elim (Bool-cases (is_busy me.state)) [
        | inl b ↦ subst Exclusive (sym (enables_refused n cfg m fs me f (inr b))) h
        | inr b ↦
            let none_flies = idle n m fs me f b h in
            subst Exclusive (sym (enables_begun n cfg m fs me f a b)) (
              moved-Exclusive n (record me { state = initializing }) m _ fs (enabling n cfg ∷ fs)
                (λ j. lookup-insert Name-discrete n j _ m.extensions)
                (λ j d. (
                  ap (λ b. if b then suc (enablings j fs) else enablings j fs) (same_no n j d),
                  refl,
                ))
                (ap (λ b. if b then suc (enablings n fs) else enablings n fs) (same_yes n)
                  ∙ ap suc none_flies.0)
                none_flies.1 h)
      ]
    ]
  ]
