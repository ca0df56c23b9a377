-- ===== src/Extensions/Landing.antt =====
-- Whatever calls overlap, an extension is in at most one of them.
use godiam.Prelude.{
  ℕ, suc, ◌≡◌, refl, sym, ap, subst, ◌∙◌, inl, inr, Bool, true, false, List, [], ◌∷◌, Option, none,
  some, if_pos, if_neg, arith, if◌then◌else◌, Option-cases, ◌≢◌, elim_some,
}
use godiam.Prelude.Assoc.{lookup, lookup-insert}
use godiam.Routing.{Name, Name-discrete}
use godiam.Extensions.{
  State, registered, initializing, active, stopping, stopped, error, Extension, ManagedExtension,
  Manager, find, end_enable, end_disable, new_manager, load_from_registry, add_extension, managed,
  store,
}
use godiam.Extensions.Flights.{
  Flight, enabling, disabling, CallEvent, enables, disables, returns, is_initializing, is_stopping,
  take_flight, land, step, steps, enablings, disablings, in_state, Exclusive, same_yes, same_no,
  moved-Exclusive, in_state-false, enables-Exclusive,
}
use godiam.Extensions.Returns.{
  disables-Exclusive, take_cases, enablings-IsCount, disablings-IsCount, returns_nothing,
  returns_flight,
}

initializing_only :
    (s : State) (k : ℕ)
    → suc k ≡ (if is_initializing s then 1 else 0)
    → (k ≡ 0) × (is_stopping s ≡ false) × (is_initializing s ≡ true)
initializing_only registered k h = absurd (omega arith)
initializing_only initializing k h = (omega arith, refl, refl)
initializing_only active k h = absurd (omega arith)
initializing_only stopping k h = absurd (omega arith)
initializing_only stopped k h = absurd (omega arith)
initializing_only error k h = absurd (omega arith)

stopping_only :
    (s : State) (k : ℕ)
    → suc k ≡ (if is_stopping s then 1 else 0)
    → (k ≡ 0) × (is_initializing s ≡ false) × (is_stopping s ≡ true)
stopping_only registered k h = absurd (omega arith)
stopping_only initializing k h = absurd (omega arith)
stopping_only active k h = absurd (omega arith)
stopping_only stopping k h = (omega arith, refl, refl)
stopping_only stopped k h = absurd (omega arith)
stopping_only error k h = absurd (omega arith)

zero_ne_suc : {k : ℕ} → ¬ (suc k ≡ 0)
zero_ne_suc e = omega arith

module _ {C X : Type 0} where
  -- Before it comes back, a call of Enable is the only one of its extension.
  pub alone_enabling :
      (n : Name) (cfg : C) (m : Manager C X) (rest : List (Flight C X))
      → Exclusive (m, enabling n cfg ∷ rest)
      → (me : ManagedExtension C X) × (find n m ≡ some me)
        × (enablings n rest ≡ 0)
        × (disablings n rest ≡ 0)
        × (is_initializing me.state ≡ true)
  alone_enabling n cfg m rest h = elim (Option-cases (find n m)) [
    | inl f ↦ absurd (zero_ne_suc (count ∙ ap (in_state is_initializing) f))
    | inr (me, f) ↦
        let only =
          initializing_only me.state (enablings n rest) (count ∙ ap (in_state is_initializing) f) in
        (
          me,
          f,
          only.0,
          h.disables_one n ∙ ap (in_state is_stopping) f ∙ in_state-false is_stopping me only.1,
          only.2,
        )
  ]
    where
      count : suc (enablings n rest) ≡ in_state is_initializing (find n m)
      count =
          sym (ap (λ b. if b then suc (enablings n rest) else enablings n rest) (same_yes n))
          ∙ h.enables_one n

  pub alone_disabling :
      (n : Name) (m : Manager C X) (rest : List (Flight C X))
      → Exclusive (m, disabling n ∷ rest)
      → (me : ManagedExtension C X) × (find n m ≡ some me)
        × (enablings n rest ≡ 0)
        × (disablings n rest ≡ 0)
        × (is_stopping me.state ≡ true)
  alone_disabling n m rest h = elim (Option-cases (find n m)) [
    | inl f ↦ absurd (zero_ne_suc (count ∙ ap (in_state is_stopping) f))
    | inr (me, f) ↦
        let only =
          stopping_only me.state (disablings n rest) (count ∙ ap (in_state is_stopping) f) in
        (
          me,
          f,
          h.enables_one n
              ∙ ap (in_state is_initializing) f
              ∙ in_state-false is_initializing me only.1,
          only.0,
          only.2,
        )
  ]
    where
      count : suc (disablings n rest) ≡ in_state is_stopping (find n m)
      count =
          sym (ap (λ b. if b then suc (disablings n rest) else disablings n rest) (same_yes n))
          ∙ h.disables_one n

  other_enablings :
      (n j : Name) (cfg : C) (rest : List (Flight C X))
      → n ≢ j
      → enablings j rest ≡ enablings j (enabling n cfg ∷ rest)
  other_enablings n j cfg rest d =
      sym (ap (λ b. if b then suc (enablings j rest) else enablings j rest) (same_no n j d))

  other_disablings :
      (n j : Name) (rest : List (Flight C X))
      → n ≢ j
      → disablings j rest ≡ disablings j (disabling n ∷ rest)
  other_disablings n j rest d =
      sym (ap (λ b. if b then suc (disablings j rest) else disablings j rest) (same_no n j d))

  end_enable-Exclusive :
      (n : Name) (now : ℕ) (cfg : C) (e : Option Name) (me : ManagedExtension C X) (m : Manager C X)
      (rest : List (Flight C X))
      → (enablings n rest ≡ 0) × (disablings n rest ≡ 0)
      → Exclusive (m, enabling n cfg ∷ rest)
      → Exclusive (end_enable now n cfg e me m, rest)
  unfolding end_enable
  end_enable-Exclusive n now cfg none me m rest z h =
      moved-Exclusive n _ m _ (enabling n cfg ∷ rest) rest
        (λ j. lookup-insert Name-discrete n j _ m.extensions)
        (λ j d. (other_enablings n j cfg rest d, refl)) z.0 z.1 h
  end_enable-Exclusive n now cfg (some e) me m rest z h =
      moved-Exclusive n _ m _ (enabling n cfg ∷ rest) rest
        (λ j. lookup-insert Name-discrete n j _ m.extensions)
        (λ j d. (other_enablings n j cfg rest d, refl)) z.0 z.1 h

  end_disable-Exclusive :
      (n : Name) (now : ℕ) (e : Option Name) (me : ManagedExtension C X) (m : Manager C X)
      (rest : List (Flight C X))
      → (enablings n rest ≡ 0) × (disablings n rest ≡ 0)
      → Exclusive (m, disabling n ∷ rest)
      → Exclusive (end_disable now n e me m, rest)
  unfolding end_disable
  end_disable-Exclusive n now none me m rest z h =
      moved-Exclusive n _ m _ (disabling n ∷ rest) rest
        (λ j. lookup-insert Name-discrete n j _ m.extensions)
        (λ j d. (refl, other_disablings n j rest d)) z.0 z.1 h
  end_disable-Exclusive n now (some e) me m rest z h =
      moved-Exclusive n _ m _ (disabling n ∷ rest) rest
        (λ j. lookup-insert Name-discrete n j _ m.extensions)
        (λ j d. (refl, other_disablings n j rest d)) z.0 z.1 h

  land-Exclusive :
      (f : Flight C X) (rest : List (Flight C X)) (now : ℕ) (e : Option Name) (m : Manager C X)
      → Exclusive (m, f ∷ rest)
      → Exclusive (land f now e m, rest)
  unfolding land
  land-Exclusive (enabling n cfg) rest now e m h =
      let a = alone_enabling n cfg m rest h in
      subst (λ x. Exclusive (x, rest)) (sym (elim_some _ _ a.1))
        (end_enable-Exclusive n now cfg e a.0 m rest (a.2, a.3) h)
  land-Exclusive (disabling n) rest now e m h =
      let a = alone_disabling n m rest h in
      subst (λ x. Exclusive (x, rest)) (sym (elim_some _ _ a.1))
        (end_disable-Exclusive n now e a.0 m rest (a.2, a.3) h)

  pub step-Exclusive :
      (e : CallEvent C) (m : Manager C X) (fs : List (Flight C X))
      → Exclusive (m, fs)
      → Exclusive (step e (m, fs))
  step-Exclusive (enables n cfg) m fs h = enables-Exclusive n cfg m fs h
  step-Exclusive (disables n) m fs h = disables-Exclusive n m fs h
  step-Exclusive (returns n now e) m fs h = elim (take_cases n fs) [
    | inl q ↦ subst Exclusive (sym (returns_nothing n now e m fs q)) h
    | inr (f, q, at, count) ↦ subst Exclusive (sym (returns_flight n now e m fs f q)) (
        land-Exclusive f (take_flight n fs).1 now e m (record {
          enables_one = λ j. sym (count enablings enablings-IsCount j) ∙ h.enables_one j;
          disables_one = λ j. sym (count disablings disablings-IsCount j) ∙ h.disables_one j;
        }))
  ]

  steps-Exclusive :
      (l : List (CallEvent C)) (m : Manager C X) (fs : List (Flight C X))
      → Exclusive (m, fs)
      → Exclusive (steps l (m, fs))
  unfolding steps
  steps-Exclusive [] m fs h = h
  steps-Exclusive (e ∷ l) m fs h =
      steps-Exclusive l (step e (m, fs)).0 (step e (m, fs)).1 (step-Exclusive e m fs h)

  -- An extension that has not been started is in no call.
  pub load_idle :
      (p : State → Bool) (registered_out : p registered ≡ false)
      (exts : List (Name × Extension C X)) (m : Manager C X)
      → ((j : Name) → in_state p (find j m) ≡ 0)
      → (j : Name) → in_state p (find j (load_from_registry exts m)) ≡ 0
  unfolding load_from_registry add_extension
  load_idle p out [] m h j = h j
  load_idle p out ((name, ext) ∷ l) m h j =
      load_idle p out l (store name (managed ext) m)
        (λ i. elim (Name-discrete name i) [
          | yes q ↦
              ap (in_state p) (
                lookup-insert Name-discrete name i _ m.extensions
                ∙ if_pos (Name-discrete name i) q _ _)
              ∙ in_state-false p (managed ext) out
          | no d ↦
              ap (in_state p) (
                lookup-insert Name-discrete name i _ m.extensions
                ∙ if_neg (Name-discrete name i) d _ _)
              ∙ h i
        ])
        j

  -- Whatever calls of Enable and Disable begin and come back, in any order and with any results,
  -- starting from the registry: an extension that is being initialized has one call of Enable in
  -- flight, one that is being stopped one of Disable, and no other call is in flight, so Init and
  -- Stop of one extension never run at the same time.
  pub overlapping-Exclusive :
      (l : List (CallEvent C)) (exts : List (Name × Extension C X))
      → Exclusive (steps l (load_from_registry exts new_manager, []))
  unfolding new_manager lookup
  overlapping-Exclusive l exts =
      steps-Exclusive l (load_from_registry exts new_manager) [] (record {
        enables_one = λ j. sym (load_idle is_initializing refl exts new_manager (λ _. refl) j);
        disables_one = λ j. sym (load_idle is_stopping refl exts new_manager (λ _. refl) j);
      })
