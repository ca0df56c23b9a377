-- ===== src/Extensions/Running.antt =====
-- The order names the running extensions: what a call that comes back does to it.
use godiam.Prelude.{
  ℕ, suc, ◌-◌, ◌≡◌, refl, sym, ap, subst, ◌∙◌, inl, inr, List, [], ◌∷◌, Option, none, some,
  if◌then◌else◌, elim_some, bytes_eq_refl,
}
use godiam.Prelude.Assoc.{lookup, lookup-insert}
use godiam.Routing.{Name, Name-discrete}
use godiam.Extensions.{
  Extension, ManagedExtension, Manager, end_enable, end_disable, new_manager, load_from_registry,
  add_extension, managed, store,
}
use godiam.Extensions.Flights.{
  Flight, enabling, disabling, CallEvent, enables, disables, returns, take_flight, land, enablings,
  disablings, System, step, steps, Exclusive, in_state-false,
}
use godiam.Extensions.Returns.{
  take_cases, enablings-IsCount, disablings-IsCount, returns_nothing, returns_flight,
}
use godiam.Extensions.Landing.{
  alone_enabling, alone_disabling, step-Exclusive, load_idle, overlapping-Exclusive,
}
use godiam.Extensions.Order.{
  is_live, occurrences, occurrences-append, occurrences-remove_first_same, bytes_ne,
  occurrences-remove_first_other, not_live_yet, live_still, Listed, moved-Listed, in_state-true,
  count_of, enables-Listed, disables-Listed,
}

-- The call that comes back is not one of Disable, or its Stop has not failed.
abbrev pub IsClean : {C X : Type 0} → Option (Flight C X) → Option Name → Type 0
IsClean (some (disabling n)) (some e) = ⊥
IsClean _ _ = Unit

module _ {C X : Type 0} where
  abbrev pub IsCleanEvent : CallEvent C → System C X → Type 0
  IsCleanEvent (returns n now e) (m, fs) = IsClean (take_flight n fs).0 e
  IsCleanEvent (enables n cfg) s = Unit
  IsCleanEvent (disables n) s = Unit

  -- No Stop fails in a run.
  unfoldable pub IsCleanRun : List (CallEvent C) → System C X → Type 0
  IsCleanRun [] s = Unit
  IsCleanRun (e ∷ l) s = IsCleanEvent e s × IsCleanRun l (step e s)

  end_enable-Listed :
      (n : Name) (now : ℕ) (cfg : C) (e : Option Name) (me : ManagedExtension C X) (m : Manager C X)
      → occurrences n m.init_order ≡ 0
      → Listed m
      → Listed (end_enable now n cfg e me m)
  unfolding end_enable
  end_enable-Listed n now cfg (some e) me m z h =
      moved-Listed n _ m _ (λ j. lookup-insert Name-discrete n j _ m.extensions) (λ j d. refl) z h
  end_enable-Listed n now cfg none me m z h =
      moved-Listed n _ m _ (λ j. lookup-insert Name-discrete n j _ m.extensions)
        (λ j d.
          occurrences-append j n m.init_order
          ∙ ap (λ b. if b then suc (occurrences j m.init_order) else occurrences j m.init_order)
              (bytes_ne n j d))
        (occurrences-append n n m.init_order
          ∙ ap (λ b. if b then suc (occurrences n m.init_order) else occurrences n m.init_order)
              (bytes_eq_refl n)
          ∙ ap suc z)
        h

  end_disable-Listed :
      (n : Name) (now : ℕ) (me : ManagedExtension C X) (m : Manager C X)
      → occurrences n m.init_order ≡ 1
      → Listed m
      → Listed (end_disable now n none me m)
  unfolding end_disable
  end_disable-Listed n now me m z h =
      moved-Listed n _ m _ (λ j. lookup-insert Name-discrete n j _ m.extensions)
        (λ j d. occurrences-remove_first_other n j m.init_order d)
        (occurrences-remove_first_same n m.init_order ∙ ap (λ k. k - 1) z) h

  land-Listed :
      (f : Flight C X) (rest : List (Flight C X)) (now : ℕ) (e : Option Name) (m : Manager C X)
      → IsClean (some f) e
      → Exclusive (m, f ∷ rest)
      → Listed m
      → Listed (land f now e m)
  unfolding land
  land-Listed (enabling n cfg) rest now e m c x h =
      let a = alone_enabling n cfg m rest x in
      subst Listed (sym (elim_some _ _ a.1)) (
        end_enable-Listed n now cfg e a.0 m
          (count_of n m a.0 h a.1 ∙ in_state-false is_live a.0 (not_live_yet a.0.state a.4)) h)
  land-Listed (disabling n) rest now none m c x h =
      let a = alone_disabling n m rest x in
      subst Listed (sym (elim_some _ _ a.1)) (
        end_disable-Listed n now a.0 m
          (count_of n m a.0 h a.1 ∙ in_state-true is_live a.0 (live_still a.0.state a.4)) h)
  land-Listed (disabling n) rest now (some e) m c x h = absurd c

  step-Listed :
      (e : CallEvent C) (m : Manager C X) (fs : List (Flight C X))
      → IsCleanEvent e (m, fs)
      → Exclusive (m, fs)
      → Listed m
      → Listed (step e (m, fs)).0
  step-Listed (enables n cfg) m fs c x h = enables-Listed n cfg m fs h
  step-Listed (disables n) m fs c x h = disables-Listed n m fs h
  step-Listed (returns n now e) m fs c x h = elim (take_cases n fs) [
    | inl q ↦ subst (λ (s : System C X). Listed s.0) (sym (returns_nothing n now e m fs q)) h
    | inr (f, q, at, count) ↦
        subst (λ (s : System C X). Listed s.0) (sym (returns_flight n now e m fs f q))
          (land-Listed f (take_flight n fs).1 now e m (subst (λ t. IsClean t e) q c)
            (record {
              enables_one = λ j. sym (count enablings enablings-IsCount j) ∙ x.enables_one j;
              disables_one = λ j. sym (count disablings disablings-IsCount j) ∙ x.disables_one j;
            })
            h)
  ]

  steps-Listed :
      (l : List (CallEvent C)) (m : Manager C X) (fs : List (Flight C X))
      → IsCleanRun l (m, fs)
      → Exclusive (m, fs)
      → Listed m
      → Listed (steps l (m, fs)).0
  unfolding steps IsCleanRun
  steps-Listed [] m fs c x h = h
  steps-Listed (e ∷ l) m fs c x h =
      steps-Listed l (step e (m, fs)).0 (step e (m, fs)).1 c.1 (step-Exclusive e m fs x)
        (step-Listed e m fs c.0 x h)

  load_order :
      (exts : List (Name × Extension C X)) (m : Manager C X)
      → (load_from_registry exts m).init_order ≡ m.init_order
  unfolding load_from_registry add_extension
  load_order [] m = refl
  load_order ((name, ext) ∷ l) m = load_order l (store name (managed ext) m)

  -- Whatever calls of Enable and Disable overlap, starting from the registry: if no Stop fails, the
  -- order that StopAll and ActiveExtensionConfigs go through names each extension that is active or
  -- being stopped exactly once, and no other.
  pub running-Listed :
      (l : List (CallEvent C)) (exts : List (Name × Extension C X))
      → IsCleanRun l (load_from_registry exts new_manager, [])
      → Listed (steps l (load_from_registry exts new_manager, [])).0
  unfolding new_manager lookup steps
  running-Listed l exts c =
      steps-Listed l (load_from_registry exts new_manager) [] c (overlapping-Exclusive [] exts)
        (record {
          listed = λ n.
              ap (occurrences n) (load_order exts new_manager)
              ∙ sym (load_idle is_live refl exts new_manager (λ _. refl) n);
        })
