-- ===== src/Extensions/Order.antt =====
-- The order that shutdown follows lists the running extensions, as long as no Stop fails.
use godiam.Prelude.{
  ℕ, suc, ◌-◌, ◌≡◌, refl, sym, ap, subst, ◌∙◌, inl, inr, Bool, true, false, List, [], ◌∷◌, ◌++◌,
  some, ite, if_pos, if_neg, arith, if◌then◌else◌, Option-cases, Bool-cases, ◌≢◌, bytes_eq,
  bytes_eq_sound,
}
use godiam.Prelude.Assoc.{lookup-insert}
use godiam.Routing.{Name, Name-discrete}
use godiam.Extensions.{
  State, registered, initializing, active, stopping, stopped, error, ManagedExtension, Manager,
  find, is_active, is_busy, remove_first,
}
use godiam.Extensions.Flights.{
  Flight, enables, disables, is_initializing, is_stopping, System, step, in_state, in_state-false,
  enables_begun, enables_refused, enables_unknown,
}
use godiam.Extensions.Returns.{disables_begun, disables_refused, disables_unknown}

abbrev pub is_live : State → Bool
is_live active = true
is_live stopping = true
is_live _ = false

abbrev pub occurrences : Name → List Name → ℕ
occurrences n [] = 0
occurrences n (x ∷ l) = if bytes_eq x n then suc (occurrences n l) else occurrences n l

pub occurrences-append :
    (j n : Name) (l : List Name)
    → occurrences j (l ++ n ∷ [])
      ≡ (if bytes_eq n j then suc (occurrences j l) else occurrences j l)
occurrences-append j n [] = ground arith
occurrences-append j n (x ∷ l) = ground (arith, occurrences-append j n l)

pub occurrences-remove_first_same :
    (n : Name) (l : List Name) → occurrences n (remove_first n l) ≡ occurrences n l - 1
unfolding remove_first
occurrences-remove_first_same n [] = refl
occurrences-remove_first_same n (x ∷ l) = ground (arith, occurrences-remove_first_same n l)

pub bytes_ne : (n j : Name) → n ≢ j → bytes_eq n j ≡ false
bytes_ne n j d = elim (Bool-cases (bytes_eq n j)) [
  | inl e ↦ absurd (d (bytes_eq_sound n j e))
  | inr e ↦ e
]

pub occurrences-remove_first_other :
    (n j : Name) (l : List Name) → n ≢ j → occurrences j (remove_first n l) ≡ occurrences j l
unfolding remove_first
occurrences-remove_first_other n j [] d = refl
occurrences-remove_first_other n j (x ∷ l) d = elim (Bool-cases (bytes_eq x n)) [
  | inl e ↦
      let other : bytes_eq x j ≡ false =
        subst (λ z. bytes_eq z j ≡ false) (sym (bytes_eq_sound x n e)) (bytes_ne n j d) in
      ground arith
  | inr e ↦ ground (arith, occurrences-remove_first_other n j l d)
]

live_of_active : (s : State) → is_active s ≡ true → is_live s ≡ true
live_of_active active h = refl
live_of_active registered h = absurd (ground arith)
live_of_active initializing h = absurd (ground arith)
live_of_active stopping h = absurd (ground arith)
live_of_active stopped h = absurd (ground arith)
live_of_active error h = absurd (ground arith)

not_live : (s : State) → is_active s ≡ false → is_busy s ≡ false → is_live s ≡ false
not_live registered a b = refl
not_live initializing a b = refl
not_live active a b = absurd (ground arith)
not_live stopping a b = absurd (ground arith)
not_live stopped a b = refl
not_live error a b = refl

pub not_live_yet : (s : State) → is_initializing s ≡ true → is_live s ≡ false
not_live_yet initializing h = refl
not_live_yet registered h = absurd (ground arith)
not_live_yet active h = absurd (ground arith)
not_live_yet stopping h = absurd (ground arith)
not_live_yet stopped h = absurd (ground arith)
not_live_yet error h = absurd (ground arith)

pub live_still : (s : State) → is_stopping s ≡ true → is_live s ≡ true
live_still stopping h = refl
live_still registered h = absurd (ground arith)
live_still active h = absurd (ground arith)
live_still initializing h = absurd (ground arith)
live_still stopped h = absurd (ground arith)
live_still error h = absurd (ground arith)

-- The order names each extension that is active or being stopped once, and no other.
pub record Listed {C X : Type 0} (m : Manager C X) : Type 0 where
  pub listed : (n : Name) → occurrences n m.init_order ≡ in_state is_live (find n m)

module _ {C X : Type 0} where
  pub moved-Listed :
      (n : Name) (me : ManagedExtension C X) (m m' : Manager C X)
      → ((j : Name) → find j m' ≡ ite (Name-discrete n j) (some me) (find j m))
      → ((j : Name) → n ≢ j → occurrences j m'.init_order ≡ occurrences j m.init_order)
      → occurrences n m'.init_order ≡ in_state is_live (some me)
      → Listed m
      → Listed m'
  moved-Listed n me m m' at others here h = record {
    listed = λ j. elim (Name-discrete n j) [
      | yes e ↦
          subst (λ j. occurrences j m'.init_order ≡ in_state is_live (find j m')) e
            (here ∙ ap (in_state is_live) (sym (at n ∙ if_pos (Name-discrete n n) refl _ _)))
      | no d ↦
          others j d
          ∙ h.listed j
          ∙ ap (in_state is_live) (sym (at j ∙ if_neg (Name-discrete n j) d _ _))
    ];
  }

  pub in_state-true :
      (p : State → Bool) (me : ManagedExtension C X) → p me.state ≡ true → in_state p (some me) ≡ 1
  in_state-true p me h = ap (λ b. if b then 1 else 0) h

  pub count_of :
      (n : Name) (m : Manager C X) (me : ManagedExtension C X)
      → Listed m
      → find n m ≡ some me
      → occurrences n m.init_order ≡ in_state is_live (some me)
  count_of n m me h f = h.listed n ∙ ap (in_state is_live) f

  pub enables-Listed :
      (n : Name) (cfg : C) (m : Manager C X) (fs : List (Flight C X))
      → Listed m
      → Listed (step (enables n cfg) (m, fs)).0
  enables-Listed n cfg m fs h = elim (Option-cases (find n m)) [
    | inl f ↦ subst (λ (x : System C X). Listed x.0) (sym (enables_unknown n cfg m fs f)) h
    | inr (me, f) ↦ elim (Bool-cases (is_active me.state)) [
      | inl a ↦
          subst (λ (x : System C X). Listed x.0) (sym (enables_refused n cfg m fs me f (inl a))) h
      | inr a ↦ elim (Bool-cases (is_busy me.state)) [
        | inl b ↦
            subst (λ (x : System C X). Listed x.0) (sym (enables_refused n cfg m fs me f (inr b))) h
        | inr b ↦
            subst (λ (x : System C X). Listed x.0) (sym (enables_begun n cfg m fs me f a b))
              (moved-Listed n (record me { state = initializing }) m _
                (λ j. lookup-insert Name-discrete n j _ m.extensions) (λ j d. refl)
                (count_of n m me h f ∙ in_state-false is_live me (not_live me.state a b)) h)
      ]
    ]
  ]

  pub disables-Listed :
      (n : Name) (m : Manager C X) (fs : List (Flight C X))
      → Listed m
      → Listed (step (disables n) (m, fs)).0
  disables-Listed n m fs h = elim (Option-cases (find n m)) [
    | inl f ↦ subst (λ (x : System C X). Listed x.0) (sym (disables_unknown n m fs f)) h
    | inr (me, f) ↦ elim (Bool-cases (is_active me.state)) [
      | inr a ↦
          subst (λ (x : System C X). Listed x.0) (sym (disables_refused n m fs me f (inl a))) h
      | inl a ↦ elim (Option-cases me.extension.stop) [
        | inl s ↦
            subst (λ (x : System C X). Listed x.0) (sym (disables_refused n m fs me f (inr s))) h
        | inr (stop, s) ↦
            subst (λ (x : System C X). Listed x.0) (sym (disables_begun n m fs me stop f a s))
              (moved-Listed n (record me { state = stopping }) m _
                (λ j. lookup-insert Name-discrete n j _ m.extensions) (λ j d. refl)
                (count_of n m me h f ∙ in_state-true is_live me (live_of_active me.state a)) h)
      ]
    ]
  ]
