-- ===== src/Extensions/Examples.antt =====
-- Two extensions whose calls overlap, and one whose Stop fails.
use godiam.Prelude.{ℕ, ◌≡◌, refl, List, [], ◌∷◌, none, some, ℕ_discrete}
use godiam.Prelude.Assoc.{lookup, insert}
use godiam.Routing.{Name, Name-discrete}
use godiam.Extensions.{
  Extension, Manager, already_active, new_manager, load_from_registry, enable, begin_enable,
  end_enable, begin_disable, end_disable, add_extension,
}
use godiam.Extensions.Calls.{
  Handlers, disable, init_from_config, active_extension_configs, configs_of,
}
use godiam.Extensions.Flights.{
  CallEvent, enables, disables, returns, steps, step, take_flight, land, Exclusive,
}
use godiam.Extensions.Landing.{overlapping-Exclusive}
use godiam.Extensions.Order.{Listed}
use godiam.Extensions.Running.{IsCleanRun, running-Listed}

abbrev name : ℕ → Name
name n = n ∷ []

-- An extension counts how often it was started.
abbrev sound : Extension ℕ ℕ
sound = record { init = λ c x. (c, none); stop = some (λ x. (0, none)); reconfigure = none }

abbrev stuck_at_stop : Extension ℕ ℕ
stuck_at_stop = record {
  init = λ c x. (c, none);
  stop = some (λ x. (x, some []));
  reconfigure = none;
}

abbrev registry : List (Name × Extension ℕ ℕ)
registry = (name 1, sound) ∷ (name 2, stuck_at_stop) ∷ []

abbrev overlap : List (CallEvent ℕ)
overlap =
    enables (name 1) 7
    ∷ enables (name 2) 8
    ∷ enables (name 1) 9
    ∷ returns (name 2) 10 none
    ∷ returns (name 1) 11 none
    ∷ disables (name 1)
    ∷ disables (name 2)
    ∷ returns (name 1) 12 none
    ∷ []

overlapping-Exclusive_example :
    Exclusive (steps overlap (load_from_registry registry new_manager, []))
overlapping-Exclusive_example = overlapping-Exclusive overlap registry

no_failure : IsCleanRun overlap (load_from_registry registry new_manager, [])
unfolding IsCleanRun steps step take_flight land begin_enable begin_disable end_enable end_disable
    load_from_registry add_extension new_manager lookup insert Name-discrete ℕ_discrete
no_failure = (tt, (tt, (tt, (tt, (tt, (tt, (tt, (tt, tt))))))))

running-Listed_example : Listed (steps overlap (load_from_registry registry new_manager, [])).0
running-Listed_example = running-Listed overlap registry no_failure

abbrev router : Handlers ℕ
router = record { deregister_all_by_owner = λ owner x. x }

abbrev loaded : Manager ℕ ℕ × ℕ
loaded = (load_from_registry registry new_manager, 0)

-- A Stop that fails leaves the name in the order, and the next Enable adds it again.
abbrev again : Manager ℕ ℕ × ℕ
again = (enable 3 (name 2) 6 (disable router 2 (name 2) (enable 1 (name 2) 5 loaded).0).0).0

listed_twice : active_extension_configs again.0 ≡ (name 2, some 6) ∷ (name 2, some 6) ∷ []
unfolding active_extension_configs configs_of enable disable begin_enable begin_disable end_enable
    end_disable load_from_registry add_extension new_manager lookup insert Name-discrete ℕ_discrete
listed_twice = refl

-- A start from these configurations fails.
restart_fails : (init_from_config 1 ((name 2, 6) ∷ (name 2, 6) ∷ []) loaded).1 ≡ some already_active
unfolding init_from_config enable begin_enable end_enable load_from_registry add_extension
    new_manager lookup insert Name-discrete ℕ_discrete
restart_fails = refl
