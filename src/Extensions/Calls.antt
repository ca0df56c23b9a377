-- ===== src/Extensions/Calls.antt =====
-- pkg/core/extension/manager.go: Disable, Reconfigure, InitFromConfig, StopAll and the active
-- configurations.
use godiam.Prelude.{ℕ, List, [], ◌∷◌, Option, none, some, if◌then◌else◌}
use godiam.Routing.{Name}
use godiam.Extensions.{
  stopped, Manager, Error, unknown_extension, not_active, not_reconfigurable, stop_failed,
  reconfigure_failed, is_active, store, find, enable, begin_disable, end_disable,
}

-- What the manager asks of the router.
pub record Handlers (X : Type 0) : Type 0 where
  pub deregister_all_by_owner : Name → X → X

-- `stoppable.Stop()` of one that `begin_disable` has seen to be stoppable.
abbrev run_stop : {X : Type 0} → Option (X → X × Option Name) → X → X × Option Name
run_stop none x = (x, none)
run_stop (some stop) x = stop x

module _ {C X : Type 0} where
  unfoldable pub disable :
      Handlers X → ℕ → Name → Manager C X × X → (Manager C X × X) × Option Error
  unfolding begin_disable end_disable
  disable router now name (m, x) =
      let began = begin_disable name m in
      elim began.1 [
        | some e ↦ ((began.0, x), some e)
        | none ↦ elim (find name began.0) [
          | none ↦ ((began.0, x), some unknown_extension)
          | some me ↦
              let ran = run_stop me.extension.stop (router.deregister_all_by_owner name x) in
              (
                (end_disable now name ran.1 me began.0, ran.0),
                elim ran.1 [ none ↦ none | some e ↦ some (stop_failed e) ],
              )
        ]
      ]

  unfoldable pub reconfigure : Name → C → Manager C X × X → (Manager C X × X) × Option Error
  reconfigure name cfg (m, x) = elim (find name m) [
    | none ↦ ((m, x), some unknown_extension)
    | some me ↦
        if is_active me.state
        then elim me.extension.reconfigure [
          | none ↦ ((m, x), some not_reconfigurable)
          | some change ↦
              let ran = change cfg x in
              elim ran.1 [
                | some e ↦ ((m, ran.0), some (reconfigure_failed e))
                | none ↦ ((store name (record me { config = some cfg }) m, ran.0), none)
              ]
        ]
        else ((m, x), some not_active)
  ]

  -- Each extension of the configuration is enabled, up to the first that fails.
  unfoldable pub init_from_config :
      ℕ → List (Name × C) → Manager C X × X → (Manager C X × X) × Option Error
  unfolding enable
  init_from_config now [] s = (s, none)
  init_from_config now ((name, cfg) ∷ l) s =
      let out = enable now name cfg s in
      let rest = init_from_config now l out.0 in
      elim out.1 [ some e ↦ (out.0, some e) | none ↦ rest ]

  unfoldable pub stop_one :
      ℕ → Name → (Manager C X × X) × Option Name → (Manager C X × X) × Option Name
  stop_one now name ((m, x), last) = elim (find name m) [
    | none ↦ ((m, x), last)
    | some me ↦
        if is_active me.state
        then elim me.extension.stop [
          | none ↦ ((m, x), last)
          | some stop ↦
              let ran = stop x in
              (
                (store name (record me { state = stopped; stopped_at = some now }) m, ran.0),
                elim ran.1 [ none ↦ last | some e ↦ some e ],
              )
        ]
        else ((m, x), last)
  ]

  -- The loop over the copy of the order, from its end.
  unfoldable pub stop_in_reverse :
      ℕ → List Name → (Manager C X × X) × Option Name → (Manager C X × X) × Option Name
  unfolding stop_one
  stop_in_reverse now [] s = s
  stop_in_reverse now (name ∷ l) s = stop_one now name (stop_in_reverse now l s)

  unfoldable pub stop_all : ℕ → Manager C X × X → (Manager C X × X) × Option Name
  unfolding stop_in_reverse
  stop_all now (m, x) = stop_in_reverse now m.init_order ((m, x), none)

  -- The loop of `ActiveExtensionConfigs`.
  unfoldable pub configs_of : Manager C X → List Name → List (Name × Option C)
  configs_of m [] = []
  configs_of m (name ∷ l) =
      let rest = configs_of m l in
      elim (find name m) [
        | none ↦ rest
        | some me ↦ if is_active me.state then (name, me.config) ∷ rest else rest
      ]

  unfoldable pub active_extension_configs : Manager C X → List (Name × Option C)
  unfolding configs_of
  active_extension_configs m = configs_of m m.init_order
