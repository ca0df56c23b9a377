-- ===== src/Extensions.antt =====
-- pkg/core/extension/extension.go and manager.go: the life of the extensions. `X` is what an
-- extension works on through its context and `C` a configuration. Enable and Disable let go of the
-- lock while the extension runs, so each is a beginning and an end; the whole call is both in a row.
-- An error is a name or the extension's own; the words around it are left out.
pub mod Calls
pub mod Flights
pub mod Returns
pub mod Landing
pub mod Order
pub mod Running
mod Examples
use godiam.Prelude.{
  ℕ, Bool, true, false, List, [], ◌∷◌, ◌++◌, Option, none, some, if◌then◌else◌, bytes_eq,
}
use godiam.Prelude.Assoc.{lookup, insert}
use godiam.Routing.{Name, Name-discrete}

pub data State : Type 0 where
  registered initializing active stopping stopped error : State

-- An interface that the extension does not implement is `none`.
pub record Extension (C X : Type 0) : Type 0 where
  pub init : C → X → X × Option Name
  pub stop : Option (X → X × Option Name)
  pub reconfigure : Option (C → X → X × Option Name)

pub record ManagedExtension (C X : Type 0) : Type 0 where
  pub extension : Extension C X
  pub state : State
  pub config : Option C
  pub error : Name
  pub started_at : Option ℕ
  pub stopped_at : Option ℕ

pub record Manager (C X : Type 0) : Type 0 where
  pub extensions : List (Name × ManagedExtension C X)
  pub init_order : List Name

pub data Error : Type 0 where
  unknown_extension already_active busy not_active not_stoppable not_reconfigurable : Error
  init_failed stop_failed reconfigure_failed : Name → Error

abbrev pub is_active : State → Bool
is_active active = true
is_active _ = false

abbrev pub is_busy : State → Bool
is_busy initializing = true
is_busy stopping = true
is_busy _ = false

-- The loop of `Disable` over the order: the first of the name goes.
unfoldable pub remove_first : Name → List Name → List Name
remove_first name [] = []
remove_first name (n ∷ l) =
    let rest = remove_first name l in if bytes_eq n name then l else n ∷ rest

module _ {C X : Type 0} where
  unfoldable pub new_manager : Manager C X
  new_manager = record { extensions = []; init_order = [] }

  abbrev pub managed : Extension C X → ManagedExtension C X
  managed ext = record {
    extension = ext;
    state = registered;
    config = none;
    error = [];
    started_at = none;
    stopped_at = none;
  }

  abbrev pub store : Name → ManagedExtension C X → Manager C X → Manager C X
  store name me m = record m { extensions = insert Name-discrete name me m.extensions }

  abbrev pub find : Name → Manager C X → Option (ManagedExtension C X)
  find name m = lookup Name-discrete name m.extensions

  unfoldable pub add_extension : Name → Extension C X → Manager C X → Manager C X
  add_extension name ext m = store name (managed ext) m

  unfoldable pub load_from_registry : List (Name × Extension C X) → Manager C X → Manager C X
  unfolding add_extension
  load_from_registry [] m = m
  load_from_registry ((name, ext) ∷ l) m = load_from_registry l (add_extension name ext m)

  -- `Enable` up to the call of Init.
  unfoldable pub begin_enable : Name → Manager C X → Manager C X × Option Error
  begin_enable name m = elim (find name m) [
    | none ↦ (m, some unknown_extension)
    | some me ↦
        if is_active me.state
        then (m, some already_active)
        else if is_busy me.state
        then (m, some busy)
        else (store name (record me { state = initializing }) m, none)
  ]

  -- `Enable` from the return of Init on.
  unfoldable pub end_enable :
      ℕ → Name → C → Option Name → ManagedExtension C X → Manager C X → Manager C X
  end_enable now name cfg (some e) me m = store name (record me { state = error; error = e }) m
  end_enable now name cfg none me m = record m {
    extensions =
        insert Name-discrete name
          (record me {
            state = active;
            config = some cfg;
            error = [];
            started_at = some now;
            stopped_at = none;
          })
          m.extensions;
    init_order = m.init_order ++ name ∷ [];
  }

  unfoldable pub enable : ℕ → Name → C → Manager C X × X → (Manager C X × X) × Option Error
  unfolding begin_enable end_enable
  enable now name cfg (m, x) =
      let began = begin_enable name m in
      elim began.1 [
        | some e ↦ ((began.0, x), some e)
        | none ↦ elim (find name began.0) [
          | none ↦ ((began.0, x), some unknown_extension)
          | some me ↦
              let ran = me.extension.init cfg x in
              (
                (end_enable now name cfg ran.1 me began.0, ran.0),
                elim ran.1 [ none ↦ none | some e ↦ some (init_failed e) ],
              )
        ]
      ]

  -- `Disable` up to the deregistration of the handlers.
  unfoldable pub begin_disable : Name → Manager C X → Manager C X × Option Error
  begin_disable name m = elim (find name m) [
    | none ↦ (m, some unknown_extension)
    | some me ↦
        if is_active me.state
        then elim me.extension.stop [
          | none ↦ (m, some not_stoppable)
          | some stop ↦ (store name (record me { state = stopping }) m, none)
        ]
        else (m, some not_active)
  ]

  -- `Disable` from the return of Stop on.
  unfoldable pub end_disable :
      ℕ → Name → Option Name → ManagedExtension C X → Manager C X → Manager C X
  unfolding remove_first
  end_disable now name (some e) me m = store name (record me { state = error; error = e }) m
  end_disable now name none me m = record m {
    extensions =
        insert Name-discrete name (record me { state = stopped; error = []; stopped_at = some now })
          m.extensions;
    init_order = remove_first name m.init_order;
  }
