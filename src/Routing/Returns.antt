-- ===== src/Routing/Returns.antt =====
-- RouteIn returns.
use godiam.Prelude.{◌≡◌, List, Option, some}
use godiam.Message.{Message}
use godiam.Routing.{InOutcome, passed, consumed, failed, Error}

abbrev Returns : {A : Type 0} → Option A → Type 0
Returns {A} x = (d : A) × (x ≡ some d)

pub in_both :
    {X : Type 0} (C : X → Type 0) (i : InOutcome) (x : X) (e : Error → X) (f : X)
    → C x
    → ((err : Error) → C (e err))
    → C f
    → C (elim i [ consumed ↦ x | failed err ↦ e err | passed cs ↦ f ])
in_both C consumed x e f p q s = p
in_both C (failed err) x e f p q s = q err
in_both C (passed cs) x e f p q s = s
