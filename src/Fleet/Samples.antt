-- ===== src/Fleet/Samples.antt =====
-- A concrete inventory: the theorem on anton-runtime/src/fleet.rs applied to it.
use herdr_observatory.Common.{safe_id}
use herdr_observatory.Fleet.{profiles, Profile}
use herdr_observatory.Fleet.Inventory.{profiles-Ok, InventoryOk}
use herdr_observatory.Json.{Values, nil, cons, index, end, field, object, text, boolean, array, get}
use herdr_observatory.Prelude.{List, ◌≡◌, [], ◌∷◌, refl, true}
use herdr_observatory.Result.{ok}

abbrev machines : Values
machines =
    cons
      (object (
        field "id" (text "m1")
          (field "enabled" (boolean true) (field "target" (text "user@host") end))))
      (cons
        (object (
          field "id" (text "m2") (
            field "enabled" (boolean true)
              (field "target" (text "host") (field "label" (text "second") end)))))
        nil)

abbrev inventory : List Profile
inventory =
    record { id = "m1"; target = "user@host"; session = "default"; label = "m1"; enabled = true }
    ∷ record { id = "m2"; target = "host"; session = "default"; label = "second"; enabled = true }
    ∷ []

machines-inventory : profiles (array machines) ≡ ok inventory
unfolding profiles index get safe_id
machines-inventory = refl

profiles-Ok_example : InventoryOk machines inventory
profiles-Ok_example = profiles-Ok machines inventory machines-inventory
