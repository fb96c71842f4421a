-- ===== src/Config/Samples.antt =====
-- A configuration, and the theorem of Config/Validated at it.
use herdr_observatory.Config.{err, validate}
use herdr_observatory.Config.Validated.{validate-Ok, ConfigOk}
use herdr_observatory.Fleet.{profile_id, valid_target}
use herdr_observatory.Json.{get, index, Value, nil, cons, array, object, field, end, text, unsigned}
use herdr_observatory.Prelude.{String, ◌≡◌, Bool, false, refl}
use herdr_observatory.Result.{ok}

-- No text of a float is met here.
abbrev no_floats : String → Bool
no_floats number = false

abbrev laptop : Value
laptop = object (field "id" (text "laptop") end)

abbrev server : Value
server = object (
    field "id" (text "server")
      (field "transport" (text "ssh") (field "target" (text "me@server") end)))

abbrev two_hosts : Value
two_hosts = object (
    field "hosts" (array (cons laptop (cons server nil)))
      (field "interval" (unsigned 5) (field "theme_host" (text "server") end)))

two_hosts-validate : validate no_floats two_hosts ≡ ok two_hosts
unfolding validate get index profile_id valid_target
two_hosts-validate = refl

one_name :
    validate no_floats (object (field "hosts" (array (cons laptop (cons laptop nil))) end))
    ≡ err "Duplicate host identifier"
unfolding validate get index profile_id
one_name = refl

validate-Ok_example : (two_hosts ≡ two_hosts) × ConfigOk no_floats two_hosts
validate-Ok_example = validate-Ok no_floats two_hosts two_hosts two_hosts-validate
