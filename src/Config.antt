-- ===== src/Config.antt =====
-- anton-runtime/src/config.rs: the validation of the plugin's configuration. The floats are texts:
-- whether one lies in the interval from 2 to 60 is a parameter.
pub mod Checked
pub mod Accepted
pub mod Validated
pub mod Samples
use herdr_observatory.Allowances.Accounts.{validate_config, count_values}
use herdr_observatory.Common.{codes, same_bytes}
use herdr_observatory.Fleet.{profile_id, valid_target, first_is}
use herdr_observatory.Json.{
  Value, Values, object, array, nil, cons, unsigned, negative, float, boolean, as_str, index,
  field_of, is_object,
}
use herdr_observatory.Prelude.{
  leb, ltb, is_some, str_eq, ◌&&◌, filter, any, Option, String, is_some_and, ℕ, Bool, true, false,
  not, List, [], ◌∷◌, ◌++◌, ◌==◌, if◌then◌else◌, length, none, some, ◌||◌,
}
use herdr_observatory.Result.{Result, ok, err}

-- An early return with an error's text.
abbrev pub or_else : Option String → Option String → Option String
or_else none next = next
or_else (some e) next = some e

abbrev pub ensure : Bool → String → Option String
ensure b e = if b then none else some e

abbrev pub is_taken : List String → String → Bool
is_taken ids id = any (λ x. str_eq x id) ids

-- The identity of a host, and then that of its profile.
unfoldable pub host_id : List String → Value → Result String
host_id ids host = elim (filter (λ s. profile_id s) (as_str (index host "id"))) [
  | none ↦ err "Invalid host identifier"
  | some id ↦ if is_taken ids id then err "Duplicate host identifier" else ok id
]

-- The profiles that are taken after the host.
unfoldable pub host_profile : List String → Option Value → Result (List String)
host_profile profiles none = ok profiles
host_profile profiles (some v) = elim (filter (λ s. profile_id s) (as_str v)) [
  | none ↦ err "Invalid profile binding"
  | some id ↦ if is_taken profiles id then err "Duplicate profile binding" else ok (id ∷ profiles)
]

abbrev pub transport_of : Option Value → Option String
transport_of none = some "local"
transport_of (some v) = as_str v

abbrev pub check_target : Option String → Option String
check_target none = some "Missing SSH target"
check_target (some target) = ensure (valid_target target) "Invalid SSH target"

unfoldable pub check_transport : Value → Option String → Option String
check_transport host none = some "Invalid host transport"
check_transport host (some t) =
    or_else (ensure (str_eq t "local" || str_eq t "ssh") "Native transport must be local or ssh")
      (if str_eq t "ssh" then check_target (as_str (index host "target")) else none)

-- A path's components: the texts between slashes.
abbrev pub components_from : List ℕ → List ℕ → List (List ℕ)
components_from begun [] = begun ∷ []
components_from begun (c ∷ cs) =
    let next = components_from [] cs in
    let longer = components_from (begun ++ (c ∷ [])) cs in
    if c == b'/' then begun ∷ next else longer

abbrev pub is_parent_dir : List ℕ → Bool
is_parent_dir component = same_bytes component (codes "..")

-- Absolute, with no `..` in it.
unfoldable pub is_root : String → Bool
is_root root =
    first_is (λ c. c == b'/') (codes root)
    && not (any is_parent_dir (components_from [] (codes root)))

abbrev pub are_roots : Values → Bool
are_roots nil = true
are_roots (cons v vs) = is_some_and (as_str v) (λ s. is_root s) && are_roots vs

abbrev pub roots_pass : Option Value → Bool
roots_pass none = true
roots_pass (some (array vs)) = are_roots vs
roots_pass (some _) = false

-- A field that is there holds a text, and not the empty one.
abbrev pub is_filled : Option Value → Bool
is_filled none = true
is_filled (some v) = is_some_and (as_str v) (λ s. not (str_eq s ""))

-- The rest of the round for one host.
unfoldable pub check_host : Value → Option String
unfolding check_transport
check_host host =
    let at = field_of host in
    or_else (check_transport host (transport_of (at "transport"))) (
      or_else (ensure (roots_pass (at "work_roots")) "Invalid project roots") (
        or_else (ensure (roots_pass (at "personal_roots")) "Invalid project roots") (
          or_else
            (ensure (not (is_some (at "socket_path") && is_some (at "session")))
              "Select socket or session")
            (or_else (ensure (is_filled (at "herdr")) "Invalid herdr") (
              or_else (ensure (is_filled (at "session")) "Invalid session") (
                or_else (ensure (is_filled (at "socket_path")) "Invalid socket_path")
                  (ensure (is_filled (at "theme_path")) "Invalid theme_path")))))))

-- The loop over the hosts, over what is taken: the identities of all hosts.
unfoldable pub check_hosts : List String → List String → Values → Result (List String)
unfolding host_id host_profile check_host
check_hosts ids profiles nil = ok ids
check_hosts ids profiles (cons host rest) = elim (host_id ids host) [
  | err e ↦ err e
  | ok id ↦ elim (host_profile profiles (field_of host "profile_id")) [
    | err e ↦ err e
    | ok taken ↦ elim (check_host host) [
      | some e ↦ err e
      | none ↦ check_hosts (id ∷ ids) taken rest
    ]
  ]
]

abbrev pub hosts_of : Value → Option Values
hosts_of (array hosts) =
    if ltb 0 (count_values hosts) && leb (count_values hosts) 16 then some hosts else none
hosts_of _ = none

abbrev pub is_theme_host : List String → Option Value → Bool
is_theme_host ids none = true
is_theme_host ids (some v) = is_some_and (as_str v) (λ s. is_taken ids s)

abbrev pub is_switch : Option Value → Bool
is_switch none = true
is_switch (some (boolean b)) = true
is_switch (some _) = false

-- What comes before the hosts.
abbrev pub check_head : Value → Option String
check_head config = or_else (ensure (is_object config) "Invalid configuration") (
    or_else
      (ensure (not (is_some (field_of config "publish") || is_some (field_of config "music")))
        "Legacy forwarding configuration requires migration")
      (ensure (is_switch (field_of config "fleet_discovery")) "Invalid fleet discovery switch"))

module _ (in_interval : String → Bool) where
  abbrev pub is_interval : Option Value → Bool
  is_interval none = true
  is_interval (some (unsigned n)) = leb 2 n && leb n 60
  is_interval (some (float number)) = in_interval number
  is_interval (some _) = false

  -- What follows the hosts.
  unfoldable pub check_rest : Value → List String → Option String
  unfolding validate_config
  check_rest config ids =
      or_else
        (ensure (is_interval (field_of config "interval")) "Interval must be two to sixty seconds")
        (or_else (ensure (is_theme_host ids (field_of config "theme_host")) "Unknown theme host")
          (validate_config (field_of config "allowances")))

  abbrev pub check_all : Value → Option Values → Option String
  check_all config none = some "Configure one to sixteen hosts"
  check_all config (some hosts) = elim (check_hosts [] [] hosts) [
    | err e ↦ some e
    | ok ids ↦ check_rest config ids
  ]

  unfoldable pub validate : Value → Result Value
  unfolding check_hosts check_rest
  validate config =
      elim (or_else (check_head config) (check_all config (hosts_of (index config "hosts")))) [
        | some e ↦ err e
        | none ↦ ok config
      ]
