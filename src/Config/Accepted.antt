-- ===== src/Config/Accepted.antt =====
-- A configuration that anton-runtime/src/config.rs accepts.
use herdr_observatory.Config.{
  valid_target, check_target, ensure, host_id, host_profile, check_host, check_hosts, transport_of,
  check_transport,
}
use herdr_observatory.Config.Checked.{
  or_else-none, ensure-none, refused, not_ok, same_ok, TransportOk, HostOk, HostsOk, host_id-Ok,
  host_profile-Ok,
}
use herdr_observatory.Json.{Value, Values, nil, cons, as_str, index, field_of}
use herdr_observatory.Prelude.{
  str_eq, String, Option, ap, arith, ◌∙◌, eq_iff, Bool-cases, sym, not-eq_true, ◌≡◌, true, false,
  List, ◌∷◌, if◌then◌else◌, none, some, ◌||◌, refl, inl, inr,
}
use herdr_observatory.Result.{Result, ok, err}

target_ok :
    (host : Value) (o : Option String)
    → as_str (index host "target") ≡ o
    → check_target o ≡ none
    → (target : String) × (as_str (index host "target") ≡ some target)
      × (valid_target target ≡ true)
target_ok host none e h = absurd (refused "Missing SSH target" h)
target_ok host (some target) e h =
    (target, e, ensure-none (valid_target target) "Invalid SSH target" h)

local_or_ssh :
    (t : String)
    → (str_eq t "local" || str_eq t "ssh") ≡ true
    → str_eq t "ssh" ≡ false
    → t ≡ "local"
local_or_ssh t either other = (eq_iff t "local").0 (ground (arith, either, other))

transport_ok :
    (host : Value) (t : Option String)
    → transport_of (field_of host "transport") ≡ t
    → check_transport host t ≡ none
    → TransportOk host
unfolding check_transport
transport_ok host none e h = absurd (refused "Invalid host transport" h)
transport_ok host (some t) e h =
    let (named, rest) =
      or_else-none
        (ensure (str_eq t "local" || str_eq t "ssh") "Native transport must be local or ssh")
        (if str_eq t "ssh" then check_target (as_str (index host "target")) else none) h in
    elim (Bool-cases (str_eq t "ssh")) [
      | inl ssh ↦ inr (
        e ∙ ap some ((eq_iff t "ssh").0 ssh),
        target_ok host (as_str (index host "target")) refl (rw ssh at rest),
      )
      | inr other ↦ inl (
          e
          ∙ ap some (
              local_or_ssh t
                (ensure-none (str_eq t "local" || str_eq t "ssh")
                  "Native transport must be local or ssh" named)
                other))
    ]

check_host-Ok : (host : Value) → check_host host ≡ none → HostOk host
unfolding check_host
check_host-Ok host h =
    let (a, h1) = or_else-none _ _ h in
    let (b, h2) = or_else-none _ _ h1 in
    let (c, h3) = or_else-none _ _ h2 in
    let (d, h4) = or_else-none _ _ h3 in
    let (e, h5) = or_else-none _ _ h4 in
    let (f, h6) = or_else-none _ _ h5 in
    let (g, k) = or_else-none _ _ h6 in
    record {
      transport = transport_ok host (transport_of (field_of host "transport")) refl a;
      work_roots = ensure-none _ _ b;
      personal_roots = ensure-none _ _ c;
      one_socket = not-eq_true _ (ensure-none _ _ d);
      herdr = ensure-none _ _ e;
      session = ensure-none _ _ f;
      socket_path = ensure-none _ _ g;
      theme_path = ensure-none _ _ k;
    }

module _ (ids profiles : List String) (host : Value) (rest : Values) (all : List String)
    (ih : (id : String) (taken : List String)
      → check_hosts (id ∷ ids) taken rest ≡ ok all
      → HostsOk (id ∷ ids) taken rest all) where
  checked_host :
      (c : Option String) (id : String) (taken : List String)
      → host_id ids host ≡ ok id
      → host_profile profiles (field_of host "profile_id") ≡ ok taken
      → check_host host ≡ c
      → elim c [ some e ↦ err e | none ↦ check_hosts (id ∷ ids) taken rest ] ≡ ok all
      → HostsOk ids profiles (cons host rest) all
  checked_host (some e) id taken i p c h = absurd (not_ok e all h)
  checked_host none id taken i p c h =
      let (named, valid, new) = host_id-Ok ids host id i in
      (
        id,
        taken,
        named,
        valid,
        new,
        host_profile-Ok profiles taken (field_of host "profile_id") p,
        check_host-Ok host c,
        ih id taken h,
      )

  bound_host :
      (b : Result (List String)) (id : String)
      → host_id ids host ≡ ok id
      → host_profile profiles (field_of host "profile_id") ≡ b
      → elim b [
        | err e ↦ err e
        | ok taken ↦ elim (check_host host) [
          | some e ↦ err e
          | none ↦ check_hosts (id ∷ ids) taken rest
        ]
      ]
        ≡ ok all
      → HostsOk ids profiles (cons host rest) all
  bound_host (err e) id i p h = absurd (not_ok e all h)
  bound_host (ok taken) id i p h = checked_host (check_host host) id taken i p refl h

  named_host :
      (a : Result String)
      → host_id ids host ≡ a
      → elim a [
        | err e ↦ err e
        | ok id ↦ elim (host_profile profiles (field_of host "profile_id")) [
          | err e ↦ err e
          | ok taken ↦ elim (check_host host) [
            | some e ↦ err e
            | none ↦ check_hosts (id ∷ ids) taken rest
          ]
        ]
      ]
        ≡ ok all
      → HostsOk ids profiles (cons host rest) all
  named_host (err e) i h = absurd (not_ok e all h)
  named_host (ok id) i h =
      bound_host (host_profile profiles (field_of host "profile_id")) id i refl h

pub check_hosts-Ok :
    (ids profiles : List String) (hosts : Values) (all : List String)
    → check_hosts ids profiles hosts ≡ ok all
    → HostsOk ids profiles hosts all
unfolding check_hosts
check_hosts-Ok ids profiles nil all h = sym (same_ok ids all h)
check_hosts-Ok ids profiles (cons host rest) all h =
    named_host ids profiles host rest all (λ id taken. check_hosts-Ok (id ∷ ids) taken rest all)
      (host_id ids host) refl h
