-- ===== src/Config/Checked.antt =====
-- What the validation in anton-runtime/src/config.rs accepts.
use herdr_observatory.Config.{
  is_filled, valid_target, profile_id, roots_pass, or_else, ensure, is_taken, host_id, host_profile,
  transport_of,
}
use herdr_observatory.Json.{Value, Values, nil, cons, as_str, index, field_of}
use herdr_observatory.Prelude.{
  is_some, filter, String, Option, ◌&&◌, ap, Bool-cases, sym, ◌⊎◌, ◌≡◌, Bool, true, false, List,
  ◌∷◌, if◌then◌else◌, none, some, refl, inl, inr,
}
use herdr_observatory.Result.{ok, err}

pub refused : (e : String) → some e ≡ none → ⊥
refused e h = cc

pub or_else-none : (a b : Option String) → or_else a b ≡ none → (a ≡ none) × (b ≡ none)
or_else-none none b h = (refl, h)
or_else-none (some e) b h = absurd (refused e h)

pub ensure-none : (b : Bool) (e : String) → ensure b e ≡ none → b ≡ true
ensure-none true e h = refl
ensure-none false e h = absurd (refused e h)

pub not_ok : {A : Type 0} (e : String) (a : A) → err e ≡ ok a → ⊥
not_ok e a h = cc

pub same_ok : {A : Type 0} (a b : A) → ok a ≡ ok b → a ≡ b
same_ok a b h = cc

-- A transport is the local one, or one over SSH to a valid target.
abbrev pub TransportOk : Value → Type 0
TransportOk host =
    (transport_of (field_of host "transport") ≡ some "local")
    ⊎ (transport_of (field_of host "transport") ≡ some "ssh")
      × ((target : String) × (as_str (index host "target") ≡ some target)
          × (valid_target target ≡ true))

pub record HostOk (host : Value) : Type 0 where
  pub transport : TransportOk host
  pub work_roots : roots_pass (field_of host "work_roots") ≡ true
  pub personal_roots : roots_pass (field_of host "personal_roots") ≡ true
  pub one_socket :
      (is_some (field_of host "socket_path") && is_some (field_of host "session")) ≡ false
  pub herdr : is_filled (field_of host "herdr") ≡ true
  pub session : is_filled (field_of host "session") ≡ true
  pub socket_path : is_filled (field_of host "socket_path") ≡ true
  pub theme_path : is_filled (field_of host "theme_path") ≡ true

-- A profile's identity, if there is one, is valid and new.
abbrev pub ProfileOk : List String → Option Value → List String → Type 0
ProfileOk profiles none taken = taken ≡ profiles
ProfileOk profiles (some v) taken =
    (id : String) × (as_str v ≡ some id)
    × (profile_id id ≡ true)
    × (is_taken profiles id ≡ false)
    × (taken ≡ (id ∷ profiles))

-- The hosts from here on, after which the identities `all` are taken.
abbrev pub HostsOk : List String → List String → Values → List String → Type 0
HostsOk ids profiles nil all = all ≡ ids
HostsOk ids profiles (cons host rest) all =
    (id : String) × (taken : List String) × (as_str (index host "id") ≡ some id)
    × (profile_id id ≡ true)
    × (is_taken ids id ≡ false)
    × ProfileOk profiles (field_of host "profile_id") taken
    × HostOk host
    × HostsOk (id ∷ ids) taken rest all

fresh_id :
    (ids : List String) (o : Option String) (id : String) (a b : String)
    → elim (filter (λ s. profile_id s) o) [
      | none ↦ err a
      | some id ↦ if is_taken ids id then err b else ok id
    ]
      ≡ ok id
    → (o ≡ some id) × (profile_id id ≡ true) × (is_taken ids id ≡ false)
fresh_id ids none id a b h = absurd (not_ok a id h)
fresh_id ids (some s) id a b h = elim (Bool-cases (profile_id s)) [
  | inr bad ↦ absurd (not_ok a id (rw bad at h))
  | inl good ↦ elim (Bool-cases (is_taken ids s)) [
    | inl old ↦ absurd (not_ok b id (rw (good, old) at h))
    | inr new ↦
        let same : s ≡ id = same_ok s id (rw (good, new) at h) in
        (ap some same, rw (← same) good, rw (← same) new)
  ]
]

pub host_id-Ok :
    (ids : List String) (host : Value) (id : String)
    → host_id ids host ≡ ok id
    → (as_str (index host "id") ≡ some id) × (profile_id id ≡ true) × (is_taken ids id ≡ false)
unfolding host_id
host_id-Ok ids host id h =
    fresh_id ids (as_str (index host "id")) id "Invalid host identifier" "Duplicate host identifier"
      h

new_profile :
    (profiles taken : List String) (o : Option String) (a b : String)
    → elim (filter (λ s. profile_id s) o) [
      | none ↦ err a
      | some id ↦ if is_taken profiles id then err b else ok (id ∷ profiles)
    ]
      ≡ ok taken
    → (id : String) × (o ≡ some id)
      × (profile_id id ≡ true)
      × (is_taken profiles id ≡ false)
      × (taken ≡ (id ∷ profiles))
new_profile profiles taken none a b h = absurd (not_ok a taken h)
new_profile profiles taken (some s) a b h = elim (Bool-cases (profile_id s)) [
  | inr bad ↦ absurd (not_ok a taken (rw bad at h))
  | inl good ↦ elim (Bool-cases (is_taken profiles s)) [
    | inl old ↦ absurd (not_ok b taken (rw (good, old) at h))
    | inr new ↦ (s, refl, good, new, sym (same_ok (s ∷ profiles) taken (rw (good, new) at h)))
  ]
]

pub host_profile-Ok :
    (profiles taken : List String) (o : Option Value)
    → host_profile profiles o ≡ ok taken
    → ProfileOk profiles o taken
unfolding host_profile
host_profile-Ok profiles taken none h = sym (same_ok profiles taken h)
host_profile-Ok profiles taken (some v) h =
    new_profile profiles taken (as_str v) "Invalid profile binding" "Duplicate profile binding" h
