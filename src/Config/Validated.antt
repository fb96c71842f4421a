-- ===== src/Config/Validated.antt =====
-- The whole validation in anton-runtime/src/config.rs.
use herdr_observatory.Config.{
  validate_config, is_theme_host, is_switch, count_values, is_object, or_else, check_hosts,
  hosts_of, check_rest, check_all, check_head, validate, is_interval,
}
use herdr_observatory.Config.Accepted.{check_hosts-Ok}
use herdr_observatory.Config.Checked.{or_else-none, ensure-none, refused, not_ok, same_ok, HostsOk}
use herdr_observatory.Json.{Value, Values, array, index, field_of}
use herdr_observatory.Prelude.{
  ltb, is_some, Option, String, leb→le, lt_of_ltb, ap, &&-eq_true, leb, ◌&&◌, Bool-cases,
  not-eq_true, sym, ◌≤◌, ◌≡◌, Bool, true, false, List, [], none, some, ◌||◌, refl, inl, inr,
}
use herdr_observatory.Result.{Result, ok, err}

-- One to sixteen hosts, and `all` are their identities.
pub record FleetOk (config : Value) (hosts : Values) (all : List String) : Type 0 where
  pub listed : index config "hosts" ≡ array hosts
  pub some_hosts : 1 ≤ count_values hosts
  pub few_hosts : count_values hosts ≤ 16
  pub hosts_ok : HostsOk [] [] hosts all

pub record ConfigOk (in_interval : String → Bool) (config : Value) : Type 0 where
  pub is_map : is_object config ≡ true
  pub no_forwarding :
      (is_some (field_of config "publish") || is_some (field_of config "music")) ≡ false
  pub switch : is_switch (field_of config "fleet_discovery") ≡ true
  pub hosts : Values
  pub all : List String
  pub fleet : FleetOk config hosts all
  pub interval : is_interval in_interval (field_of config "interval") ≡ true
  pub theme : is_theme_host all (field_of config "theme_host") ≡ true
  pub allowances : validate_config (field_of config "allowances") ≡ none

some_same : (a b : Values) → some a ≡ some b → a ≡ b
some_same a b h = cc

not_some : (a : Values) → none ≡ some a → ⊥
not_some a h = cc

hosts_of-some :
    (v : Value) (hosts : Values)
    → hosts_of v ≡ some hosts
    → (v ≡ array hosts) × (1 ≤ count_values hosts) × (count_values hosts ≤ 16)
hosts_of-some (array vs) hosts h =
    elim (Bool-cases (ltb 0 (count_values vs) && leb (count_values vs) 16)) [
      | inr bad ↦ absurd (not_some hosts (rw bad at h))
      | inl good ↦
          let same : vs ≡ hosts = some_same vs hosts (rw good at h) in
          let (low, high) = &&-eq_true (ltb 0 (count_values vs)) (leb (count_values vs) 16) good in
          (
            ap array same,
            rw (← same) (lt_of_ltb 0 (count_values vs) low),
            rw (← same) (leb→le (count_values vs) 16 high),
          )
    ]
hosts_of-some _ hosts h = absurd (not_some hosts h)

module _ (in_interval : String → Bool) (config : Value) where
  checked_hosts :
      (hosts : Values) (r : Result (List String))
      → check_hosts [] [] hosts ≡ r
      → elim r [ err e ↦ some e | ok ids ↦ check_rest in_interval config ids ] ≡ none
      → (all : List String) × HostsOk [] [] hosts all × (check_rest in_interval config all ≡ none)
  checked_hosts hosts (err e) c h = absurd (refused e h)
  checked_hosts hosts (ok all) c h = (all, check_hosts-Ok [] [] hosts all c, h)

  ConfigOk-of_hosts :
      (o : Option Values)
      → hosts_of (index config "hosts") ≡ o
      → check_head config ≡ none
      → check_all in_interval config o ≡ none
      → ConfigOk in_interval config
  unfolding check_rest
  ConfigOk-of_hosts none e head h = absurd (refused "Configure one to sixteen hosts" h)
  ConfigOk-of_hosts (some hosts) e head h =
      let (listed, low, high) = hosts_of-some (index config "hosts") hosts e in
      let (all, fine, rest) = checked_hosts hosts (check_hosts [] [] hosts) refl h in
      let (i, rest1) = or_else-none _ _ rest in
      let (t, a) = or_else-none _ _ rest1 in
      let (m, rest2) = or_else-none _ _ head in
      let (p, s) = or_else-none _ _ rest2 in
      record {
        is_map = ensure-none _ _ m;
        no_forwarding = not-eq_true _ (ensure-none _ _ p);
        switch = ensure-none _ _ s;
        hosts = hosts;
        all = all;
        fleet = record { listed = listed; some_hosts = low; few_hosts = high; hosts_ok = fine };
        interval = ensure-none _ _ i;
        theme = ensure-none _ _ t;
        allowances = a;
      }

  settled :
      (o : Option String) (w : Value)
      → elim o [ some e ↦ err e | none ↦ ok config ] ≡ ok w
      → (o ≡ none) × (w ≡ config)
  settled (some e) w h = absurd (not_ok e w h)
  settled none w h = (refl, sym (same_ok config w h))

  -- A configuration that is accepted is returned as it is: an object without the retired forwarding,
  -- with one to sixteen hosts under distinct valid identities, each with a transport, roots and texts
  -- that are valid, an interval from 2 to 60, a theme host among the hosts and valid allowances.
  pub validate-Ok :
      (w : Value) → validate in_interval config ≡ ok w → (w ≡ config) × ConfigOk in_interval config
  unfolding validate
  validate-Ok w h =
      let o = hosts_of (index config "hosts") in
      let (e, same) = settled (or_else (check_head config) (check_all in_interval config o)) w h in
      let (head, rest) = or_else-none (check_head config) (check_all in_interval config o) e in
      (same, ConfigOk-of_hosts o refl head rest)
