-- ===== src/Plugin/Registry/Invariant.antt =====
-- The registry's two maps, `plugins` and `pluginStatuses`, beside each other.
use oksai_cc_api_server.Base.{
  String, true, none, some, get, has, ◌==◌, string_eq, subst, Bool-cases, ◌≡◌, ◌≢◌, ◌⊎◌, inl, inr,
  refl, arith, eq_iff, get-set, get-delete, UniqueKeys, set-UniqueKeys, delete-UniqueKeys,
}
use oksai_cc_api_server.Plugin.Types.{PluginStatus, unloaded, Plugin, Host, Hooks}
use oksai_cc_api_server.Plugin.Registry.{
  put_plugin, drop_plugin, update_status, register, unregister, plain_call, clear,
}
use oksai_cc_api_server.Plugin.Registry.Laws.{clear_lem}

-- Keys are unique, each plugin stands under its own name, no name is empty, every
-- registered name has a status, and the other names with a status are among `Stray`.
pub record IsConsistent (Stray : String → Type 0) (h : Host) : Type 0 where
  pub unique_plugins : UniqueKeys h.plugins
  pub unique_statuses : UniqueKeys h.plugin_statuses
  pub keyed : (n : String) (p : Plugin) → get n h.plugins ≡ some p → p.name ≡ n
  pub named : get "" h.plugins ≡ none
  pub covered : (n : String) → has n h.plugins ≡ true → has n h.plugin_statuses ≡ true
  pub tracked : (n : String) → has n h.plugin_statuses ≡ true → (has n h.plugins ≡ true) ⊎ Stray n

pub put_plugin-IsConsistent :
    {Stray : String → Type 0}
    → (p : Plugin) (h : Host) → p.name ≢ ""
    → IsConsistent Stray h
    → IsConsistent Stray (put_plugin p h)
unfolding put_plugin has
put_plugin-IsConsistent p h e c = record {
  unique_plugins = set-UniqueKeys p.name p h.plugins c.unique_plugins;
  unique_statuses = set-UniqueKeys p.name unloaded h.plugin_statuses c.unique_statuses;
  keyed = λ n q g. ground (arith, get-set p.name n p h.plugins, eq_iff p.name n, c.keyed n q);
  named = ground (arith, get-set p.name "" p h.plugins, eq_iff p.name "", c.named);
  covered = λ n there. ground (
    arith,
    get-set p.name n p h.plugins,
    get-set p.name n unloaded h.plugin_statuses,
    c.covered n,
  );
  tracked = λ n there. ground (
    arith,
    get-set p.name n p h.plugins,
    get-set p.name n unloaded h.plugin_statuses,
    c.tracked n,
  );
}

pub drop_plugin-IsConsistent :
    {Stray : String → Type 0}
    → (name : String) (h : Host) → IsConsistent Stray h
    → IsConsistent Stray (drop_plugin name h)
unfolding drop_plugin has
drop_plugin-IsConsistent name h c = record {
  unique_plugins = delete-UniqueKeys name h.plugins c.unique_plugins;
  unique_statuses = delete-UniqueKeys name h.plugin_statuses c.unique_statuses;
  keyed = λ n q g. ground (arith, get-delete name n h.plugins, c.keyed n q);
  named = ground (arith, get-delete name "" h.plugins, c.named);
  covered = λ n there.
      ground (arith, get-delete name n h.plugins, get-delete name n h.plugin_statuses, c.covered n);
  tracked = λ n there.
      ground (arith, get-delete name n h.plugins, get-delete name n h.plugin_statuses, c.tracked n);
}

-- `updateStatus` asks nothing of its name: the status of an unregistered one is a stray one.
pub update_any-IsConsistent :
    {Stray : String → Type 0}
    → (name : String) (status : PluginStatus) (h : Host) → (has name h.plugins ≡ true) ⊎ Stray name
    → IsConsistent Stray h
    → IsConsistent Stray (update_status name status h).1
unfolding update_status has
update_any-IsConsistent {Stray} name status h r c = record {
  unique_plugins = c.unique_plugins;
  unique_statuses = set-UniqueKeys name status h.plugin_statuses c.unique_statuses;
  keyed = c.keyed;
  named = c.named;
  covered = λ n there. ground (arith, get-set name n status h.plugin_statuses, c.covered n);
  tracked = λ n there. elim (Bool-cases (name == n)) [
    | inl same ↦
        let at : name ≡ n = ground (arith, same, eq_iff name n) in
        subst (λ k. (has k h.plugins ≡ true) ⊎ Stray k) at r
    | inr other ↦
        c.tracked n (ground (arith, get-set name n status h.plugin_statuses, other, there))
  ];
}

pub update_status-IsConsistent :
    {Stray : String → Type 0} (name : String) (status : PluginStatus) (h : Host)
    → has name h.plugins ≡ true
    → IsConsistent Stray h
    → IsConsistent Stray (update_status name status h).1
update_status-IsConsistent name status h r c = update_any-IsConsistent name status h (inl r) c

-- Only the registry counts.
pub IsConsistent-registry :
    {Stray : String → Type 0}
    → (h h' : Host) → h'.registry ≡ h.registry
    → IsConsistent Stray h
    → IsConsistent Stray h'
IsConsistent-registry h h' e c = record {
  unique_plugins = rw e c.unique_plugins;
  unique_statuses = rw e c.unique_statuses;
  keyed = rw e c.keyed;
  named = rw e c.named;
  covered = rw e c.covered;
  tracked = rw e c.tracked;
}

register-cases :
    (p : Plugin) (h : Host)
    → ((register p h).1 ≡ h) ⊎ ((p.name ≢ "") × ((register p h).1 ≡ put_plugin p h))
unfolding register
register-cases p h = ground (arith, eq_iff p.name "")

pub register-IsConsistent :
    {Stray : String → Type 0}
    → (p : Plugin) (h : Host) → IsConsistent Stray h
    → IsConsistent Stray (register p h).1
register-IsConsistent p h c = elim (register-cases p h) [
  | inl e ↦ rw e c
  | inr (n, e) ↦ rw e (put_plugin-IsConsistent p h n c)
]

module _ (hooks : Hooks) where
  pub unregister-cases :
      (name : String) (h : Host)
      → ((unregister hooks name h).1.registry ≡ h.registry)
        ⊎ ((unregister hooks name h).1.registry ≡ (drop_plugin name h).registry)
  unfolding unregister plain_call drop_plugin
  unregister-cases name h = ground arith

  pub unregister-IsConsistent :
      {Stray : String → Type 0}
      → (name : String) (h : Host) → IsConsistent Stray h
      → IsConsistent Stray (unregister hooks name h).1
  unregister-IsConsistent name h c = elim (unregister-cases name h) [
    | inl e ↦ IsConsistent-registry h _ e c
    | inr e ↦ IsConsistent-registry (drop_plugin name h) _ e (drop_plugin-IsConsistent name h c)
  ]

  pub clear-IsConsistent :
      {Stray : String → Type 0} → (h : Host) → IsConsistent Stray (clear hooks h).1
  unfolding has get
  clear-IsConsistent h = rw clear_lem (record {
    unique_plugins = tt;
    unique_statuses = tt;
    keyed = λ n p g. cc;
    named = refl;
    covered = λ n there. cc;
    tracked = λ n there. cc;
  })
