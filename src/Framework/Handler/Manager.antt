-- ===== src/Framework/Handler/Manager.antt =====
-- src/framework/handler/handler_manager.cpp: `HandlerManager`, with the singletons of
-- src/framework/class_register.h, and src/framework/session/session_factory.cpp: `SessionFactory`.
-- A handler is an object at an address, since two businesses may share one; `ExtraInit` is virtual, and
-- so a parameter, and what yaml-cpp reads is an argument.
pub mod Routes
use mini_search_rec.Prelude.{
  ℕ, zero, suc, Bool, true, false, if◌then◌else◌, List, [], ◌∷◌, ◌++◌, Option, none, some, find,
  insert, ℤ, pos, negsuc, Bytes, bytes_discrete, ℕ_discrete, map,
}
use mini_search_rec.Framework.Dag.{is_zero}

pub record BusinessConfig : Type 0 where
  pub business_type : Bytes
  pub handler_name : Bytes
  pub session_name : Bytes
  pub skip_search : Bool
  pub skip_rank : Bool
  pub skip_interpose : Bool
  pub extra_config : List (Bytes × Bytes)

-- `singletons_` of the registry, `config_` of each handler object, `handler_map_` and `configs_` of the
-- manager, `type_session_map_` of the session factory.
pub record Manager : Type 0 where
  pub singletons : List (Bytes × ℕ)
  pub config_of : List (ℕ × BusinessConfig)
  pub handler_map : List (Bytes × ℕ)
  pub configs : List BusinessConfig
  pub type_session_map : List (Bytes × Bytes)

abbrev pub is_empty : Bytes → Bool
is_empty [] = true
is_empty (c ∷ cs) = false

-- `GetSingleton`; the creators are `singleton_creators_`, each with the address of the static instance
-- that it returns.
unfoldable pub get_singleton : List (Bytes × ℕ) → Bytes → Manager → Manager × Option ℕ
get_singleton creators name m = elim (find bytes_discrete name m.singletons) [
  | some a ↦ (m, some a)
  | none ↦ elim (find bytes_discrete name creators) [
    | some a ↦ (record m { singletons = insert bytes_discrete name a m.singletons }, some a)
    | none ↦ (m, none)
  ]
]

-- The creators, and what `ExtraInit` of the object at an address returns for a configuration.
module _ (creators : List (Bytes × ℕ)) (extra_init : ℕ → BusinessConfig → ℤ) where
  -- `BaseHandler::Init`
  unfoldable pub handler_init : ℕ → BusinessConfig → Manager → Manager × ℤ
  handler_init a config m =
      (record m { config_of = insert ℕ_discrete a config m.config_of }, extra_init a config)

  -- The end of one round of the loop in `Init`: 0 means that the loop goes on.
  unfoldable pub init_handler : BusinessConfig → Manager × Option ℕ → Manager × ℤ
  init_handler config (m, none) = (m, negsuc 2)
  init_handler config (m, some a) =
      let r = handler_init a config m in
      let routed = record r.0 {
        handler_map = insert bytes_discrete config.business_type a r.0.handler_map;
      } in
      if is_zero r.1 then (routed, pos 0) else (r.0, negsuc 3)

  unfoldable pub init_one : BusinessConfig → Manager → Manager × ℤ
  init_one config m =
      if is_empty config.business_type
      then (m, negsuc 0)
      else if is_empty config.handler_name
      then (m, negsuc 1)
      else init_handler config (get_singleton creators config.handler_name m)

  unfoldable pub init_loop : List BusinessConfig → Manager → Manager × ℤ
  init_loop [] m = (m, pos 0)
  init_loop (config ∷ configs) m =
      let r = init_one config m in
      let rest = init_loop configs r.0 in if is_zero r.1 then rest else r

  -- `Init`
  unfoldable pub init : List BusinessConfig → Manager → Manager × ℤ
  init configs m = init_loop configs (record m { configs = configs })

  -- `RegisterHandler`
  unfoldable pub register_handler : BusinessConfig → Option ℕ → Manager → Manager × ℤ
  register_handler config none m = (m, negsuc 0)
  register_handler config (some a) m =
      let r = handler_init a config m in
      let routed = record r.0 {
        handler_map = insert bytes_discrete config.business_type a r.0.handler_map;
        configs = r.0.configs ++ (config ∷ []);
      } in
      if is_zero r.1 then (routed, pos 0) else r

  -- The loop of `InitFromConfig`: the entries that count, and `SessionFactory::Register` for each.
  unfoldable pub read_entries : List BusinessConfig → Manager → Manager × List BusinessConfig
  read_entries [] m = (m, [])
  read_entries (c ∷ cs) m =
      let registered = record m {
        type_session_map = insert bytes_discrete c.business_type c.session_name m.type_session_map;
      } in
      let skip = read_entries cs m in
      let rest = read_entries cs registered in
      if is_empty c.business_type
      then skip
      else if is_empty c.handler_name
      then skip
      else (rest.0, c ∷ rest.1)

  -- `InitFromConfig`: none for a file that does not load, and for a file without a sequence.
  unfoldable pub init_from_config : Option (Option (List BusinessConfig)) → Manager → Manager × ℤ
  init_from_config none m = (m, negsuc 0)
  init_from_config (some none) m = (m, negsuc 1)
  init_from_config (some (some entries)) m = let r = read_entries entries m in init r.1 r.0

-- `GetHandler`
unfoldable pub get_handler : Bytes → Manager → Option ℕ
get_handler business_type m = find bytes_discrete business_type m.handler_map

-- `GetAllBusinessTypes`
unfoldable pub get_all_business_types : Manager → List Bytes
get_all_business_types m = map (λ e. e.0) m.handler_map

-- `SessionFactory::CreateSession` with the creators of the session classes; `Session` is the default.
unfoldable pub create_session : {S : Type 0} → List (Bytes × S) → S → Bytes → Manager → S
create_session creators default business_type m =
    elim (find bytes_discrete business_type m.type_session_map) [
      | none ↦ default
      | some name ↦ elim (find bytes_discrete name creators) [ none ↦ default | some s ↦ s ]
    ]

-- `HasSession`
unfoldable pub has_session : Bytes → Manager → Bool
has_session business_type m = elim (find bytes_discrete business_type m.type_session_map) [
  | none ↦ false
  | some name ↦ true
]
