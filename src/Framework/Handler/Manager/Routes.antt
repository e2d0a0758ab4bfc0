-- ===== src/Framework/Handler/Manager/Routes.antt =====
-- `HandlerManager`: when `Init` succeeds, and where requests go then.
use mini_search_rec.Prelude.{
  ℕ, ◌≡◌, ◌≢◌, ◌↔◌, ◌⊎◌, refl, sym, ap, ◌∙◌, true, false, Bool-cases, Option-cases, inl, inr, List,
  [], ◌∷◌, ◌++◌, Option, none, some, find, insert, find-insert, ℤ, pos, negsuc, Bytes,
  bytes_discrete, ℕ_discrete, arith, All,
}
use mini_search_rec.Framework.Dag.{is_zero}
use mini_search_rec.Framework.Handler.Manager.{
  BusinessConfig, Manager, get_singleton, handler_init, init_handler, init_one, init_loop, init,
  get_handler, is_empty,
}

is_empty_nil : (x : Bytes) → is_empty x ≡ true → x ≡ []
is_empty_nil [] e = refl
is_empty_nil (c ∷ cs) e = (cc)

not_nil : (x : Bytes) → is_empty x ≡ false → x ≢ []
not_nil [] e = (cc)
not_nil (c ∷ cs) e = (cc)

zero_code : (c : ℤ) → is_zero c ≡ true → c ≡ pos 0
zero_code (pos n) e = ground (arith, e)
zero_code (negsuc n) e = (cc)

module _ (creators : List (Bytes × ℕ)) (extra_init : ℕ → BusinessConfig → ℤ) where
  -- Every cached singleton is the one that its creator returns.
  abbrev pub Cached : Manager → Type 0
  Cached m =
      (name : Bytes) (a : ℕ)
      → find bytes_discrete name m.singletons ≡ some a
      → find bytes_discrete name creators ≡ some a

  -- A configuration with both names, whose handler is registered and starts.
  abbrev pub Good : BusinessConfig → Type 0
  Good c =
      (c.business_type ≢ [])
      × (c.handler_name ≢ [])
      × ((a : ℕ) × (find bytes_discrete c.handler_name creators ≡ some a)
          × (extra_init a c ≡ pos 0))

  get_singleton_lem :
      (name : Bytes) (m : Manager)
      → Cached m
      → let r = get_singleton creators name m in
        (r.1 ≡ find bytes_discrete name creators)
        × Cached r.0
        × (r.0.handler_map ≡ m.handler_map)
        × (r.0.config_of ≡ m.config_of)
  unfolding get_singleton
  get_singleton_lem name m v = elim (Option-cases (find bytes_discrete name m.singletons)) [
    | inr (a, e) ↦ rw (e, get_singleton) (sym (v name a e), v, refl, refl)
    | inl e ↦ elim (Option-cases (find bytes_discrete name creators)) [
      | inl f ↦ rw (e, f, get_singleton) (refl, v, refl, refl)
      | inr (a, f) ↦
          rw (e, f, get_singleton)
            (
              refl,
              (λ n b g.
                  ground (arith, f, g, v n b, find-insert bytes_discrete name n a m.singletons)),
              refl,
              refl,
            )
    ]
  ]

  -- What a round does that does not end the loop.
  record Done (c : BusinessConfig) (m n : Manager) : Type 0 where
    address : ℕ
    good : Good c
    registered : find bytes_discrete c.handler_name creators ≡ some address
    routed : n.handler_map ≡ insert bytes_discrete c.business_type address m.handler_map
    configured : n.config_of ≡ insert ℕ_discrete address c m.config_of

  init_handler_lem :
      (c : BusinessConfig) (m : Manager) (s : Manager × Option ℕ)
      → c.business_type ≢ []
      → c.handler_name ≢ []
      → s.1 ≡ find bytes_discrete c.handler_name creators
      → Cached s.0
      → s.0.handler_map ≡ m.handler_map
      → s.0.config_of ≡ m.config_of
      → let r = init_handler creators extra_init c s in
        Cached r.0 × (((r.1 ≡ pos 0) × Done c m r.0) ⊎ ((is_zero r.1 ≡ false) × (¬ Good c)))
  unfolding init_handler handler_init
  init_handler_lem c m (s, none) t n f v p q =
      (v, inr (refl, (λ (_, _, (a, e, _)). ground (arith, e, f))))
  init_handler_lem c m (s, some a) t n f v p q = elim (Bool-cases (is_zero (extra_init a c))) [
    | inl z ↦ rw z (
      v,
      inl (
        refl,
        record {
          address = a;
          good = (t, n, (a, sym f, zero_code _ z));
          registered = sym f;
          routed = ap (insert bytes_discrete c.business_type a) p;
          configured = ap (insert ℕ_discrete a c) q;
        },
      ),
    )
    | inr z ↦ rw z (v, inr (refl, (λ (_, _, (b, e, i)). ground (arith, e, f, i, z))))
  ]

  init_one_lem :
      (c : BusinessConfig) (m : Manager)
      → Cached m
      → let r = init_one creators extra_init c m in
        Cached r.0 × (((r.1 ≡ pos 0) × Done c m r.0) ⊎ ((is_zero r.1 ≡ false) × (¬ Good c)))
  unfolding init_one
  init_one_lem c m v =
      let (a, w, p, q) = get_singleton_lem c.handler_name m v in
      elim (Bool-cases (is_empty c.business_type)) [
        | inl e ↦ rw e (v, inr (refl, (λ g. g.0 (is_empty_nil c.business_type e))))
        | inr e ↦ elim (Bool-cases (is_empty c.handler_name)) [
          | inl f ↦ rw (e, f) (v, inr (refl, (λ g. g.1 (is_empty_nil c.handler_name f))))
          | inr f ↦
              rw (e, f)
                (init_handler_lem c m (get_singleton creators c.handler_name m)
                  (not_nil c.business_type e) (not_nil c.handler_name f) a w p q)
        ]
      ]

  init_loop-Good :
      (cs : List BusinessConfig) (m : Manager)
      → Cached m
      → ((init_loop creators extra_init cs m).1 ≡ pos 0) ↔ All Good cs
  unfolding init_loop
  init_loop-Good [] m v = ((λ e. tt), (λ g. refl))
  init_loop-Good (c ∷ cs) m v =
      let (w, o) = init_one_lem c m v in
      elim o [
        | inl (e, d) ↦
            let (f, g) = init_loop-Good cs (init_one creators extra_init c m).0 w in
            rw e ((λ z. (d.good, f z)), (λ a. g a.1))
        | inr (e, n) ↦ rw e ((λ z. absurd (ground (arith, e, z))), (λ a. absurd (n a.0)))
      ]

  registered_of :
      (before after : List BusinessConfig) (c : BusinessConfig)
      → All Good (before ++ (c ∷ after))
      → (a : ℕ) × (find bytes_discrete c.handler_name creators ≡ some a)
  registered_of [] after c ((_, _, (a, e, _)), _) = (a, e)
  registered_of (b ∷ before) after c (_, g) = registered_of before after c g

  -- No later configuration of the list is for this business.
  abbrev pub LastOf : Bytes → List BusinessConfig → Type 0
  LastOf t = All (λ c. c.business_type ≢ t)

  kept_route :
      (cs : List BusinessConfig) (m : Manager) (t : Bytes)
      → Cached m
      → All Good cs
      → LastOf t cs
      → get_handler t (init_loop creators extra_init cs m).0 ≡ get_handler t m
  unfolding init_loop get_handler
  kept_route [] m t v g l = refl
  kept_route (c ∷ cs) m t v g l =
      let (w, o) = init_one_lem c m v in
      let n = (init_one creators extra_init c m).0 in
      elim o [
        | inl (e, d) ↦ rw e (
            kept_route cs n t w g.1 l.1
            ∙ ap (find bytes_discrete t) d.routed
            ∙ ground
                (arith, l.0, find-insert bytes_discrete c.business_type t d.address m.handler_map))
        | inr (e, b) ↦ absurd (b g.0)
      ]

  route :
      (before after : List BusinessConfig) (c : BusinessConfig) (m : Manager)
      → Cached m
      → All Good (before ++ (c ∷ after))
      → LastOf c.business_type after
      → get_handler c.business_type (init_loop creators extra_init (before ++ (c ∷ after)) m).0
        ≡ find bytes_discrete c.handler_name creators
  unfolding init_loop get_handler
  route [] after c m v g l =
      let (w, o) = init_one_lem c m v in
      let n = (init_one creators extra_init c m).0 in
      elim o [
        | inl (e, d) ↦ rw e (
            kept_route after n c.business_type w g.1 l
            ∙ ap (find bytes_discrete c.business_type) d.routed
            ∙ ground (
              arith,
              d.registered,
              find-insert bytes_discrete c.business_type c.business_type d.address m.handler_map,
            ))
        | inr (e, b) ↦ absurd (b g.0)
      ]
  route (b ∷ before) after c m v g l =
      let (w, o) = init_one_lem b m v in
      elim o [
        | inl (e, d) ↦ rw e (route before after c (init_one creators extra_init b m).0 w g.1 l)
        | inr (e, n) ↦ absurd (n g.0)
      ]

  -- The object of the last handler keeps the last configuration.
  last_config :
      (before : List BusinessConfig) (c : BusinessConfig) (m : Manager) (a : ℕ)
      → Cached m
      → All Good (before ++ (c ∷ []))
      → find bytes_discrete c.handler_name creators ≡ some a
      → find ℕ_discrete a (init_loop creators extra_init (before ++ (c ∷ [])) m).0.config_of
        ≡ some c
  unfolding init_loop
  last_config [] c m a v g r =
      let (w, o) = init_one_lem c m v in
      elim o [
        | inl (e, d) ↦ rw e (
            ap (find ℕ_discrete a) d.configured
            ∙ ground (arith, r, d.registered, find-insert ℕ_discrete d.address a c m.config_of))
        | inr (e, n) ↦ absurd (n g.0)
      ]
  last_config (b ∷ before) c m a v g r =
      let (w, o) = init_one_lem b m v in
      elim o [
        | inl (e, d) ↦ rw e (last_config before c (init_one creators extra_init b m).0 a w g.1 r)
        | inr (e, n) ↦ absurd (n g.0)
      ]

-- `Init` returns 0 exactly if every configuration names a business and a handler, every handler is
-- registered, and its `ExtraInit` returns 0 for that configuration; the cached singletons are those that
-- the creators return.
pub init-Good :
    (creators : List (Bytes × ℕ)) (extra_init : ℕ → BusinessConfig → ℤ) (cs : List BusinessConfig)
    (m : Manager)
    → Cached creators extra_init m
    → ((init creators extra_init cs m).1 ≡ pos 0) ↔ All (Good creators extra_init) cs
unfolding init
init-Good creators extra_init cs m v =
    init_loop-Good creators extra_init cs (record m { configs = cs }) v

-- After an `Init` that returns 0, every business that the configurations name is served by the registered
-- handler of its last configuration.
pub get_handler-init :
    (creators : List (Bytes × ℕ)) (extra_init : ℕ → BusinessConfig → ℤ)
    (before after : List BusinessConfig) (c : BusinessConfig) (m : Manager)
    → Cached creators extra_init m
    → (init creators extra_init (before ++ (c ∷ after)) m).1 ≡ pos 0
    → LastOf creators extra_init c.business_type after
    → (a : ℕ) × (get_handler c.business_type (init creators extra_init (before ++ (c ∷ after)) m).0
        ≡ some a)
      × (find bytes_discrete c.handler_name creators ≡ some a)
unfolding init
get_handler-init creators extra_init before after c m v z l =
    let g = (init-Good creators extra_init (before ++ (c ∷ after)) m v).0 z in
    let (a, e) = registered_of creators extra_init before after c g in
    (
      a,
      route creators extra_init before after c (record m { configs = before ++ (c ∷ after) }) v g l
          ∙ e,
      e,
    )

-- Two businesses that name the same handler share one object, which keeps one configuration only: after
-- an `Init` that returns 0, both are served by one handler, and its configuration is that of the second.
pub init_shares :
    (creators : List (Bytes × ℕ)) (extra_init : ℕ → BusinessConfig → ℤ) (b c : BusinessConfig)
    (m : Manager)
    → Cached creators extra_init m
    → (init creators extra_init (b ∷ c ∷ []) m).1 ≡ pos 0
    → b.handler_name ≡ c.handler_name
    → b.business_type ≢ c.business_type
    → let n = (init creators extra_init (b ∷ c ∷ []) m).0 in
      (a : ℕ) × (get_handler b.business_type n ≡ some a)
      × (get_handler c.business_type n ≡ some a)
      × (find ℕ_discrete a n.config_of ≡ some c)
unfolding init
init_shares creators extra_init b c m v z e n =
    let g = (init-Good creators extra_init (b ∷ c ∷ []) m v).0 z in
    let fresh = record m { configs = b ∷ c ∷ [] } in
    let (a, p, q) =
      get_handler-init creators extra_init [] (c ∷ []) b m v z ((λ f. n (sym f)), tt) in
    let (a', p', q') = get_handler-init creators extra_init (b ∷ []) [] c m v z tt in
    let same = sym q' ∙ ap (λ x. find bytes_discrete x creators) (sym e) ∙ q in
    (a, p, p' ∙ same, last_config creators extra_init (b ∷ []) c fresh a v g (q' ∙ same))
