-- ===== src/Redis/Rounds.antt =====
-- The loop of `Service::start` in grcache-proxy/src/cache/redis_replicas.rs, between the steps of the
-- discovery that sends backends: a step reads the watch, or opens the next pool.
use mathlib.Core.Option.{some-injective}
use mathlib.Core.Path.{subst}
use grcache.Prelude.{
  ◌≡◌, sym, ap, ◌∙◌, Bool, true, false, ◌||◌, Option, none, some, List, [], ◌∷◌, Eq, arith,
  Option-cases, Bool-cases, inl, inr, ◌⊎◌, contains, is_some, eq_cases,
}
use grcache.Prelude.Map.{lookup, insert, retain, lookup-insert, lookup-insert_cases, lookup-retain}
use grcache.Redis.{Crates, PoolMap}

module _ (k : Crates) where
  instance abbrev eq_backend : Eq k.Backend
  eq_backend = k.backend_eq

  -- The value of the watch, whether it has changed since it was last read, the backends that the `for`
  -- has left, and the pools.
  pub record Round : Type 0 where
    pub backends : List k.Backend
    pub changed : Bool
    pub remaining : List k.Backend
    pub pools : PoolMap k

  -- The start of the loop, after `mark_changed`.
  abbrev pub start : List k.Backend → Round
  start backends = record { backends = backends; changed = true; remaining = []; pools = [] }

  -- What the discovery sends.
  abbrev pub send : List k.Backend → Round → Round
  send backends s = record s { backends = backends; changed = true }

  -- `changed`, `borrow` and `retain`
  abbrev pub read : Round → Round
  read s = record s {
    changed = false;
    remaining = s.backends;
    pools = retain (λ b. contains b s.backends) s.pools;
  }

  -- The body of the `for`.
  unfoldable pub open_next : k.Backend → List k.Backend → Round → Option Round
  open_next backend rest s = elim (lookup backend s.pools) [
    | some pool ↦ some (record s { remaining = rest })
    | none ↦ elim (k.open_pool backend) [
      | some pool ↦ some (record s { remaining = rest; pools = insert backend pool s.pools })
      | none ↦ none
    ]
  ]

  pub data Step (s : Round) : Round → Type 0 where
    sent : (backends : List k.Backend) → Step s (send backends s)
    reading : s.changed ≡ true → s.remaining ≡ [] → Step s (read s)
    opening :
        (backend : k.Backend) (rest : List k.Backend) {t : Round}
        → s.remaining ≡ backend ∷ rest
        → open_next backend rest s ≡ some t
        → Step s t

  pub data Steps (s : Round) : Round → Type 0 where
    here : Steps s s
    next : {t u : Round} → Steps s t → Step t u → Steps s u

  -- A pool is that of its backend; and once the watch is read, its backends are those that have a pool or
  -- are left.
  abbrev HasOwn : Round → Type 0
  HasOwn s =
      (b : k.Backend) (pool : k.Pool) → lookup b s.pools ≡ some pool → k.open_pool b ≡ some pool

  abbrev Follows : Round → Type 0
  Follows s =
      s.changed ≡ false
      → (b : k.Backend)
      → contains b s.backends ≡ (is_some (lookup b s.pools) || contains b s.remaining)

  HasOwn-read : (s : Round) → HasOwn s → HasOwn (read s)
  HasOwn-read s own b pool e = elim (Bool-cases (contains b s.backends)) [
    | inl t ↦ own b pool (rw (lookup-retain, t) at e)
    | inr t ↦ let stuck : none ≡ some pool = rw (lookup-retain, t) at e in absurd (cc)
  ]

  Follows-read : (s : Round) → Follows (read s)
  Follows-read s e b = ground (arith, lookup-retain (λ x. contains x s.backends) b s.pools)

  had :
      (s : Round) (backend : k.Backend) (rest : List k.Backend)
      → Follows s
      → s.remaining ≡ backend ∷ rest
      → s.changed ≡ false
      → (b : k.Backend)
      → contains b s.backends ≡ (is_some (lookup b s.pools) || contains b (backend ∷ rest))
  had s backend rest follows left c b =
      follows c b ∙ ap (λ l. is_some (lookup b s.pools) || contains b l) left

  open_next-keeps :
      (backend : k.Backend) (rest : List k.Backend) (s t : Round)
      → s.remaining ≡ backend ∷ rest
      → open_next backend rest s ≡ some t
      → HasOwn s × Follows s
      → HasOwn t × Follows t
  unfolding open_next
  open_next-keeps backend rest s t left e (own, follows) =
      elim (Option-cases (lookup backend s.pools)) [
        | inr (pool, f) ↦
            let it : record s { remaining = rest } ≡ t =
              some-injective _ _ (rw (f, open_next) at e) in
            subst (λ x. HasOwn x × Follows x) it
              (
                own,
                λ c b. elim (eq_cases backend b) [
                  | inl (q, same) ↦ ground (
                    arith,
                    had s backend rest follows left c b,
                    q,
                    ap (λ x. lookup x s.pools) (sym same) ∙ f,
                  )
                  | inr (q, other) ↦ ground (arith, had s backend rest follows left c b, q)
                ],
              )
        | inl f ↦ elim (Option-cases (k.open_pool backend)) [
          | inl n ↦ absurd (ground arith)
          | inr (pool, o) ↦
              let it : record s { remaining = rest; pools = insert backend pool s.pools } ≡ t =
                some-injective _ _ (rw (f, o, open_next) at e) in
              subst (λ x. HasOwn x × Follows x) it
                (
                  λ b other h. elim (lookup-insert_cases backend b pool other s.pools h) [
                    | inl (same, is) ↦ ap k.open_pool (sym same) ∙ o ∙ ap some is
                    | inr (_, before) ↦ own b other before
                  ],
                  λ c b. elim (eq_cases backend b) [
                    | inl (q, same) ↦ ground (
                      arith,
                      had s backend rest follows left c b,
                      q,
                      lookup-insert backend b pool s.pools,
                    )
                    | inr (q, other) ↦ ground (
                      arith,
                      had s backend rest follows left c b,
                      q,
                      lookup-insert backend b pool s.pools,
                    )
                  ],
                )
        ]
      ]

  Steps-keeps :
      (backends : List k.Backend) {t : Round} → Steps (start backends) t → HasOwn t × Follows t
  unfolding lookup
  Steps-keeps backends here = (λ b pool h. absurd (ground arith), λ c b. absurd (ground arith))
  Steps-keeps backends (next {t = t} run (sent l)) =
      ((Steps-keeps backends run).0, λ c b. absurd (ground arith))
  Steps-keeps backends (next {t = t} run (reading c e)) =
      (HasOwn-read t (Steps-keeps backends run).0, Follows-read t)
  Steps-keeps backends (next {t = t} {u = u} run (opening b rest left e)) =
      open_next-keeps b rest t u left e (Steps-keeps backends run)

  -- From the start of the service, in any order of its steps with what the discovery sends: when it has
  -- read the last change and opened what was left, a backend has a pool exactly if it is one of those sent
  -- last, and the pool is the one that was opened for it.
  pub lookup-at_rest :
      (backends : List k.Backend) {t : Round} (b : k.Backend)
      → Steps (start backends) t
      → t.changed ≡ false
      → t.remaining ≡ []
      → (is_some (lookup b t.pools) ≡ contains b t.backends)
        × ((lookup b t.pools ≡ none) ⊎ (lookup b t.pools ≡ k.open_pool b))
  lookup-at_rest backends {t} b run c e =
      let (own, follows) = Steps-keeps backends run in
      (
        ground (arith, follows c b, e),
        elim (Option-cases (lookup b t.pools)) [
          | inl n ↦ inl n
          | inr (pool, h) ↦ inr (h ∙ sym (own b pool h))
        ],
      )
