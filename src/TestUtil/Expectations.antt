-- ===== src/TestUtil/Expectations.antt =====
-- When `finish` of the server in grcache-shared/src/test/grpc_server.rs passes.
use grcache.Prelude.{
  ◌≡◌, ◌↔◌, refl, sym, ap, ◌∙◌, Bool, true, false, Option, none, some, List, [], ◌∷◌, ◌++◌, Text,
  text_eq, Option-cases, Bool-cases, ◌⊎◌, eq_cases, inl, inr, arith, append_assoc, append-nil,
}
use mathlib.Core.Option.{some-injective}
use grcache.TestUtil.Client.{uri_of}
use grcache.TestUtil.MockServer.{
  H2, HandleFn, State, Incoming, new_state, expect, finish, full_body, send, answer, respond_to,
  send_again, dummy_handle_request, handle_requests, expect_all,
}

none_is_not_some : {A : Type 0} {a : A} → none ≡ some a → ⊥
none_is_not_some h = absurd (ground arith)

module _ (h2 : H2) where
  -- The request has the path of an expectation, the closure of the test accepts it, and its response is
  -- sent.
  abbrev pub Answers : Incoming h2 → Text → Text × Text × HandleFn h2 → Type 0
  Answers r body (service, method, handler) =
      (h2.path r.parts ≡ uri_of service method)
      × (out : Text × h2.HeaderMap) × (handler r.parts body ≡ some out)
      × (s : h2.SendResponse) × (send h2 out.0 out.1 r.respond ≡ some s)

  -- The next expectation is answered, and what is left is as `Rest` says.
  abbrev pub Serves :
      Incoming h2
      → Text
      → (List (Text × Text × HandleFn h2) → Type 0)
      → List (Text × Text × HandleFn h2)
      → Type 0
  Serves r body Rest [] = ⊥
  Serves r body Rest (e ∷ more) = Answers r body e × Rest more

  -- Each request whose body arrives answers the next expectation.
  abbrev pub Fulfils : List (Incoming h2) → List (Text × Text × HandleFn h2) → Type 0
  Fulfils [] expects = Unit
  Fulfils (r ∷ rs) expects = elim (full_body h2 r.body []) [
    | none ↦ Fulfils rs expects
    | some body ↦ Serves r body (Fulfils rs) expects
  ]

  -- The server has met a request that no expectation answers.
  abbrev IsSpoilt : State h2 → Type 0
  IsSpoilt state = (state.poisoned ≡ true) ⊎ (state.got_extra_requests ≡ true)

  answer-IsSpoilt :
      (handler : HandleFn h2) (body : Text) (r : Incoming h2) (state : State h2)
      → IsSpoilt state
      → IsSpoilt (answer h2 handler body r state).1
  unfolding answer
  answer-IsSpoilt handler body r state bad = elim (Option-cases (handler r.parts body)) [
    | inl e ↦ rw (e, answer) (inl refl)
    | inr ((resp_body, resp_parts), e) ↦
        elim (Option-cases (send h2 resp_body resp_parts r.respond)) [
          | inl f ↦ rw (e, answer, f) (inl refl)
          | inr (s, f) ↦ rw (e, answer, f) bad
        ]
  ]

  respond_to-IsSpoilt :
      (expects : List (Text × Text × HandleFn h2)) (body : Text) (r : Incoming h2)
      (state : State h2)
      → IsSpoilt state
      → IsSpoilt (respond_to h2 expects body r state).1
  unfolding respond_to
  respond_to-IsSpoilt [] body r state bad = inr refl
  respond_to-IsSpoilt ((service, method, handler) ∷ more) body r state bad =
      elim (eq_cases (h2.path r.parts) (uri_of service method)) [
        | inl (t, _) ↦ rw t (answer-IsSpoilt handler body r _ bad)
        | inr (t, _) ↦ rw t (inl refl)
      ]

  send_again-state : (o : Option h2.SendResponse × State h2) → (send_again h2 o).1 ≡ o.1
  send_again-state (none, state) = refl
  send_again-state (some respond, state) = refl

  extra :
      (state : State h2)
      → state.poisoned ≡ false
      → IsSpoilt state
      → (false ≡ true) ⊎ (state.got_extra_requests ≡ true)
  extra state e (inl t) = absurd (ground arith)
  extra state e (inr t) = inr t

  dummy_handle_request-IsSpoilt :
      (r : Incoming h2) (state : State h2)
      → IsSpoilt state
      → IsSpoilt (dummy_handle_request h2 r state).1
  unfolding dummy_handle_request
  dummy_handle_request-IsSpoilt r state bad = elim (Option-cases (full_body h2 r.body [])) [
    | inl e ↦ rw (e, dummy_handle_request) bad
    | inr (body, e) ↦ elim (Bool-cases state.poisoned) [
      | inl f ↦ rw (e, dummy_handle_request, f) (inl refl)
      | inr f ↦
          rw (e, dummy_handle_request, f, send_again-state)
            (respond_to-IsSpoilt state.expects body r (record state { poisoned = false })
              (extra state f bad))
    ]
  ]

  finish-IsSpoilt : (state : State h2) → IsSpoilt state → finish h2 state ≡ false
  unfolding finish
  finish-IsSpoilt state bad = ground arith

  handle_requests-IsSpoilt :
      (rs : List (Incoming h2)) (state : State h2)
      → IsSpoilt state
      → finish h2 (handle_requests h2 rs state) ≡ false
  unfolding handle_requests
  handle_requests-IsSpoilt [] state bad = finish-IsSpoilt state bad
  handle_requests-IsSpoilt (r ∷ rs) state bad =
      handle_requests-IsSpoilt rs (dummy_handle_request h2 r state).1
        (dummy_handle_request-IsSpoilt r state bad)

  abbrev clean : List (Text × Text × HandleFn h2) → State h2
  clean expects = record { got_extra_requests = false; expects = expects; poisoned = false }

  abbrev Meets : Incoming h2 → Text → List (Text × Text × HandleFn h2) → State h2 → Type 0
  Meets r body [] after = IsSpoilt after
  Meets r body (e ∷ more) after =
      (Answers r body e × (after ≡ clean more)) ⊎ (IsSpoilt after × (Answers r body e → ⊥))

  respond_to-Meets :
      (r : Incoming h2) (body : Text) (expects : List (Text × Text × HandleFn h2))
      → Meets r body expects (respond_to h2 expects body r (clean expects)).1
  unfolding respond_to answer
  respond_to-Meets r body [] = inr refl
  respond_to-Meets r body ((service, method, handler) ∷ more) =
      elim (eq_cases (h2.path r.parts) (uri_of service method)) [
        | inr (t, other) ↦ rw (t, respond_to) (inr (inl refl, λ a. other a.0))
        | inl (t, same) ↦ elim (Option-cases (handler r.parts body)) [
          | inl e ↦
              rw (t, respond_to, e, answer)
                (inr (inl refl, λ (_, out, found, s, sent). absurd (none_is_not_some found)))
          | inr (out, e) ↦ elim (Option-cases (send h2 out.0 out.1 r.respond)) [
            | inl f ↦
                rw (t, respond_to, e, answer, f)
                  (inr (
                    inl refl,
                    λ (_, out', found, s, sent). absurd (
                        none_is_not_some (
                          sym f
                          ∙ ap (λ x. send h2 x.0 x.1 r.respond) (some-injective _ _ found)
                          ∙ sent)),
                  ))
            | inr (s, f) ↦ rw (t, respond_to, e, answer, f) (inl ((same, out, refl, s, f), refl))
          ]
        ]
      ]

  dummy_handle_request-Meets :
      (r : Incoming h2) (body : Text) (expects : List (Text × Text × HandleFn h2))
      → full_body h2 r.body [] ≡ some body
      → Meets r body expects (dummy_handle_request h2 r (clean expects)).1
  unfolding dummy_handle_request
  dummy_handle_request-Meets r body expects e =
      rw (e, dummy_handle_request, send_again-state) (respond_to-Meets r body expects)

  spoilt_false : {F : Type 0} (b : Bool) → b ≡ false → (F → ⊥) → (b ≡ true) ↔ F
  spoilt_false b e refuse = (λ t. absurd (ground arith), λ f. absurd (refuse f))

  -- A request whose body arrives, by what it meets, before others of which the claim holds.
  next_request :
      (r : Incoming h2) (rs : List (Incoming h2)) (body : Text)
      (expects : List (Text × Text × HandleFn h2)) (after : State h2)
      → Meets r body expects after
      → ((more : List (Text × Text × HandleFn h2))
          → (finish h2 (handle_requests h2 rs (clean more)) ≡ true) ↔ Fulfils rs more)
      → (finish h2 (handle_requests h2 rs after) ≡ true) ↔ Serves r body (Fulfils rs) expects
  next_request r rs body [] after bad rest =
      spoilt_false _ (handle_requests-IsSpoilt rs after bad) (λ x. x)
  next_request r rs body (e ∷ more) after (inl (answered, same)) rest =
      rw same (λ t. (answered, (rest more).0 t), λ (_, f). (rest more).1 f)
  next_request r rs body (e ∷ more) after (inr (bad, unanswered)) rest =
      spoilt_false _ (handle_requests-IsSpoilt rs after bad) (λ (a, _). unanswered a)

  handle_requests-Fulfils :
      (rs : List (Incoming h2)) (expects : List (Text × Text × HandleFn h2))
      → (finish h2 (handle_requests h2 rs (clean expects)) ≡ true) ↔ Fulfils rs expects
  unfolding handle_requests finish dummy_handle_request
  handle_requests-Fulfils [] expects = (λ e. tt, λ e. refl)
  handle_requests-Fulfils (r ∷ rs) expects = elim (Option-cases (full_body h2 r.body [])) [
    | inl e ↦
        rw (e, Fulfils, handle_requests, dummy_handle_request) (handle_requests-Fulfils rs expects)
    | inr (body, e) ↦
        let done =
          next_request r rs body expects _ (dummy_handle_request-Meets r body expects e)
            (handle_requests-Fulfils rs) in
        rw (e, Fulfils) done
  ]

  expect_all-clean :
      (l m : List (Text × Text × HandleFn h2)) → expect_all h2 m (clean l) ≡ some (clean (l ++ m))
  unfolding expect_all expect
  expect_all-clean l [] = ap (λ x. some (clean x)) (sym (append-nil l))
  expect_all-clean l ((service, method, handler) ∷ m) =
      expect_all-clean (l ++ (service, method, handler) ∷ []) m
      ∙ ap (λ x. some (clean x)) (append_assoc l ((service, method, handler) ∷ []) m)

  -- A new server takes any expectations, and after any requests `finish` returns exactly if each request
  -- whose body has arrived, in the order of their turns at the state, has had the path of the next
  -- expectation, was accepted by its closure, and got its response sent. Expectations may be left.
  pub finish-Fulfils :
      (expects : List (Text × Text × HandleFn h2)) (rs : List (Incoming h2))
      → (state : State h2) × (expect_all h2 expects (new_state h2) ≡ some state)
        × ((finish h2 (handle_requests h2 rs state) ≡ true) ↔ Fulfils rs expects)
  finish-Fulfils expects rs =
      (clean expects, expect_all-clean [] expects, handle_requests-Fulfils rs expects)
