-- ===== src/Dns/Invariant/Moves.antt =====
-- The callers and the service of grcache-proxy/src/discovery/dns.rs keep the invariant.
use mathlib.Core.Option.{some-injective}
use mathlib.Core.Path.{subst}
use grcache.Prelude.{
  ℕ, ◌<◌, ◌≡◌, refl, sym, ◌∙◌, true, some, List, [], ◌∷◌, Text, nat_eq, nat_beq, nat_beq_iff, arith,
  Option-cases, Bool-cases, inl, inr, is_some,
}
use grcache.Prelude.Map.{lookup, insert, lookup-insert}
use grcache.Dns.{
  Handle, starting, Loop, State, strong_count, is_live, on_handle, HostPort, host_port_eq,
}
use grcache.Dns.Cells.{is_live-eq_true}
use grcache.Dns.Queue.{IsQueue, IsQueue-insert_loop}
use grcache.Dns.Invariant.{Fed, Inv}
use grcache.Dns.{upgraded, receive, new, backends_for_hostname, clone, drop}
use grcache.Dns.Cells.{upgraded-is_live}
use grcache.Dns.Invariant.Handles.{Inv-on_handle}
use grcache.Dns.Invariant.Create.{Inv-create}

pub Inv-new : Inv new
unfolding strong_count lookup
Inv-new = record {
  fresh = λ id h e. absurd (ground arith);
  queue = tt;
  loops = λ id l e. absurd (ground arith);
  fed = λ id live. absurd (ground arith);
  balanced = λ id h e pos. absurd (ground arith);
}

module _ {s : State} (inv : Inv s) where
  module _ (sender : ℕ) (host_port : HostPort) (rest : List (ℕ × HostPort))
      (first : s.commands ≡ (sender, host_port) ∷ rest) where
    abbrev started : Loop
    started = record { host_port = host_port; phase = starting }

    abbrev accepted : State
    accepted = record s { commands = rest; loops = insert sender started s.loops }

    waiting : IsQueue s.next s.service_backends s.loops ((sender, host_port) ∷ rest)
    waiting = subst (IsQueue s.next s.service_backends s.loops) first inv.queue

    accepted-Fed :
        (j : ℕ) (hp : HostPort)
        → lookup hp s.service_backends ≡ some j
        → Fed j hp s
        → Fed j hp accepted
    unfolding lookup
    accepted-Fed j hp mapped fed = elim (Bool-cases (nat_beq sender j)) [
      | inr other ↦ elim fed [
        | inl (idle, waits) ↦ inl (
          ground (arith, lookup-insert sender j started s.loops),
          rw (sym waits) (rw first (rw other)),
        )
        | inr (l, e, h, att) ↦
            inr (l, ground (arith, lookup-insert sender j started s.loops), h, att)
      ]
      | inl same ↦ elim fed [
        | inl (idle, waits) ↦ inr (
          started,
          ground (arith, lookup-insert sender j started s.loops),
          some-injective _ _ (rw same at (subst (λ c. lookup j c ≡ some hp) first waits)),
          inl refl,
        )
        | inr (l, e, h, att) ↦
            let q = (nat_beq_iff sender j).0 same in absurd (ground (arith, waiting.2))
      ]
    ]

    Inv-accepted : Inv accepted
    unfolding strong_count
    Inv-accepted = record {
      fresh = inv.fresh;
      queue =
          IsQueue-insert_loop s.next sender s.service_backends s.loops started rest waiting.3
            waiting.4;
      loops = λ j l e. elim (Bool-cases (nat_beq sender j)) [
        | inl same ↦
            let q = (nat_beq_iff sender j).0 same in
            let made : started ≡ l =
              some-injective _ _ (ground (arith, lookup-insert sender j started s.loops)) in
            (
              rw (← q) waiting.0,
              subst (λ (x : Loop). is_some (lookup x.host_port s.service_backends) ≡ true) made
                  waiting.1,
            )
        | inr other ↦ inv.loops j l (ground (arith, lookup-insert sender j started s.loops))
      ];
      fed = λ j live.
          let (hp, mapped, fed) = inv.fed j live in (hp, mapped, accepted-Fed j hp mapped fed);
      balanced = λ j h e pos. elim (inv.balanced j h e pos) [
        | inl current ↦ inl current
        | inr (l, el, pending) ↦ elim (Bool-cases (nat_beq sender j)) [
          | inl same ↦ let q = (nat_beq_iff sender j).0 same in absurd (ground (arith, waiting.2))
          | inr other ↦ inr (l, ground (arith, lookup-insert sender j started s.loops), pending)
        ]
      ];
    }

  receive-commands : (l : List (ℕ × HostPort)) → s.commands ≡ l → Inv (receive s)
  unfolding receive
  receive-commands [] e = rw (e, receive) inv
  receive-commands ((sender, host_port) ∷ rest) e =
      rw (e, receive) (Inv-accepted sender host_port rest e)

  pub Inv-receive : Inv (receive s)
  Inv-receive = receive-commands s.commands refl

  -- An owner that clones or drops its handle, which is live.
  module _ (id : ℕ) (live : is_live id s ≡ true) where
    pub Inv-clone : Inv (on_handle id clone s)
    Inv-clone =
        let (h', e', pos') = is_live-eq_true id s live in
        Inv-on_handle inv id clone (λ h e pos. (
          subst (λ (x : Handle). 0 < x.strong) (some-injective _ _ (sym e' ∙ e)) pos',
          λ balanced. balanced,
        ))

  pub Inv-drop : (id : ℕ) → Inv (on_handle id drop s)
  Inv-drop id = Inv-on_handle inv id drop (λ h e pos. (omega (arith, pos), λ balanced. balanced))

  pub Inv-backends_for_hostname :
      (hostname : Text) (port : ℕ) → Inv (backends_for_hostname hostname port s).0
  unfolding backends_for_hostname
  Inv-backends_for_hostname hostname port = elim (Option-cases (upgraded (hostname, port) s)) [
    | inl gone ↦ rw (gone, backends_for_hostname) (Inv-create inv (hostname, port) gone)
    | inr (id, found) ↦
        rw (found, backends_for_hostname)
          (Inv-clone id (upgraded-is_live (hostname, port) id s found).1)
  ]
