-- ===== src/Dns/Invariant/Phases.antt =====
-- The changes of a loop of grcache-proxy/src/discovery/dns.rs from one phase to the next keep the
-- invariant.
use mathlib.Core.Option.{some-injective}
use mathlib.Core.Path.{subst}
use grcache.Prelude.{
  ℕ, ◌<◌, ◌≡◌, ◌≢◌, refl, sym, ap, ◌∙◌, ◌⊎◌, true, false, some, List, nat_eq, nat_beq, nat_beq_iff,
  arith, Option-cases, inl, inr,
}
use grcache.Prelude.Map.{lookup, lookup-insert}
use grcache.Dns.{
  Handle, Phase, starting, looking, changed, updating, checking, Loop, State, modify, is_live,
  on_handle, at_phase, HostPort, host_port_eq,
}
use grcache.Dns.Cells.{lookup-modify, is_live-eq_true, is_live_of_lookup}
use grcache.Dns.Invariant.{weak, is_pending, Attends, IsCurrent, Inv}
use grcache.Dns.{Backend, set_backends, set_ready, update, clone, drop}
use grcache.Dns.Invariant.Handles.{Inv-on_handle}
use grcache.Dns.Invariant.Loops.{Inv-at_phase}

module _ {s : State} (inv : Inv s) (sender : ℕ) (host_port : HostPort) where
  abbrev pub loop_at : Phase → Loop
  loop_at phase = record { host_port = host_port; phase = phase }

  abbrev pub Runs : Phase → Type 0
  Runs phase = lookup sender s.loops ≡ some (loop_at phase)

  -- The phase changes, and neither the weak reference nor what is pending.
  pub goes_on :
      (phase phase' : Phase)
      → Runs phase
      → weak phase ≡ weak phase'
      → phase ≢ starting
      → ((h : Handle)
          → lookup sender s.handles ≡ some h
          → 0 < h.strong
          → is_pending sender phase ≡ true
          → IsCurrent h ⊎ (is_pending sender phase' ≡ true))
      → Inv (at_phase sender host_port phase' s)
  goes_on phase phase' running same begun pends =
      Inv-at_phase inv sender (loop_at phase) phase' running
        (λ hp mapped hosts live att. elim att [
          | inl begins ↦ absurd (begun begins)
          | inr watches ↦ inr (sym same ∙ watches)
        ])
        pends

  -- A live handle that this loop feeds is the one of its weak reference.
  feeds :
      (id : ℕ) (phase : Phase)
      → Runs phase
      → weak phase ≡ some id
      → is_live sender s ≡ true
      → id ≡ sender
  feeds id phase running watched live = elim ((inv.fed sender live).2) [
    | inl (idle, waits) ↦ absurd (ground arith)
    | inr (l, e, _, att) ↦
        let same : l ≡ loop_at phase = some-injective _ _ (sym e ∙ running) in
        elim (subst (λ (x : Loop). Attends sender x.phase) same att) [
          | inl begins ↦
              absurd
                (subst (λ (q : Phase). weak q ≢ some id) (sym begins) (λ h. ground arith) watched)
          | inr watches ↦ some-injective _ _ (sym watched ∙ watches)
        ]
  ]

  pub begin :
      (id : ℕ)
      → Runs starting
      → lookup host_port s.service_backends ≡ some id
      → Inv (at_phase sender host_port (looking id) s)
  begin id running found =
      Inv-at_phase inv sender (loop_at starting) (looking id) running
        (λ hp mapped hosts live att.
          inr (sym found ∙ ap (λ x. lookup x s.service_backends) hosts ∙ mapped))
        (λ h e pos pending. absurd (ground arith))

  pub send :
      (id : ℕ) (backends : List Backend)
      → Runs (looking id)
      → Inv (at_phase sender host_port (changed id) (on_handle sender (set_backends backends) s))
  send id backends running =
      let moved =
        goes_on (looking id) (changed id) running refl (λ e. absurd (cc))
          (λ h e pos pending. absurd (ground arith)) in
      Inv-on_handle moved sender (set_backends backends) (λ h e pos. (
        pos,
        λ balanced. inr (
          loop_at (changed id),
          ground (arith, lookup-insert sender sender (loop_at (changed id)) s.loops),
          (nat_beq_iff id sender).1
              (feeds id (looking id) running refl (is_live_of_lookup sender s h e pos)),
        ),
      ))

  pub upgrade :
      (id : ℕ)
      → Runs (changed id)
      → is_live id s ≡ true
      → Inv (at_phase sender host_port (updating id) (on_handle id clone s))
  upgrade id running live =
      let moved =
        goes_on (changed id) (updating id) running refl (λ e. absurd (cc))
          (λ h e pos pending. inr pending) in
      let (h', e', pos') = is_live-eq_true id s live in
      Inv-on_handle moved id clone (λ h e pos. (
        subst (λ (x : Handle). 0 < x.strong) (some-injective _ _ (sym e' ∙ e)) pos',
        λ balanced. balanced,
      ))

  pub give_up :
      (id : ℕ)
      → Runs (changed id)
      → is_live id s ≡ false
      → Inv (at_phase sender host_port (checking id) s)
  give_up id running dead =
      goes_on (changed id) (checking id) running refl (λ e. absurd (cc))
        (λ h e pos pending.
          let same = (nat_beq_iff id sender).0 pending in
          let live : is_live id s ≡ true = rw same (is_live_of_lookup sender s h e pos) in
          absurd (ground arith))

  update-IsCurrent :
      (id : ℕ) (h : Handle)
      → lookup sender (modify id drop (modify id update s.handles)) ≡ some h
      → nat_beq id sender ≡ true
      → IsCurrent h
  update-IsCurrent id h e same = elim (Option-cases (lookup sender s.handles)) [
    | inl n ↦ absurd (
        ground (
          arith,
          lookup-modify id sender drop (modify id update s.handles),
          lookup-modify id sender update s.handles,
        ))
    | inr (old, o) ↦
        let made : drop (update old) ≡ h = some-injective _ _ (
          ground (
            arith,
            lookup-modify id sender drop (modify id update s.handles),
            lookup-modify id sender update s.handles,
          )) in
        subst IsCurrent made (refl, refl)
  ]

  pub refresh :
      (id : ℕ)
      → Runs (updating id)
      → Inv (at_phase sender host_port (checking id) (on_handle id drop (on_handle id update s)))
  refresh id running =
      let updated = Inv-on_handle inv id update (λ h e pos. (pos, λ balanced. inl (refl, refl))) in
      let dropped =
        Inv-on_handle updated id drop (λ h e pos. (omega (arith, pos), λ balanced. balanced)) in
      Inv-at_phase dropped sender (loop_at (updating id)) (checking id) running
        (λ hp mapped hosts live att. elim att [
          | inl begins ↦ absurd (cc)
          | inr watches ↦ inr watches
        ])
        (λ h e pos pending. inl (update-IsCurrent id h e pending))

  pub again :
      (id : ℕ)
      → Runs (checking id)
      → Inv (at_phase sender host_port (looking id) (on_handle sender set_ready s))
  again id running =
      let signalled = Inv-on_handle inv sender set_ready (λ h e pos. (pos, λ balanced. balanced)) in
      Inv-at_phase signalled sender (loop_at (checking id)) (looking id) running
        (λ hp mapped hosts live att. elim att [
          | inl begins ↦ absurd (cc)
          | inr watches ↦ inr watches
        ])
        (λ h e pos pending. absurd (ground arith))
