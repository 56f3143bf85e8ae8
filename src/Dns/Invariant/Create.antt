-- ===== src/Dns/Invariant/Create.antt =====
-- A new handle of grcache-proxy/src/discovery/dns.rs keeps the invariant.
use grcache.Prelude.{
  ℕ, ◌+◌, ◌≡◌, ◌≢◌, true, false, none, some, nat_eq, nat_beq, nat_beq_iff, arith, Option-cases,
  Bool-cases, inl, inr, eq_cases, eq_refl,
}
use grcache.Prelude.Map.{lookup, insert, lookup-insert}
use grcache.Dns.{State, strong_count, is_live, HostPort, host_port_eq}
use grcache.Dns.Invariant.{Fed, Inv}
use grcache.Dns.{create, upgraded, new_handle}
use grcache.Dns.Cells.{lookup-snoc}
use grcache.Dns.Queue.{IsQueue-insert_host, IsQueue-snoc, fresh-IsQueue}

module _ {s : State} (inv : Inv s) where
  next_not_running : lookup s.next s.loops ≡ none
  next_not_running = elim (Option-cases (lookup s.next s.loops)) [
    | inl n ↦ n
    | inr (l, e) ↦ absurd (omega (arith, (inv.loops s.next l e).0))
  ]

  -- A host whose handle is gone, or that has had none, gets a new one.
  module _ (host_port : HostPort) (gone : upgraded host_port s ≡ none) where
    not_mapped : (j : ℕ) → is_live j s ≡ true → lookup host_port s.service_backends ≢ some j
    unfolding upgraded
    not_mapped j live e = absurd (ground arith)

    host_kept :
        (hp : HostPort) (j : ℕ)
        → is_live j s ≡ true
        → lookup hp s.service_backends ≡ some j
        → lookup hp (insert host_port s.next s.service_backends) ≡ some j
    host_kept hp j live mapped = elim (eq_cases host_port hp) [
      | inl (t, e) ↦ absurd (not_mapped j live (rw e mapped))
      | inr (t, e) ↦ rw (lookup-insert host_port hp s.next s.service_backends, t) mapped
    ]

    live_before :
        (j : ℕ)
        → nat_beq s.next j ≡ false
        → is_live j (create host_port s) ≡ true
        → is_live j s ≡ true
    unfolding create strong_count
    live_before j other live = ground (arith, lookup-insert s.next j new_handle s.handles)

    create-Fed :
        (j : ℕ)
        → is_live j (create host_port s) ≡ true
        → (hp : HostPort) × (lookup hp (create host_port s).service_backends ≡ some j)
          × Fed j hp (create host_port s)
    unfolding create
    create-Fed j live = elim (Bool-cases (nat_beq s.next j)) [
      | inl same ↦
          let q = (nat_beq_iff s.next j).0 same in
          (
            host_port,
            ground (
              arith,
              lookup-insert host_port host_port s.next s.service_backends,
              eq_refl host_port,
            ),
            inl (
              rw (← q) next_not_running,
              ground (
                arith,
                lookup-snoc s.next j host_port s.commands,
                fresh-IsQueue s.next s.service_backends s.loops s.commands inv.queue,
              ),
            ),
          )
      | inr other ↦
          let before = live_before j other live in
          let (hp, mapped, fed) = inv.fed j before in
          (
            hp,
            host_kept hp j before mapped,
            elim fed [
              | inl (idle, waits) ↦
                  inl (idle, ground (arith, lookup-snoc s.next j host_port s.commands))
              | inr running ↦ inr running
            ],
          )
    ]

    pub Inv-create : Inv (create host_port s)
    unfolding create
    Inv-create = record {
      fresh = λ j h e. elim (Bool-cases (nat_beq s.next j)) [
        | inl same ↦ omega (arith, (nat_beq_iff s.next j).0 same)
        | inr other ↦
            let old : lookup j s.handles ≡ some h =
              ground (arith, lookup-insert s.next j new_handle s.handles) in
            omega (arith, inv.fresh j h old)
      ];
      queue =
          IsQueue-snoc (s.next + 1) s.next (insert host_port s.next s.service_backends) s.loops
            host_port s.commands (omega arith)
            (ground (
              arith,
              lookup-insert host_port host_port s.next s.service_backends,
              eq_refl host_port,
            ))
            next_not_running (fresh-IsQueue s.next s.service_backends s.loops s.commands inv.queue)
            (IsQueue-insert_host s.next s.service_backends s.loops host_port s.commands inv.queue);
      loops = λ j l e.
          let (small, known) = inv.loops j l e in
          (
            omega (arith, small),
            ground (arith, lookup-insert host_port l.host_port s.next s.service_backends),
          );
      fed = create-Fed;
      balanced = λ j h e pos. elim (Bool-cases (nat_beq s.next j)) [
        | inl same ↦ inl (
          ground (arith, lookup-insert s.next j new_handle s.handles),
          ground (arith, lookup-insert s.next j new_handle s.handles),
        )
        | inr other ↦
            inv.balanced j h (ground (arith, lookup-insert s.next j new_handle s.handles)) pos
      ];
    }
