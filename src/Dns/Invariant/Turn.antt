-- ===== src/Dns/Invariant/Turn.antt =====
-- A turn of a loop of grcache-proxy/src/discovery/dns.rs keeps the invariant.
use mathlib.Core.Option.{some-injective}
use mathlib.Core.Path.{subst}
use grcache.Prelude.{
  ℕ, ◌≡◌, refl, true, false, Option, none, some, [], nat_eq, nat_beq, arith, Option-cases,
  Bool-cases, inl, inr,
}
use grcache.Prelude.Map.{lookup}
use grcache.Dns.{
  Phase, starting, looking, changed, updating, checking, State, strong_count, is_live, HostPort,
  host_port_eq,
}
use grcache.Dns.Invariant.{Inv}
use grcache.Dns.{Response, failed, addresses, collect_backends, is_modified, advance_loop, advance}
use grcache.Dns.Invariant.Loops.{Inv-stop}
use grcache.Dns.Invariant.Phases.{
  goes_on, begin, send, upgrade, give_up, refresh, again, Runs, loop_at,
}

module _ {s : State} (inv : Inv s) (sender : ℕ) (host_port : HostPort) where
  -- What a turn leads to, if it does not panic.
  Turns : Option State → Type 0
  Turns none = Unit
  Turns (some t) = Inv t

  not_live : (id : ℕ) → nat_beq (strong_count id s) 0 ≡ true → is_live id s ≡ false
  not_live id zero = ground arith

  looking-Turns :
      (r : Response) (id : ℕ)
      → Runs inv sender host_port (looking id)
      → Turns (advance_loop r sender host_port (looking id) s)
  unfolding advance_loop Turns
  looking-Turns failed id running = elim (Bool-cases (nat_beq (strong_count id s) 0)) [
    | inl zero ↦
        rw (zero, advance_loop)
          (Inv-stop inv sender (loop_at inv sender host_port (looking id)) id running refl
            (λ j. refl) (not_live id zero))
    | inr more ↦ rw (more, advance_loop) inv
  ]
  looking-Turns (addresses addrs) id running =
      let backends = collect_backends host_port.1 addrs [] in
      elim (Bool-cases (is_modified sender backends s.handles)) [
        | inl yes_modified ↦
            rw (yes_modified, advance_loop) (send inv sender host_port id backends running)
        | inr not_modified ↦
            rw (not_modified, advance_loop)
              (goes_on inv sender host_port (looking id) (checking id) running refl
                (λ e. absurd (cc)) (λ h e pos pending. absurd (ground arith)))
      ]

  advance_loop-Turns :
      (r : Response) (phase : Phase)
      → Runs inv sender host_port phase
      → Turns (advance_loop r sender host_port phase s)
  unfolding advance_loop Turns
  advance_loop-Turns r starting running =
      elim (Option-cases (lookup host_port s.service_backends)) [
        | inl n ↦ rw (n, advance_loop) tt
        | inr (id, e) ↦ rw (e, advance_loop) (begin inv sender host_port id running e)
      ]
  advance_loop-Turns r (looking id) running = looking-Turns r id running
  advance_loop-Turns r (changed id) running = elim (Bool-cases (is_live id s)) [
    | inl live ↦ rw (live, advance_loop) (upgrade inv sender host_port id running live)
    | inr dead ↦ rw (dead, advance_loop) (give_up inv sender host_port id running dead)
  ]
  advance_loop-Turns r (updating id) running = refresh inv sender host_port id running
  advance_loop-Turns r (checking id) running = elim (Bool-cases (nat_beq (strong_count id s) 0)) [
    | inl zero ↦
        rw (zero, advance_loop)
          (Inv-stop inv sender (loop_at inv sender host_port (checking id)) id running refl
            (λ j. refl) (not_live id zero))
    | inr more ↦ rw (more, advance_loop) (again inv sender host_port id running)
  ]

-- So does a turn of any loop.
pub Inv-advance :
    {s : State} (inv : Inv s) (r : Response) (sender : ℕ) {t : State}
    → advance r sender s ≡ some t
    → Inv t
unfolding advance Turns
Inv-advance {s = s} inv r sender e = elim (Option-cases (lookup sender s.loops)) [
  | inl n ↦ subst Inv (some-injective _ _ (rw (n, advance) at e)) inv
  | inr (l, el) ↦
      subst (Turns inv sender l.host_port) (rw (el, advance) at e)
        (advance_loop-Turns inv sender l.host_port r l.phase el)
]
