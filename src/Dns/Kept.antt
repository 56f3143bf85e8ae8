-- ===== src/Dns/Kept.antt =====
-- What the steps of grcache-proxy/src/discovery/dns.rs keep: a handle without owners gets none again,
-- and the map forgets a handle only once it has none.
use mathlib.Core.Option.{some-injective}
use mathlib.Core.Path.{subst}
use Prim.Native.Nat.{◌≤◌}
use grcache.Prelude.{
  ℕ, ◌<◌, ◌≡◌, refl, sym, ◌∙◌, true, Option, none, some, List, [], ◌∷◌, arith, Option-cases,
  Bool-cases, inl, inr, nat_eq, nat_beq, Text, eq_cases,
}
use grcache.Prelude.Map.{Map, lookup, insert, remove, lookup-insert}
use grcache.Dns.{
  ready_of, Handle, Phase, starting, looking, changed, updating, checking, Loop, State, is_live,
  HostPort, host_port_eq, Response, failed, addresses, advance_loop, advance, is_modified,
  collect_backends, strong_count, on_handle, at_phase, stop, create, upgraded, receive,
  backends_for_hostname, new_handle, clone, drop, update, set_backends, set_ready,
}
use grcache.Dns.Cells.{
  lookup-modify, modify-eq-some, is_live-eq_true, is_live_of_lookup, upgraded-is_live,
}
use grcache.Dns.Step.{Step, call, copy, release, accept, turn, Steps, here, next}

pub record Keeps (s t : State) : Type 0 where
  pub grows : s.next ≤ t.next
  pub dies : (id : ℕ) → id < s.next → is_live id t ≡ true → is_live id s ≡ true
  pub maps :
      (host_port : HostPort) (id : ℕ)
      → id < s.next
      → lookup host_port s.service_backends ≡ some id
      → is_live id t ≡ true
      → lookup host_port t.service_backends ≡ some id
  pub stays_ready : (id : ℕ) → id < s.next → ready_of id s ≡ true → ready_of id t ≡ true

pub Keeps-trans : {s t u : State} → Keeps s t → Keeps t u → Keeps s u
Keeps-trans {s = s} {t = t} {u = u} k k' = record {
  grows = omega (arith, k.grows, k'.grows);
  dies = λ id small live. k.dies id small (k'.dies id (omega (arith, small, k.grows)) live);
  maps = λ host_port id small mapped live.
      let small' : id < t.next = omega (arith, small, k.grows) in
      k'.maps host_port id small' (k.maps host_port id small mapped (k'.dies id small' live)) live;
  stays_ready = λ id small ready.
      k'.stays_ready id (omega (arith, small, k.grows)) (k.stays_ready id small ready);
}

pub Keeps-refl : (s : State) → Keeps s s
Keeps-refl s = record {
  grows = omega arith;
  dies = λ id small live. live;
  maps = λ host_port id small mapped live. mapped;
  stays_ready = λ id small ready. ready;
}

-- The commands and the loops are none of its business.
Keeps-loops :
    (s : State) (commands : List (ℕ × HostPort)) (loops : Map ℕ Loop)
    → Keeps s (record s { commands = commands; loops = loops })
unfolding strong_count ready_of
Keeps-loops s commands loops = record {
  grows = omega arith;
  dies = λ id small live. live;
  maps = λ host_port id small mapped live. mapped;
  stays_ready = λ id small ready. ready;
}

Keeps-on_handle :
    (s : State) (id : ℕ) (f : Handle → Handle)
    → ((h : Handle) → lookup id s.handles ≡ some h → 0 < (f h).strong → 0 < h.strong)
    → ((h : Handle) → h.ready ≡ true → (f h).ready ≡ true)
    → Keeps s (on_handle id f s)
unfolding ready_of
Keeps-on_handle s id f calm lasting = record {
  grows = omega arith;
  dies = λ j small live.
      let (h, e, pos) = is_live-eq_true j (on_handle id f s) live in
      elim (modify-eq-some id j f s.handles h e) [
        | inl e' ↦ is_live_of_lookup j s h e' pos
        | inr (old, same, e', made) ↦
            is_live_of_lookup j s old e'
              (calm old (rw same e') (subst (λ (x : Handle). 0 < x.strong) made pos))
      ];
  maps = λ host_port j small mapped live. mapped;
  stays_ready = λ j small ready. elim (Option-cases (lookup j s.handles)) [
    | inl n ↦ absurd (ground arith)
    | inr (h, e) ↦
        let still = lasting h (ground arith) in ground (arith, lookup-modify id j f s.handles)
  ];
}

Keeps-clone : (s : State) (id : ℕ) → is_live id s ≡ true → Keeps s (on_handle id clone s)
Keeps-clone s id live =
    let (h', e', pos') = is_live-eq_true id s live in
    Keeps-on_handle s id clone
      (λ h e pos. subst (λ (x : Handle). 0 < x.strong) (some-injective _ _ (sym e' ∙ e)) pos')
      (λ h ready. ready)

Keeps-create :
    (s : State) (host_port : HostPort) → upgraded host_port s ≡ none → Keeps s (create host_port s)
unfolding create strong_count upgraded ready_of
Keeps-create s host_port gone = record {
  grows = omega arith;
  dies = λ id small live. ground (arith, lookup-insert s.next id new_handle s.handles);
  maps = λ hp id small mapped live.
      let before : is_live id s ≡ true =
        ground (arith, lookup-insert s.next id new_handle s.handles) in
      elim (eq_cases host_port hp) [
        | inl (t, e) ↦
            let here_mapped : lookup host_port s.service_backends ≡ some id = rw e mapped in
            absurd (ground arith)
        | inr (t, e) ↦ rw (lookup-insert host_port hp s.next s.service_backends, t) mapped
      ];
  stays_ready = λ id small ready. ground (arith, lookup-insert s.next id new_handle s.handles);
}

pub Keeps-call :
    (s : State) (hostname : Text) (port : ℕ) → Keeps s (backends_for_hostname hostname port s).0
unfolding backends_for_hostname upgraded
Keeps-call s hostname port = elim (Option-cases (upgraded (hostname, port) s)) [
  | inl gone ↦ rw (gone, backends_for_hostname) (Keeps-create s (hostname, port) gone)
  | inr (id, found) ↦
      rw (found, backends_for_hostname)
        (Keeps-clone s id (upgraded-is_live (hostname, port) id s found).1)
]

Keeps-receive : (s : State) (l : List (ℕ × HostPort)) → s.commands ≡ l → Keeps s (receive s)
unfolding receive
Keeps-receive s [] e = simp (e, receive) (Keeps-refl s)
Keeps-receive s ((sender, host_port) ∷ rest) e =
    simp (e, receive)
      (Keeps-loops s rest
        (insert sender (record { host_port = host_port; phase = starting }) s.loops))

-- A turn changes a handle, if any, then its own loop.
Keeps-at_phase :
    {s t : State} (sender : ℕ) (host_port : HostPort) (phase : Phase)
    → Keeps s t
    → Keeps s (at_phase sender host_port phase t)
Keeps-at_phase {t = t} sender host_port phase k = Keeps-trans k (
    Keeps-loops t t.commands
      (insert sender (record { host_port = host_port; phase = phase }) t.loops))

Keeps-stop : (s : State) (sender : ℕ) → Keeps s (stop sender s)
Keeps-stop s sender = Keeps-loops s s.commands (remove sender s.loops)

-- What a turn leads to, if it does not panic.
KeepsTo : State → Option State → Type 0
KeepsTo s none = Unit
KeepsTo s (some t) = Keeps s t

module _ (s : State) (sender : ℕ) (host_port : HostPort) where
  advance_loop-KeepsTo :
      (r : Response) (phase : Phase) → KeepsTo s (advance_loop r sender host_port phase s)
  unfolding advance_loop KeepsTo
  advance_loop-KeepsTo r starting = elim (Option-cases (lookup host_port s.service_backends)) [
    | inl n ↦ rw (n, advance_loop) tt
    | inr (id, e) ↦
        rw (e, advance_loop) (Keeps-at_phase sender host_port (looking id) (Keeps-refl s))
  ]
  advance_loop-KeepsTo failed (looking id) = elim (Bool-cases (nat_beq (strong_count id s) 0)) [
    | inl e ↦ rw (e, advance_loop) (Keeps-stop s sender)
    | inr e ↦ rw (e, advance_loop) (Keeps-refl s)
  ]
  advance_loop-KeepsTo (addresses addrs) (looking id) =
      let backends = collect_backends host_port.1 addrs [] in
      elim (Bool-cases (is_modified sender backends s.handles)) [
        | inl e ↦
            rw (e, advance_loop)
              (Keeps-at_phase sender host_port (changed id) (
                Keeps-on_handle s sender (set_backends backends) (λ h l pos. pos)
                  (λ h ready. ready)))
        | inr e ↦
            rw (e, advance_loop) (Keeps-at_phase sender host_port (checking id) (Keeps-refl s))
      ]
  advance_loop-KeepsTo r (changed id) = elim (Bool-cases (is_live id s)) [
    | inl e ↦
        rw (e, advance_loop) (Keeps-at_phase sender host_port (updating id) (Keeps-clone s id e))
    | inr e ↦ rw (e, advance_loop) (Keeps-at_phase sender host_port (checking id) (Keeps-refl s))
  ]
  advance_loop-KeepsTo r (updating id) = Keeps-at_phase sender host_port (checking id) (
      Keeps-trans (Keeps-on_handle s id update (λ h l pos. pos) (λ h ready. ready)) (
        Keeps-on_handle (on_handle id update s) id drop (λ h l pos. omega (arith, pos))
          (λ h ready. ready)))
  advance_loop-KeepsTo r (checking id) = elim (Bool-cases (nat_beq (strong_count id s) 0)) [
    | inl e ↦ rw (e, advance_loop) (Keeps-stop s sender)
    | inr e ↦
        rw (e, advance_loop)
          (Keeps-at_phase sender host_port (looking id)
            (Keeps-on_handle s sender set_ready (λ h l pos. pos) (λ h ready. refl)))
  ]

Keeps-advance :
    (r : Response) (sender : ℕ) (s : State) {t : State} → advance r sender s ≡ some t → Keeps s t
unfolding advance KeepsTo
Keeps-advance r sender s e = elim (Option-cases (lookup sender s.loops)) [
  | inl n ↦ subst (Keeps s) (some-injective _ _ (rw (n, advance) at e)) (Keeps-refl s)
  | inr (l, el) ↦
      subst (KeepsTo s) (rw (el, advance) at e)
        (advance_loop-KeepsTo s sender l.host_port r l.phase)
]

pub Keeps-Step : {s t : State} → Step s t → Keeps s t
Keeps-Step {s = s} (call hostname port) = Keeps-call s hostname port
Keeps-Step {s = s} (copy id live) = Keeps-clone s id live
Keeps-Step {s = s} (release id live) =
    Keeps-on_handle s id drop (λ h l pos. omega (arith, pos)) (λ h ready. ready)
Keeps-Step {s = s} accept = Keeps-receive s s.commands refl
Keeps-Step {s = s} (turn r sender e) = Keeps-advance r sender s e

pub Keeps-Steps : {s t : State} → Steps s t → Keeps s t
Keeps-Steps {s = s} here = Keeps-refl s
Keeps-Steps (next run step) = Keeps-trans (Keeps-Steps run) (Keeps-Step step)
