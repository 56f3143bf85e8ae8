-- ===== src/Dns/Invariant/Loops.antt =====
-- A loop of grcache-proxy/src/discovery/dns.rs that goes on or stops keeps the invariant.
use mathlib.Core.Option.{some-injective}
use mathlib.Core.Path.{subst}
use grcache.Prelude.{
  ℕ, ◌<◌, ◌≡◌, sym, ap, ◌∙◌, ◌⊎◌, Bool, true, false, Option, none, some, nat_eq, nat_beq,
  nat_beq_iff, arith, Bool-cases, inl, inr, is_some,
}
use grcache.Prelude.Map.{lookup, lookup-insert, lookup-remove}
use grcache.Dns.{
  Handle, Phase, starting, Loop, State, strong_count, is_live, at_phase, stop, HostPort,
  host_port_eq,
}
use grcache.Dns.Cells.{is_live_of_lookup}
use grcache.Dns.Queue.{IsQueue-insert_loop, IsQueue-remove_loop, absent-IsQueue}
use grcache.Dns.Invariant.{weak, is_pending, Attends, Fed, IsCurrent, Balanced, Inv}

true-ne-false : ◌≡◌ {A = Bool} true false → ⊥
true-ne-false e = cc

-- What it is to be fed by the loop that is looked up.
abbrev FedBy : ℕ → HostPort → Option Loop → State → Type 0
FedBy id host_port o s =
    ((o ≡ none) × (lookup id s.commands ≡ some host_port))
    ⊎ ((l : Loop) × (o ≡ some l) × (l.host_port ≡ host_port) × Attends id l.phase)

module _ {s : State} (inv : Inv s) where
  -- The loop `l` goes on to another phase.
  module _ (sender : ℕ) (l : Loop) (phase : Phase) (running : lookup sender s.loops ≡ some l)
      (attends : (host_port : HostPort)
        → lookup host_port s.service_backends ≡ some sender
        → l.host_port ≡ host_port
        → is_live sender s ≡ true
        → Attends sender l.phase
        → Attends sender phase)
      (pends : (h : Handle)
        → lookup sender s.handles ≡ some h
        → 0 < h.strong
        → is_pending sender l.phase ≡ true
        → IsCurrent h ⊎ (is_pending sender phase ≡ true)) where
    abbrev pub moved : Loop
    moved = record { host_port = l.host_port; phase = phase }

    abbrev pub after : State
    after = at_phase sender l.host_port phase s

    running_after : lookup sender after.loops ≡ some moved
    running_after = ground (arith, lookup-insert sender sender moved s.loops)

    loops_elsewhere : (j : ℕ) → nat_beq sender j ≡ false → lookup j after.loops ≡ lookup j s.loops
    loops_elsewhere j other = ground (arith, lookup-insert sender j moved s.loops)

    Fed-own :
        (host_port : HostPort)
        → lookup host_port s.service_backends ≡ some sender
        → is_live sender s ≡ true
        → Fed sender host_port s
        → Fed sender host_port after
    Fed-own host_port mapped live (inl (idle, waits)) = absurd (ground arith)
    Fed-own host_port mapped live (inr (k, e, same_host, att)) =
        let same : k ≡ l = some-injective _ _ (sym e ∙ running) in
        let hosts : l.host_port ≡ host_port =
          subst (λ (x : Loop). x.host_port ≡ host_port) same same_host in
        inr (
          moved,
          running_after,
          hosts,
          attends host_port mapped hosts live
              (subst (λ (x : Loop). Attends sender x.phase) same att),
        )

    Fed-after :
        (j : ℕ) (host_port : HostPort)
        → lookup host_port s.service_backends ≡ some j
        → is_live j s ≡ true
        → Fed j host_port s
        → Fed j host_port after
    Fed-after j host_port mapped live fed = elim (Bool-cases (nat_beq sender j)) [
      | inr other ↦ rw (loops_elsewhere j other) fed
      | inl same ↦
          let e = (nat_beq_iff sender j).0 same in
          subst (λ i. Fed i host_port after) e
            (Fed-own host_port (rw e mapped) (rw e live)
              (subst (λ i. Fed i host_port s) (sym e) fed))
    ]

    Balanced-own :
        (h : Handle)
        → lookup sender s.handles ≡ some h
        → 0 < h.strong
        → Balanced sender h s
        → Balanced sender h after
    Balanced-own h e pos (inl current) = inl current
    Balanced-own h e pos (inr (k, ek, pending)) =
        let same : k ≡ l = some-injective _ _ (sym ek ∙ running) in
        elim (pends h e pos (subst (λ (x : Loop). is_pending sender x.phase ≡ true) same pending)) [
          | inl current ↦ inl current
          | inr p ↦ inr (moved, running_after, p)
        ]

    Balanced-after :
        (j : ℕ) (h : Handle) → lookup j s.handles ≡ some h → 0 < h.strong → Balanced j h after
    Balanced-after j h e pos = elim (Bool-cases (nat_beq sender j)) [
      | inr other ↦ rw (loops_elsewhere j other) (inv.balanced j h e pos)
      | inl same ↦
          let q = (nat_beq_iff sender j).0 same in
          subst (λ i. Balanced i h after) q
            (Balanced-own h (rw q e) pos
              (subst (λ i. Balanced i h s) (sym q) (inv.balanced j h e pos)))
    ]

    loops-after :
        (j : ℕ) (k : Loop)
        → lookup j after.loops ≡ some k
        → (j < s.next) × (is_some (lookup k.host_port s.service_backends) ≡ true)
    loops-after j k e = elim (Bool-cases (nat_beq sender j)) [
      | inr other ↦ inv.loops j k (sym (loops_elsewhere j other) ∙ e)
      | inl same ↦
          let q = (nat_beq_iff sender j).0 same in
          let (small, known) = inv.loops sender l running in
          let made : moved ≡ k =
            some-injective _ _ (sym running_after ∙ ap (λ i. lookup i after.loops) q ∙ e) in
          (
            rw (← q) small,
            subst (λ (x : Loop). is_some (lookup x.host_port s.service_backends) ≡ true) made known,
          )
    ]

    pub Inv-at_phase : Inv after
    unfolding strong_count
    Inv-at_phase = record {
      fresh = inv.fresh;
      queue =
          IsQueue-insert_loop s.next sender s.service_backends s.loops moved s.commands
            (absent-IsQueue s.next sender s.service_backends s.loops l s.commands running inv.queue)
            inv.queue;
      loops = loops-after;
      fed = λ j live.
          let (host_port, mapped, fed) = inv.fed j live in
          (host_port, mapped, Fed-after j host_port mapped live fed);
      balanced = Balanced-after;
    }

  -- The loop stops, as its weak reference is to no live handle.
  module _ (sender : ℕ) (l : Loop) (id : ℕ) (running : lookup sender s.loops ≡ some l)
      (watched : weak l.phase ≡ some id) (idle : (j : ℕ) → is_pending j l.phase ≡ false)
      (dead : is_live id s ≡ false) where
    abbrev stopped : State
    stopped = stop sender s

    kept_elsewhere : (j : ℕ) → nat_beq sender j ≡ false → lookup j stopped.loops ≡ lookup j s.loops
    kept_elsewhere j other = ground (arith, lookup-remove sender j s.loops)

    -- The handle that it feeds is not live either.
    unattended : (k : Loop) → k ≡ l → Attends sender k.phase → is_live sender s ≡ false
    unattended k same (inl begins) =
        let e : l.phase ≡ starting = subst (λ (x : Loop). x.phase ≡ starting) same begins in
        absurd (ground arith)
    unattended k same (inr watches) =
        let e : weak l.phase ≡ some sender =
          subst (λ (x : Loop). weak x.phase ≡ some sender) same watches in
        subst (λ i. is_live i s ≡ false) (some-injective _ _ (sym watched ∙ e)) dead

    sender_dead : is_live sender s ≡ true → is_live sender s ≡ false
    sender_dead live = elim ((inv.fed sender live).2) [
      | inl (none_runs, waits) ↦ absurd (ground arith)
      | inr (k, e, _, att) ↦ unattended k (some-injective _ _ (sym e ∙ running)) att
    ]

    -- So it is none of the live ones.
    not_sender : (j : ℕ) → is_live j s ≡ true → nat_beq sender j ≡ false
    not_sender j live = elim (Bool-cases (nat_beq sender j)) [
      | inr other ↦ other
      | inl same ↦
          let q = (nat_beq_iff sender j).0 same in
          let alive : is_live sender s ≡ true = rw q live in
          absurd (true-ne-false (sym alive ∙ sender_dead alive))
    ]

    pub Inv-stop : Inv stopped
    unfolding strong_count
    Inv-stop = record {
      fresh = inv.fresh;
      queue = IsQueue-remove_loop s.next sender s.service_backends s.loops s.commands inv.queue;
      loops = λ j k e. elim (Bool-cases (nat_beq sender j)) [
        | inr other ↦ inv.loops j k (sym (kept_elsewhere j other) ∙ e)
        | inl same ↦ absurd (ground (arith, lookup-remove sender j s.loops))
      ];
      fed = λ j live.
          let (host_port, mapped, fed) = inv.fed j live in
          (
            host_port,
            mapped,
            subst (λ (o : Option Loop). FedBy j host_port o s)
                (sym (kept_elsewhere j (not_sender j live))) fed,
          );
      balanced = λ j h e pos.
          let live = is_live_of_lookup j s h e pos in
          rw (kept_elsewhere j (not_sender j live)) (inv.balanced j h e pos);
    }
