-- ===== src/Dns/Invariant/Handles.antt =====
-- A change of one handle in grcache-proxy/src/discovery/dns.rs keeps the invariant.
use mathlib.Core.Path.{subst}
use grcache.Prelude.{ℕ, ◌<◌, ◌≡◌, sym, true, some, nat_eq, inl, inr}
use grcache.Prelude.Map.{lookup}
use grcache.Dns.{Handle, State, modify, is_live, on_handle, host_port_eq}
use grcache.Dns.Cells.{modify-eq-some, is_live-eq_true, is_live_of_lookup}
use grcache.Dns.Invariant.{Balanced, Inv}

module _ {s : State} (inv : Inv s) where
  -- A change of a handle that does not bring it back, and keeps it balanced.
  module _ (id : ℕ) (f : Handle → Handle)
      (keeps : (h : Handle)
        → lookup id s.handles ≡ some h
        → 0 < (f h).strong
        → (0 < h.strong) × (Balanced id h s → Balanced id (f h) s)) where
    pub live_before : (j : ℕ) → is_live j (on_handle id f s) ≡ true → is_live j s ≡ true
    live_before j live =
        let (h, e, pos) = is_live-eq_true j (on_handle id f s) live in
        elim (modify-eq-some id j f s.handles h e) [
          | inl e' ↦ is_live_of_lookup j s h e' pos
          | inr (old, same, e', made) ↦
              is_live_of_lookup j s old e'
                (keeps old (rw same e') (subst (λ (x : Handle). 0 < x.strong) made pos)).0
        ]

    Balanced-on_handle :
        (j : ℕ) (h : Handle)
        → lookup j (modify id f s.handles) ≡ some h
        → 0 < h.strong
        → Balanced j h s
    Balanced-on_handle j h e pos = elim (modify-eq-some id j f s.handles h e) [
      | inl e' ↦ inv.balanced j h e' pos
      | inr (old, same, e', made) ↦
          let (alive, kept) =
            keeps old (rw same e') (subst (λ (x : Handle). 0 < x.strong) made pos) in
          subst (λ (x : Handle). Balanced j x s) (sym made)
            (subst (λ i. Balanced i (f old) s) same
              (kept (subst (λ i. Balanced i old s) (sym same) (inv.balanced j old e' alive))))
    ]

    pub Inv-on_handle : Inv (on_handle id f s)
    Inv-on_handle = record {
      fresh = λ j h e. elim (modify-eq-some id j f s.handles h e) [
        | inl e' ↦ inv.fresh j h e'
        | inr (old, same, e', made) ↦ inv.fresh j old e'
      ];
      queue = inv.queue;
      loops = inv.loops;
      fed = λ j live. inv.fed j (live_before j live);
      balanced = Balanced-on_handle;
    }
