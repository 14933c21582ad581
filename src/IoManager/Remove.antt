-- ===== src/IoManager/Remove.antt =====
-- The triggering of registered events keeps the invariant of corlib/ioscheduler.cpp: what `idle` does
-- with reported events, and cancelEvent, cancelAll and delEvent.
use corlib.Base.{
  ℕ, ◌+◌, ◌%◌, ◌^◌, ◌≡◌, ◌≢◌, refl, ap, ◌∙◌, inl, inr, Bool, true, false, ◌&&◌, ◌||◌, not, some,
  ◌++◌, if◌then◌else◌, get_elem?, set, arith, Bool-cases,
}
use corlib.Base.Outcome.{done}
use corlib.IoManager.Mask.{Events, is_none, both, minus, ctl_mod, ctl_del, target, Epoll}
use corlib.IoManager.Contexts.{EventContext, FdContext, blank_context}
use corlib.IoManager.{IoManager, decrement, keep_only, handle_in, real_events}
use corlib.IoManager.Fire.{CtxIsValid, Slot, cleared, posts_of, decrements, fired, fire_all_lem}
use corlib.IoManager.Invariant.{IsValid, count, watch, replaced-IsValid, failed-IsValid}

-- The events `which` are among those registered.
abbrev pub Within : Events → Events → Type 0
Within which e = (which.reads ≡ true → e.reads ≡ true) × (which.writes ≡ true → e.writes ≡ true)

Slot-cleared :
    (b w : Bool) (x : EventContext) → Slot b x → Slot (b && not w) (if w then blank_context else x)
Slot-cleared true true x h = refl
Slot-cleared false true x h = refl
Slot-cleared true false x h = h
Slot-cleared false false x h = h

pub cleared-IsValid :
    (fd : ℕ) (c : FdContext) (which : Events) → CtxIsValid fd c → CtxIsValid fd (cleared c which)
cleared-IsValid fd c which v = record {
  same_fd = v.same_fd;
  read_slot = Slot-cleared _ _ _ v.read_slot;
  write_slot = Slot-cleared _ _ _ v.write_slot;
}

-- The decrements of the count follow the events that go.
decrement-mod : (n t : ℕ) → n ≡ (t + 1) % 2 ^ 64 → decrement n ≡ t % 2 ^ 64
decrement-mod n t p = omega (arith, p)

decrements-mod :
    (which : Events) (n t : ℕ)
    → n ≡ (t + ((if which.reads then 1 else 0) + (if which.writes then 1 else 0))) % 2 ^ 64
    → decrements which n ≡ t % 2 ^ 64
decrements-mod which n t p = elim (Bool-cases which.reads) [
  | inl r ↦ elim (Bool-cases which.writes) [
    | inl w ↦
        let q : n ≡ (t + 2) % 2 ^ 64 = ground (arith, r, w, p) in
        rw (r, w) (decrement-mod (decrement n) t (decrement-mod n (t + 1) (omega (arith, q))))
    | inr w ↦
        let q : n ≡ (t + 1) % 2 ^ 64 = ground (arith, r, w, p) in rw (r, w) (decrement-mod n t q)
  ]
  | inr r ↦ elim (Bool-cases which.writes) [
    | inl w ↦
        let q : n ≡ (t + 1) % 2 ^ 64 = ground (arith, r, w, p) in rw (r, w) (decrement-mod n t q)
    | inr w ↦ let q : n ≡ t % 2 ^ 64 = ground (arith, r, w, p) in rw (r, w) q
  ]
]

count-cleared :
    (c : FdContext) (which : Events)
    → Within which c.events
    → count (cleared c which) + ((if which.reads then 1 else 0) + (if which.writes then 1 else 0))
      ≡ count c
count-cleared c which h = ground arith

module _ (epoll : Epoll) where
  open epoll use {Kernel, ctl, interest}

  pub fired-IsValid :
      (m : IoManager Kernel) (fd : ℕ) (c : FdContext) (which : Events) (k : Kernel)
      → IsValid epoll m
      → get_elem? m.fd_contexts fd ≡ some c
      → Within which c.events
      → interest k fd ≡ watch (minus c.events which)
      → ((j : ℕ) → j ≢ fd → interest k j ≡ interest m.epoll j)
      → IsValid epoll (fired epoll (record m { epoll = k }) fd c which)
  fired-IsValid m fd c which k v here h watch_fd watch_other =
      replaced-IsValid epoll m fd c (cleared c which) k _ _ v here
        (cleared-IsValid fd c which (v.contexts fd c here)) watch_fd watch_other
        (λ t t' s p.
          decrements-mod which m.pending_event_count t'
            (p ∙ ap (λ i. i % 2 ^ 64) (omega (arith, s, count-cleared c which h))))

  pub target-keep :
      (left : Events) → target (if is_none left then ctl_del else ctl_mod) left ≡ watch left
  target-keep left = ground arith

  -- What one reported event leaves. `real` are the events that it stands for, and `ok` says whether
  -- the call of epoll_ctl succeeds.
  pub record Handled (m : IoManager Kernel) (fd : ℕ) (c : FdContext) (real : Events) (ok : Bool)
      (m' : IoManager Kernel) : Type 0 where
    pub valid : IsValid epoll m'
    pub idle : is_none (both c.events real) ≡ true → m' ≡ m
    pub triggered :
        is_none (both c.events real) ≡ false
        → ok ≡ true
        → (m'.fd_contexts ≡ set m.fd_contexts fd (cleared c real))
          × (m'.posted ≡ m.posted ++ posts_of c real)
    pub failed : ok ≡ false → (m'.fd_contexts ≡ m.fd_contexts) × (m'.posted ≡ m.posted)

  module _ (m : IoManager Kernel) (fd : ℕ) (c : FdContext) (reported : Events) (broken : Bool)
      (v : IsValid epoll m) (here : get_elem? m.fd_contexts fd ≡ some c)
      (h : Within reported c.events) where
    abbrev pub real : Events
    real = real_events c reported broken

    real-Within : Within real c.events
    real-Within = ground arith

    abbrev left : Events
    left = minus c.events real

    abbrev call : Kernel × Bool
    call = keep_only epoll m.epoll fd left

    pub handle_in-Handled :
        (m' : IoManager Kernel) × (handle_in epoll m fd c reported broken ≡ done m')
        × Handled m fd c real (keep_only epoll m.epoll fd (minus c.events real)).1 m'
    unfolding handle_in
    handle_in-Handled = elim (Bool-cases (is_none (both c.events real))) [
      | inl e ↦ (
        m,
        rw (e, handle_in) refl,
        record {
          valid = v;
          idle = λ _. refl;
          triggered = λ q. absurd (cc);
          failed = λ _. (refl, refl);
        },
      )
      | inr e ↦ elim (Bool-cases call.1) [
        | inl ok ↦ (
          fired epoll (record m { epoll = call.0 }) fd c real,
          rw
              (
                e,
                ok,
                handle_in,
                fire_all_lem epoll (record m { epoll = call.0 }) fd c real.reads real.writes
                    (some_event e) real-Within.0 real-Within.1 (v.contexts fd c here),
              )
              refl,
          record {
            valid =
                fired-IsValid m fd c real call.0 v here real-Within
                  (epoll.ctl-done m.epoll _ fd _ ok ∙ target-keep left)
                  (λ j other. epoll.ctl-other m.epoll _ fd j _ other);
            idle = λ q. absurd (cc);
            triggered = λ _ _. (refl, refl);
            failed = λ q. absurd (cc);
          },
        )
        | inr bad ↦ (
          record m { epoll = call.0 },
          rw (e, bad, handle_in) refl,
          record {
            valid = failed-IsValid epoll m _ fd _ bad v;
            idle = λ q. absurd (cc);
            triggered = λ _ q. absurd (cc);
            failed = λ _. (refl, refl);
          },
        )
      ]
    ]
      where
        some_event : is_none (both c.events real) ≡ false → (real.reads || real.writes) ≡ true
        some_event e = ground arith
