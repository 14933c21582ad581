-- ===== src/IoManager/Invariant.antt =====
-- The events of corlib/ioscheduler.cpp in order: contexts are well formed, the pending events are
-- counted, and epoll watches what is registered. The operations keep this.
use corlib.Base.{
  ℕ, ◌+◌, ◌%◌, ◌^◌, ◌≤◌, ◌≡◌, ◌≢◌, sym, ap, subst, ◌∙◌, false, Option, none, some, List,
  if◌then◌else◌, length, get_elem?, get_elem?-set_self, get_elem?-set_ne, get_elem?-some,
  length-set, set, total, total-set, arith,
}
use native.Mathlib.Decide.{ℕ_discrete}
use corlib.Scheduler.{ScheduleTask}
use corlib.IoManager.Mask.{Op, Events, is_none, Epoll}
use corlib.IoManager.Contexts.{FdContext}
use corlib.IoManager.{IoManager}
use corlib.IoManager.Fire.{CtxIsValid}

-- The number of registered events of a context.
abbrev pub count : FdContext → ℕ
count c = (if c.events.reads then 1 else 0) + (if c.events.writes then 1 else 0)

-- What epoll watches for a set of registered events, and for an entry of the table.
abbrev pub watch : Events → Option Events
watch e = if is_none e then none else some e

abbrev pub watch_at : Option FdContext → Option Events
watch_at none = none
watch_at (some c) = watch c.events

module _ (epoll : Epoll) where
  open epoll use {Kernel, ctl, interest}

  pub record IsValid (m : IoManager Kernel) : Type 0 where
    pub contexts : (fd : ℕ) (c : FdContext) → get_elem? m.fd_contexts fd ≡ some c → CtxIsValid fd c
    pub pending : m.pending_event_count ≡ total count m.fd_contexts % 2 ^ 64
    pub watched :
        (fd : ℕ) → fd ≢ m.pipe → interest m.epoll fd ≡ watch_at (get_elem? m.fd_contexts fd)
    pub room : 32 ≤ length m.fd_contexts

  -- The context of one descriptor changes, its events in the kernel with it.
  pub replaced-IsValid :
      (m : IoManager Kernel) (fd : ℕ) (c c' : FdContext) (k : Kernel) (n : ℕ)
      (out : List (ℕ × ScheduleTask))
      → IsValid m
      → get_elem? m.fd_contexts fd ≡ some c
      → CtxIsValid fd c'
      → interest k fd ≡ watch c'.events
      → ((j : ℕ) → j ≢ fd → interest k j ≡ interest m.epoll j)
      → ((t t' : ℕ)
          → t' + count c ≡ t + count c'
          → m.pending_event_count ≡ t % 2 ^ 64
          → n ≡ t' % 2 ^ 64)
      → IsValid (record {
        epoll = k;
        pipe = m.pipe;
        pending_event_count = n;
        fd_contexts = set m.fd_contexts fd c';
        posted = out;
      })
  replaced-IsValid m fd c c' k n out v here w watch_fd watch_other counted = record {
    contexts = λ j d e. elim (ℕ_discrete j fd) [
      | yes same ↦
          let p : c' ≡ d = cc (self, e, same) in
          subst (λ i. CtxIsValid i d) (sym same) (subst (CtxIsValid fd) p w)
      | no ne ↦ v.contexts j d (sym (get_elem?-set_ne m.fd_contexts fd j c' (λ q. ne (sym q))) ∙ e)
    ];
    pending = counted _ _ (total-set count m.fd_contexts fd c c' here) v.pending;
    watched = λ j apart. elim (ℕ_discrete j fd) [
      | yes same ↦
          subst (λ i. interest k i ≡ watch_at (get_elem? (set m.fd_contexts fd c') i)) (sym same)
            (watch_fd ∙ ap watch_at (sym self))
      | no ne ↦
          watch_other j ne
          ∙ v.watched j apart
          ∙ ap watch_at (sym (get_elem?-set_ne m.fd_contexts fd j c' (λ q. ne (sym q))))
    ];
    room = omega (arith, length-set m.fd_contexts fd c', v.room);
  }
    where
      self : get_elem? (set m.fd_contexts fd c') fd ≡ some c'
      self = get_elem?-set_self m.fd_contexts fd c' (get_elem?-some m.fd_contexts fd c here)

  -- epoll_ctl has failed.
  pub failed-IsValid :
      (m : IoManager Kernel) (op : Op) (fd : ℕ) (e : Events)
      → (ctl m.epoll op fd e).1 ≡ false
      → IsValid m
      → IsValid (record m { epoll = (ctl m.epoll op fd e).0 })
  failed-IsValid m op fd e bad v = record {
    contexts = v.contexts;
    pending = v.pending;
    watched = λ j apart. same j ∙ v.watched j apart;
    room = v.room;
  }
    where
      same : (j : ℕ) → interest (ctl m.epoll op fd e).0 j ≡ interest m.epoll j
      same j = elim (ℕ_discrete j fd) [
        | yes p ↦
            subst (λ i. interest (ctl m.epoll op fd e).0 i ≡ interest m.epoll i) (sym p)
              (epoll.ctl-failed m.epoll op fd e bad)
        | no ne ↦ epoll.ctl-other m.epoll op fd j e ne
      ]
