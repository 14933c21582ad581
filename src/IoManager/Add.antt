-- ===== src/IoManager/Add.antt =====
-- IOManager::addEvent of corlib/ioscheduler.cpp.
mod Entered
pub use Entered.*
use corlib.Base.{
  ℕ, ◌+◌, ◌≡◌, ◌≢◌, refl, sym, subst, ◌∙◌, ◌⊎◌, inl, inr, Bool, true, false, Option, none, some,
  if◌then◌else◌, is_some, get_elem?, get_elem?-lt, set, arith, Bool-cases,
}
use corlib.Base.Int.{ℤ, pos, negsuc}
use corlib.Base.Outcome.{done}
use corlib.Callback.{Callback, Event, no_event, read, write}
use corlib.IoManager.Mask.{Events, has, with_event, is_none, ctl_add, ctl_mod, target, Epoll}
use corlib.IoManager.Contexts.{
  EventContext, FdContext, set_event_context, get_event_context, is_blank, Caller, waiter,
  contexts_for,
}
use corlib.IoManager.{IoManager, increment, register, add_to, add_event}
use corlib.IoManager.Fire.{CtxIsValid, Slot}
use corlib.IoManager.Invariant.{IsValid, count, watch, replaced-IsValid, failed-IsValid}
use corlib.IoManager.Resize.{contexts_for-Grown, grown_for, grown_for-IsValid}

module _ (epoll : Epoll) where
  open epoll use {Kernel, ctl, interest}

  abbrev registered :
      IoManager Kernel → ℕ → FdContext → Event → EventContext → Kernel → IoManager Kernel
  registered m fd c event y k = record m {
    epoll = k;
    pending_event_count = increment m.pending_event_count;
    fd_contexts = set m.fd_contexts fd (entered c event y);
  }

  register-registered :
      (m : IoManager Kernel) (fd : ℕ) (c : FdContext) (event : Event) (cb : Option Callback)
      (who : Caller) (k : Kernel)
      → event ≢ no_event
      → has c.events event ≡ false
      → CtxIsValid fd c
      → IsInside who
      → register epoll m fd c event cb who k
        ≡ done (registered m fd c event (waiting who cb) k, pos 0)
  unfolding register
  register-registered m fd c event cb who k ne e v h =
      let (x, q, b) = blank_before fd c event ne e v in
      rw (q, b, waiter-waiting who cb h, register) refl

  registered-IsValid :
      (m : IoManager Kernel) (fd : ℕ) (c : FdContext) (event : Event) (y : EventContext)
      (k : Kernel)
      → IsValid epoll m
      → get_elem? m.fd_contexts fd ≡ some c
      → event ≢ no_event
      → has c.events event ≡ false
      → Slot true y
      → interest k fd ≡ some (with_event c.events event)
      → ((j : ℕ) → j ≢ fd → interest k j ≡ interest m.epoll j)
      → IsValid epoll (registered m fd c event y k)
  registered-IsValid m fd c event y k v here ne e h watch_fd watch_other =
      replaced-IsValid epoll m fd c (entered c event y) k _ m.posted v here
        (entered-IsValid fd c event y (v.contexts fd c here) h)
        (watch_fd ∙ sym (watch-entered c event y ne)) watch_other
        (λ t t' s p. omega (arith, s, p, count-entered c event y ne e))

  -- The call of epoll_ctl that adds the event.
  abbrev pub request : IoManager Kernel → ℕ → FdContext → Event → Kernel × Bool
  request m fd c event =
      ctl m.epoll (if is_none c.events then ctl_add else ctl_mod) fd (with_event c.events event)

  -- What a call of addEvent leaves, where `m` is the manager with its table grown for `fd`: the event
  -- is registered for the caller; or nothing changes in the table, because the event was registered
  -- already or because epoll_ctl failed.
  pub record Added (m : IoManager Kernel) (fd : ℕ) (event : Event) (cb : Option Callback)
      (who : Caller) (m' : IoManager Kernel) (r : ℤ) : Type 0 where
    pub valid : IsValid epoll m'
    pub silent : m'.posted ≡ m.posted
    pub answer :
        ((r ≡ pos 0)
          × ((c : FdContext)
              → get_elem? m.fd_contexts fd ≡ some c
              → (has c.events event ≡ false)
                × (m'.fd_contexts ≡ set m.fd_contexts fd (entered c event (waiting who cb)))))
        ⊎ ((r ≡ negsuc 0) × (m'.fd_contexts ≡ m.fd_contexts))
    pub accepted :
        (c : FdContext)
        → get_elem? m.fd_contexts fd ≡ some c
        → has c.events event ≡ false
        → (request m fd c event).1 ≡ true
        → r ≡ pos 0

  module _ (m : IoManager Kernel) (fd : ℕ) (c : FdContext) (event : Event) (cb : Option Callback)
      (who : Caller) (v : IsValid epoll m) (here : get_elem? m.fd_contexts fd ≡ some c)
      (ne : event ≢ no_event) (h : IsInside who) where
    abbrev call : Kernel × Bool
    call = request m fd c event

    same_context : (d : FdContext) → get_elem? m.fd_contexts fd ≡ some d → c ≡ d
    same_context d q = cc (here, q)

    add_to-Added :
        (m' : IoManager Kernel) × (r : ℤ) × (add_to epoll m fd c event cb who ≡ done (m', r))
        × Added m fd event cb who m' r
    unfolding add_to
    add_to-Added = elim (Bool-cases (has c.events event)) [
      | inl e ↦ (
        m,
        negsuc 0,
        rw (e, add_to) refl,
        record {
          valid = v;
          silent = refl;
          answer = inr (refl, refl);
          accepted = λ d q n o.
              let x = subst (λ d. has d.events event ≡ true) (same_context d q) e in absurd (cc);
        },
      )
      | inr e ↦ elim (Bool-cases call.1) [
        | inl ok ↦ (
          registered m fd c event (waiting who cb) call.0,
          pos 0,
          rw
              (
                e,
                ok,
                add_to,
                register-registered m fd c event cb who call.0 ne e (v.contexts fd c here) h,
              )
              refl,
          record {
            valid =
                registered-IsValid m fd c event _ call.0 v here ne e (waiting-Slot who cb h)
                  (epoll.ctl-done m.epoll _ fd _ ok ∙ target-add (is_none c.events) _)
                  (λ j other. epoll.ctl-other m.epoll _ fd j _ other);
            silent = refl;
            answer = inl (
              refl,
              λ d q.
                  let p : c ≡ d = cc (here, q) in
                  subst
                    (λ d.
                      (has d.events event ≡ false)
                      × (set m.fd_contexts fd (entered c event (waiting who cb))
                          ≡ set m.fd_contexts fd (entered d event (waiting who cb))))
                    p (e, refl),
            );
            accepted = λ _ _ _ _. refl;
          },
        )
        | inr bad ↦ (
          record m { epoll = call.0 },
          negsuc 0,
          rw (e, bad, add_to) refl,
          record {
            valid = failed-IsValid epoll m _ fd _ bad v;
            silent = refl;
            answer = inr (refl, refl);
            accepted = λ d q n o.
                let x = subst (λ d. (request m fd d event).1 ≡ false) (same_context d q) bad in
                absurd (cc);
          },
        )
      ]
    ]

  -- addEvent for READ or WRITE, called in a running fiber of a scheduler, on a descriptor that is not
  -- negative: no assertion fails and no index is out of range, whatever epoll_ctl answers. The
  -- manager stays well formed, and no task is posted. Either the answer is 0, the event was not
  -- registered, and it now is, for the function given or else for the calling fiber; or the answer
  -- is -1 and the contexts, grown for the descriptor, are as they were. The answer is 0 whenever the
  -- event was not registered and epoll_ctl succeeds.
  pub add_event_lem :
      (m : IoManager Kernel) (fd : ℕ) (event : Event) (cb : Option Callback) (who : Caller)
      → IsValid epoll m
      → event ≢ no_event
      → IsInside who
      → (m' : IoManager Kernel) × (r : ℤ) × (add_event epoll m (pos fd) event cb who ≡ done (m', r))
        × Added (grown_for epoll m fd) fd event cb who m' r
  unfolding add_event
  add_event_lem m fd event cb who v ne h =
      let g = contexts_for-Grown m.fd_contexts fd v.room in
      let (c, here) = get_elem?-lt (contexts_for m.fd_contexts fd) fd g.here in
      let (m', r, e, w) =
        add_to-Added (grown_for epoll m fd) fd c event cb who (grown_for-IsValid epoll m fd v) here
          ne h in
      (m', r, rw (here, add_event) e, w)
