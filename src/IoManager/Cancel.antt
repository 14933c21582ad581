-- ===== src/IoManager/Cancel.antt =====
-- The calls of corlib/ioscheduler.cpp that take events away: one reported by epoll, cancelEvent,
-- cancelAll and delEvent.
mod Only
pub use Only.*
use corlib.Base.{
  ℕ, ◌≡◌, refl, sym, ap, subst, ◌∙◌, inl, inr, Bool, true, false, some, ◌++◌, if◌then◌else◌,
  get_elem?, set, arith, Bool-cases,
}
use corlib.Base.Outcome.{done}
use corlib.Callback.{Event, no_event, read, write}
use corlib.IoManager.Mask.{
  Events, nothing, reads_only, writes_only, has, without, is_none, both, minus, ctl_del, Epoll,
}
use corlib.IoManager.Contexts.{FdContext, blank_context, set_event_context}
use corlib.IoManager.{IoManager, decrement, keep_only, fire, cancel_in, cancel_all_in, del_from}
use corlib.IoManager.Fire.{
  CtxIsValid, Slot, cleared, posts_of, decrements, fired, fire_all_lem, fire-read, fire-write,
}
use corlib.IoManager.Invariant.{IsValid, watch, failed-IsValid}
use corlib.IoManager.Remove.{Within, fired-IsValid, target-keep}

module _ (epoll : Epoll) where
  open epoll use {Kernel, ctl, interest}

  fire-only :
      (m : IoManager Kernel) (fd : ℕ) (c : FdContext) (event : Event)
      → has c.events event ≡ true
      → CtxIsValid fd c
      → fire epoll m fd c event ≡ done (fired epoll m fd c (only event), cleared c (only event))
  fire-only m fd c no_event e v = cc
  fire-only m fd c read e v =
      fire-read epoll m fd c e (subst (λ b. Slot b c.read_context) e v.read_slot)
  fire-only m fd c write e v =
      fire-write epoll m fd c e (subst (λ b. Slot b c.write_context) e v.write_slot)

  -- What a call that takes the events `which` away leaves, where `c` is the descriptor's context and
  -- `out` are the tasks that it posts: the answer is false, none of them is registered and nothing
  -- changes; or it is true and they are gone; or it is true as well, but epoll_ctl has failed and the
  -- contexts are as they were.
  pub record Taken (m : IoManager Kernel) (fd : ℕ) (c : FdContext) (which : Events) (ok : Bool)
      (posting : Bool) (m' : IoManager Kernel) (r : Bool) : Type 0 where
    pub valid : IsValid epoll m'
    pub refused : r ≡ false → (is_none (both c.events which) ≡ true) × (m' ≡ m)
    pub unregistered : is_none (both c.events which) ≡ true → r ≡ false
    pub answered : is_none (both c.events which) ≡ false → r ≡ true
    pub gone :
        r ≡ true
        → ok ≡ true
        → (m'.fd_contexts ≡ set m.fd_contexts fd (cleared c which))
          × (m'.posted ≡ (if posting then m.posted ++ posts_of c which else m.posted))
    pub failed : ok ≡ false → (m'.fd_contexts ≡ m.fd_contexts) × (m'.posted ≡ m.posted)

  module _ (m : IoManager Kernel) (fd : ℕ) (c : FdContext) (event : Event) (v : IsValid epoll m)
      (here : get_elem? m.fd_contexts fd ≡ some c) where
    -- The call of epoll_ctl that removes `event`.
    abbrev pub removal : Kernel × Bool
    removal = keep_only epoll m.epoll fd (without c.events event)

    fired-only-IsValid :
        has c.events event ≡ true
        → removal.1 ≡ true
        → IsValid epoll (fired epoll (record m { epoll = removal.0 }) fd c (only event))
    fired-only-IsValid e ok =
        fired-IsValid epoll m fd c (only event) removal.0 v here (only-Within c.events event e)
          (epoll.ctl-done m.epoll _ fd _ ok
            ∙ target-keep epoll _
            ∙ ap watch (without-minus c.events event))
          (λ j other. epoll.ctl-other m.epoll _ fd j _ other)

    del-IsValid :
        has c.events event ≡ true
        → removal.1 ≡ true
        → IsValid epoll (record m {
          epoll = removal.0;
          pending_event_count = decrement m.pending_event_count;
          fd_contexts = set m.fd_contexts fd (
              set_event_context (record c { events = without c.events event }) event blank_context);
        })
    del-IsValid e ok =
        let w = fired-only-IsValid e ok in
        rw (blanked c event e, sym (decrements-only c event m.pending_event_count e))
          (record {
            contexts = w.contexts;
            pending = w.pending;
            watched = w.watched;
            room = w.room;
          })

    pub cancel_in-Taken :
        (m' : IoManager Kernel) × (r : Bool) × (cancel_in epoll m fd c event ≡ done (m', r))
        × Taken m fd c (only event) removal.1 true m' r
    unfolding cancel_in
    cancel_in-Taken = elim (Bool-cases (has c.events event)) [
      | inl e ↦ elim (Bool-cases removal.1) [
        | inl ok ↦ (
          fired epoll (record m { epoll = removal.0 }) fd c (only event),
          true,
          rw
              (
                e,
                ok,
                cancel_in,
                fire-only (record m { epoll = removal.0 }) fd c event e (v.contexts fd c here),
              )
              refl,
          record {
            valid = fired-only-IsValid e ok;
            refused = λ q. absurd (cc);
            unregistered = λ q. let p = only-some c.events event e in absurd (cc);
            answered = λ _. refl;
            gone = λ _ _. (refl, refl);
            failed = λ q. absurd (cc);
          },
        )
        | inr bad ↦ (
          record m { epoll = removal.0 },
          true,
          rw (e, bad, cancel_in) refl,
          record {
            valid = failed-IsValid epoll m _ fd _ bad v;
            refused = λ q. absurd (cc);
            unregistered = λ q. let p = only-some c.events event e in absurd (cc);
            answered = λ _. refl;
            gone = λ _ q. absurd (cc);
            failed = λ _. (refl, refl);
          },
        )
      ]
      | inr e ↦ (
        m,
        false,
        rw (e, cancel_in) refl,
        record {
          valid = v;
          refused = λ _. (only-none c.events event e, refl);
          unregistered = λ _. refl;
          answered = λ q. let p = only-none c.events event e in cc;
          gone = λ q. absurd (cc);
          failed = λ _. (refl, refl);
        },
      )
    ]

    pub del_from-Taken :
        Taken m fd c
          (only event)
          removal.1
          false
          (del_from epoll m fd c event).0
          (del_from epoll m fd c event).1
    unfolding del_from
    del_from-Taken = elim (Bool-cases (has c.events event)) [
      | inl e ↦ elim (Bool-cases removal.1) [
        | inl ok ↦
            rw (e, ok, del_from)
              (record {
                valid = del-IsValid e ok;
                refused = λ q. absurd (cc);
                unregistered = λ q. let p = only-some c.events event e in absurd (cc);
                answered = λ _. refl;
                gone = λ _ _. (ap (set m.fd_contexts fd) (blanked c event e), refl);
                failed = λ q. absurd (cc);
              })
        | inr bad ↦
            rw (e, bad, del_from)
              (record {
                valid = failed-IsValid epoll m _ fd _ bad v;
                refused = λ q. absurd (cc);
                unregistered = λ q. let p = only-some c.events event e in absurd (cc);
                answered = λ _. refl;
                gone = λ _ q. absurd (cc);
                failed = λ _. (refl, refl);
              })
      ]
      | inr e ↦
          rw (e, del_from)
            (record {
              valid = v;
              refused = λ _. (only-none c.events event e, refl);
              unregistered = λ _. refl;
              answered = λ q. let p = only-none c.events event e in cc;
              gone = λ q. absurd (cc);
              failed = λ _. (refl, refl);
            })
    ]

  module _ (m : IoManager Kernel) (fd : ℕ) (c : FdContext) (v : IsValid epoll m)
      (here : get_elem? m.fd_contexts fd ≡ some c) where
    pub cancel_all_in-Taken :
        (m' : IoManager Kernel) × (r : Bool) × (cancel_all_in epoll m fd c ≡ done (m', r))
        × Taken m fd c c.events (ctl m.epoll ctl_del fd nothing).1 true m' r
    unfolding cancel_all_in
    cancel_all_in-Taken = elim (Bool-cases (is_none c.events)) [
      | inl e ↦ (
        m,
        false,
        rw (e, cancel_all_in) refl,
        record {
          valid = v;
          refused = λ _. (ground arith, refl);
          unregistered = λ _. refl;
          answered = λ q. absurd (ground arith);
          gone = λ q. absurd (cc);
          failed = λ _. (refl, refl);
        },
      )
      | inr e ↦ elim (Bool-cases (ctl m.epoll ctl_del fd nothing).1) [
        | inl ok ↦
            let k = (ctl m.epoll ctl_del fd nothing).0 in
            let all : is_none (cleared c c.events).events ≡ true = ground arith in
            (
              fired epoll (record m { epoll = k }) fd c c.events,
              true,
              rw
                  (
                    e,
                    ok,
                    cancel_all_in,
                    fire_all_lem epoll (record m { epoll = k }) fd c c.events.reads c.events.writes
                        (ground arith) (λ q. q) (λ q. q) (v.contexts fd c here),
                    all,
                  )
                  refl,
              record {
                valid =
                    fired-IsValid epoll m fd c c.events k v here ((λ q. q), (λ q. q))
                      (epoll.ctl-done m.epoll ctl_del fd nothing ok ∙ rw all refl)
                      (λ j other. epoll.ctl-other m.epoll ctl_del fd j nothing other);
                refused = λ q. absurd (cc);
                unregistered = λ q. absurd (ground arith);
                answered = λ _. refl;
                gone = λ _ _. (refl, refl);
                failed = λ q. absurd (cc);
              },
            )
        | inr bad ↦ (
          record m { epoll = (ctl m.epoll ctl_del fd nothing).0 },
          true,
          rw (e, bad, cancel_all_in) refl,
          record {
            valid = failed-IsValid epoll m ctl_del fd nothing bad v;
            refused = λ q. absurd (cc);
            unregistered = λ q. absurd (ground arith);
            answered = λ _. refl;
            gone = λ _ q. absurd (cc);
            failed = λ _. (refl, refl);
          },
        )
      ]
    ]
