-- ===== src/Sync/Fair.antt =====
-- What class FiberSemaphore of corlib/mutex.h promises: permits go to requests in the order in which these
-- came. The promise knows the permits given in all and the requests made in all; the semaphore keeps
-- only their difference.
use corlib.Base.{
  ℕ, suc, ◌-◌, ◌^◌, ◌≤◌, ◌<◌, ◌≡◌, refl, sym, ap, ◌∙◌, inl, inr, Bool, true, false, not, Option,
  none, some, List, [], ◌∷◌, ◌++◌, ltb→lt, length, length-append, drop, drop-cases,
  drop-append_last, drop_all, get_elem?, ltb, arith, if◌then◌else◌, Bool-cases,
}
use corlib.Base.Outcome.{done}
use corlib.Scheduler.{Scheduler}
use corlib.Sync.Semaphore.{FiberSemaphore, Waiter, make, try_wait, wait, notify, reset, wake}

-- The permits given and the requests accepted since the start; the first `permits` requests are served.
pub record Promise : Type 0 where
  pub permits : ℕ
  pub requests : List Waiter

-- Whether a permit is free for one more request.
abbrev pub has_free : Promise → Bool
has_free p = ltb (length p.requests) p.permits

abbrev pub request : Promise → Waiter → Promise
request p w = record p { requests = p.requests ++ w ∷ [] }

abbrev pub give : Promise → Promise
give p = record p { permits = suc p.permits }

-- Taking back the permits that are free.
abbrev pub withdraw : Promise → Promise
withdraw p = record p { permits = if has_free p then length p.requests else p.permits }

-- Giving a permit wakes the first request that is not served, if there is one.
abbrev pub wake_first : (ℕ → Scheduler) → Option Waiter → ℕ → Scheduler
wake_first pools none = pools
wake_first pools (some w) = wake pools w

abbrev pub wake_next : Promise → (ℕ → Scheduler) → ℕ → Scheduler
wake_next p pools = wake_first pools (get_elem? p.requests p.permits)

-- The requests that are not served wait, and the permits that nobody has are free.
pub record Refines (s : FiberSemaphore) (p : Promise) : Type 0 where
  pub waiting : s.waiters ≡ drop p.permits p.requests
  pub free : s.concurrency ≡ p.permits - length p.requests

pub make-Refines : (n : ℕ) → Refines (make n) (record { permits = n; requests = [] })
make-Refines n = record { waiting = sym (drop_all n [] (omega arith)); free = omega arith }

pub reset-Refines :
    (s : FiberSemaphore) (p : Promise) → Refines s p → Refines (reset s) (withdraw p)
reset-Refines s p r = elim (Bool-cases (has_free p)) [
  | inl e ↦
      let lt = ltb→lt _ _ e in
      rw e (record {
        waiting =
            r.waiting
            ∙ drop_all p.permits p.requests (omega (arith, lt))
            ∙ sym (drop_all (length p.requests) p.requests (omega arith));
        free = omega arith;
      })
  | inr e ↦
      let ge : p.permits ≤ length p.requests = ground arith in
      rw e (record { waiting = r.waiting; free = omega (arith, ge) })
]

pub notify-Refines :
    (s : FiberSemaphore) (pools : ℕ → Scheduler) (p : Promise)
    → suc p.permits < 2 ^ 64
    → Refines s p
    → Refines (notify s pools).0 (give p) × ((notify s pools).1 ≡ wake_next p pools)
unfolding notify
notify-Refines s pools p h r = elim (drop-cases p.permits p.requests) [
  | inl (le, e, k) ↦
      let empty : s.waiters ≡ [] = cc in
      rw empty (
        record {
          waiting = sym (drop_all (suc p.permits) p.requests (omega arith));
          free = omega (arith, r.free);
        },
        ap (wake_first pools) (sym k),
      )
  | inr (w, lt, e, k) ↦
      let full : s.waiters ≡ w ∷ drop (suc p.permits) p.requests = cc in
      rw full
        (record { waiting = refl; free = omega (arith, r.free) }, ap (wake_first pools) (sym k))
]

-- Requests are served at once exactly while permits are free.
free-has_free : (s : FiberSemaphore) (p : Promise) → Refines s p → ltb 0 s.concurrency ≡ has_free p
free-has_free s p r = let free = r.free in ground arith

request_free :
    (s : FiberSemaphore) (p : Promise) (w : Waiter)
    → Refines s p
    → has_free p ≡ true
    → Refines (record s { concurrency = s.concurrency - 1 }) (request p w)
request_free s p w r h =
    let lt = ltb→lt _ _ h in
    record {
      waiting =
          r.waiting
          ∙ drop_all _ p.requests (omega arith)
          ∙ sym (
              drop_all p.permits (p.requests ++ w ∷ [])
                (omega (arith, length-append p.requests (w ∷ []))));
      free = omega (arith, r.free, length-append p.requests (w ∷ []));
    }

request_waits :
    (s : FiberSemaphore) (p : Promise) (w : Waiter)
    → Refines s p
    → has_free p ≡ false
    → Refines (record s { waiters = s.waiters ++ w ∷ [] }) (request p w)
request_waits s p w r h =
    let ge : p.permits ≤ length p.requests = ground arith in
    record {
      waiting =
          ap (λ ws. ws ++ w ∷ []) r.waiting ∙ sym (drop-append_last p.permits p.requests w ge);
      free = omega (arith, r.free, length-append p.requests (w ∷ []));
    }

pub try_wait-Refines :
    (s : FiberSemaphore) (this : ℕ) (fiber : ℕ) (p : Promise)
    → Refines s p
    → (s' : FiberSemaphore) × (try_wait s (some this) ≡ done (s', has_free p))
      × Refines s'
          (if has_free p then request p (record { scheduler = this; fiber = fiber }) else p)
unfolding try_wait
try_wait-Refines s this fiber p r = elim (Bool-cases (has_free p)) [
  | inl e ↦ rw (free-has_free s p r, e) (_, refl, request_free s p _ r e)
  | inr e ↦ rw (free-has_free s p r, e) (_, refl, r)
]

pub wait-Refines :
    (s : FiberSemaphore) (this : ℕ) (fiber : ℕ) (p : Promise)
    → Refines s p
    → (s' : FiberSemaphore) × (wait s (some this) fiber ≡ done (s', not (has_free p)))
      × Refines s' (request p (record { scheduler = this; fiber = fiber }))
unfolding wait
wait-Refines s this fiber p r = elim (Bool-cases (has_free p)) [
  | inl e ↦ rw (free-has_free s p r, e) (_, refl, request_free s p _ r e)
  | inr e ↦ rw (free-has_free s p r, e) (_, refl, request_waits s p _ r e)
]
