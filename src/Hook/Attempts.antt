-- ===== src/Hook/Attempts.antt =====
-- What do_io and connect_with_timeout of corlib/hook.cpp guarantee, whatever the original functions
-- return.
mod Balance
pub use Balance.*
use mathlib.Core.List.{append-nil}
use corlib.Base.{
  subst, ℕ, ◌≡◌, ◌≢◌, refl, ap, ◌∙◌, ◌⊎◌, inl, inr, Bool, true, false, Option, some, List, [], ◌∷◌,
  ◌++◌, ◌==◌, is_some, In, total, total-append, arith, Bool-cases, WhenSome,
}
use corlib.Callback.{Event, write}
use corlib.FdManager.{FdCtx, TimeoutType, get_timeout, no_timeout}
use corlib.Hook.Io.{
  Errno, eintr, eagain, einprogress, etimedout, ebadf, as_left, other, Result, value, failure,
  Action, calls, arms, disarms, adds, yields, Turn, arming, disarming, Run, await, attempt, do_io,
  IoCall, event_of, timeout_of, hooked, await_connection, connect, outcome, yields, disarming,
  arming,
}

-- What holds of every run from `retry` on.
abbrev pub IsSound : Run → Type 0
IsSound r = WhenSome IsFinal r.1 × Balanced r.0

-- The original call arms nothing.
calls_first : (r : Run) → IsSound r → IsSound (calls ∷ r.0, r.1)
calls_first r h = (h.0, omega (arith, h.1))

await-IsSound :
    (timeout : ℕ) (event : Event) (t : Turn) (rest : Run)
    → IsSound rest
    → IsSound (await timeout event t rest)
await-IsSound timeout event t rest h =
    await-cases IsSound timeout event t rest (((λ e. cc), λ e. cc), ended (adds event ∷ []) refl)
      (((λ e. cc), λ e. cc), ended (adds event ∷ yields ∷ []) refl)
      (h.0, wait-Balanced timeout (adds event ∷ yields ∷ []) rest.0 refl h.1)
  where
    ended :
        (middle : List Action)
        → Balanced middle
        → Balanced (arming timeout ++ (middle ++ disarming timeout))
    ended middle q =
        subst (λ ys. Balanced (arming timeout ++ (middle ++ ys))) (append-nil (disarming timeout))
          (wait-Balanced timeout middle [] q refl)

attempt-IsSound :
    (timeout : ℕ) (event : Event) (ts : List Turn) → IsSound (attempt timeout event ts)
attempt-IsSound timeout event [] = unfold attempt in (tt, refl)
attempt-IsSound timeout event (t ∷ ts) = elim (replied t.reply) [
  | inl e ↦
      rw (attempt-again timeout event t ts e)
        (calls_first (attempt timeout event ts) (attempt-IsSound timeout event ts))
  | inr (inl e) ↦ rw (attempt-await timeout event t ts e) (
      calls_first (await timeout event t (attempt timeout event ts)) (
        await-IsSound timeout event t (attempt timeout event ts)
          (attempt-IsSound timeout event ts)))
  | inr (inr f) ↦ rw (attempt-final timeout event t ts f) (f, refl)
]

-- On a socket that its user sees as blocking, none of the calls that do_io stands behind comes back
-- with EINTR or EAGAIN, unless addEvent has failed; and after any number of attempts, whether or not
-- it has come back, it has cancelled as many conditional timers as it has armed.
pub hooked-IsSound :
    (f : IoCall) (c : FdCtx) (ts : List Turn) → IsBlocking c → IsSound (hooked f true (some c) ts)
unfolding hooked
hooked-IsSound f c ts b =
    rw (do_io-attempt c (event_of f) (timeout_of f) ts b)
      (attempt-IsSound (get_timeout c (timeout_of f)) (event_of f) ts)

await-returned :
    (timeout : ℕ) (event : Event) (t : Turn) (rest : Run)
    → is_some rest.1 ≡ true
    → is_some (await timeout event t rest).1 ≡ true
await-returned timeout event t rest h =
    await-cases (λ r. is_some r.1 ≡ true) timeout event t rest refl refl h

attempt-returned :
    (timeout : ℕ) (event : Event) (t : Turn) (ts : List Turn)
    → IsFinal t.reply
    → In t ts
    → is_some (attempt timeout event ts).1 ≡ true
attempt-returned timeout event t [] h m = elim m [ ]
attempt-returned timeout event t (u ∷ us) h m = elim (replied u.reply) [
  | inl e ↦ rw (attempt-again timeout event u us e) (
      later m (λ n. attempt-returned timeout event t us h n)
        (λ p. h.0 (ap (λ (x : Turn). x.reply) p ∙ e)))
  | inr (inl e) ↦ rw (attempt-await timeout event u us e) (
      await-returned timeout event u (attempt timeout event us) (
        later m (λ n. attempt-returned timeout event t us h n)
          (λ p. h.1 (ap (λ (x : Turn). x.reply) p ∙ e))))
  | inr (inr f) ↦ rw (attempt-final timeout event u us f) refl
]
  where
    later :
        (t ≡ u) ⊎ In t us
        → (In t us → is_some (attempt timeout event us).1 ≡ true)
        → t ≢ u
        → is_some (attempt timeout event us).1 ≡ true
    later (inl p) k ne = absurd (ne p)
    later (inr n) k ne = k n

-- On a socket that its user sees as blocking, each of the calls that do_io stands behind comes back as soon as, at the latest, the original function
-- replies with anything but EINTR and EAGAIN.
pub hooked_returns :
    (f : IoCall) (c : FdCtx) (t : Turn) (ts : List Turn)
    → IsBlocking c
    → IsFinal t.reply
    → In t ts
    → is_some (hooked f true (some c) ts).1 ≡ true
unfolding hooked
hooked_returns f c t ts b h m =
    rw (do_io-attempt c (event_of f) (timeout_of f) ts b)
      (attempt-returned (get_timeout c (timeout_of f)) (event_of f) t ts h m)

-- connect on a socket that its user sees as blocking, where the original connect fails, addEvent succeeds
-- and the wait does not time out: with whatever error connect failed, EINPROGRESS or not, the fiber
-- registers WRITE and gives up the processor, and the answer is that of SO_ERROR behind the wait: the
-- error of connect is never returned.
pub connect_waits :
    (c : FdCtx) (timeout : ℕ) (errno : Errno) (t : Turn) (so_error : Option ℕ) (e : Errno)
    → IsBlocking c
    → t.reply ≡ failure e
    → t.added ≡ true
    → t.timed_out ≡ false
    → connect true (some c) timeout errno t so_error ≡ (
      calls ∷ (arming timeout ++ adds write ∷ yields ∷ disarming timeout),
      some (outcome so_error),
    )
unfolding connect await_connection
connect_waits c timeout errno t so_error e b f a o =
    rw (b.open_still, b.socket, b.user, f, a, o, connect, await_connection) refl
