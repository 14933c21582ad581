-- ===== src/Hook/Attempts/Balance.antt =====
-- The replies with which do_io of corlib/hook.cpp ends, and the timers that it arms and cancels.
use corlib.Base.{
  ℕ, ◌≡◌, ◌≢◌, refl, ◌⊎◌, inl, inr, Bool, true, false, some, List, [], ◌∷◌, ◌++◌, ◌==◌, total,
  total-append, arith, Bool-cases,
}
use corlib.Callback.{Event}
use corlib.FdManager.{FdCtx, TimeoutType, get_timeout, no_timeout}
use corlib.Hook.Io.{
  eintr, eagain, einprogress, etimedout, ebadf, as_left, other, Result, value, failure, Action,
  calls, arms, disarms, adds, yields, Turn, arming, disarming, Run, await, attempt, do_io,
}

-- A managed socket in blocking mode, as its user sees it.
pub record IsBlocking (c : FdCtx) : Type 0 where
  pub open_still : c.is_closed ≡ false
  pub socket : c.is_socket ≡ true
  pub user : c.user_nonblock ≡ false

pub do_io-attempt :
    (c : FdCtx) (event : Event) (type : TimeoutType) (ts : List Turn)
    → IsBlocking c
    → do_io true (some c) event type ts ≡ attempt (get_timeout c type) event ts
unfolding do_io
do_io-attempt c event type ts b = rw (b.open_still, b.socket, b.user, do_io) refl

abbrev pub IsFinal : Result → Type 0
IsFinal r = (r ≢ failure eintr) × (r ≢ failure eagain)

-- The cases of an attempt's reply.
abbrev pub Replied : Result → Type 0
Replied r = (r ≡ failure eintr) ⊎ ((r ≡ failure eagain) ⊎ IsFinal r)

pub replied : (r : Result) → Replied r
replied (value n) = inr (inr ((λ e. cc), λ e. cc))
replied (failure eintr) = inl refl
replied (failure eagain) = inr (inl refl)
replied (failure einprogress) = inr (inr ((λ e. cc), λ e. cc))
replied (failure etimedout) = inr (inr ((λ e. cc), λ e. cc))
replied (failure ebadf) = inr (inr ((λ e. cc), λ e. cc))
replied (failure as_left) = inr (inr ((λ e. cc), λ e. cc))
replied (failure (other n)) = inr (inr ((λ e. cc), λ e. cc))

-- What one attempt does with a final reply.
pub attempt-final :
    (timeout : ℕ) (event : Event) (t : Turn) (ts : List Turn)
    → IsFinal t.reply
    → attempt timeout event (t ∷ ts) ≡ (calls ∷ [], some t.reply)
unfolding attempt
attempt-final timeout event t ts h = go t.reply t.added t.timed_out h
  where
    go :
        (r : Result) (a o : Bool)
        → IsFinal r
        → attempt timeout event (record { reply = r; added = a; timed_out = o } ∷ ts)
          ≡ (calls ∷ [], some r)
    go (value n) a o h = refl
    go (failure eintr) a o h = absurd (h.0 refl)
    go (failure eagain) a o h = absurd (h.1 refl)
    go (failure einprogress) a o h = refl
    go (failure etimedout) a o h = refl
    go (failure ebadf) a o h = refl
    go (failure as_left) a o h = refl
    go (failure (other n)) a o h = refl

pub attempt-again :
    (timeout : ℕ) (event : Event) (t : Turn) (ts : List Turn)
    → t.reply ≡ failure eintr
    → attempt timeout event (t ∷ ts)
      ≡ (calls ∷ (attempt timeout event ts).0, (attempt timeout event ts).1)
unfolding attempt
attempt-again timeout event t ts e = rw (e, attempt) refl

pub attempt-await :
    (timeout : ℕ) (event : Event) (t : Turn) (ts : List Turn)
    → t.reply ≡ failure eagain
    → let w = await timeout event t (attempt timeout event ts) in
      attempt timeout event (t ∷ ts) ≡ (calls ∷ w.0, w.1)
unfolding attempt
attempt-await timeout event t ts e = rw (e, attempt) refl

pub await-cases :
    (P : Run → Type 0) (timeout : ℕ) (event : Event) (t : Turn) (rest : Run)
    → P (arming timeout ++ adds event ∷ disarming timeout, some (failure as_left))
    → P (arming timeout ++ adds event ∷ yields ∷ disarming timeout, some (failure etimedout))
    → P (arming timeout ++ adds event ∷ yields ∷ (disarming timeout ++ rest.0), rest.1)
    → P (await timeout event t rest)
unfolding await
await-cases P timeout event t rest a b c = elim (Bool-cases t.added) [
  | inl e ↦ elim (Bool-cases t.timed_out) [
    | inl o ↦ rw (e, o, await) b
    | inr o ↦ rw (e, o, await) c
  ]
  | inr e ↦ rw (e, await) a
]

-- The numbers of timers that are armed and cancelled.
abbrev pub armed : Action → ℕ
armed (arms ms) = 1
armed _ = 0

abbrev pub disarmed : Action → ℕ
disarmed disarms = 1
disarmed _ = 0

abbrev pub Balanced : List Action → Type 0
Balanced xs = total armed xs ≡ total disarmed xs

Balanced-append : (xs ys : List Action) → Balanced xs → Balanced ys → Balanced (xs ++ ys)
Balanced-append xs ys p q =
    omega (arith, total-append armed xs ys, total-append disarmed xs ys, p, q)

-- A wait cancels the timer that it has armed.
pub wait-Balanced :
    (timeout : ℕ) (middle rest : List Action)
    → Balanced middle
    → Balanced rest
    → Balanced (arming timeout ++ (middle ++ (disarming timeout ++ rest)))
wait-Balanced timeout middle rest h k = elim (Bool-cases (timeout == no_timeout)) [
  | inl e ↦ rw e (Balanced-append middle rest h k)
  | inr e ↦ rw e (
      omega (
        arith,
        total-append armed middle (disarms ∷ rest),
        total-append disarmed middle (disarms ∷ rest),
        h,
        k,
      ))
]
