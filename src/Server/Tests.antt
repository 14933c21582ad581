-- ===== src/Server/Tests.antt =====
-- Runs of corlib/main.cpp: a connection that sends after two empty rounds, and the first accept.
use corlib.Base.{ℕ, ◌≡◌, refl, true, false, subst, Option, some, [], ◌∷◌}
use corlib.Base.Outcome.{done}
use corlib.Callback.{read, user}
use corlib.Hook.Io.{eagain}
use corlib.IoManager.Mask.{Events, Op, has}
use corlib.IoManager.Contexts.{new_context}
use corlib.IoManager.{IoManager, initial}
use corlib.IoManager.Invariant.{IsValid}
use corlib.IoManager.Tests.{sure, empty, caller, caller-IsInside, fresh-IsValid}
use corlib.Server.{bytes, closed, failed, receives, responds, closes, sleeps, serve, test_accept}
use corlib.Server.Listen.{Watched, Unwatched, Answered, serve_lem, accept_lem}

served_after_two :
    serve (failed eagain ∷ failed eagain ∷ bytes ∷ closed ∷ [])
    ≡ (receives ∷ sleeps ∷ receives ∷ sleeps ∷ receives ∷ responds ∷ closes ∷ [], true)
served_after_two = serve_lem 2 bytes (closed ∷ []) (λ e. absurd (cc))

abbrev succeeds :
    (k : ℕ → Option Events) (op : Op) (fd : ℕ) (e : Events) → (sure.ctl k op fd e).1 ≡ true
succeeds k op fd e = refl

fresh-Unwatched3 : Unwatched sure succeeds (initial empty 99) 3
unfolding initial
fresh-Unwatched3 c e =
    let p : new_context 3 ≡ c = cc in subst (λ d. has d.events read ≡ false) p refl

fresh-Unwatched4 : Unwatched sure succeeds (initial empty 99) 4
unfolding initial
fresh-Unwatched4 c e =
    let p : new_context 4 ≡ c = cc in subst (λ d. has d.events read ≡ false) p refl

accept_lem_example :
    (m' : IoManager (ℕ → Option Events)) × (test_accept sure
        (initial empty 99)
        3
        (some 4)
        (λ fd. user fd)
        (user 100)
        caller
      ≡ done m')
    × IsValid sure m'
    × (m'.posted ≡ [])
    × Watched sure succeeds m' 3 (user 100)
    × Answered sure succeeds m' (some 4) (λ fd. user fd)
unfolding initial
accept_lem_example =
    accept_lem sure succeeds (initial empty 99) 3 (some 4) (λ fd. user fd) (user 100) caller
      fresh-IsValid caller-IsInside fresh-Unwatched3 ((λ e. absurd (cc)), fresh-Unwatched4)
