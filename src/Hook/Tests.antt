-- ===== src/Hook/Tests.antt =====
-- Runs of corlib/hook.cpp.
use corlib.Base.{
  zero, suc, subst, get_elem?-replicate, ℕ, ◌+◌, ◌*◌, ◌<◌, ◌≡◌, refl, inl, inr, true, false, Option,
  none, some, [], ◌∷◌, ◌++◌, In, get_elem?, replicate, arith,
}
use corlib.FdManager.{FdCtx, FdManager, blank}
use corlib.FdManager.Table
use corlib.FdManager.Tests.{flag_files, blocking}
use corlib.Timer.{key}
use corlib.Timer.Tests.{waiting, waiting-IsValid}
use corlib.Hook.Io.{
  eagain, other, value, failure, adds, as_left, calls, yields, arms, disarms, outcome, Turn, IoCall,
  hooked, connect,
}
use corlib.Callback.{write}
use corlib.Hook.Attempts.{IsBlocking, IsSound, hooked-IsSound, connect_waits}
use corlib.Base.Int.{pos}
use corlib.Base.Outcome.{done}
use corlib.FdManager.{lookup, del}
use corlib.IoManager.Tests.{sure}
use corlib.Hook.Files.{known, close}
use corlib.Hook.Reuse.{hooked_close, hooked_socket, IsFresh, reuse_lem}
use corlib.Hook.Sleep.{sleep, sleep_wraps}

-- A socket in blocking mode with a timeout of 1500 milliseconds.
abbrev client : FdCtx
client = record (blank 5) {
  is_init = true;
  is_socket = true;
  sys_nonblock = true;
  recv_timeout = 1500;
}

client-IsBlocking : IsBlocking client
client-IsBlocking = record { open_still = refl; socket = refl; user = refl }

abbrev busy_turn : Turn
busy_turn = record { reply = failure eagain; added = true; timed_out = false }

abbrev good_turn : Turn
good_turn = record { reply = value 12; added = true; timed_out = false }

hooked-IsSound_example :
    IsSound (hooked IoCall.recv_call true (some client) (busy_turn ∷ good_turn ∷ []))
hooked-IsSound_example =
    hooked-IsSound IoCall.recv_call client (busy_turn ∷ good_turn ∷ []) client-IsBlocking

-- ECONNREFUSED.
abbrev refused_turn : Turn
refused_turn = record { reply = failure (other 111); added = true; timed_out = false }

connect_waits_example :
    connect true (some client) 100 as_left refused_turn (some 111)
    ≡ (calls ∷ arms 100 ∷ adds write ∷ yields ∷ disarms ∷ [], some (outcome (some 111)))
connect_waits_example =
    connect_waits client 100 as_left refused_turn (some 111) (other 111) client-IsBlocking refl refl
      refl

abbrev one_socket : FdManager
one_socket = record { datas = replicate 5 none ++ some client ∷ replicate 60 none }

one_socket-entries :
    (fd : ℕ) (c : FdCtx) → get_elem? one_socket.datas fd ≡ some (some c) → Table.CtxIsValid fd c
one_socket-entries zero c e = absurd (cc)
one_socket-entries (suc zero) c e = absurd (cc)
one_socket-entries (suc (suc zero)) c e = absurd (cc)
one_socket-entries (suc (suc (suc zero))) c e = absurd (cc)
one_socket-entries (suc (suc (suc (suc zero)))) c e = absurd (cc)
one_socket-entries (suc (suc (suc (suc (suc zero))))) c e =
    let p : client ≡ c = cc in
    subst (Table.CtxIsValid 5) p
      (record { same_fd = refl; system = refl; known = λ q. refl; not_closed = refl })
one_socket-entries (suc (suc (suc (suc (suc (suc fd)))))) c e =
    elim (get_elem?-replicate {A = Option FdCtx} 60 none fd) [
      | inl p ↦ absurd (cc)
      | inr p ↦ absurd (cc)
    ]

one_socket-IsValid : Table.IsValid one_socket
one_socket-IsValid = record { room = omega arith; entries = one_socket-entries }

sleep_wraps_example :
    let m' = (sleep waiting 5000000 20 1000000).0 in
    In 3 m'.timers × (key m'.object 3 < 1000000 + 1000000000 * 5000000)
sleep_wraps_example =
    sleep_wraps waiting 5000000 20 1000000 waiting-IsValid (omega arith) (omega arith)
      ((λ e. omega (arith, e)), ((λ e. omega (arith, e)), tt))

close_socket : hooked_close sure true none one_socket 5 ≡ done (none, del one_socket (pos 5))
unfolding hooked_close close known lookup
close_socket = refl

reuse_lem_example :
    let m' = del one_socket (pos 5) in
    (k' : ℕ → ℕ) × (n : FdManager) × (c : FdCtx) × (hooked_socket flag_files true blocking m'
        (pos 5)
      ≡ done (k', n))
    × IsFresh flag_files blocking m' 5 k' n c
    × (known n 0 ≡ known one_socket 0)
reuse_lem_example =
    reuse_lem sure flag_files none none one_socket (del one_socket (pos 5)) blocking 5 0
      one_socket-IsValid close_socket (λ e. omega (arith, e))
