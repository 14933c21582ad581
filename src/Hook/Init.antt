-- ===== src/Hook/Init.antt =====
-- hook_init, is_hook_enable and set_hook_enable of corlib/hook.cpp. Each answer of dlsym is an argument.
use corlib.Base.{
  ℕ, zero, suc, subst, get_elem?, ◌≡◌, refl, sym, ap, ◌∙◌, inl, inr, Bool, true, false, some, List,
  [], ◌∷◌, if◌then◌else◌, In,
}

-- The functions of HOOK_FUN.
pub data HookFun : Type 0 where
  f_sleep f_usleep f_nanosleep f_socket f_connect f_accept f_read f_readv f_recv f_recvfrom :
      HookFun
  f_recvmsg f_write f_writev f_send f_sendto f_sendmsg f_close f_fcntl f_ioctl : HookFun
  f_getsockopt f_setsockopt : HookFun

-- HOOK_FUN, in its order.
abbrev pub hook_funs : List HookFun
hook_funs =
    f_sleep ∷ f_usleep ∷ f_nanosleep ∷ f_socket ∷ f_connect ∷ f_accept ∷ f_read ∷ f_readv ∷ f_recv
    ∷ f_recvfrom ∷ f_recvmsg ∷ f_write ∷ f_writev ∷ f_send ∷ f_sendto ∷ f_sendmsg ∷ f_close
    ∷ f_fcntl ∷ f_ioctl ∷ f_getsockopt ∷ f_setsockopt ∷ []

-- `is_inited`, the pointers name##_f, and t_hook_enable of the thread.
pub record HookState : Type 0 where
  pub is_inited : Bool
  pub originals : List (HookFun × ℕ)
  pub enabled : Bool

abbrev pub at_load : HookState
at_load = record { is_inited = false; originals = []; enabled = false }

abbrev pub set_hook_enable : HookState → Bool → HookState
set_hook_enable s flag = record s { enabled = flag }

-- The assignments that HOOK_FUN(XX) expands to, the first function's first.
abbrev pub assign_all : (HookFun → ℕ) → List HookFun → List (HookFun × ℕ)
assign_all dlsym [] = []
assign_all dlsym (f ∷ fs) = (f, dlsym f) ∷ assign_all dlsym fs

-- hook_init, where `dlsym` has the addresses that dlsym(RTLD_NEXT, name) gives at this call.
unfoldable pub hook_init : HookState → (HookFun → ℕ) → HookState
hook_init s dlsym =
    if s.is_inited then s else record s { is_inited = true; originals = assign_all dlsym hook_funs }

-- Calls of hook_init one after the other.
abbrev pub init_all : HookState → List (HookFun → ℕ) → HookState
init_all s [] = s
init_all s (d ∷ ds) = init_all (hook_init s d) ds

init_all-done : (s : HookState) (ds : List (HookFun → ℕ)) → s.is_inited ≡ true → init_all s ds ≡ s
unfolding hook_init
init_all-done s [] e = refl
init_all-done s (d ∷ ds) e =
    let same : hook_init s d ≡ s =
      ap (λ b. if b then s else record s { is_inited = true; originals = assign_all d hook_funs })
        e in
    ap (λ (x : HookState). init_all x ds) same ∙ init_all-done s ds e

In-assign_all :
    (d : HookFun → ℕ) (f : HookFun) (fs : List HookFun) → In f fs → In (f, d f) (assign_all d fs)
In-assign_all d f [] m = elim m [ ]
In-assign_all d f (g ∷ fs) (inl e) = inl (ap (λ x. (x, d x)) e)
In-assign_all d f (g ∷ fs) (inr m) = inr (In-assign_all d f fs m)

-- The place of a function in HOOK_FUN.
place : HookFun → ℕ
place f_sleep = 0
place f_usleep = 1
place f_nanosleep = 2
place f_socket = 3
place f_connect = 4
place f_accept = 5
place f_read = 6
place f_readv = 7
place f_recv = 8
place f_recvfrom = 9
place f_recvmsg = 10
place f_write = 11
place f_writev = 12
place f_send = 13
place f_sendto = 14
place f_sendmsg = 15
place f_close = 16
place f_fcntl = 17
place f_ioctl = 18
place f_getsockopt = 19
place f_setsockopt = 20

In-of_get : (xs : List HookFun) (i : ℕ) (f : HookFun) → get_elem? xs i ≡ some f → In f xs
In-of_get [] i f e = cc
In-of_get (x ∷ xs) zero f e = inl (cc)
In-of_get (x ∷ xs) (suc i) f e = inr (In-of_get xs i f e)

get-place : (f : HookFun) → get_elem? hook_funs (place f) ≡ some f
unfolding place
get-place f_sleep = refl
get-place f_usleep = refl
get-place f_nanosleep = refl
get-place f_socket = refl
get-place f_connect = refl
get-place f_accept = refl
get-place f_read = refl
get-place f_readv = refl
get-place f_recv = refl
get-place f_recvfrom = refl
get-place f_recvmsg = refl
get-place f_write = refl
get-place f_writev = refl
get-place f_send = refl
get-place f_sendto = refl
get-place f_sendmsg = refl
get-place f_close = refl
get-place f_fcntl = refl
get-place f_ioctl = refl
get-place f_getsockopt = refl
get-place f_setsockopt = refl

-- However often hook_init is called, and whatever dlsym answers later: every function of HOOK_FUN has the
-- address that dlsym gave for it at the first call, and no address comes from another call.
pub init_all_lem :
    (d : HookFun → ℕ) (ds : List (HookFun → ℕ)) (f : HookFun)
    → let s = init_all at_load (d ∷ ds) in
      In (f, d f) s.originals × (s.originals ≡ assign_all d hook_funs)
unfolding hook_init
init_all_lem d ds f =
    let same = init_all-done (hook_init at_load d) ds refl in
    let all = ap (λ (s : HookState). s.originals) same in
    (
      subst (In (f, d f)) (sym all)
          (In-assign_all d f hook_funs (In-of_get hook_funs (place f) f (get-place f))),
      all,
    )
