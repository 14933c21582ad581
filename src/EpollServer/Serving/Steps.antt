-- ===== src/EpollServer/Serving/Steps.antt =====
-- What the calls of epoll/main.cpp do to the descriptors that are open and watched.
use corlib.Base.{
  ℕ, ◌≡◌, ◌≢◌, inl, inr, sym, ◌∙◌, subst, Bool, true, false, Bool-cases, Option-cases,
}
use native.Mathlib.Decide.{ℕ_discrete}
use corlib.EpollServer.{Sockets, accept_one, respond}

module _ (sockets : Sockets) (listen_fd : ℕ) (early : ℕ → Bool) where
  open sockets use {Kernel, open_in, watched, accept, add, read, write, close, wait}

  -- `early` are the descriptors that are open besides the connections.
  pub record IsServing (k : Kernel) : Type 0 where
    pub listening : watched k listen_fd ≡ true
    pub early_listen : early listen_fd ≡ true
    pub early_open : (j : ℕ) → early j ≡ true → open_in k j ≡ true
    pub early_alone : (j : ℕ) → early j ≡ true → watched k j ≡ true → j ≡ listen_fd
    pub watched_open : (j : ℕ) → watched k j ≡ true → open_in k j ≡ true
    pub open_watched : (j : ℕ) → open_in k j ≡ true → early j ≡ false → watched k j ≡ true

  abbrev Same : Kernel → Kernel → Type 0
  Same k k' = (j : ℕ) → (open_in k' j ≡ open_in k j) × (watched k' j ≡ watched k j)

  pub Same-IsServing : (k k' : Kernel) → Same k k' → IsServing k → IsServing k'
  Same-IsServing k k' s v = record {
    listening = (s listen_fd).1 ∙ v.listening;
    early_listen = v.early_listen;
    early_open = λ j e. (s j).0 ∙ v.early_open j e;
    early_alone = λ j e w. v.early_alone j e (sym (s j).1 ∙ w);
    watched_open = λ j w. (s j).0 ∙ v.watched_open j (sym (s j).1 ∙ w);
    open_watched = λ j o e. (s j).1 ∙ v.open_watched j (sym (s j).0 ∙ o) e;
  }

  abbrev SameBut : ℕ → Kernel → Kernel → Type 0
  SameBut c k k' = (j : ℕ) → j ≢ c → (open_in k' j ≡ open_in k j) × (watched k' j ≡ watched k j)

  -- A connection comes.
  added-IsServing :
      (k k' : Kernel) (c : ℕ)
      → IsServing k
      → open_in k c ≡ false
      → open_in k' c ≡ true
      → watched k' c ≡ true
      → SameBut c k k'
      → IsServing k' × ((j : ℕ) → watched k j ≡ true → watched k' j ≡ true)
  added-IsServing k k' c v closed opened watches s =
      let other : (j : ℕ) → watched k j ≡ true → j ≢ c = λ j w q.
        (let o = v.watched_open j w in let p = subst (λ i. open_in k i ≡ true) q o in cc) in
      (
        record {
          listening = (s listen_fd (other listen_fd v.listening)).1 ∙ v.listening;
          early_listen = v.early_listen;
          early_open = λ j e. elim (ℕ_discrete j c) [
            | yes q ↦ subst (λ i. open_in k' i ≡ true) (sym q) opened
            | no ne ↦ (s j ne).0 ∙ v.early_open j e
          ];
          early_alone = λ j e w. elim (ℕ_discrete j c) [
            | yes q ↦ absurd (let o = subst (λ i. open_in k i ≡ true) q (v.early_open j e) in cc)
            | no ne ↦ v.early_alone j e (sym (s j ne).1 ∙ w)
          ];
          watched_open = λ j w. elim (ℕ_discrete j c) [
            | yes q ↦ subst (λ i. open_in k' i ≡ true) (sym q) opened
            | no ne ↦ (s j ne).0 ∙ v.watched_open j (sym (s j ne).1 ∙ w)
          ];
          open_watched = λ j o e. elim (ℕ_discrete j c) [
            | yes q ↦ subst (λ i. watched k' i ≡ true) (sym q) watches
            | no ne ↦ (s j ne).1 ∙ v.open_watched j (sym (s j ne).0 ∙ o) e
          ];
        },
        λ j w. (s j (other j w)).1 ∙ w,
      )

  -- A connection goes.
  closed-IsServing :
      (k k' : Kernel) (c : ℕ)
      → IsServing k
      → watched k c ≡ true
      → c ≢ listen_fd
      → open_in k' c ≡ false
      → watched k' c ≡ false
      → SameBut c k k'
      → IsServing k'
  closed-IsServing k k' c v w ne closed gone s =
      let late : (j : ℕ) → early j ≡ true → j ≢ c =
        λ j e q. ne (v.early_alone c (subst (λ i. early i ≡ true) q e) w) in
      record {
        listening = (s listen_fd (λ q. ne (sym q))).1 ∙ v.listening;
        early_listen = v.early_listen;
        early_open = λ j e. (s j (late j e)).0 ∙ v.early_open j e;
        early_alone = λ j e x. v.early_alone j e (sym (s j (late j e)).1 ∙ x);
        watched_open = λ j x. elim (ℕ_discrete j c) [
          | yes q ↦ absurd (let y = subst (λ i. watched k' i ≡ true) q x in cc)
          | no n ↦ (s j n).0 ∙ v.watched_open j (sym (s j n).1 ∙ x)
        ];
        open_watched = λ j o e. elim (ℕ_discrete j c) [
          | yes q ↦ absurd (let y = subst (λ i. open_in k' i ≡ true) q o in cc)
          | no n ↦ (s j n).1 ∙ v.open_watched j (sym (s j n).0 ∙ o) e
        ];
      }

  pub accept_one-IsServing :
      (k : Kernel)
      → IsServing k
      → (accept_one sockets listen_fd k).1 ≡ true
      → IsServing (accept_one sockets listen_fd k).0
        × ((j : ℕ) → watched k j ≡ true → watched (accept_one sockets listen_fd k).0 j ≡ true)
  unfolding accept_one
  accept_one-IsServing k v go = elim (Option-cases (accept k listen_fd).1) [
    | inl e ↦
        let s : Same k (accept k listen_fd).0 =
          λ j. (sockets.accept-none k listen_fd j e, sockets.accept-watched k listen_fd j) in
        rw (e, accept_one) (Same-IsServing k _ s v, λ j w. (s j).1 ∙ w)
    | inr (c, e) ↦
        let k1 = (accept k listen_fd).0 in
        let (was, opened) = sockets.accept-some k listen_fd c e in
        rw (e, accept_one)
          (added-IsServing k (add k1 c).0 c v was (sockets.add-open k1 c c ∙ opened)
            (sockets.add-watched k1 c (rw (e, accept_one) at go))
            (λ j ne. (
              sockets.add-open k1 c j ∙ sockets.accept-other k listen_fd c j e ne,
              sockets.add-other k1 c j ne ∙ sockets.accept-watched k listen_fd j,
            )))
  ]

  pub respond-IsServing :
      (k : Kernel) (fd : ℕ)
      → IsServing k
      → watched k fd ≡ true
      → fd ≢ listen_fd
      → IsServing (respond sockets listen_fd k fd)
        × ((j : ℕ)
            → j ≢ fd
            → watched k j ≡ true
            → watched (respond sockets listen_fd k fd) j ≡ true)
  unfolding respond
  respond-IsServing k fd v w ne =
      let closing : (k1 : Kernel)
          → Same k k1
          → IsServing (close k1 fd)
            × ((j : ℕ) → j ≢ fd → watched k j ≡ true → watched (close k1 fd) j ≡ true) =
        λ k1 s.
          let but : SameBut fd k (close k1 fd) =
            λ j n. let o = sockets.close-other k1 fd j n in (o.0 ∙ (s j).0, o.1 ∙ (s j).1) in
          let gone = sockets.close-self k1 fd in
          (
            closed-IsServing k (close k1 fd) fd v w ne gone.0 gone.1 but,
            λ j n x. (but j n).1 ∙ x,
          ) in
      elim (Bool-cases (read k fd).1) [
        | inl e ↦
            rw (e, respond)
              (closing (write (read k fd).0 fd) (λ j.
                let a = sockets.write-same (read k fd).0 fd j in
                let b = sockets.read-same k fd j in (a.0 ∙ b.0, a.1 ∙ b.1)))
        | inr e ↦ rw (e, respond) (closing (read k fd).0 (sockets.read-same k fd))
      ]
