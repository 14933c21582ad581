-- ===== src/Thread/Tests.antt =====
-- A thread of corlib/thread.cpp that is made and joined.
use corlib.Base.{ℕ, refl, false, List, [], ◌∷◌}
use corlib.Callback.{user}
use corlib.Thread.{
  World, Reach, start, next, creates, awaits, runs, joins, begin, create, await, run, join,
}
use corlib.Thread.Made.{IsMade, built-IsMade}

abbrev name : List ℕ
name = 119 ∷ 48 ∷ []

abbrev created : World
created = create (begin (user 1) name) false

created-Reach : Reach 42 (begin (user 1) name) created
created-Reach = next start (creates false refl)

abbrev six : World → World
six w = run 42 (run 42 (run 42 (run 42 (run 42 (run 42 w)))))

-- The constructor has returned, and the function was not called yet.
abbrev ready : World
ready = await (six created)

ready-Reach : Reach 42 (begin (user 1) name) ready
unfolding run create
ready-Reach =
    next (next (next (next (next (next (next created-Reach runs) runs) runs) runs) runs) runs)
      (awaits refl)

abbrev over : World
over = (join (run 42 ready) false).0

over-Reach : Reach 42 (begin (user 1) name) over
unfolding run create await
over-Reach = next (next ready-Reach runs) (joins false refl (λ _. refl))

built-IsMade_example : IsMade 42 name ready
unfolding run create await
built-IsMade_example = built-IsMade 42 (user 1) name ready-Reach refl
