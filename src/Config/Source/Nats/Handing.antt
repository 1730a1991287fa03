-- ===== src/Config/Source/Nats/Handing.antt =====
-- That the watcher hands over each update once and in order, and when its goroutine ends.
use mathlib.Core.List.{append_assoc, append-nil}
use finokit.Base.{
  List, [], ◌∷◌, ◌++◌, Option, none, some, Bool, true, false, Text, ℤ, ◌≡◌, refl, ap, sym, ◌∙◌,
  arith, ◌⊎◌, inl, inr,
}
use finokit.Config.Source.{ChangeSet, summed}
use finokit.Config.Source.Nats.{
  Loop, selecting, handing, ended, Watcher, Move, tells, takes, leaves, nexts, stops, handled, move,
  moves, new_watcher,
}

-- The updates that are not nil.
abbrev pub present : List (Option Text) → List Text
present [] = []
present (none ∷ us) = present us
present (some v ∷ us) = v ∷ present us

-- The updates that the bucket told of.
abbrev pub told : List Move → List Text
told [] = []
told (tells none ∷ ms) = told ms
told (tells (some v) ∷ ms) = v ∷ told ms
told (takes now ∷ ms) = told ms
told (leaves ∷ ms) = told ms
told (nexts ∷ ms) = told ms
told (stops ∷ ms) = told ms

abbrev pub contents : List ChangeSet → List Text
contents [] = []
contents (c ∷ cs) = c.content ∷ contents cs

abbrev pub in_hand : Loop → List Text
in_hand selecting = []
in_hand ended = []
in_hand (handing c) = c.content ∷ []

-- All that came to a watcher: what it returned, what its goroutine holds, and what waits.
abbrev pub passed : Watcher → List Text
passed w = contents w.returned ++ (in_hand w.loop ++ present w.incoming)

contents-append :
    (cs : List ChangeSet)
    → (c : ChangeSet) → contents (cs ++ c ∷ []) ≡ contents cs ++ c.content ∷ []
contents-append [] c = refl
contents-append (d ∷ cs) c = ap (d.content ∷◌) (contents-append cs c)

present-append :
    (us : List (Option Text))
    → (v : Option Text) → present (us ++ v ∷ []) ≡ present us ++ told (tells v ∷ [])
present-append [] none = refl
present-append [] (some v) = refl
present-append (none ∷ us) v = present-append us v
present-append (some u ∷ us) v = ap (u ∷◌) (present-append us v)

told-cons : (m : Move) → (ms : List Move) → told (m ∷ ms) ≡ told (m ∷ []) ++ told ms
told-cons (tells none) ms = refl
told-cons (tells (some v)) ms = refl
told-cons (takes now) ms = refl
told-cons leaves ms = refl
told-cons nexts ms = refl
told-cons stops ms = refl

Loop-cases : (l : Loop) → (l ≡ selecting) ⊎ ((l ≡ ended) ⊎ ((c : ChangeSet) × (l ≡ handing c)))
Loop-cases selecting = inl refl
Loop-cases ended = inr (inl refl)
Loop-cases (handing c) = inr (inr (c, refl))

-- Whether a call of `Next` is among the moves.
abbrev pub calls_next : List Move → Bool
calls_next [] = false
calls_next (nexts ∷ ms) = true
calls_next (tells v ∷ ms) = calls_next ms
calls_next (takes now ∷ ms) = calls_next ms
calls_next (leaves ∷ ms) = calls_next ms
calls_next (stops ∷ ms) = calls_next ms

module _ (hash : Text → Text) (name encoder : Text) where
  takes-passed :
      (now : ℤ) → (w : Watcher) → passed (move hash name encoder (takes now) w) ≡ passed w
  unfolding move handled summed
  takes-passed now w = ground arith

  leaves-passed : (w : Watcher) → passed (move hash name encoder leaves w) ≡ passed w
  unfolding move
  leaves-passed w = ground arith

  nexts-passed : (w : Watcher) → passed (move hash name encoder nexts w) ≡ passed w
  unfolding move
  nexts-passed w = elim (Loop-cases w.loop) [
    | inl e ↦ rw (e) refl
    | inr (inl e) ↦ rw (e) refl
    | inr (inr (c, e)) ↦ rw (e, contents-append, append_assoc) refl
  ]

  -- A move of the goroutine or a call of `Next` only shifts what came; the bucket adds to its end.
  move-passed :
      (m : Move) → (w : Watcher) → passed (move hash name encoder m w) ≡ passed w ++ told (m ∷ [])
  unfolding move
  move-passed (tells v) w = rw (present-append w.incoming v, append_assoc, append_assoc) refl
  move-passed (takes now) w = takes-passed now w ∙ sym (append-nil (passed w))
  move-passed leaves w = leaves-passed w ∙ sym (append-nil (passed w))
  move-passed nexts w = nexts-passed w ∙ sym (append-nil (passed w))
  move-passed stops w = sym (append-nil (passed w))

  moves-passed_from :
      (ms : List Move) → (w : Watcher) → passed (moves hash name encoder ms w) ≡ passed w ++ told ms
  unfolding moves
  moves-passed_from [] w = sym (append-nil (passed w))
  moves-passed_from (m ∷ ms) w =
      moves-passed_from ms (move hash name encoder m w)
      ∙ ap (◌++ told ms) (move-passed m w)
      ∙ append_assoc (passed w) (told (m ∷ [])) (told ms)
      ∙ ap (passed w ++◌) (sym (told-cons m ms))

  -- Whatever the bucket, the goroutine and the callers do, and in whatever order: the change sets that
  -- `Next` returned, then the one that the goroutine holds, then the updates that wait have the contents
  -- of the bucket's updates that are not nil, each of them once and in their order.
  pub moves-passed : (ms : List Move) → passed (moves hash name encoder ms new_watcher) ≡ told ms
  moves-passed ms = moves-passed_from ms new_watcher

  stays_on_takes :
      (now : ℤ)
      → (w : Watcher) → (c : ChangeSet) → w.loop ≡ handing c
      → move hash name encoder (takes now) w ≡ w
  unfolding move
  stays_on_takes now w c h = ground arith

  stays_on_leaves :
      (w : Watcher) → (c : ChangeSet) → w.loop ≡ handing c → move hash name encoder leaves w ≡ w
  unfolding move
  stays_on_leaves w c h = ground arith

  -- While the goroutine holds a change set that no call of `Next` comes to take, it stays there, and it
  -- does not stop the bucket's watcher, whether `Stop` is called or not.
  pub held_is_stuck :
      (ms : List Move)
      → (w : Watcher) → (c : ChangeSet) → calls_next ms ≡ false
      → w.loop ≡ handing c
      → ((moves hash name encoder ms w).loop ≡ handing c)
        × ((moves hash name encoder ms w).unwatched ≡ w.unwatched)
  unfolding moves move
  held_is_stuck [] w c none_comes h = (h, refl)
  held_is_stuck (nexts ∷ ms) w c none_comes h = cc
  held_is_stuck (tells v ∷ ms) w c none_comes h =
      held_is_stuck ms (move hash name encoder (tells v) w) c none_comes h
  held_is_stuck (takes now ∷ ms) w c none_comes h =
      let rest = held_is_stuck ms w c none_comes h in rw (moves, stays_on_takes now w c h) rest
  held_is_stuck (leaves ∷ ms) w c none_comes h =
      let rest = held_is_stuck ms w c none_comes h in rw (moves, stays_on_leaves w c h) rest
  held_is_stuck (stops ∷ ms) w c none_comes h =
      held_is_stuck ms (move hash name encoder stops w) c none_comes h
