-- ===== src/Config/Loader/Watchers/Versions.antt =====
-- The order in which a watcher gets its updates.
use mathlib.Core.Path.{subst}
use finokit.Base.{
  ℕ, zero, suc, ◌++◌, Option, All-append, ◌<◌, ◌≤◌, ◌^◌, List, [], ◌∷◌, none, some, true, Text,
  text_eq, pos, ◌≡◌, refl, ◌⊎◌, inl, inr, arith, if◌then◌else◌, Option-cases, Bool-cases, All,
}
use finokit.Config.Loader.Memory.{gen_ver}
use finokit.Config.Loader.Watchers.{
  Reader, UpdateValue, Watcher, snapshot_newer, value_at, offer, push, send, receive, next,
}

module _ (r : Reader) where
  -- A watcher that waits for nothing gets what is sent to it: after a newer version is sent, `Next`
  -- takes it, and returns the value at the watcher's path with that version, unless the value's bytes
  -- are those that the watcher has; its version is then the new one in either case.
  pub next-send :
      (vals : r.Values) (version : Text) (w : Watcher r) (v : r.Value)
      → w.updates ≡ none
      → snapshot_newer r version w.version ≡ true
      → value_at r vals w.path ≡ some v
      → ((next r (send r vals version w)).0
          ≡ (if text_eq (r.bytes w.value) (r.bytes v) then none else some (r.bytes v, version)))
        × ((next r (send r vals version w)).1.version ≡ version)
  unfolding next send offer push receive
  next-send vals version w v waits newer found =
      elim (Bool-cases (text_eq (r.bytes w.value) (r.bytes v))) [
        | inl same ↦ (ground arith, ground arith)
        | inr changed ↦ (ground arith, ground arith)
      ]

  -- What happens to a watcher, in turn: a call of `update` tests its version against the watcher's, and
  -- holds the update if it is newer; one of the calls that hold an update sends it; or `Next` takes a
  -- turn of its loop.
  pub data Event : Type 0 where
    tested : r.Values → ℕ → Event
    pushed : ℕ → Event
    taken : Event

  abbrev pub pick : ℕ → List (UpdateValue r) → Option (UpdateValue r) × List (UpdateValue r)
  pick i [] = (none, [])
  pick zero (uv ∷ held) = (some uv, held)
  pick (suc i) (uv ∷ held) = let (o, rest) = pick i held in (o, uv ∷ rest)

  abbrev pub holding : Option (UpdateValue r) → List (UpdateValue r) → List (UpdateValue r)
  holding none held = held
  holding (some uv) held = held ++ uv ∷ []

  abbrev pub pushing : Option (UpdateValue r) → Watcher r → Watcher r
  pushing none w = w
  pushing (some uv) w = push r uv w

  -- What `Next` returns during some events, with the updates that are held at first.
  unfoldable pub returned : List Event → List (UpdateValue r) → Watcher r → List (Text × Text)
  unfolding offer push next
  returned [] held w = []
  returned (tested vals now ∷ es) held w =
      returned es (holding (offer r vals (gen_ver (pos now)) w) held) w
  returned (pushed i ∷ es) held w = let (o, held') = pick i held in returned es held' (pushing o w)
  returned (taken ∷ es) held w =
      let (o, w') = next r w in
      let rest = returned es held w' in elim o [ none ↦ rest | some snap ↦ snap ∷ rest ]

  -- The times of the updates fit in 63 bits.
  abbrev pub IsTimed : Event → Type 0
  IsTimed (tested vals now) = now < 2 ^ 63
  IsTimed (pushed i) = Unit
  IsTimed taken = Unit

  -- The versions are those of times, each later than the one before, and all later than `after`.
  abbrev pub RisesFrom : ℕ → List (Text × Text) → Type 0
  RisesFrom after [] = Unit
  RisesFrom after ((b, version) ∷ ps) =
      (now : ℕ) × (version ≡ gen_ver (pos now)) × (after < now) × RisesFrom now ps

  rises_weaken : (a b : ℕ) (ps : List (Text × Text)) → a ≤ b → RisesFrom b ps → RisesFrom a ps
  rises_weaken a b [] le h = tt
  rises_weaken a b ((x, v) ∷ ps) le (now, at, lt, rest) = (now, at, omega arith, rest)

  abbrev IsStamped : UpdateValue r → Type 0
  IsStamped uv = (b : ℕ) × (uv.version ≡ gen_ver (pos b)) × (b < 2 ^ 63)

  abbrev AreStamped : Option (UpdateValue r) → Type 0
  AreStamped none = Unit
  AreStamped (some uv) = IsStamped uv

  -- A watcher's version, and the one that waits, are those of times.
  abbrev IsAt : ℕ → Watcher r → Type 0
  IsAt a w =
      (w.version ≡ gen_ver (pos a))
      × (a < 2 ^ 63)
      × ((w.updates ≡ none) ⊎ ((uv : UpdateValue r) × (w.updates ≡ some uv) × IsStamped uv))

  offer-AreStamped :
      (vals : r.Values) (now : ℕ) (w : Watcher r)
      → now < 2 ^ 63
      → AreStamped (offer r vals (gen_ver (pos now)) w)
  unfolding offer
  offer-AreStamped vals now w lt =
      elim (Bool-cases (snapshot_newer r (gen_ver (pos now)) w.version)) [
        | inl newer ↦
            subst AreStamped
              {x = some (record { value = value_at r vals w.path; version = gen_ver (pos now) })}
              (ground arith) (now, refl, lt)
        | inr older ↦ subst AreStamped {x = none} (ground arith) tt
      ]

  holding-IsStamped :
      (o : Option (UpdateValue r)) (held : List (UpdateValue r))
      → AreStamped o
      → All IsStamped held
      → All IsStamped (holding o held)
  holding-IsStamped none held h all = all
  holding-IsStamped (some uv) held h all = All-append IsStamped held (uv ∷ []) all (h, tt)

  pick-IsStamped :
      (i : ℕ) (held : List (UpdateValue r))
      → All IsStamped held
      → AreStamped (pick i held).0 × All IsStamped (pick i held).1
  pick-IsStamped i [] all = (tt, tt)
  pick-IsStamped zero (uv ∷ held) (h, all) = (h, all)
  pick-IsStamped (suc i) (uv ∷ held) (h, all) =
      let (found, rest) = pick-IsStamped i held all in (found, (h, rest))

  pushing-IsAt :
      (o : Option (UpdateValue r)) (a : ℕ) (w : Watcher r)
      → AreStamped o
      → IsAt a w
      → IsAt a (pushing o w)
  unfolding push
  pushing-IsAt none a w h at = at
  pushing-IsAt (some new) a w h (at, la, inr (uv, full, stamped)) =
      (ground arith, la, inr (uv, ground arith, stamped))
  pushing-IsAt (some new) a w h (at, la, inl empty) = (ground arith, la, inr (new, ground arith, h))

  module _ (parses : (n : ℕ) → n < 2 ^ 63 → r.parse_int (gen_ver (pos n)) ≡ some (pos n)) where
    newer-later :
        (a b : ℕ)
        → a < 2 ^ 63
        → b < 2 ^ 63
        → snapshot_newer r (gen_ver (pos b)) (gen_ver (pos a)) ≡ true
        → a < b
    unfolding snapshot_newer
    newer-later a b la lb newer = ground (arith, parses a la, parses b lb)

    next-IsAt :
        (a : ℕ) (w : Watcher r)
        → IsAt a w
        → (((next r w).0 ≡ none) × ((b : ℕ) × (a ≤ b) × IsAt b (next r w).1))
          ⊎ ((x : Text) × (version : Text) × (b : ℕ) × ((next r w).0 ≡ some (x, version))
              × (version ≡ gen_ver (pos b))
              × (a < b)
              × IsAt b (next r w).1)
    unfolding next receive
    next-IsAt a w (at, la, inl empty) =
        inl (ground arith, (a, omega arith, (ground arith, la, inl (ground arith))))
    next-IsAt a w (at, la, inr (uv, full, (b, of, lb))) =
        elim (Bool-cases (snapshot_newer r uv.version w.version)) [
          | inr older ↦ inl (ground arith, (a, omega arith, (ground arith, la, inl (ground arith))))
          | inl newer ↦
              let later : a < b = newer-later a b la lb (ground arith) in
              elim (Option-cases uv.value) [
                | inl nil ↦
                    inl (ground arith, (a, omega arith, (ground arith, la, inl (ground arith))))
                | inr (v, found) ↦ elim (Bool-cases (text_eq (r.bytes w.value) (r.bytes v))) [
                  | inl same ↦
                      inl (ground arith, (b, omega arith, (ground arith, lb, inl (ground arith))))
                  | inr changed ↦ inr (
                    r.bytes v,
                    uv.version,
                    b,
                    ground arith,
                    of,
                    later,
                    (ground arith, lb, inl (ground arith)),
                  )
                ]
              ]
        ]

    returned_rises :
        (es : List Event) (a : ℕ) (held : List (UpdateValue r)) (w : Watcher r)
        → All IsTimed es
        → All IsStamped held
        → IsAt a w
        → RisesFrom a (returned es held w)
    unfolding returned
    returned_rises [] a held w timed stamped at = tt
    returned_rises (tested vals now ∷ es) a held w (lt, timed) stamped at =
        let o = offer r vals (gen_ver (pos now)) w in
        returned_rises es a (holding o held) w timed
          (holding-IsStamped o held (offer-AreStamped vals now w lt) stamped) at
    returned_rises (pushed i ∷ es) a held w (_, timed) stamped at =
        let (found, rest) = pick-IsStamped i held stamped in
        returned_rises es a (pick i held).1 (pushing (pick i held).0 w) timed rest
          (pushing-IsAt (pick i held).0 a w found at)
    returned_rises (taken ∷ es) a held w (_, timed) stamped at = elim (next-IsAt a w at) [
      | inl (nothing, (b, le, at')) ↦
          let later = returned_rises es b held (next r w).1 timed stamped at' in
          subst (RisesFrom a) (ground arith)
            (rises_weaken a b (returned es held (next r w).1) le later)
      | inr (x, version, b, got, of, lt, at') ↦
          let later : RisesFrom a ((x, version) ∷ returned es held (next r w).1) =
            (b, of, lt, returned_rises es b held (next r w).1 timed stamped at') in
          subst (RisesFrom a) {x = (x, version) ∷ returned es held (next r w).1} (ground arith)
            later
    ]

    -- Where ParseInt reads back the decimal form of a 63-bit number: a watcher that starts with the
    -- version of a time, nothing waiting and no update held gets, whatever calls of `update` test
    -- their versions against its own, in whatever order of their times, in whatever order and however
    -- much later they send what they hold, and however this mixes with `Next`, versions of times that
    -- strictly increase, all later than the one it started with.
    pub versions_rise :
        (es : List Event) (a : ℕ) (w : Watcher r)
        → All IsTimed es
        → a < 2 ^ 63
        → w.version ≡ gen_ver (pos a)
        → w.updates ≡ none
        → RisesFrom a (returned es [] w)
    versions_rise es a w timed la at empty = returned_rises es a [] w timed tt (at, la, inl empty)
