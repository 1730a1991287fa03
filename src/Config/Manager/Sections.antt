-- ===== src/Config/Manager/Sections.antt =====
-- Which section `ScanFrom` reads, and how a path is taken apart.
use mathlib.Core.List.{append-nil}
use finokit.Base.{
  List, [], ◌∷◌, ◌++◌, Option, none, some, true, false, Text, split, split-Lacks, split-join, join,
  Lacks, All, ok, ◌≡◌, refl, ap, ◌∙◌, arith, ◌⊎◌, inl, inr, Bool-cases, Result-cases,
}
use finokit.Config.Manager.{Manages, Manager, normalize_path, get, scan_keys, scan_from}

module _ {C S O V T : Type 0} (ops : Manages C S O V T) where
  -- The value of a key is there, and is null.
  abbrev pub IsPassed : Manager C → Text → Type 0
  IsPassed m k = (val : V) × (get ops (k ∷ []) m ≡ ok val) × (ops.is_null val ≡ true)

  -- The key that is read, and what reading it gives.
  abbrev pub Reads : Manager C → T → List Text → T → Type 0
  Reads m v keys t =
      (before : List Text) × (k : Text) × (after : List Text) × (keys ≡ before ++ k ∷ after)
      × All (IsPassed m) before
      × ((val : V) × (get ops (k ∷ []) m ≡ ok val)
          × ((ops.is_null val ≡ false) ⊎ (after ≡ []))
          × (ops.scan_value val v ≡ ok t))

  scan_keys-Reads :
      (m : Manager C) (v t : T) (k : Text) (ks : List Text)
      → scan_keys ops m v k ks ≡ ok t
      → Reads m v (k ∷ ks) t
  unfolding scan_keys
  scan_keys-Reads m v t k [] h = elim (Result-cases (get ops (k ∷ []) m)) [
    | inr (e, bad) ↦ absurd (ground arith)
    | inl (val, got) ↦ elim (Result-cases (ops.scan_value val v)) [
      | inr (e, bad) ↦ absurd (ground arith)
      | inl (t', scanned) ↦ ([], k, [], refl, tt, (val, got, inr refl, ground arith))
    ]
  ]
  scan_keys-Reads m v t k (k' ∷ ks) h = elim (Result-cases (get ops (k ∷ []) m)) [
    | inr (e, bad) ↦ absurd (ground arith)
    | inl (val, got) ↦ elim (Bool-cases (ops.is_null val)) [
      | inl null ↦
          let (before, c, after, split, passed, read) =
            scan_keys-Reads m v t k' ks (ground arith) in
          (k ∷ before, c, after, ap (◌∷◌ k) split, ((val, got, null), passed), read)
      | inr there ↦ elim (Result-cases (ops.scan_value val v)) [
        | inr (e, bad) ↦ absurd (ground arith)
        | inl (t', scanned) ↦ ([], k, k' ∷ ks, refl, tt, (val, got, inl there, ground arith))
      ]
    ]
  ]

  -- When `ScanFrom` succeeds, the package was initialized and the target no nil pointer, and the target
  -- was read from the first of the keys whose value is not null, or from the last key where all the
  -- others are null.
  pub scan_from_lem :
      (v : Option T) (key : Text) (alternatives : List Text) (m : Manager C) (t : T)
      → scan_from ops v key alternatives m ≡ ok t
      → (m.inited ≡ true)
        × ((target : T) × (v ≡ some target) × Reads m target (key ∷ alternatives) t)
  unfolding scan_from
  scan_from_lem none key alternatives m t h = absurd (ground arith)
  scan_from_lem (some target) key alternatives m t h = elim (Bool-cases m.inited) [
    | inr never ↦ absurd (ground arith)
    | inl inited ↦
        (inited, (target, refl, scan_keys-Reads m target t key alternatives (ground arith)))
  ]

normalize_path_idem : (ps : List Text) → All (Lacks b'.') ps → normalize_path ps ≡ ps
unfolding normalize_path
normalize_path_idem [] h = refl
normalize_path_idem (p ∷ ps) (h, hs) =
    ground (arith, split-Lacks b'.' p h, normalize_path_idem ps hs)

-- A configuration is read at the same place whether the segments of a path, at least one and none with
-- a dot, are given one by one or joined by dots: `normalizePath` gives the segments back.
pub normalize_path-join :
    (p : Text) (ps : List Text)
    → All (Lacks b'.') (p ∷ ps)
    → (normalize_path (join (p ∷ ps) (b'.' ∷ []) ∷ []) ≡ p ∷ ps)
      × (normalize_path (p ∷ ps) ≡ p ∷ ps)
unfolding normalize_path
normalize_path-join p ps h = (
  append-nil (split (join (p ∷ ps) (b'.' ∷ [])) b'.') ∙ split-join b'.' p ps h,
  normalize_path_idem (p ∷ ps) h,
)
