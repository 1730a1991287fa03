-- ===== src/Config/Manager/Tests.antt =====
-- Runs of the kept configuration: sections that are numbers, of which zero is null.
use finokit.Base.{
  ℕ, ◌+◌, ◌==◌, [], ◌∷◌, none, some, true, text, text_eq, split, ok, ◌≡◌, refl, if◌then◌else◌,
}
use finokit.Config.Manager.{Manages, Manager, normalize_path, get, scan_keys, scan_from, default_of}

-- The configuration holds a number at the path "redis" alone.
abbrev toy : Manages ℕ ℕ ℕ ℕ ℕ
toy = record {
  new_config = λ opts. ok 0;
  close = λ c. c;
  bytes = λ c. [];
  scan = λ c t. ok c;
  sync = λ c. (none, c);
  get = λ path c. elim path [ [] ↦ ok 0 | p ∷ ps ↦ ok (if text_eq p (text "redis") then c else 0) ];
  load = λ sources c. (none, c);
  is_null = λ v. v == 0;
  scan_value = λ v t. ok (v + t);
}

abbrev kept : Manager ℕ
kept = record { default_config = some 7; inited = true; replaced = [] }

reads_alternative : scan_from toy (some 100) (text "cache") (text "redis" ∷ []) kept ≡ ok 107
unfolding scan_from scan_keys get default_of normalize_path split text_eq
reads_alternative = refl
