-- ===== src/Redis/Limits.antt =====
-- What a configuration is after `normalizeConfig` of redis/config.go.
use mathlib.Core.Path.{subst}
use finokit.Base.{
  ◌≤◌, Bool, false, text_key, is_empty, length, Result, ok, pos, negsuc, eqb_ℤ_iff, eqb_ℤ, ◌≤ℤ◌, ℤ,
  ◌≢◌, ◌∙◌, ◌≡◌, refl, arith, ◌⊎◌, inl, inr, ◌↔◌, Bool-cases, Result-cases, ◌>>◌, refuse_if,
}
use finokit.Redis.{
  Error, Config, normalize_addresses, check_limits, with_defaults, normalize_config, default_to,
}

-- The limits on a configuration.
pub record IsWithin {Tls : Type 0} (c : Config Tls) : Type 0 where
  pub db_low : pos 0 ≤ℤ c.db
  pub cluster : (length c.addresses ≤ 1) ⊎ (c.db ≡ pos 0)
  pub pool : pos 0 ≤ℤ c.pool_size
  pub idle : pos 0 ≤ℤ c.min_idle_conns
  pub retries : negsuc 0 ≤ℤ c.max_retries
  pub min_backoff : negsuc 0 ≤ℤ c.min_retry_backoff
  pub max_backoff : negsuc 0 ≤ℤ c.max_retry_backoff
  pub backoffs :
      (c.min_retry_backoff ≤ℤ pos 0)
      ⊎ ((c.max_retry_backoff ≤ℤ pos 0) ⊎ (c.min_retry_backoff ≤ℤ c.max_retry_backoff))
  pub dial : pos 0 ≤ℤ c.dial_timeout
  pub reads : negsuc 1 ≤ℤ c.read_timeout
  pub writes : negsuc 1 ≤ℤ c.write_timeout

-- One more test passes.
pass :
    {m : Result Error (Unit {0})} (e : Error) {b : Bool}
    → m ≡ ok tt
    → b ≡ false
    → (m >> refuse_if b e) ≡ ok tt
pass e before test = ground arith

first : (e : Error) {b : Bool} → b ≡ false → refuse_if b e ≡ ok tt
first e test = ground arith

-- A value that is the given one, or the default where that is zero.
abbrev pub IsDefaulted : ℤ → ℤ → ℤ → Type 0
IsDefaulted default given result =
    ((given ≡ pos 0) × (result ≡ default)) ⊎ ((given ≢ pos 0) × (result ≡ given))

default_to-IsDefaulted :
    (default given result : ℤ)
    → (result ≡ default_to default given) ↔ IsDefaulted default given result
default_to-IsDefaulted default given result = elim (Bool-cases (eqb_ℤ given (pos 0))) [
  | inl zero ↦
      let at = (eqb_ℤ_iff given (pos 0)).0 zero in
      (
        λ h. inl (at, ground arith),
        λ d. elim d [ inl (_, same) ↦ ground arith | inr (not_at, same) ↦ absurd (not_at at) ],
      )
  | inr other ↦
      let not_at : given ≢ pos 0 = λ at. absurd (ground (arith, (eqb_ℤ_iff given (pos 0)).1 at)) in
      (
        λ h. inr (not_at, ground arith),
        λ d. elim d [ inl (at, same) ↦ absurd (not_at at) | inr (_, same) ↦ ground arith ],
      )
]

module _ {Tls : Type 0} where
  check_limits_iff : (c : Config Tls) → (check_limits c ≡ ok tt) ↔ IsWithin c
  unfolding check_limits
  check_limits_iff c = (
    λ h. record {
      db_low = ground arith;
      cluster = ground (arith, eqb_ℤ_iff c.db (pos 0));
      pool = ground arith;
      idle = ground arith;
      retries = ground arith;
      min_backoff = ground arith;
      max_backoff = ground arith;
      backoffs = ground arith;
      dial = ground arith;
      reads = ground arith;
      writes = ground arith;
    },
    λ w.
        pass _
          (pass _
            (pass _
              (pass _
                (pass _
                  (pass _
                    (pass _
                      (pass _ (first _ (ground (arith, w.db_low)))
                        (ground (arith, eqb_ℤ_iff c.db (pos 0), w.cluster)))
                      (ground (arith, w.pool)))
                    (ground (arith, w.idle)))
                  (ground (arith, w.retries)))
                (ground (arith, w.min_backoff, w.max_backoff)))
              (ground (arith, w.backoffs)))
            (ground (arith, w.dial)))
          (ground (arith, w.reads, w.writes)),
  )

  -- A configuration with its addresses trimmed, without blank ones, and each once.
  abbrev pub cleaned : Config Tls → Config Tls
  cleaned c = record c { addresses = normalize_addresses c.addresses }

  -- What `normalizeConfig` makes of a configuration: the addresses are cleaned, 3 retries and
  -- backoffs of 8 and 512 milliseconds stand for zeros, and nothing else changes.
  pub record IsNormalized (c c' : Config Tls) : Type 0 where
    pub addresses : c'.addresses ≡ normalize_addresses c.addresses
    pub retries : IsDefaulted (pos 3) c.max_retries c'.max_retries
    pub min_backoff : IsDefaulted (pos 8000000) c.min_retry_backoff c'.min_retry_backoff
    pub max_backoff : IsDefaulted (pos 512000000) c.max_retry_backoff c'.max_retry_backoff
    pub others : c' ≡ record c {
      addresses = c'.addresses;
      max_retries = c'.max_retries;
      min_retry_backoff = c'.min_retry_backoff;
      max_retry_backoff = c'.max_retry_backoff;
    }

  with_defaults-IsNormalized : (c : Config Tls) → IsNormalized c (with_defaults (cleaned c))
  unfolding with_defaults
  with_defaults-IsNormalized c = record {
    addresses = refl;
    retries = (default_to-IsDefaulted (pos 3) c.max_retries _).0 refl;
    min_backoff = (default_to-IsDefaulted (pos 8000000) c.min_retry_backoff _).0 refl;
    max_backoff = (default_to-IsDefaulted (pos 512000000) c.max_retry_backoff _).0 refl;
    others = refl;
  }

  IsNormalized-unique : (c c' : Config Tls) → IsNormalized c c' → c' ≡ with_defaults (cleaned c)
  unfolding with_defaults
  IsNormalized-unique c c' n =
      let r = (default_to-IsDefaulted (pos 3) c.max_retries c'.max_retries).1 n.retries in
      let low =
        (default_to-IsDefaulted (pos 8000000) c.min_retry_backoff c'.min_retry_backoff).1
          n.min_backoff in
      let high =
        (default_to-IsDefaulted (pos 512000000) c.max_retry_backoff c'.max_retry_backoff).1
          n.max_backoff in
      n.others ∙ rw (with_defaults, n.addresses, r, low, high) refl

  -- `normalizeConfig` accepts a configuration just when an address is left and the limits hold, and
  -- then returns it with the cleaned addresses, 3 for a number of retries of zero, 8 and 512
  -- milliseconds for a minimum and a maximum backoff of zero, and everything else as given.
  pub normalize_config_iff :
      (c c' : Config Tls)
      → (normalize_config c ≡ ok c') ↔ (
          (is_empty (normalize_addresses c.addresses) ≡ false)
          × IsWithin (cleaned c)
          × IsNormalized c c')
  unfolding normalize_config
  normalize_config_iff c c' = (
    λ h. elim (Bool-cases (is_empty (normalize_addresses c.addresses))) [
      | inl empty ↦ absurd (ground arith)
      | inr left ↦ elim (Result-cases (check_limits (cleaned c))) [
        | inr (e, bad) ↦ absurd (ground arith)
        | inl (u, passed) ↦ (
          left,
          (check_limits_iff (cleaned c)).0 passed,
          subst (IsNormalized c) {x = with_defaults (cleaned c)} (ground arith)
              (with_defaults-IsNormalized c),
        )
      ]
    ],
    λ (left, within, normal).
        let passed = (check_limits_iff (cleaned c)).1 within in
        let same = IsNormalized-unique c c' normal in ground arith,
  )

  -- A configuration that keeps an address and is within the limits, with a minimum backoff of zero and
  -- a maximum from 1 to 7999999 nanoseconds, is accepted, and returned with its maximum and a minimum
  -- of 8000000: the order that the limits ask for is lost.
  pub default_backoff_crosses :
      (c : Config Tls)
      → is_empty (normalize_addresses c.addresses) ≡ false
      → IsWithin (cleaned c)
      → c.min_retry_backoff ≡ pos 0
      → pos 1 ≤ℤ c.max_retry_backoff
      → c.max_retry_backoff ≤ℤ pos 7999999
      → (c' : Config Tls) × (normalize_config c ≡ ok c')
        × (c'.max_retry_backoff ≡ c.max_retry_backoff)
        × (c'.min_retry_backoff ≡ pos 8000000)
  default_backoff_crosses c left within zero low high =
      let n = with_defaults-IsNormalized c in
      (
        with_defaults (cleaned c),
        (normalize_config_iff c (with_defaults (cleaned c))).1 (left, within, n),
        elim n.max_backoff [ inl (at, _) ↦ absurd (ground arith) | inr (_, same) ↦ same ],
        elim n.min_backoff [ inl (_, same) ↦ same | inr (not_at, _) ↦ absurd (not_at zero) ],
      )
