-- ===== src/App/Listen.antt =====
-- listen of cmd/api-ratelimiter/main.go. The calls of the operating system are the interface `Os`.
use api_ratelimiter.Base.{
  ℕ, ◌≡◌, refl, Bool, true, Option, none, some, Bool-cases, inl, inr, Text, codes, has_prefix,
  trim_prefix, if◌then◌else◌,
}

-- os.Stat, os.Remove, net.Listen for its two networks, os.Chmod and Close; a Boolean tells whether the
-- error was nil.
pub record Os : Type 1 where
  pub World : Type 0
  pub Listener : Type 0
  pub stat : Text → World → Bool × World
  pub remove : Text → World → Bool × World
  pub listen_unix : Text → World → Option Listener × World
  pub listen_tcp : Text → World → Option Listener × World
  pub chmod : Text → ℕ → World → Bool × World
  pub close : Listener → World → World

none_found : {A : Type 0} {a : A} → none ≡ some a → ⊥
none_found h = cc

module _ (os : Os) where
  -- The stale socket goes; `false` when it cannot.
  unfoldable pub remove_stale : Text → os.World → Bool × os.World
  remove_stale path w =
      let (exists, w') = os.stat path w in if exists then os.remove path w' else (true, w')

  -- os.Chmod on a bound socket, which is closed when that fails
  unfoldable pub with_mode :
      Text → ℕ → Option os.Listener × os.World → Option os.Listener × os.World
  with_mode path mode (none, w) = (none, w)
  with_mode path mode (some ln, w) =
      let (done, w') = os.chmod path mode w in
      if done then (some ln, w') else (none, os.close ln w')

  unfoldable pub listen_at : Text → ℕ → os.World → Option os.Listener × os.World
  listen_at path mode w =
      let (removed, w') = remove_stale path w in
      if removed then with_mode path mode (os.listen_unix path w') else (none, w')

  -- listen
  unfoldable pub listen : Text → ℕ → os.World → Option os.Listener × os.World
  listen spec mode w =
      if has_prefix spec (codes "unix:")
      then listen_at (trim_prefix spec (codes "unix:")) mode w
      else os.listen_tcp spec w

  with_mode_opened :
      (path : Text) (mode : ℕ) (o : Option os.Listener) (w : os.World) (ln : os.Listener)
      → (with_mode path mode (o, w)).0 ≡ some ln
      → ((os.chmod path mode w).0 ≡ true)
        × ((with_mode path mode (o, w)).1 ≡ (os.chmod path mode w).1)
  unfolding with_mode
  with_mode_opened path mode none w ln h = cc
  with_mode_opened path mode (some l) w ln h = elim (Bool-cases (os.chmod path mode w).0) [
    | inl e ↦ (e, rw e refl)
    | inr e ↦ cc
  ]

  listen_at_opened :
      (path : Text) (mode : ℕ) (w : os.World) (ln : os.Listener)
      → (listen_at path mode w).0 ≡ some ln
      → (bound : os.World) × ((os.chmod path mode bound).0 ≡ true)
        × ((listen_at path mode w).1 ≡ (os.chmod path mode bound).1)
  unfolding listen_at
  listen_at_opened path mode w ln h = elim (Bool-cases (remove_stale path w).0) [
    | inl e ↦
        let (found, bound) = os.listen_unix path (remove_stale path w).1 in
        let (done, state) = with_mode_opened path mode found bound ln (rw e at h) in
        (bound, done, rw e state)
    | inr e ↦ absurd (none_found (rw e at h))
  ]

  -- A Unix socket that is handed out has the mode: the last call was a Chmod of its path with the mode,
  -- and it succeeded.
  pub listen_sets_mode :
      (spec : Text) (mode : ℕ) (w : os.World) (ln : os.Listener)
      → has_prefix spec (codes "unix:") ≡ true
      → (listen spec mode w).0 ≡ some ln
      → (bound : os.World) × ((os.chmod (trim_prefix spec (codes "unix:")) mode bound).0 ≡ true)
        × ((listen spec mode w).1 ≡ (os.chmod (trim_prefix spec (codes "unix:")) mode bound).1)
  unfolding listen
  listen_sets_mode spec mode w ln p h =
      let (bound, done, state) =
        listen_at_opened (trim_prefix spec (codes "unix:")) mode w ln (rw p at h) in
      (bound, done, rw p state)
