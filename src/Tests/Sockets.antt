-- ===== src/Tests/Sockets.antt =====
-- The theorem on listen at a small file system.
use api_ratelimiter.Base.{
  ℕ, ◌+◌, ◌≡◌, refl, true, some, Text, codes, text_eq, has_prefix, trim_prefix, drop_text,
}
use api_ratelimiter.App.Listen.{Os, remove_stale, with_mode, listen_at, listen, listen_sets_mode}

-- One stale socket stands there; the system counts its calls.
abbrev one_socket : Os
one_socket = record {
  World = ℕ;
  Listener = Text;
  stat = λ path n. (text_eq path (codes "/run/a"), n + 1);
  remove = λ path n. (true, n + 10);
  listen_unix = λ path n. (some path, n + 100);
  listen_tcp = λ spec n. (some spec, n + 100);
  chmod = λ path mode n. (true, n + 1000);
  close = λ ln n. n + 10000;
}

listen_sets_mode_example :
    (bound : ℕ) × (true ≡ true) × ((listen one_socket (codes "unix:/run/a") 438 0).1 ≡ bound + 1000)
unfolding has_prefix trim_prefix drop_text listen listen_at remove_stale with_mode text_eq
listen_sets_mode_example =
    listen_sets_mode one_socket (codes "unix:/run/a") 438 0 (codes "/run/a") refl refl
