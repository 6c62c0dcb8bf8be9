-- ===== src/Server/Startup/Configured.antt =====
-- What is known of a server that New returns.
use bhttp_1_http_in_binary.Base.{
  ◌≡◌, refl, true, false, Bool-cases, inl, inr, Bytes, Result, success, Result-cases,
}
use bhttp_1_http_in_binary.Base.Ints.{ℤ, is_positive}
use bhttp_1_http_in_binary.Server.Paths.{FilePath}
use bhttp_1_http_in_binary.Server.Resolver.{FileSystem}
use bhttp_1_http_in_binary.Server.Lifecycle.{new_server}
use bhttp_1_http_in_binary.Server.Startup.{
  Config, Server, default_idle_timeout, default_write_timeout, or_default, new_resolver, new,
}

or_default_positive :
    (t default : ℤ) → is_positive default ≡ true → is_positive (or_default t default) ≡ true
unfolding or_default
or_default_positive t default h = elim (Bool-cases (is_positive t)) [
  | inl e ↦ rw e e
  | inr e ↦ rw e h
]

module _ (fs : FileSystem) (abs : Bytes → Result FilePath) where
  -- A directory, as the file system says, and the result of resolving links.
  pub record IsRoot (named : Bytes) (root : FilePath) : Type 0 where
    pub full : FilePath
    pub named_so : abs named ≡ success full
    pub resolved : fs.eval_symlinks full ≡ success root
    pub is_dir : fs.stat_is_dir root ≡ success true

  new_resolver-IsRoot :
      (named : Bytes) (root : FilePath)
      → new_resolver fs abs named ≡ success root
      → IsRoot named root
  unfolding new_resolver
  new_resolver-IsRoot named root h = elim (Result-cases (abs named)) [
    | inr (x, e) ↦ absurd (cc (rw e at h))
    | inl (full, e) ↦ elim (Result-cases (fs.eval_symlinks full)) [
      | inr (x, e') ↦ absurd (cc (rw e' at (rw e at h)))
      | inl (real, e') ↦ elim (Result-cases (fs.stat_is_dir real)) [
        | inr (x, d) ↦ absurd (cc (rw d at (rw e' at (rw e at h))))
        | inl (true, d) ↦
            let done : success real ≡ success root = rw d at (rw e' at (rw e at h)) in
            let same : real ≡ root = cc in
            record { full = full; named_so = e; resolved = rw (← same) e'; is_dir = rw (← same) d }
        | inl (false, d) ↦ absurd (cc (rw d at (rw e' at (rw e at h))))
      ]
    ]
  ]

  -- Whatever the file system does and whatever times are asked for: a server that New returns has
  -- positive times, nothing is tracked yet, and its root is the result of resolving the links of
  -- the name that it was given, and a directory.
  pub new_lem :
      (cfg : Config) (srv : Server)
      → new fs abs cfg ≡ success srv
      → IsRoot cfg.root srv.root
        × (is_positive srv.idle_timeout ≡ true)
        × (is_positive srv.write_timeout ≡ true)
        × (srv.running ≡ new_server)
  unfolding new is_positive
  new_lem cfg srv h = elim (Result-cases (new_resolver fs abs cfg.root)) [
    | inr (x, e) ↦ absurd (cc (rw e at h))
    | inl (root, e) ↦
        let made : Server = record {
          root = root;
          idle_timeout = or_default cfg.idle_timeout default_idle_timeout;
          write_timeout = or_default cfg.write_timeout default_write_timeout;
          running = new_server;
        } in
        let done : success made ≡ success srv = rw e at h in
        let same : made ≡ srv = cc in
        rw (← same) (
          new_resolver-IsRoot cfg.root root e,
          or_default_positive cfg.idle_timeout default_idle_timeout refl,
          or_default_positive cfg.write_timeout default_write_timeout refl,
          refl,
        )
  ]
