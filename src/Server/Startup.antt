-- ===== src/Server/Startup.antt =====
-- New of internal/server/server.go, and newResolver of resolver.go. A time is a number of
-- nanoseconds. filepath.Abs is a parameter: it asks the operating system where it is.
pub mod Configured
use bhttp_1_http_in_binary.Base.{
  ℕ, ◌*◌, ◌^◌, not, Bytes, Result, success, failure, Error, wrapped, not_a_directory, ◌>>=?◌,
  if◌then◌else◌,
}
use bhttp_1_http_in_binary.Base.Ints.{ℤ, pos, is_positive}
use bhttp_1_http_in_binary.Server.Paths.{FilePath}
use bhttp_1_http_in_binary.Server.Resolver.{FileSystem}
use bhttp_1_http_in_binary.Server.Lifecycle.{Running, new_server}

-- The logger, which may be missing, is left out.
pub record Config : Type 0 where
  pub root : Bytes
  pub idle_timeout : ℤ
  pub write_timeout : ℤ

abbrev pub default_idle_timeout : ℤ
default_idle_timeout = pos (30 * 10 ^ 9)

abbrev pub default_write_timeout : ℤ
default_write_timeout = pos (30 * 10 ^ 9)

-- A server with what stays as it is, and what moves.
pub record Server : Type 0 where
  pub root : FilePath
  pub idle_timeout : ℤ
  pub write_timeout : ℤ
  pub running : Running

unfoldable pub or_default : ℤ → ℤ → ℤ
or_default t default = if is_positive t then t else default

abbrev pub wrap_error : Result FilePath → Result FilePath
wrap_error (success p) = success p
wrap_error (failure e) = failure (wrapped e)

module _ (fs : FileSystem) (abs : Bytes → Result FilePath) where
  unfoldable pub new_resolver : Bytes → Result FilePath
  new_resolver root = abs root >>=? λ full. fs.eval_symlinks full >>=? λ real.
      fs.stat_is_dir real >>=? λ is_dir.
      if not is_dir then failure not_a_directory else success real

  unfoldable pub new : Config → Result Server
  unfolding new_resolver or_default
  new cfg = wrap_error (new_resolver cfg.root) >>=? λ root. success (record {
    root = root;
    idle_timeout = or_default cfg.idle_timeout default_idle_timeout;
    write_timeout = or_default cfg.write_timeout default_write_timeout;
    running = new_server;
  })
