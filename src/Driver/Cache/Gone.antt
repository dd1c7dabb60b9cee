-- ===== src/Driver/Cache/Gone.antt =====
-- The files that the eviction of services/driverd/src/cache.rs removes.
use mission_os.Base.{ℕ, true, false, ◌≡◌}
use mission_os.Base.Results.{ok}
use mission_os.Base.Text.{Text}
use mission_os.Driver.System.{System}
use mission_os.Driver.World.{World}
use mission_os.Driver.Web.{Web}
use mission_os.Driver.Cache.{CacheConfig, Directory}

-- What a removal does: that of a file that is there succeeds, the file is not there afterwards, and
-- no removal makes a file.
pub record IsRemoving (S : System) : Type 0 where
  pub remove_works :
      (os : S.State) (path : Text) → S.exists os path ≡ true → (S.remove_file os path).1 ≡ ok tt
  pub remove_gone :
      (os : S.State) (path : Text)
      → (S.remove_file os path).1 ≡ ok tt
      → S.exists (S.remove_file os path).0 path ≡ false
  pub never_back :
      (os : S.State) (removed path : Text)
      → S.exists os path ≡ false
      → S.exists (S.remove_file os removed).0 path ≡ false

module _ {S : System} (web : Web S) (dir : Directory S) (c : CacheConfig) (fs : IsRemoving S) where
  abbrev pub IsGone : World S → Text × ℕ → Type 0
  IsGone w e = S.exists w.os e.0 ≡ false
