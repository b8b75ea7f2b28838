-- ===== src/Host.antt =====
-- What lies outside the repository: the operating system behind package `os` and `syscall`, and
-- the JSON codec for the state. A parameter of the model, of which nothing is assumed here.
pub mod Io
pub mod Working
use shortrack.Base.{ℕ, Bool, Option, List}
use shortrack.Base.Int.{ℤ}
use shortrack.Go.Text.{Text}
use shortrack.State.{SigmaState}

-- `os.DirEntry`
pub record DirEntry : Type 0 where
  pub name : Text
  pub is_dir : Bool

-- `os.FileInfo`: `Size()`, `Mode()` and whether `Mode()&os.ModeSymlink` is set.
pub record FileInfo : Type 0 where
  pub size : ℤ
  pub mode : ℕ
  pub is_symlink : Bool

-- A result that is nil where the error is not.
pub data Returned (E A : Type 0) : Type 0 where
  value : A → Returned E A
  failed : E → Returned E A

-- `World` is all that the calls read and change. `read_file` and `read_dir` return what they have
-- read beside an error, as the Go functions do.
pub record Host : Type 1 where
  pub World : Type 0
  pub Err : Type 0
  pub Fd : Type 0
  pub is_not_exist : Err → Bool
  pub is_exist : Err → Bool
  pub read_file : Text → World → (Text × Option Err) × World
  pub read_dir : Text → World → (List DirEntry × Option Err) × World
  pub stat : Text → World → Returned Err FileInfo × World
  pub lstat : Text → World → Returned Err FileInfo × World
  pub write_file : Text → Text → ℕ → World → Option Err × World
  pub mkdir_all : Text → ℕ → World → Option Err × World
  pub remove : Text → World → Option Err × World
  pub symlink : Text → Text → World → Option Err × World
  pub open_truncated : Text → ℕ → World → Returned Err Fd × World
  pub create : Text → World → Returned Err Fd × World
  pub write : Fd → Text → World → Option Err × World
  pub close : Fd → World → Option Err × World
  pub fallocate : Fd → ℕ → ℤ → ℤ → World → Option Err × World
  pub marshal_indent : SigmaState → Returned Err Text
  pub unmarshal : Text → SigmaState → SigmaState × Option Err
