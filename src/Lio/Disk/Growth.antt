-- ===== src/Lio/Disk/Growth.antt =====
-- What `TouchDiskFile` returns, and what it does to a file that has to grow.
use shortrack.Base.{
  ℕ, zero, suc, ◌≡◌, refl, ap, ◌∙◌, false, Option, none, some, [], ◌∷◌, ◌++◌, arith,
}
use shortrack.Base.Int.{ℤ, ◌≤ℤ◌, leb_ℤ, sub_int64}
use shortrack.Go.Text.{Text}
use shortrack.Host.{Host, value}
use shortrack.Host.Io.{ok, Error}
use shortrack.Lio.Disk.{touch_disk_file, existing_size, allocate_at, result_or}

-- `n` zero bytes.
abbrev pub zeros : ℕ → Text
zeros zero = []
zeros (suc n) = 0 ∷ zeros n

result_or_world : {W E A : Type 0} (a : A) (o : Option (Error E)) (w : W) → (result_or a o w).1 ≡ w
result_or_world a none w = refl
result_or_world a (some e) w = refl

module _ (H : Host) where
  open H use {World, Err, Fd, stat, create, fallocate, close}

  -- Where `TouchDiskFile` returns no error, the size that it returns is at least the size asked
  -- for and at least the size that `os.Stat` reported.
  pub touch_disk_file_size :
      (path : Text) (size n : ℤ) (w : World)
      → (touch_disk_file H path size w).0 ≡ ok n
      → (size ≤ℤ n) × (existing_size H (stat path w).0 ≤ℤ n)
  unfolding touch_disk_file
  touch_disk_file_size path size n w h = ground arith

  -- What the growth of a file relies on, for `content` the bytes of the file at `path`: `os.Create`
  -- truncates the file, `fallocate` appends zero bytes, and `Close` keeps the bytes.
  pub record Truncates (path : Text) (content : World → Text) : Type 0 where
    pub created :
        (fd : Fd) (w : World) → (create path w).0 ≡ value fd → content (create path w).1 ≡ []
    pub allocated :
        (fd : Fd) (a b : ℤ) (w : World)
        → (n : ℕ) × (content (fallocate fd 0 a b w).1 ≡ content w ++ zeros n)
    pub closed : (fd : Fd) (w : World) → content (close fd w).1 ≡ content w

  allocate_at-zeros :
      (path : Text) (content : World → Text)
      → Truncates path content
      → (existing size : ℤ) (fd : Fd) (w : World) → content w ≡ []
      → (n : ℕ) × (content (allocate_at H existing size fd w).1 ≡ zeros n)
  unfolding allocate_at
  allocate_at-zeros path content t existing size fd w e =
      let (n, appended) = t.allocated fd existing (sub_int64 size existing) w in
      (
        n,
        ap content (result_or_world size _ _) ∙ t.closed fd _ ∙ appended ∙ ap (λ c. c ++ zeros n) e,
      )

  touch_disk_file_grows :
      (path : Text) (size : ℤ) (w : World) (fd : Fd)
      → leb_ℤ size (existing_size H (stat path w).0) ≡ false
      → (create path (stat path w).1).0 ≡ value fd
      → touch_disk_file H path size w
        ≡ allocate_at H (existing_size H (stat path w).0) size fd (create path (stat path w).1).1
  unfolding touch_disk_file
  touch_disk_file_grows path size w fd small made = ground arith

  -- A file that has to grow loses its bytes: where `os.Stat` reports less than the size asked for
  -- and `os.Create` succeeds, only zero bytes are left, whatever was in the file.
  pub touch_disk_file-zeros :
      (path : Text) (content : World → Text)
      → Truncates path content
      → (size : ℤ) (w : World) (fd : Fd) → leb_ℤ size (existing_size H (stat path w).0) ≡ false
      → (create path (stat path w).1).0 ≡ value fd
      → (n : ℕ) × (content (touch_disk_file H path size w).1 ≡ zeros n)
  touch_disk_file-zeros path content t size w fd small made =
      let (n, e) = allocate_at-zeros path content t _ size fd _ (t.created fd _ made) in
      (n, ap (λ r. content r.1) (touch_disk_file_grows path size w fd small made) ∙ e)
