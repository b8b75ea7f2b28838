-- ===== src/Host/Working.antt =====
-- A host that can do what is asked of it.
use shortrack.Base.{
  ℕ, ◌≤◌, ◌≡◌, sym, subst, List, [], ◌∷◌, some, refl, Bool, true, false, Option, none, arith,
}
use shortrack.Base.Int.{pos}
use shortrack.Go.Text.{Text, bytes}
use shortrack.State.{SigmaState}
use shortrack.Go.Path.{join}
use shortrack.Lio.Backstores.{core_dir}
use shortrack.Host.{Host, FileInfo, value}
use shortrack.Host.Io.{Io, ok, when, check, check_unless, or_return_unless, ◌>>=◌, ◌>>◌}

-- The files that the kernel makes with a backstore's data directory, by their names in it.
pub data IsAttribute : List Text → Type 0 where
  control : IsAttribute (bytes "control" ∷ [])
  enable : IsAttribute (bytes "enable" ∷ [])
  emulate_write_cache : IsAttribute (bytes "attrib" ∷ bytes "emulate_write_cache" ∷ [])
  vpd_unit_serial : IsAttribute (bytes "wwn" ∷ bytes "vpd_unit_serial" ∷ [])

-- The call returned no error, or one that the caller accepts.
abbrev pub Accepted : {E : Type 0} → (E → Bool) → Option E → Type 0
Accepted accept none = Unit {0}
Accepted accept (some e) = accept e ≡ true

-- A host that can do what is asked of it. Directories and files can be made, opened, written and
-- closed; space can be had for a file, from an offset in it and of at least one byte; the state
-- can be encoded. `os.Stat` may find any file or none, where nothing is said of it: only
-- `Ready dir`, which making a backstore's data directory brings about and which reading and
-- writing files leaves alone, says that the attributes in `dir` can be read and found.
pub record IsWorking (H : Host) : Type 1 where
  pub Ready : Text → H.World → Type 0
  pub prepared :
      (backstore name : Text) (mode : ℕ) (w : H.World)
      → let dir = join (join (core_dir ∷ (backstore ∷ [])) ∷ (name ∷ [])) in
        Ready dir (H.mkdir_all dir mode w).1
  pub found :
      (dir : Text) (names : List Text) (w : H.World)
      → Ready dir w
      → IsAttribute names
      → (x : FileInfo) × ((H.stat (join (dir ∷ names)) w).0 ≡ value x)
  pub readable :
      (dir : Text) (names : List Text) (w : H.World)
      → Ready dir w
      → IsAttribute names
      → (H.read_file (join (dir ∷ names)) w).0.1 ≡ none
  pub ready_stat : (dir path : Text) (w : H.World) → Ready dir w → Ready dir (H.stat path w).1
  pub ready_read : (dir path : Text) (w : H.World) → Ready dir w → Ready dir (H.read_file path w).1
  pub ready_write :
      (dir path text : Text) (mode : ℕ) (w : H.World)
      → Ready dir w
      → Ready dir (H.write_file path text mode w).1
  pub file_written :
      (path text : Text) (mode : ℕ) (w : H.World) → (H.write_file path text mode w).0 ≡ none
  pub made : (path : Text) (mode : ℕ) (w : H.World) → (H.mkdir_all path mode w).0 ≡ none
  pub linked : (a b : Text) (w : H.World) → Accepted H.is_exist (H.symlink a b w).0
  pub opened :
      (path : Text) (mode : ℕ) (w : H.World)
      → (x : H.Fd) × ((H.open_truncated path mode w).0 ≡ value x)
  pub created : (path : Text) (w : H.World) → (x : H.Fd) × ((H.create path w).0 ≡ value x)
  pub written : (fd : H.Fd) (text : Text) (w : H.World) → (H.write fd text w).0 ≡ none
  pub closed : (fd : H.Fd) (w : H.World) → (H.close fd w).0 ≡ none
  pub sized :
      (path : Text) (w : H.World) (x : FileInfo)
      → (H.stat path w).0 ≡ value x
      → (n : ℕ) × (x.size ≡ pos n)
  pub allocated :
      (fd : H.Fd) (mode offset length : ℕ) (w : H.World)
      → 1 ≤ length
      → (H.fallocate fd mode (pos offset) (pos length) w).0 ≡ none
  pub marshalled : (st : SigmaState) → (x : Text) × (H.marshal_indent st ≡ value x)

-- Code that returns without error from every world.
abbrev pub Succeeds : {W E A : Type 0} → Io W E A → Type 0
Succeeds {W} {E} {A} m = (w : W) → (a : A) × ((m w).0 ≡ ok a)

module _ {W E A B : Type 0} where
  bind-ok :
      (m : Io W E A) (f : A → Io W E B) (w : W) (a : A) (b : B)
      → (m w).0 ≡ ok a
      → (f a (m w).1).0 ≡ ok b
      → ((m >>= f) w).0 ≡ ok b
  bind-ok m f w a b e e' = ground arith

  pub Succeeds-bind :
      (m : Io W E A) (f : A → Io W E B)
      → Succeeds m
      → ((a : A) → Succeeds (f a))
      → Succeeds (m >>= f)
  Succeeds-bind m f h g w =
      let (a, e) = h w in let (b, e') = g a (m w).1 in (b, bind-ok m f w a b e e')

module _ {W E : Type 0} where
  pub Succeeds-check : (f : W → Option E × W) → ((w : W) → (f w).0 ≡ none) → Succeeds (check f)
  Succeeds-check f h w = (tt, ground (arith, h w))

  -- A call without error, and what follows.
  pub after_check :
      (f : W → Option E × W) (m : Io W E (Unit {0})) (w : W)
      → (f w).0 ≡ none
      → (m (f w).1).0 ≡ ok tt
      → ((check f >> m) w).0 ≡ ok tt
  after_check f m w e h = ground arith

  Accepted-ok :
      (accept : E → Bool) (e : Option E) (w : W)
      → Accepted accept e
      → (or_return_unless accept e w).0 ≡ ok tt
  Accepted-ok accept none w h = refl
  Accepted-ok accept (some e) w h = ground arith

  pub Succeeds-Accepted :
      (accept : E → Bool) (f : W → Option E × W)
      → ((w : W) → Accepted accept (f w).0)
      → Succeeds (check_unless accept f)
  Succeeds-Accepted accept f h w = (tt, Accepted-ok accept (f w).0 (f w).1 (h w))

-- Code that returns without error from every world where `R` holds, and leaves such a world.
abbrev pub Preserves : {W E A : Type 0} → (W → Type 0) → (A → Type 0) → Io W E A → Type 0
Preserves {W} {E} {A} R Q m = (w : W) → R w → (a : A) × ((m w).0 ≡ ok a) × Q a × R (m w).1

module _ {W E A B : Type 0} (R : W → Type 0) where
  bind-world :
      (m : Io W E A) (f : A → Io W E B) (w : W) (a : A)
      → (m w).0 ≡ ok a
      → ((m >>= f) w).1 ≡ (f a (m w).1).1
  bind-world m f w a e = ground arith

  pub Preserves-bind :
      (Q : A → Type 0) (S : B → Type 0) (m : Io W E A) (f : A → Io W E B)
      → Preserves R Q m
      → ((a : A) → Q a → Preserves R S (f a))
      → Preserves R S (m >>= f)
  Preserves-bind Q S m f h g w r =
      let (a, e, q, r') = h w r in
      let (b, e', s, r2) = g a q (m w).1 r' in
      (b, bind-ok m f w a b e e', s, subst R (sym (bind-world m f w a e)) r2)

module _ {W E : Type 0} (R : W → Type 0) where
  pub Preserves-when :
      (test : Bool) (m : Io W E (Unit {0}))
      → Preserves R (λ _. Unit {0}) m
      → Preserves R (λ _. Unit {0}) (when test m)
  Preserves-when true m h = h
  Preserves-when false m h = λ w r. (tt, refl, tt, r)
