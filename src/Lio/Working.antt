-- ===== src/Lio/Working.antt =====
-- The writing functions succeed on a host that can do what is asked of it.
use shortrack.Base.{
  ltb, some, ◌++◌, ℕ, ◌≤◌, ◌<◌, ◌^◌, ◌-◌, List, [], ◌∷◌, Option, none, ◌≡◌, refl, ap, ◌∙◌, true,
  false, Bool-cases, inl, inr, arith,
}
use shortrack.Base.Int.{pos, leb_ℤ, sub_int64, to_int64, to_uint64}
use shortrack.Go.Number.{format_uint}
use shortrack.Go.Path.{join}
use shortrack.Go.Text.{Text, bytes, text_eq, trim_space, trim_prefix}
use shortrack.State.{Backstore, Target}
use shortrack.Host.{Host, FileInfo, value}
use shortrack.Host.Io.{Io, check, check_unless, ok, call, ◌>>=◌, ◌>>◌, when, or_return}
use shortrack.Host.Io.Cases.{Returned-cases}
use shortrack.Host.Working.{
  IsWorking, IsAttribute, Succeeds, Succeeds-bind, Succeeds-check, Succeeds-Accepted, Preserves,
  Preserves-bind, Preserves-when, after_check,
}
use shortrack.Lio.Config.{write_config, read_config_string}
use shortrack.Lio.Disk.{touch_disk_file, existing_size}
use shortrack.Lio.Backstores.{
  backstore_block, backstore_fileio, core_dir, backstore_dir_name, enable_text, upsert_fileio,
  upsert_backstore,
}
use shortrack.Lio.Luns.{upsert_lun, lun_path}

fileio-block : text_eq backstore_fileio backstore_block ≡ false
unfolding text_eq bytes
fileio-block = refl

fileio-fileio : text_eq backstore_fileio backstore_fileio ≡ true
unfolding text_eq bytes
fileio-fileio = refl

-- The difference of two sizes of a file does not wrap.
sub_int64_small : (n m : ℕ) → n < 2 ^ 63 → m < n → sub_int64 (pos n) (pos m) ≡ pos (n - m)
unfolding sub_int64 to_int64 to_uint64
sub_int64_small n m fits less = ground arith

module _ (H : Host) (works : IsWorking H) where
  open H use {World, Err}

  abbrev Nothing : Unit {0} → Type 0
  Nothing x = Unit {0}

  -- The functions for an attribute of a directory that is ready.
  module _ (dir : Text) where
    abbrev Here : World → Type 0
    Here = works.Ready dir

    write_config-Preserves :
        (names : List Text) (text : Text)
        → IsAttribute names
        → Preserves Here Nothing (write_config H (join (dir ∷ names)) text)
    unfolding write_config
    write_config-Preserves names text attribute w r =
        let path = join (dir ∷ names) in
        let (info, e) = works.found dir names w r attribute in
        let v = (H.stat path w).1 in
        let there : Here v = works.ready_stat dir path w r in
        let wrote = works.file_written path text info.mode v in
        let kept : Here (H.write_file path text info.mode v).1 =
          works.ready_write dir path text info.mode v there in
        (tt, ground arith, tt, rw e (rw wrote kept))

    read_config-Preserves :
        (names : List Text)
        → IsAttribute names
        → Preserves Here
            (λ (x : Text × Option Err). x.1 ≡ none)
            (call {E = Err} (read_config_string H (join (dir ∷ names))))
    read_config-Preserves names attribute w r = (
      (H.read_file (join (dir ∷ names)) w).0,
      refl,
      works.readable dir names w r attribute,
      works.ready_read dir (join (dir ∷ names)) w r,
    )

    or_return-Preserves :
        (e : Option Err) → e ≡ none → Preserves Here Nothing (or_return {W = World} e)
    or_return-Preserves none h = λ w r. (tt, refl, tt, r)
    or_return-Preserves (some e) h = absurd (ground arith)

    enable_text-Preserves :
        (r : Text × Option Err)
        → r.1 ≡ none
        → Preserves Here (λ (x : Text). Unit {0}) (enable_text H r)
    unfolding enable_text
    enable_text-Preserves (text, none) h = λ w r. (text, refl, tt, r)
    enable_text-Preserves (text, some e) h = absurd (ground arith)

  -- A file of fewer than `n` bytes grows.
  touch_disk_file-short :
      (path : Text) (n m : ℕ) (w : World)
      → n < 2 ^ 63
      → m < n
      → existing_size H (H.stat path w).0 ≡ pos m
      → (touch_disk_file H path (pos n) w).0 ≡ ok (pos n)
  unfolding touch_disk_file
  touch_disk_file-short path n m w fits less existing =
      let v = (H.stat path w).1 in
      let (fd, made) = works.created path v in
      let length = sub_int64_small n m fits less in
      let space = works.allocated fd 0 m (n - m) (H.create path v).1 (omega arith) in
      let closing =
        works.closed fd (H.fallocate fd 0 (pos m) (pos (n - m)) (H.create path v).1).1 in
      let small : leb_ℤ (pos n) (pos m) ≡ false = ground arith in
      rw (existing, small, made, length, space, closing) refl

  touch_disk_file-long :
      (path : Text) (n m : ℕ) (w : World) (info : FileInfo)
      → (H.stat path w).0 ≡ value info
      → info.size ≡ pos m
      → n ≤ m
      → (touch_disk_file H path (pos n) w).0 ≡ ok (pos m)
  unfolding touch_disk_file
  touch_disk_file-long path n m w info found sized long =
      let large : leb_ℤ (pos n) (pos m) ≡ true = ground arith in rw found (rw sized (rw large refl))

  pub touch_disk_file-Succeeds :
      (path : Text) (n : ℕ) → 1 ≤ n → n < 2 ^ 63 → Succeeds (touch_disk_file H path (pos n))
  touch_disk_file-Succeeds path n some_bytes fits w = elim (Returned-cases (H.stat path w).0) [
    | inr (e, missing) ↦ (pos n, touch_disk_file-short path n 0 w fits (omega arith) (ground arith))
    | inl (info, found) ↦
        let (m, sized) = works.sized path w info found in
        elim (Bool-cases (ltb m n)) [
          | inl less ↦ (pos n, touch_disk_file-short path n m w fits (ground arith) (ground arith))
          | inr large ↦ (pos m, touch_disk_file-long path n m w info found sized (ground arith))
        ]
  ]

  pub upsert_lun-ok :
      (t : Target) (n : ℕ) (b : Backstore) (w : World) → (upsert_lun H t n b w).0 ≡ ok tt
  unfolding upsert_lun
  upsert_lun-ok t n b w =
      let link =
        H.symlink (join (core_dir ∷ backstore_dir_name b.kind b.id ∷ b.name ∷ []))
          (join (lun_path t n ∷ b.name ∷ [])) in
      let make = H.mkdir_all (lun_path t n) 0o755 in
      let (_, e) =
        Succeeds-bind (check make) (λ _. check_unless H.is_exist link)
          (Succeeds-check make (works.made (lun_path t n) 0o755))
          (λ _. Succeeds-Accepted H.is_exist link (works.linked _ _)) w in
      e

  -- What `UpsertBackstore` does in the data directory.
  module _ (b : Backstore) where
    abbrev data_dir : Text
    data_dir = join (join (core_dir ∷ backstore_dir_name b.kind b.id ∷ []) ∷ b.name ∷ [])

    abbrev set : List Text → Text → Io World Err (Unit {0})
    set names text = write_config H (join (data_dir ∷ names)) text

    abbrev read : List Text → Io World Err (Text × Option Err)
    read names = call (read_config_string H (join (data_dir ∷ names)))

    abbrev enable_file : List Text
    enable_file = bytes "enable" ∷ []

    abbrev serial_file : List Text
    serial_file = bytes "wwn" ∷ bytes "vpd_unit_serial" ∷ []

    abbrev switch_on : Text → Io World Err (Unit {0})
    switch_on text = when (text_eq (trim_space text) (bytes "0")) (set enable_file (bytes "1"))

    abbrev from_enable : Io World Err (Unit {0})
    from_enable = read enable_file >>= λ r. enable_text H r >>= switch_on

    abbrev name_serial : Text → Io World Err (Unit {0})
    name_serial text =
        when (text_eq (trim_space (trim_prefix text (bytes "T10 VPD Unit Serial Number:"))) [])
          (set serial_file b.name)

    abbrev from_serial : Text × Option Err → Io World Err (Unit {0})
    from_serial r = or_return r.1 >> (name_serial r.0 >> from_enable)

    abbrev Prepared : World → Type 0
    Prepared = works.Ready data_dir

    switch_on-Preserves : (text : Text) → Preserves Prepared Nothing (switch_on text)
    switch_on-Preserves text =
        Preserves-when Prepared _ (set enable_file (bytes "1"))
          (write_config-Preserves data_dir enable_file (bytes "1") IsAttribute.enable)

    from_enable-Preserves : Preserves Prepared Nothing from_enable
    from_enable-Preserves =
        Preserves-bind Prepared (λ (r : Text × Option Err). r.1 ≡ none) Nothing (read enable_file)
          (λ r. enable_text H r >>= switch_on)
          (read_config-Preserves data_dir enable_file IsAttribute.enable)
          (λ r h.
            Preserves-bind Prepared (λ _. Unit {0}) Nothing (enable_text H r) switch_on
              (enable_text-Preserves data_dir r h) (λ text _. switch_on-Preserves text))

    name_serial-Preserves : (text : Text) → Preserves Prepared Nothing (name_serial text)
    name_serial-Preserves text =
        Preserves-when Prepared _ (set serial_file b.name)
          (write_config-Preserves data_dir serial_file b.name IsAttribute.vpd_unit_serial)

    from_serial-Preserves :
        (r : Text × Option Err) → r.1 ≡ none → Preserves Prepared Nothing (from_serial r)
    from_serial-Preserves r h =
        Preserves-bind Prepared Nothing Nothing (or_return r.1)
          (λ _. name_serial r.0 >> from_enable) (or_return-Preserves data_dir r.1 h)
          (λ _ _.
            Preserves-bind Prepared Nothing Nothing (name_serial r.0) (λ _. from_enable)
              (name_serial-Preserves r.0) (λ _ _. from_enable-Preserves))

    abbrev control_file : List Text
    control_file = bytes "control" ∷ []

    abbrev cache_file : List Text
    cache_file = bytes "attrib" ∷ bytes "emulate_write_cache" ∷ []

    abbrev name_text : Text
    name_text = bytes "fd_dev_name=" ++ b.file_path

    abbrev size_text : Text
    size_text = bytes "fd_dev_size=" ++ format_uint b.file_size

    abbrev serial : Io World Err (Unit {0})
    serial = read serial_file >>= from_serial

    serial-Preserves : Preserves Prepared Nothing serial
    serial-Preserves =
        Preserves-bind Prepared (λ (r : Text × Option Err). r.1 ≡ none) Nothing (read serial_file)
          from_serial (read_config-Preserves data_dir serial_file IsAttribute.vpd_unit_serial)
          from_serial-Preserves

    -- One attribute, and what follows.
    set-Preserves :
        (names : List Text) (text : Text) (rest : Io World Err (Unit {0}))
        → IsAttribute names
        → Preserves Prepared Nothing rest
        → Preserves Prepared Nothing (set names text >> rest)
    set-Preserves names text rest attribute h =
        Preserves-bind Prepared Nothing Nothing (set names text) (λ _. rest)
          (write_config-Preserves data_dir names text attribute) (λ _ _. h)

    abbrev attributes : Io World Err (Unit {0})
    attributes =
        set control_file name_text
        >> (set control_file size_text >> (set cache_file (bytes "1") >> serial))

    attributes-Preserves : Preserves Prepared Nothing attributes
    attributes-Preserves = set-Preserves control_file name_text _ IsAttribute.control (
        set-Preserves control_file size_text _ IsAttribute.control
          (set-Preserves cache_file (bytes "1") _ IsAttribute.emulate_write_cache serial-Preserves))

    upsert_fileio-ok : (w : World) → (upsert_fileio H b w).0 ≡ ok tt
    unfolding upsert_fileio
    upsert_fileio-ok w =
        let (_, e, _, _) =
          attributes-Preserves (H.mkdir_all data_dir 0o755 w).1
            (works.prepared (backstore_dir_name b.kind b.id) b.name 0o755 w) in
        after_check (H.mkdir_all data_dir 0o755) attributes w (works.made data_dir 0o755 w) e

  pub upsert_backstore-ok :
      (b : Backstore) (w : World) → b.kind ≡ backstore_fileio → (upsert_backstore H b w).0 ≡ ok tt
  unfolding upsert_backstore
  upsert_backstore-ok b w e = ground (
    arith,
    ap (λ k. text_eq k backstore_block) e ∙ fileio-block,
    ap (λ k. text_eq k backstore_fileio) e ∙ fileio-fileio,
    upsert_fileio-ok b w,
  )
