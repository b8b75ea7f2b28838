-- ===== src/Play/Down.antt =====
-- `PlayDown`. Every error is logged, and the loops go on.
use shortrack.Base.{not, ◌&&◌, Option, none, some, List, [], ◌∷◌}
use shortrack.Go.Text.{Text, bytes, text_eq, has_prefix, has_suffix}
use shortrack.Go.Path.{join}
use shortrack.Host.{Host, DirEntry, FileInfo, Returned, value, failed}
use shortrack.Host.Io.{Io, when, pure, call, for_each, ◌>>=◌, ◌>>◌}

abbrev pub iscsi_dir : Text
iscsi_dir = bytes "/sys/kernel/config/target/iscsi"

abbrev pub core_dir : Text
core_dir = bytes "/sys/kernel/config/target/core"

abbrev pub disk_dir : Text
disk_dir = bytes "/srv"

module _ (H : Host) where
  open H use {World, Err, read_dir, lstat, remove}

  -- `os.Remove` at the end of a round.
  unfoldable pub removed : Text → Io World Err (Unit {0})
  removed path = call (remove path) >>= λ _. pure tt

  unfoldable pub or_continue :
      (List DirEntry → Io World Err (Unit {0}))
      → List DirEntry × Option Err
      → Io World Err (Unit {0})
  or_continue f (entries, none) w = f entries w
  or_continue f (entries, some e) w = pure tt w

  -- `os.ReadDir` and the rest of the round; `if err != nil { …; continue }`.
  unfoldable pub listed : Text → (List DirEntry → Io World Err (Unit {0})) → Io World Err (Unit {0})
  unfolding or_continue
  listed path f = call (read_dir path) >>= or_continue f

  -- `os.ReadDir` whose entries are used whatever its error is.
  unfoldable pub each_entry : Text → (DirEntry → Io World Err (Unit {0})) → Io World Err (Unit {0})
  each_entry path f = call (read_dir path) >>= λ r. for_each f r.0

  unfoldable pub portal_round : Text → DirEntry → Io World Err (Unit {0})
  portal_round tpgt_dir e = when e.is_dir (removed (join (tpgt_dir ∷ bytes "np" ∷ e.name ∷ [])))

  unfoldable pub if_link : Text → Returned Err FileInfo → Io World Err (Unit {0})
  if_link path (value info) w = when info.is_symlink (removed path) w
  if_link path (failed e) w = pure tt w

  unfoldable pub link_round : Text → DirEntry → Io World Err (Unit {0})
  link_round lun_dir e =
      call (lstat (join (lun_dir ∷ e.name ∷ []))) >>= if_link (join (lun_dir ∷ e.name ∷ []))

  unfoldable pub lun_round : Text → DirEntry → Io World Err (Unit {0})
  lun_round tpgt_dir e =
      let lun_dir = join (tpgt_dir ∷ bytes "lun" ∷ e.name ∷ []) in
      when e.is_dir (listed lun_dir λ links. for_each (link_round lun_dir) links >> removed lun_dir)

  unfoldable pub tpgt_round : Text → DirEntry → Io World Err (Unit {0})
  tpgt_round iqn_dir e =
      let tpgt_dir = join (iqn_dir ∷ e.name ∷ []) in
      when (e.is_dir && has_prefix e.name (bytes "tpgt_")) (
        listed (join (tpgt_dir ∷ bytes "np" ∷ [])) λ portals.
          for_each (portal_round tpgt_dir) portals
          >> listed (join (tpgt_dir ∷ bytes "lun" ∷ []))
              (λ luns. for_each (lun_round tpgt_dir) luns >> removed tpgt_dir))

  unfoldable pub iqn_round : DirEntry → Io World Err (Unit {0})
  iqn_round e =
      let iqn_dir = join (iscsi_dir ∷ e.name ∷ []) in
      when (e.is_dir && has_prefix e.name (bytes "iqn."))
        (listed iqn_dir λ tpgts. for_each (tpgt_round iqn_dir) tpgts >> removed iqn_dir)

  unfoldable pub data_round : Text → DirEntry → Io World Err (Unit {0})
  data_round backstore_dir e = when e.is_dir (removed (join (backstore_dir ∷ e.name ∷ [])))

  unfoldable pub backstore_round : DirEntry → Io World Err (Unit {0})
  backstore_round e =
      let backstore_dir = join (core_dir ∷ e.name ∷ []) in
      when (e.is_dir && not (text_eq e.name (bytes "alua"))) (
        listed (join (backstore_dir ∷ []))
          λ entries. for_each (data_round backstore_dir) entries >> removed backstore_dir)

  unfoldable pub disk_round : DirEntry → Io World Err (Unit {0})
  disk_round e =
      when (not e.is_dir && has_suffix e.name (bytes ".img"))
        (removed (join (disk_dir ∷ e.name ∷ [])))

  -- `PlayDown`
  unfoldable pub play_down : Io World Err (Unit {0})
  play_down =
      each_entry iscsi_dir iqn_round
      >> each_entry core_dir backstore_round
      >> each_entry disk_dir disk_round
