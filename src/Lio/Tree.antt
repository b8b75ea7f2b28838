-- ===== src/Lio/Tree.antt =====
-- The directories of the kernel's configuration as names from the root.
use shortrack.Base.{◌≡◌, refl, List, [], ◌∷◌, ◌++◌}
use shortrack.Go.Text.{Text, bytes, text_eq}
use shortrack.Go.Path.{intercalate}
use shortrack.Go.Path.Names.{AreNames, AreNames-append, rooted, is_name-IsName}
use shortrack.Lio.Backstores.{core_dir}
use shortrack.Lio.Portals.{iscsi_dir}

abbrev pub config_names : List Text
config_names = bytes "kernel" ∷ (bytes "config" ∷ (bytes "target" ∷ []))

abbrev pub sys : Text
sys = bytes "sys"

config-AreNames : AreNames (sys ∷ config_names)
unfolding text_eq bytes
config-AreNames = (
  is_name-IsName (bytes "sys") refl,
  (
    is_name-IsName (bytes "kernel") refl,
    (is_name-IsName (bytes "config") refl, (is_name-IsName (bytes "target") refl, tt)),
  ),
)

pub iscsi-AreNames : AreNames (sys ∷ (config_names ++ (bytes "iscsi" ∷ [])))
unfolding text_eq bytes
iscsi-AreNames =
    AreNames-append (sys ∷ config_names) (bytes "iscsi" ∷ []) config-AreNames
      (is_name-IsName (bytes "iscsi") refl, tt)

pub core-AreNames : AreNames (sys ∷ (config_names ++ (bytes "core" ∷ [])))
unfolding text_eq bytes
core-AreNames =
    AreNames-append (sys ∷ config_names) (bytes "core" ∷ []) config-AreNames
      (is_name-IsName (bytes "core") refl, tt)

pub iscsi_dir-rooted : iscsi_dir ≡ rooted (sys ∷ (config_names ++ (bytes "iscsi" ∷ [])))
unfolding intercalate bytes
iscsi_dir-rooted = refl

pub core_dir-rooted : core_dir ≡ rooted (sys ∷ (config_names ++ (bytes "core" ∷ [])))
unfolding intercalate bytes
core_dir-rooted = refl
