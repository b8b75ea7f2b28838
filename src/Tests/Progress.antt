-- ===== src/Tests/Progress.antt =====
-- A test of CreateVolume on a host that finds no file but the attributes of backstores.
use shortrack.Base.{some, none, List, [], ◌∷◌, Bool, true, false, ◌||◌, if◌then◌else◌}
use shortrack.Base.Int.{pos}
use shortrack.Go.Text.{Text, bytes, text_eq}
use shortrack.Go.Path.{join}
use shortrack.Host.{Host, value, failed}
use shortrack.Tests.Codec.{state}
use shortrack.State.{StatePool, StateVolume}
use shortrack.Pb.{CreateVolumeRequest}
use shortrack.Server.Call.{Store}
use shortrack.Tests.Hosts.{file_info}

-- The attributes of a backstore, by their names in its data directory.
abbrev attributes : List (List Text)
attributes =
    (bytes "control" ∷ [])
    ∷ (bytes "enable" ∷ [])
    ∷ (bytes "attrib" ∷ bytes "emulate_write_cache" ∷ [])
    ∷ (bytes "wwn" ∷ bytes "vpd_unit_serial" ∷ [])
    ∷ []

abbrev is_attribute : Text → Text → List (List Text) → Bool
is_attribute path dir [] = false
is_attribute path dir (names ∷ rest) =
    text_eq (join (dir ∷ names)) path || is_attribute path dir rest

-- The path of an attribute in one of the directories.
abbrev exists : Text → List Text → Bool
exists path [] = false
exists path (dir ∷ rest) = is_attribute path dir attributes || exists path rest

abbrev is_made : Text → List Text → Bool
is_made dir [] = false
is_made dir (made ∷ rest) = text_eq made dir || is_made dir rest

-- A host that knows the directories that were made, and finds the attributes in them and no
-- other file.
abbrev kernel : Host
kernel = record {
  World = List Text;
  Err = Unit {0};
  Fd = Unit {0};
  is_not_exist = λ e. true;
  is_exist = λ e. true;
  read_file = λ path w. (([], none), w);
  read_dir = λ path w. (([], none), w);
  stat = λ path w. (if exists path w then value (file_info []) else failed tt, w);
  lstat = λ path w. (failed tt, w);
  write_file = λ path text mode w. (none, w);
  mkdir_all = λ path mode w. (none, path ∷ w);
  remove = λ path w. (none, w);
  symlink = λ a b w. (some tt, w);
  open_truncated = λ path mode w. (value tt, w);
  create = λ path w. (value tt, w);
  write = λ fd text w. (none, w);
  close = λ fd w. (none, w);
  fallocate = λ fd mode off len w. (none, w);
  marshal_indent = λ st. value (state.put st []);
  unmarshal = λ text st. (st, none);
}

abbrev old : StateVolume
old = record { id = 3; name = bytes "old"; pool_id = 0; size = pos 1 }

abbrev gold : StatePool
gold = record { id = 7; name = bytes "gold"; volumes = (3, old) ∷ [] }

abbrev start : Store kernel.World
start = record { state = record { max_lun_id = 3; pools = (7, gold) ∷ [] }; world = [] }

abbrev disk_request : CreateVolumeRequest
disk_request = record {
  pool_id = 7;
  volume_id = some 5;
  volume_name = some (bytes "disk");
  volume_size = 2;
}
