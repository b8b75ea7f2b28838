-- ===== src/Tests/Disk.antt =====
-- Tests of the disk files and of the configuration tree.
use shortrack.Base.{ℕ, ◌≡◌, ◌≢◌, refl, ◌⊎◌, false, true, none, some, [], ◌∷◌, arith}
use shortrack.Base.Int.{pos, ◌≤ℤ◌, leb_ℤ}
use shortrack.Go.Text.{Text, bytes, text_eq, trim_space}
use shortrack.Host.Io.{ok, panic}
use shortrack.Host.{Host, failed}
use shortrack.Host.Io.Loops.{All, Returns}
use shortrack.Lio.Disk.{touch_disk_file, existing_size}
use shortrack.Lio.Disk.Growth.{touch_disk_file_size, touch_disk_file-zeros, zeros}
use shortrack.Go.Text.Split.{Lacks}
use shortrack.Lio.Backstores.{backstore_fileio, backstore_dir_name, backstore_entry}
use shortrack.Lio.Backstores.Listed.{backstore_entry-backstore_dir_name}
use shortrack.Lio.Targets.{list_targets}
use shortrack.Lio.Targets.Listed.{list_targets-IsListed, IsListed}
use shortrack.Tests.Hosts.{one_file, one_file-Truncates, listing}
use shortrack.Lio.Config.{set_config}
use shortrack.Lio.Config.Missing.{set_config-missing}

abbrev content : Text
content = bytes "data"

grown_to_nine : (touch_disk_file one_file [] (pos 9) content).0 ≡ ok (pos 9)
unfolding touch_disk_file bytes
grown_to_nine = refl

touch_disk_file_size_example :
    (pos 9 ≤ℤ pos 9) × (existing_size one_file (one_file.stat [] content).0 ≤ℤ pos 9)
touch_disk_file_size_example =
    touch_disk_file_size one_file [] (pos 9) (pos 9) content grown_to_nine

four_small : leb_ℤ (pos 9) (existing_size one_file (one_file.stat [] content).0) ≡ false
unfolding bytes
four_small = refl

touch_disk_file-zeros_example :
    (n : ℕ) × ((touch_disk_file one_file [] (pos 9) content).1 ≡ zeros n)
touch_disk_file-zeros_example =
    touch_disk_file-zeros one_file [] (λ w. w) (one_file-Truncates []) (pos 9) content tt four_small
      refl

list_targets-IsListed_example :
    Returns
      (All (IsListed (bytes "iqn.2024-01.test")))
      (list_targets listing (bytes "iqn.2024-01.test") []).0
list_targets-IsListed_example = list_targets-IsListed listing (bytes "iqn.2024-01.test") []

-- A host without any file.
abbrev no_files : Host
no_files = record one_file {
  read_file = λ path w. (([], some tt), w);
  stat = λ path w. (failed tt, w);
}

set_config-missing_example :
    ((text_eq (trim_space []) (trim_space (bytes "1")) ≡ true)
      × (set_config no_files [] (bytes "1") [] ≡ (ok tt, [])))
    ⊎ ((text_eq (trim_space []) (trim_space (bytes "1")) ≡ false)
        × ((set_config no_files [] (bytes "1") []).0 ≡ panic))
set_config-missing_example =
    set_config-missing no_files [] (bytes "1") [] [] tt tt refl refl refl refl

-- A host whose directories all hold a file, the directory "data" and another file.
abbrev with_data : Host
with_data = record one_file {
  read_dir = λ path w. (
    (
      record { name = bytes "hba_info"; is_dir = false }
          ∷ (record { name = bytes "data"; is_dir = true }
              ∷ (record { name = bytes "hba_mode"; is_dir = false } ∷ [])),
      none,
    ),
    w,
  );
}

data_named : bytes "data" ≢ []
unfolding bytes
data_named e = ground arith

fileio_plain : Lacks b'_' backstore_fileio
unfolding bytes
fileio_plain = (refl, (refl, (refl, (refl, (refl, (refl, tt))))))

backstore_entry-backstore_dir_name_example :
    backstore_entry with_data
      (record { name = backstore_dir_name backstore_fileio 7; is_dir = true })
      []
    ≡ (
      ok (
          some (record {
            kind = backstore_fileio;
            id = 7;
            name = bytes "data";
            file_path = [];
            file_size = 0;
          })),
      [],
    )
backstore_entry-backstore_dir_name_example =
    backstore_entry-backstore_dir_name with_data backstore_fileio (bytes "data") 7
      (record { name = bytes "hba_info"; is_dir = false } ∷ [])
      (record { name = bytes "hba_mode"; is_dir = false } ∷ []) [] [] fileio_plain (omega arith)
      data_named (refl, tt) refl
