-- ===== src/Lio/Config/Missing.antt =====
-- `SetConfig` of a file that is not there.
use shortrack.Base.{◌≡◌, true, false, some, Option, ap, ◌⊎◌, Bool-cases, inl, inr, arith}
use shortrack.Go.Text.{Text, text_eq, trim_space}
use shortrack.Host.{Host, failed}
use shortrack.Host.Io.{ok, panic}
use shortrack.Lio.Config.{set_config, write_config}

module _ (H : Host) where
  open H use {World, Err, is_not_exist, read_file, stat}

  -- Where the file does not exist for `os.ReadFile` and for `os.Stat`: `SetConfig` panics, unless the
  -- text that it sets is the text that was read, but for white space at the ends; then it does
  -- nothing but read.
  pub set_config-missing :
      (path text found : Text) (w : World) (e e' : Err)
      → (read_file path w).0 ≡ (found, some e)
      → is_not_exist e ≡ true
      → (stat path (read_file path w).1).0 ≡ failed e'
      → is_not_exist e' ≡ true
      → ((text_eq (trim_space found) (trim_space text) ≡ true)
          × (set_config H path text w ≡ (ok tt, (read_file path w).1)))
        ⊎ ((text_eq (trim_space found) (trim_space text) ≡ false)
            × ((set_config H path text w).0 ≡ panic))
  unfolding set_config write_config
  set_config-missing path text found w e e' read gone stated gone' =
      let tested =
        ap (λ (r : Text × Option Err). text_eq (trim_space r.0) (trim_space text)) read in
      elim (Bool-cases (text_eq (trim_space found) (trim_space text))) [
        | inl same ↦ inl (same, ground (arith, tested))
        | inr differs ↦ inr (differs, ground (arith, tested))
      ]
