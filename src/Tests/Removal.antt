-- ===== src/Tests/Removal.antt =====
-- Tests of the deletions, on a host that logs the paths that are removed.
use shortrack.Base.{◌≡◌, refl, [], ◌∷◌}
use shortrack.Go.Text.{bytes, text_eq}
use shortrack.State.{Target}
use shortrack.Host.Io.Loops.{All}
use shortrack.Lio.Targets.{delete_target}
use shortrack.Lio.Removal.{IsKept, target_base, delete_target_keeps}
use shortrack.Go.Path.Names.{IsName, IsBelow, is_name-IsName}
use shortrack.Tests.Play.{logged, logged-named}

abbrev gold_target : Target
gold_target = record { id = 7; name = bytes "gold"; iqn = bytes "iqn.2024-01.test:gold" }

logged-IsKept : IsKept logged (All (IsBelow (target_base gold_target))) (target_base gold_target)
logged-IsKept = record {
  reads = λ path w h. h;
  named = λ path w. logged-named;
  looks = λ path w h. h;
  removals = λ path there w h. (there, h);
}

gold-IsName : IsName gold_target.iqn
unfolding text_eq bytes
gold-IsName = is_name-IsName (bytes "iqn.2024-01.test:gold") refl

-- A portal, the group of portals and the target are removed.
three_removed :
    (delete_target logged gold_target []).1
    ≡ bytes "/sys/kernel/config/target/iscsi/iqn.2024-01.test:gold"
      ∷ (bytes "/sys/kernel/config/target/iscsi/iqn.2024-01.test:gold/tpgt_7"
          ∷ (bytes "/sys/kernel/config/target/iscsi/iqn.2024-01.test:gold/tpgt_7/np/iqn.a" ∷ []))
unfolding delete_target bytes shortrack.Lio.Portals.list_portals shortrack.Lio.Portals.delete_portal
    shortrack.Lio.Portals.dir_names shortrack.Lio.Luns.list_luns shortrack.Lio.Luns.delete_lun
    shortrack.Lio.Luns.prefixed_entry shortrack.Host.Io.for_each shortrack.Host.Io.collect
    shortrack.Go.Path.join shortrack.Go.Path.clean shortrack.Go.Path.intercalate
    shortrack.Go.Number.format_uint shortrack.Go.Text.has_prefix shortrack.Go.Text.split
    shortrack.Go.Text.text_eq
three_removed = refl

delete_target_keeps_example :
    All (IsBelow (target_base gold_target)) (delete_target logged gold_target []).1
delete_target_keeps_example =
    delete_target_keeps logged (All (IsBelow (target_base gold_target))) gold_target gold-IsName
      logged-IsKept [] tt
