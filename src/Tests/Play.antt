-- ===== src/Tests/Play.antt =====
-- Tests of `play-up` and `play-down`.
use shortrack.Base.{◌≡◌, refl, true, false, none, List, [], ◌∷◌}
use shortrack.Base.Int.{pos}
use shortrack.Go.Text.{text_eq, Text, bytes}
use shortrack.Go.Path.Names.{is_name-IsName}
use shortrack.Host.{Host, value, failed}
use shortrack.Host.Io.{ok}
use shortrack.Host.Io.Loops.{All}
use shortrack.Play.Up.{play_up}
use shortrack.Play.Down.{play_down}
use shortrack.Play.Bounds.{NamedEntry, IsPlayed, IsKept, play_down_keeps}

-- A host whose world is the list of the removed paths. Every directory has a target and a disk.
abbrev pub logged : Host
logged = record {
  World = List Text;
  Err = Unit {0};
  Fd = Unit {0};
  is_not_exist = λ e. true;
  is_exist = λ e. true;
  read_file = λ path w. (([], none), w);
  read_dir = λ path w. (
    (
      record { name = bytes "iqn.a"; is_dir = true }
          ∷ record { name = bytes "b.img"; is_dir = false }
          ∷ [],
      none,
    ),
    w,
  );
  stat = λ path w. (value (record { size = pos 0; mode = 0o644; is_symlink = false }), w);
  lstat = λ path w. (value (record { size = pos 0; mode = 0o644; is_symlink = true }), w);
  write_file = λ path text mode w. (none, w);
  mkdir_all = λ path mode w. (none, w);
  remove = λ path w. (none, path ∷ w);
  symlink = λ a b w. (none, w);
  open_truncated = λ path mode w. (value tt, w);
  create = λ path w. (value tt, w);
  write = λ fd text w. (none, w);
  close = λ fd w. (none, w);
  fallocate = λ fd mode off len w. (none, w);
  marshal_indent = λ st. failed tt;
  unmarshal = λ text st. (st, none);
}

-- Both entries have proper names.
pub logged-named : All NamedEntry (logged.read_dir [] []).0.0
unfolding text_eq bytes
logged-named = (is_name-IsName (bytes "iqn.a") refl, (is_name-IsName (bytes "b.img") refl, tt))

logged-IsKept : IsKept logged (All IsPlayed)
logged-IsKept = record {
  reads = λ path w h. h;
  named = λ path w. logged-named;
  looks = λ path w h. h;
  removals = λ path played w h. (played, h);
}

play_down_keeps_example : ((play_down logged []).0 ≡ ok tt) × All IsPlayed (play_down logged []).1
play_down_keeps_example = play_down_keeps logged (All IsPlayed) logged-IsKept [] tt

set_up : (play_up logged (λ fd n w. (none, w)) []).0 ≡ ok tt
unfolding play_up shortrack.Play.write_config
set_up = refl
