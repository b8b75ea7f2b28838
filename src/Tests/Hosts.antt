-- ===== src/Tests/Hosts.antt =====
-- Concrete hosts for the tests: the file system holds one file, whatever the path, and no directory
-- has an entry.
use shortrack.Base.{ℕ, suc, ◌≡◌, refl, ap, sym, ◌∙◌, none, [], ◌∷◌, ◌++◌, true, false}
use shortrack.Base.Int.{pos}
use shortrack.Go.Text.{Text, bytes}
use shortrack.State.{ServerConfig, SigmaState}
use shortrack.Host.{Host, FileInfo, Returned, value, failed}
use shortrack.Lio.Disk.Growth.{zeros, Truncates}
use shortrack.Server.Invariant.{initial_state}
use shortrack.Server.Persist.RoundTrip.{IsDurable}
use shortrack.Server.Order.{SameState-refl}
use shortrack.Tests.Codec.{state, state-back}
use shortrack.Server.Persist.{state_path}

abbrev size : Text → ℕ
size [] = 0
size (c ∷ s) = suc (size s)

abbrev pub file_info : Text → FileInfo
file_info s = record { size = pos (size s); mode = 0o644; is_symlink = false }

abbrev pub one_file : Host
one_file = record {
  World = Text;
  Err = Unit {0};
  Fd = Unit {0};
  is_not_exist = λ e. true;
  is_exist = λ e. true;
  read_file = λ path w. ((w, none), w);
  read_dir = λ path w. (([], none), w);
  stat = λ path w. (value (file_info w), w);
  lstat = λ path w. (value (file_info w), w);
  write_file = λ path text mode w. (none, w);
  mkdir_all = λ path mode w. (none, w);
  remove = λ path w. (none, w);
  symlink = λ a b w. (none, w);
  open_truncated = λ path mode w. (value tt, []);
  create = λ path w. (value tt, []);
  write = λ fd text w. (none, w ++ text);
  close = λ fd w. (none, w);
  fallocate = λ fd mode off len w. (none, w ++ zeros 3);
  marshal_indent = λ st. value (state.put st []);
  unmarshal = λ text st. ((state.get text).0, none);
}

-- The same host with an encoder that takes every state.
abbrev pub writing : Host
writing = record one_file { marshal_indent = λ st. value [] }

-- A host on which every directory holds a target of the number 7.
abbrev pub listing : Host
listing = record writing {
  read_dir = λ path w. (
    (
      record { name = bytes "iqn.2024-01.test:gold"; is_dir = true }
          ∷ record { name = bytes "tpgt_7"; is_dir = true }
          ∷ [],
      none,
    ),
    w,
  );
}

abbrev pub config : ServerConfig
config = record {
  base_iqn = bytes "iqn.2024-01.test";
  volumes_dir = bytes "/v";
  portal = bytes "10.0.0.1:3260";
}

abbrev text_or : Returned (Unit {0}) Text → Text
text_or (value text) = text
text_or (failed e) = []

pub state-decoded :
    (st : SigmaState) (text : Text)
    → one_file.marshal_indent st ≡ value text
    → one_file.unmarshal (text ++ (10 ∷ [])) initial_state ≡ (st, none)
state-decoded st text e =
    let same : state.put st [] ≡ text = ap (λ (r : Returned (Unit {0}) Text). text_or r) e in
    ap (λ (x : SigmaState). (x, none))
      (ap (λ (s : Text). (state.get (s ++ (10 ∷ []))).0) (sym same) ∙ state-back st (10 ∷ []))

-- Every state is encoded, and decoded again.
abbrev pub one_file-IsDurable : IsDurable one_file (state_path config)
one_file-IsDurable = record {
  utf8 = λ name. true;
  read_back = λ w fd text opened written. refl;
  decoded = λ st text named e. (st, state-decoded st text e, SameState-refl st);
}

pub one_file-Truncates : (path : Text) → Truncates one_file path (λ w. w)
one_file-Truncates path = record {
  created = λ fd w e. refl;
  allocated = λ fd a b w. (3, refl);
  closed = λ fd w. refl;
}
