-- ===== src/Server/Persist/RoundTrip.antt =====
-- What `SaveState` writes, `LoadState` reads back.
use shortrack.Base.{Bool, true, sym, subst, ◌≡◌, none, [], ◌∷◌, ◌++◌, arith, inl, inr, Option-cases}
use shortrack.Go.Text.{Text}
use shortrack.Base.Map.{values}
use shortrack.State.{ServerConfig, SigmaState, StatePool, StateVolume}
use shortrack.Host.{Host, value}
use shortrack.Host.Io.{ok}
use shortrack.Host.Io.Loops.{All}
use shortrack.Server.Order.{SameState}
use shortrack.Host.Io.Cases.{Returned-cases}
use shortrack.Server.Call.{Store}
use shortrack.Server.Invariant.{initial_state}
use shortrack.Server.Persist.{load_state, save_state, state_path}

-- The names of the pools and volumes pass the test.
abbrev pub HasText : (Text → Bool) → SigmaState → Type 0
HasText utf8 st =
    All
      (λ (p : StatePool).
        (utf8 p.name ≡ true) × All (λ (v : StateVolume). utf8 v.name ≡ true) (values p.volumes))
      (values st.pools)

module _ (H : Host) where
  open H use {World, Err, Fd, read_file, open_truncated, write, close, marshal_indent, unmarshal}

  -- What persistence relies on: a file that is truncated, written without error and closed reads
  -- back what was written; and `encoding/json`, from the zero state, undoes its encoding,
  -- with a newline after it, of a state whose names are valid UTF-8 (`utf8.ValidString`), up to the
  -- order of the maps.
  pub record IsDurable (path : Text) : Type 0 where
    pub utf8 : Text → Bool
    pub read_back :
        (w : World) (fd : Fd) (text : Text)
        → (open_truncated path 0o644 w).0 ≡ value fd
        → let v = (open_truncated path 0o644 w).1 in
          (write fd text v).0 ≡ none
          → (read_file path (close fd (write fd text v).1).1).0 ≡ (text, none)
    pub decoded :
        (st : SigmaState) (text : Text)
        → HasText utf8 st
        → marshal_indent st ≡ value text
        → (t : SigmaState) × (unmarshal (text ++ (10 ∷ [])) initial_state ≡ (t, none))
          × SameState st t

  module _ (cfg : ServerConfig) where
    -- The world in which the state file has been opened.
    abbrev opened : World → World
    opened w = (open_truncated (state_path cfg) 0o644 w).1

    abbrev saved : Fd → Text → World → World
    saved fd text w = (close fd (write fd (text ++ (10 ∷ [])) (opened w)).1).1

    save_state-marshalled :
        (st : SigmaState) (w : World) (fd : Fd) (text : Text)
        → (open_truncated (state_path cfg) 0o644 w).0 ≡ value fd
        → marshal_indent st ≡ value text
        → (save_state H cfg st w).0 ≡ ok tt
        → ((write fd (text ++ (10 ∷ [])) (opened w)).0 ≡ none)
          × ((save_state H cfg st w).1 ≡ saved fd text w)
    unfolding save_state
    save_state-marshalled st w fd text fine marshalled h =
        elim (Option-cases ((write fd (text ++ (10 ∷ [])) (opened w)).0)) [
          | inl written ↦ (written, ground arith)
          | inr (e, bad) ↦ ground arith
        ]

    save_state-ok :
        (st : SigmaState) (w : World)
        → (save_state H cfg st w).0 ≡ ok tt
        → (fd : Fd) × (text : Text) × ((open_truncated (state_path cfg) 0o644 w).0 ≡ value fd)
          × (marshal_indent st ≡ value text)
    unfolding save_state
    save_state-ok st w h = elim (Returned-cases ((open_truncated (state_path cfg) 0o644 w).0)) [
      | inr (e, failed_open) ↦ ground arith
      | inl (fd, fine) ↦ elim (Returned-cases (marshal_indent st)) [
        | inr (e, failed_marshal) ↦ ground arith
        | inl (text, marshalled) ↦ (fd, text, fine, marshalled)
      ]
    ]

    load_state-read :
        (s : Store World) (text : Text) (st : SigmaState)
        → (read_file (state_path cfg) s.world).0 ≡ (text, none)
        → unmarshal text s.state ≡ (st, none)
        → ((load_state H cfg s).0 ≡ ok tt) × ((load_state H cfg s).1.state ≡ st)
    unfolding load_state
    load_state-read s text st read decoded = ground arith

    -- Where `SaveState` returns no error, a server that starts afterwards loads the state that was
    -- saved, without error, up to the order of the maps: on a host whose state file is durable,
    -- the state's names being valid UTF-8.
    pub load_state-save_state :
        (durable : IsDurable (state_path cfg)) (st : SigmaState) (w : World)
        → HasText durable.utf8 st
        → (save_state H cfg st w).0 ≡ ok tt
        → let restart : Store World = record {
          state = initial_state;
          world = (save_state H cfg st w).1;
        } in
          ((load_state H cfg restart).0 ≡ ok tt) × SameState st (load_state H cfg restart).1.state
    load_state-save_state durable st w named h =
        let (fd, text, fine, marshalled) = save_state-ok st w h in
        let (written, after) = save_state-marshalled st w fd text fine marshalled h in
        let (t, back, same) = durable.decoded st text named marshalled in
        let restart : Store World = record { state = initial_state; world = saved fd text w } in
        let (loaded, left) =
          load_state-read restart (text ++ (10 ∷ [])) t
            (durable.read_back w fd (text ++ (10 ∷ [])) fine written) back in
        rw after (loaded, subst (SameState st) (sym left) same)
