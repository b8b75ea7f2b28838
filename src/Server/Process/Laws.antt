-- ===== src/Server/Process/Laws.antt =====
-- The life of the process refines the specification.
use shortrack.Base.{◌≡◌, sym, ap, subst, ◌∙◌, Bool-cases, inl, inr, List, [], ◌∷◌, arith}
use shortrack.State.{ServerConfig}
use shortrack.Host.{Host}
use shortrack.Host.Io.Cases.{Outcome-cases}
use shortrack.Server.Call.{Store}
use shortrack.Server.Invariant.{IsWellFormed}
use shortrack.Server.Reconcile.{reconcile_all}
use shortrack.Server.Service.{Request, serve, panics}
use shortrack.Server.Service.Invariance.{serve-IsWellFormed}
use shortrack.Server.Spec.{view, PermitsAll}
use shortrack.Server.Spec.Refines.{serve-Permits}
use shortrack.Server.Process.{Event, request, tick, serving, ended, happens, run}

-- The calls among the events.
abbrev pub requests_of : List Event → List Request
requests_of [] = []
requests_of (request r ∷ es) = r ∷ requests_of es
requests_of (tick ∷ es) = requests_of es

module _ (H : Host) (cfg : ServerConfig) where
  run-ended :
      (es : List Event) (w : H.World) (s : Store H.World) → ¬ (run H cfg es (ended w) ≡ serving s)
  unfolding run
  run-ended [] w s h = ground arith
  run-ended (e ∷ es) w s h = run-ended es w s h

  -- From a well-formed state, if the process is still serving after any calls and any rounds of the
  -- ticker between them: the state is well-formed, and what a client can see has changed by steps
  -- that the specification permits for the calls; the ticker changes nothing of it.
  pub run-PermitsAll :
      (es : List Event) (s t : Store H.World)
      → IsWellFormed s.state
      → run H cfg es (serving s) ≡ serving t
      → IsWellFormed t.state × PermitsAll (view s.state) (requests_of es) (view t.state)
  unfolding run happens
  run-PermitsAll [] s t wf h =
      let same : s ≡ t = ground arith in
      subst (λ u. IsWellFormed u.state × PermitsAll (view s.state) [] (view u.state)) same
        (wf, PermitsAll.done _)
  run-PermitsAll (request r ∷ es) s t wf h = elim (Bool-cases (panics H cfg r s)) [
    | inl crash ↦
        let eq : happens H cfg (request r) s ≡ ended (serve H cfg r s).world = ground arith in
        absurd (run-ended es _ t (ap (run H cfg es) (sym eq) ∙ h))
    | inr fine ↦
        let eq : happens H cfg (request r) s ≡ serving (serve H cfg r s) = ground arith in
        let (sound, steps) =
          run-PermitsAll es (serve H cfg r s) t (serve-IsWellFormed H cfg r s wf)
            (ap (run H cfg es) (sym eq) ∙ h) in
        (sound, PermitsAll.then r _ (serve-Permits H cfg r s wf) steps)
  ]
  run-PermitsAll (tick ∷ es) s t wf h =
      let w = (reconcile_all H cfg s.state s.world).1 in
      elim (Outcome-cases (reconcile_all H cfg s.state s.world).0) [
        | inl (a, e) ↦
            let eq : happens H cfg tick s ≡ serving (record s { world = w }) = ground arith in
            run-PermitsAll es (record s { world = w }) t wf (ap (run H cfg es) (sym eq) ∙ h)
        | inr (inl (e', e)) ↦
            let eq : happens H cfg tick s ≡ serving (record s { world = w }) = ground arith in
            run-PermitsAll es (record s { world = w }) t wf (ap (run H cfg es) (sym eq) ∙ h)
        | inr (inr e) ↦
            let eq : happens H cfg tick s ≡ ended w = ground arith in
            absurd (run-ended es w t (ap (run H cfg es) (sym eq) ∙ h))
      ]
