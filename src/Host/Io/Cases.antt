-- ===== src/Host/Io/Cases.antt =====
-- The ways in which a call can end.
use shortrack.Base.{◌≡◌, ◌⊎◌, inl, inr, refl}
use shortrack.Host.{Returned, value, failed}
use shortrack.Host.Io.{Outcome, ok, err, panic, Error}

pub Outcome-cases :
    {E A : Type 0} (r : Outcome E A)
    → ((a : A) × (r ≡ ok a)) ⊎ (((e : Error E) × (r ≡ err e)) ⊎ (r ≡ panic))
Outcome-cases (ok a) = inl (a, refl)
Outcome-cases (err e) = inr (inl (e, refl))
Outcome-cases panic = inr (inr refl)

pub Returned-cases :
    {E A : Type 0} (r : Returned E A) → ((a : A) × (r ≡ value a)) ⊎ ((e : E) × (r ≡ failed e))
Returned-cases (value a) = inl (a, refl)
Returned-cases (failed e) = inr (e, refl)
