-- ===== src/Server/Call/Laws.antt =====
-- How a handler's steps compose.
use shortrack.Base.{◌≡◌, ◌⊎◌, inl, inr, refl, arith}
use shortrack.Server.Call.{Call, Store, Step, next, stop, Reply, handle, ◌>>=◌}

pub Step-cases :
    {E R A : Type 0} (r : Step E R A) → ((a : A) × (r ≡ next a)) ⊎ ((x : Reply E R) × (r ≡ stop x))
Step-cases (next a) = inl (a, refl)
Step-cases (stop x) = inr (x, refl)

module _ {W E R A : Type 0} (m : Call W E R A) (k : A → Call W E R R) (s : Store W) where
  pub handle-next : (a : A) → (m s).0 ≡ next a → handle (m >>= k) s ≡ handle (k a) (m s).1
  handle-next a e = ground arith

  pub handle-stop : (x : Reply E R) → (m s).0 ≡ stop x → handle (m >>= k) s ≡ (x, (m s).1)
  handle-stop x e = ground arith

module _ {W E R : Type 0} (m : Call W E R R) (s : Store W) where
  pub handle-state : (handle m s).1 ≡ (m s).1
  handle-state = ground arith

pub handle-cong :
    {W E R : Type 0} (m k : Call W E R R) (s t : Store W) → m s ≡ k t → handle m s ≡ handle k t
handle-cong m k s t e = ground arith
