-- ===== src/Tests/Codec.antt =====
-- A codec for the state, for the tests: numbers one after the other, a list behind its length.
use shortrack.Base.{ℕ, zero, suc, ◌≡◌, refl, ap, ◌∙◌, List, [], ◌∷◌, ◌++◌}
use shortrack.Base.Int.{ℤ, pos, negsuc}
use shortrack.Go.Text.{Text}
use shortrack.State.{StateVolume, StatePool, SigmaState}

-- What is put in front of a text is got back from it, with the text that is left.
pub record Codec (A : Type 0) : Type 0 where
  pub put : A → Text → Text
  pub get : Text → A × Text
  pub back : (a : A) (rest : Text) → get (put a rest) ≡ (a, rest)
  pub moved : (a : A) (rest u : Text) → put a rest ++ u ≡ put a (rest ++ u)

abbrev get_number : Text → ℕ × Text
get_number [] = (0, [])
get_number (c ∷ s) = (c, s)

abbrev number : Codec ℕ
number = record {
  put = λ n rest. n ∷ rest;
  get = get_number;
  back = λ n rest. refl;
  moved = λ n rest u. refl;
}

module _ {A B : Type 0} where
  abbrev get_pair : Codec A → Codec B → Text → (A × B) × Text
  get_pair a b s = let (x, t) = a.get s in let (y, u) = b.get t in ((x, y), u)

  pub get_pair-back :
      (a : Codec A) (b : Codec B) (x : A) (y : B) (rest : Text)
      → get_pair a b (a.put x (b.put y rest)) ≡ ((x, y), rest)
  get_pair-back a b x y rest = rw (a.back x (b.put y rest), b.back y rest) refl

  abbrev pair : Codec A → Codec B → Codec (A × B)
  pair a b = record {
    put = λ x rest. a.put x.0 (b.put x.1 rest);
    get = get_pair a b;
    back = λ x rest. get_pair-back a b x.0 x.1 rest;
    moved = λ x rest u. a.moved x.0 (b.put x.1 rest) u ∙ ap (a.put x.0) (b.moved x.1 rest u);
  }

  -- A type whose values are made of those of another.
  abbrev via : Codec A → (parts : B → A) (whole : A → B) → ((y : B) → whole (parts y) ≡ y) → Codec B
  via a parts whole same = record {
    put = λ y rest. a.put (parts y) rest;
    get = λ s. let (x, t) = a.get s in (whole x, t);
    back = λ y rest.
        ap (λ (r : A × Text). (whole r.0, r.1)) (a.back (parts y) rest)
        ∙ ap (λ (z : B). (z, rest)) (same y);
    moved = λ y rest u. a.moved (parts y) rest u;
  }

module _ {A : Type 0} (a : Codec A) where
  abbrev count : List A → ℕ
  count [] = 0
  count (x ∷ xs) = suc (count xs)

  abbrev put_all : List A → Text → Text
  put_all [] rest = rest
  put_all (x ∷ xs) rest = a.put x (put_all xs rest)

  abbrev get_all : ℕ → Text → List A × Text
  get_all zero s = ([], s)
  get_all (suc n) s = let (x, t) = a.get s in let (xs, u) = get_all n t in (x ∷ xs, u)

  pub get_all-put_all :
      (xs : List A) (rest : Text) → get_all (count xs) (put_all xs rest) ≡ (xs, rest)
  get_all-put_all [] rest = refl
  get_all-put_all (x ∷ xs) rest = rw (a.back x (put_all xs rest), get_all-put_all xs rest) refl

  pub put_all-moved : (xs : List A) (rest u : Text) → put_all xs rest ++ u ≡ put_all xs (rest ++ u)
  put_all-moved [] rest u = refl
  put_all-moved (x ∷ xs) rest u =
      a.moved x (put_all xs rest) u ∙ ap (a.put x) (put_all-moved xs rest u)

  abbrev get_list : Text → List A × Text
  get_list s = let (n, t) = get_number s in get_all n t

  abbrev list : Codec (List A)
  list = record {
    put = λ xs rest. count xs ∷ put_all xs rest;
    get = get_list;
    back = get_all-put_all;
    moved = λ xs rest u. ap (λ (t : Text). count xs ∷ t) (put_all-moved xs rest u);
  }

abbrev sign_of : ℤ → ℕ × ℕ
sign_of (pos n) = (0, n)
sign_of (negsuc n) = (1, n)

abbrev signed : ℕ × ℕ → ℤ
signed (zero, n) = pos n
signed (suc k, n) = negsuc n

pub signed-sign_of : (z : ℤ) → signed (sign_of z) ≡ z
signed-sign_of (pos n) = refl
signed-sign_of (negsuc n) = refl

abbrev integer : Codec ℤ
integer = via (pair number number) sign_of signed signed-sign_of

abbrev volume : Codec StateVolume
volume =
    via (pair number (pair (list number) (pair number integer)))
      (λ (v : StateVolume). (v.id, (v.name, (v.pool_id, v.size))))
      (λ x. record { id = x.0; name = x.1.0; pool_id = x.1.1.0; size = x.1.1.1 }) (λ v. refl)

abbrev pool : Codec StatePool
pool =
    via (pair number (pair (list number) (list (pair number volume))))
      (λ (p : StatePool). (p.id, (p.name, p.volumes)))
      (λ x. record { id = x.0; name = x.1.0; volumes = x.1.1 }) (λ p. refl)

abbrev pub state : Codec SigmaState
state =
    via (pair number (list (pair number pool))) (λ (st : SigmaState). (st.max_lun_id, st.pools))
      (λ x. record { max_lun_id = x.0; pools = x.1 }) (λ st. refl)

-- What follows a state does not matter.
pub state-back : (st : SigmaState) (u : Text) → (state.get (state.put st [] ++ u)).0 ≡ st
state-back st u =
    ap (λ (s : Text). (state.get s).0) (state.moved st [] u)
    ∙ ap (λ (r : SigmaState × Text). r.0) (state.back st u)
