-- ===== src/Provisioner/Claimed.antt =====
-- A claim that names its pool.
use shortrack.Base.{ℕ, ◌≡◌, ◌≢◌, refl, ap, ◌∙◌, true, false, Bool-cases, inl, inr, [], ◌∷◌, arith}
use shortrack.Go.Text.{Text, text_eq, text_eq_iff}
use shortrack.Go.Number.{parsed, parse_uint, format_uint}
use shortrack.Go.Number.Laws.{parse_uint_small, parse_uint-format_uint, format_uint-ne-nil}
use shortrack.Host.Io.{ok}
use shortrack.Pb.Client.{SigmaClient}
use shortrack.Provisioner.{
  Kube, Annotations, annotation, annotate, annotation_pool_id, StorageClassParameters,
}
use shortrack.Provisioner.Pool.{annotated}
use shortrack.Provisioner.Provision.{Class, choose_pool, annotate_class}

text_eq_self : (s : Text) → text_eq s s ≡ true
text_eq_self s = (text_eq_iff s s).1 refl

annotation-annotate : (key x : Text) (m : Annotations) → annotation key (annotate key x m) ≡ x
unfolding annotation annotate
annotation-annotate key x [] = ground (arith, text_eq_self key)
annotation-annotate key x ((at, old) ∷ rest) = elim (Bool-cases (text_eq at key)) [
  | inl same ↦ ground (arith, text_eq_self key)
  | inr other ↦ ground (arith, annotation-annotate key x rest)
]

annotation-annotate_other :
    (key other x : Text) (m : Annotations)
    → text_eq key other ≡ false
    → annotation other (annotate key x m) ≡ annotation other m
unfolding annotation annotate
annotation-annotate_other key other x [] differs = ground arith
annotation-annotate_other key other x ((at, old) ∷ rest) differs =
    elim (Bool-cases (text_eq at key)) [
      | inl same ↦
          let here : text_eq at other ≡ false =
            ap (λ k. text_eq k other) ((text_eq_iff at key).0 same) ∙ differs in
          ground arith
      | inr not_same ↦ ground (arith, annotation-annotate_other key other x rest differs)
    ]

nil_eq : text_eq [] [] ≡ true
unfolding text_eq
nil_eq = refl

format_uint-given : (n : ℕ) → text_eq (format_uint n) [] ≡ false
format_uint-given n = elim (Bool-cases (text_eq (format_uint n) [])) [
  | inl empty ↦ absurd (format_uint-ne-nil n ((text_eq_iff (format_uint n) []).0 empty))
  | inr given ↦ given
]

-- A class that is `class` but for its annotation of a pool.
pub record IsMoved (K : Kube) (class changed : Class K) (n : ℕ) : Type 0 where
  pub same : changed ≡ record class { annotations = changed.annotations }
  pub moved : annotation annotation_pool_id changed.annotations ≡ format_uint n
  pub others :
      (key : Text)
      → text_eq annotation_pool_id key ≡ false
      → annotation key changed.annotations ≡ annotation key class.annotations

module _ (K : Kube) where
  open K use {World, Err}

  by_claim :
      (client : SigmaClient World Err) (scp : StorageClassParameters) (claim class : Annotations)
      (n : ℕ) (w : World)
      → parse_uint 32 (annotation annotation_pool_id claim) ≡ parsed n
      → n ≢ 0
      → choose_pool client scp claim class w ≡ (ok (n, []), w)
  unfolding choose_pool annotated text_eq parse_uint
  by_claim client scp claim class n w read nz =
      elim (Bool-cases (text_eq (annotation annotation_pool_id claim) [])) [
        | inl empty ↦ ground (arith, text_eq_iff (annotation annotation_pool_id claim) [])
        | inr given ↦ ground arith
      ]

  by_class :
      (client : SigmaClient World Err) (scp : StorageClassParameters) (later class : Annotations)
      (n : ℕ) (v : World)
      → annotation annotation_pool_id later ≡ []
      → annotation annotation_pool_id class ≡ format_uint n
      → parse_uint 32 (format_uint n) ≡ parsed n
      → n ≢ 0
      → choose_pool client scp later class v ≡ (ok (n, format_uint n), v)
  unfolding choose_pool annotated
  by_class client scp later class n v none_given held read nz =
      ground (arith, nil_eq, format_uint-given n)

  annotate_class-updated :
      (class : Class K) (n : ℕ) (w : World)
      → (annotate_class K class n [] w).1
        ≡ (K.update_class
            (record class {
              annotations = annotate annotation_pool_id (format_uint n) class.annotations;
            })
            w).1
  unfolding annotate_class text_eq
  annotate_class-updated class n w = ground arith

  -- Where the claim's annotation is a `uint32` number other than 0, whatever the class's annotation
  -- is: `Provision` takes that pool and asks no server, and then updates the class by one that
  -- differs from it in the annotation of the pool alone, which is the claim's number. A later
  -- claim without an annotation gets that pool by the annotation of the updated class, and no
  -- server is asked.
  pub annotate_class-choose_pool :
      (client : SigmaClient World Err) (scp : StorageClassParameters) (claim later : Annotations)
      (class : Class K) (n : ℕ) (w v : World)
      → parse_uint 32 (annotation annotation_pool_id claim) ≡ parsed n
      → n ≢ 0
      → annotation annotation_pool_id later ≡ []
      → (choose_pool client scp claim class.annotations w ≡ (ok (n, []), w))
        × ((changed : Class K) × IsMoved K class changed n
            × ((annotate_class K class n [] w).1 ≡ (K.update_class changed w).1)
            × (choose_pool client scp later changed.annotations v ≡ (ok (n, format_uint n), v)))
  annotate_class-choose_pool client scp claim later class n w v read nz none_given =
      let key = annotation_pool_id in
      let moved = annotation-annotate key (format_uint n) class.annotations in
      let fits = parse_uint_small 32 (annotation key claim) n read in
      let changed : Class K = record class {
        annotations = annotate key (format_uint n) class.annotations;
      } in
      (
        by_claim client scp claim class.annotations n w read nz,
        (
          changed,
          record {
            same = refl;
            moved = moved;
            others = λ other differs.
                annotation-annotate_other key other (format_uint n) class.annotations differs;
          },
          annotate_class-updated class n w,
          by_class client scp later changed.annotations n v none_given moved
              (parse_uint-format_uint 32 n fits) nz,
        ),
      )
