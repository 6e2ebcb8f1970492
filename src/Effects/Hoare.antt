-- ===== src/Effects/Hoare.antt =====
-- Reasoning about effectful code: `Triple P m Q E` says that `m`, run where `P` holds, ends with
-- `Q` of its value or, by an exception, with `E`. Nothing is said of a run that hangs.
use zedspaces.Effects.Errors.{Error, Res, ok, err, hung}
use zedspaces.Effects.Api.{Platform}
use zedspaces.Effects.Monad.{World, M, next, ◌>>=◌, caught, catch}

module _ {p : Platform} where
  abbrev pub After :
      {A : Type 0} → (A → World p → Type 0) → (World p → Type 0) → World p × Res A → Type 0
  After Q E (w, ok a) = Q a w
  After Q E (w, err e) = E w
  After Q E (w, hung) = Unit

  abbrev pub Triple :
      {A : Type 0}
      → (World p → Type 0)
      → M p A
      → (A → World p → Type 0)
      → (World p → Type 0)
      → Type 0
  Triple P m Q E = (w : World p) → P w → After Q E (m w)

  module _ {A B : Type 0} (E : World p → Type 0) where
    After-next :
        (Q : A → World p → Type 0) (R : B → World p → Type 0) (x : World p × Res A) (f : A → M p B)
        → After Q E x
        → ((a : A) → Triple (Q a) (f a) R E)
        → After R E (next x f)
    After-next Q R (w, ok a) f h k = k a w h
    After-next Q R (w, err e) f h k = h
    After-next Q R (w, hung) f h k = h

    pub bind_rule :
        (P : World p → Type 0) (Q : A → World p → Type 0) (R : B → World p → Type 0) (m : M p A)
        (f : A → M p B)
        → Triple P m Q E
        → ((a : A) → Triple (Q a) (f a) R E)
        → Triple P (m >>= f) R E
    bind_rule P Q R m f h k w pw = After-next Q R (m w) f (h w pw) k

  module _ {A : Type 0} where
    After-caught :
        (Q : A → World p → Type 0) (E F : World p → Type 0) (x : World p × Res A)
        (h : Error → M p A)
        → After Q F x
        → ((e : Error) → Triple F (h e) Q E)
        → After Q E (caught x h)
    After-caught Q E F (w, ok a) h r k = r
    After-caught Q E F (w, err e) h r k = k e w r
    After-caught Q E F (w, hung) h r k = tt

    pub catch_rule :
        (P : World p → Type 0) (Q : A → World p → Type 0) (E F : World p → Type 0) (m : M p A)
        (h : Error → M p A)
        → Triple P m Q F
        → ((e : Error) → Triple F (h e) Q E)
        → Triple P (catch m h) Q E
    catch_rule P Q E F m h r k w pw = After-caught Q E F (m w) h (r w pw) k

    pub After-weaken :
        (Q R : A → World p → Type 0) (E F : World p → Type 0) (x : World p × Res A)
        → ((a : A) (w : World p) → Q a w → R a w)
        → ((w : World p) → E w → F w)
        → After Q E x
        → After R F x
    After-weaken Q R E F (w, ok a) q e h = q a w h
    After-weaken Q R E F (w, err x) q e h = e w h
    After-weaken Q R E F (w, hung) q e h = tt
