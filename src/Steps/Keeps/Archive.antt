-- ===== src/Steps/Keeps/Archive.antt =====
-- The steps of Steps/Archive: they read a sandbox and write a blob.
use zedspaces.Base.{Text, List}
use zedspaces.Schema.{Workspace}
use zedspaces.Effects.{Platform, Removal}
use zedspaces.Effects.Keeps.{
  Keeps, Keeps-bind, Keeps-then, Keeps-pure, Keeps-throw, Keeps-some_or, Keeps-call, Keeps-now,
  Keeps-when,
}
use zedspaces.Steps.Archive.{step_start_archive, step_finish_archive}
use zedspaces.Steps.Keeps.Boot.{Keeps-get, Keeps-or_fail}

module _ {p : Platform} {id : Text} {φ : Workspace → Type 0} {ρ : List Removal → Type 0} where
  pub Keeps-start_archive : (name : Text) → Keeps id φ ρ (step_start_archive {p = p} name)
  unfolding step_start_archive
  Keeps-start_archive name = Keeps-bind (Keeps-or_fail (Keeps-get name _)) λ found.
      Keeps-bind (Keeps-some_or found _) λ h.
        Keeps-bind (Keeps-call _)
          λ installed. Keeps-then (Keeps-when _ (Keeps-throw _)) (Keeps-call _)

  pub Keeps-finish_archive : (name j : Text) → Keeps id φ ρ (step_finish_archive {p = p} name j)
  unfolding step_finish_archive
  Keeps-finish_archive name j = Keeps-bind (Keeps-or_fail (Keeps-get name _)) λ found.
      Keeps-bind (Keeps-some_or found _) λ h. Keeps-bind (Keeps-call _) λ digest.
        Keeps-bind (Keeps-call _) λ file. Keeps-bind (Keeps-some_or file _) λ stream.
          Keeps-bind Keeps-now λ t. Keeps-bind (Keeps-call _) (λ stored. Keeps-pure stored.0)
