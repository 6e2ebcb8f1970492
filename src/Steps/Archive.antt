-- ===== src/Steps/Archive.antt =====
-- apps/web/workflows/steps/sandbox-steps.ts: archiving a generation for a rebuild.
use zedspaces.Base.{
  ◌*◌, ℕ, zero, suc, ◌&&◌, ◌||◌, Text, lit, ◌++◌, Option, none, some, true, [], ◌∷◌, leb, ltb, ◌==◌,
  trim_start, if◌then◌else◌,
}
use zedspaces.Archive.{blob_pathname_for}
use zedspaces.Effects.{
  command, Platform, M, ◌>>=◌, ◌>>◌, pure, throw, when, call, now, some_or, fatal,
}
use zedspaces.Steps.Supervisor.{or_fail, get_handle}

-- `/^([0-9a-f]{64})/` on the trimmed output of `sha256sum`.
hex_prefix : ℕ → Text → Option Text
hex_prefix zero s = some []
hex_prefix (suc n) [] = none
hex_prefix (suc n) (c ∷ s) =
    let rest = hex_prefix n s in
    if (leb 48 c && leb c 57) || (leb 97 c && leb c 102)
    then elim rest [ none ↦ none | some t ↦ some (c ∷ t) ]
    else none

abbrev archive_tmp : Text
archive_tmp = lit "/tmp/zs-rebuild.tgz"

abbrev kernels : Text
kernels = lit "vercel/.local/share/jupyter/kernels"

module _ {p : Platform} where
  unfoldable pub step_start_archive : Text → M p Text
  step_start_archive name = do
    found ← or_fail (get_handle name true)
    h ← some_or found (fatal (lit "sandbox_missing:" ++ name))
    installed ← call (p.run h (command (lit "test") (lit "-d" ∷ (lit "/" ++ kernels) ∷ [])))
    when (ltb 1 installed.exit_code) (throw (fatal (lit "kernelspec_archive_check_failed")))
    call (
        p.run_detached h (
          command (lit "tar") (
            lit "czf"
            ∷ archive_tmp
            ∷ lit "-C"
            ∷ lit "/"
            ∷ lit "workspaces"
            ∷ lit "vercel/.local/share/zed"
            ∷ (if installed.exit_code == 0 then kernels ∷ [] else []))))

  unfoldable pub step_finish_archive : Text → Text → M p Text
  unfolding hex_prefix
  step_finish_archive name id = do
    found ← or_fail (get_handle name true)
    h ← some_or found (fatal (lit "sandbox_missing:" ++ name))
    digest ← call (
        p.run h
          (record (command (lit "sha256sum") (archive_tmp ∷ [])) { timeout_ms = some (5 * 60000) }))
    let sha256 = if digest.exit_code == 0 then hex_prefix 64 (trim_start digest.stdout) else none
    file ← call (p.read_file h archive_tmp)
    stream ← some_or file (fatal (lit "archive_missing"))
    t ← now
    stored ← call (p.put_blob (blob_pathname_for id t sha256) stream)
    pure stored.0
