-- ===== src/Examples/Documents.antt =====
-- Writes of a settings document on the demo platform.
use zedspaces.Base.{Bool, true, Text, lit, some, ◌≡◌, refl, text_eq, trim_end, trim_start}
use zedspaces.Schema.{settings, keymap}
use zedspaces.Effects.{World, ok, err, api_error}
use zedspaces.Documents.{DocView, read_doc, write_doc, find_doc, kind_eq, byte_length, view_of}
use zedspaces.Jsonc.{is_jsonc}
use zedspaces.Documents.Versions.{read_doc-write_doc, write_doc-Stale, current}
use zedspaces.Examples.Demo.{demo, demo_workspace, world_of}

-- Every text parses.
abbrev lenient : Text → Bool
lenient s = true

abbrev before : World demo
before = world_of demo_workspace

read_doc-write_doc_example :
    (w' : World demo) × (v : DocView) × (write_doc lenient
        (lit "u")
        settings
        (lit "{}")
        (some 0)
        before
      ≡ (w', ok v))
    × (read_doc lenient (lit "u") settings w' ≡ (w', ok v))
    × (v.content ≡ lit "{}")
    × (find_doc (lit "u") keymap w'.db.settings_docs
        ≡ find_doc (lit "u") keymap before.db.settings_docs)
unfolding byte_length is_jsonc find_doc kind_eq text_eq lit trim_end trim_start view_of
read_doc-write_doc_example =
    read_doc-write_doc lenient (lit "u") settings (lit "{}") (some 0) before (lit "u") keymap
      (refl, refl) refl refl

write_doc-Stale_example :
    (w' : World demo) × (v : DocView) × (write_doc lenient
        (lit "u")
        settings
        (lit "{}")
        (some (current lenient (lit "u") settings before).version)
        before
      ≡ (w', ok v))
    × (write_doc lenient
          (lit "u")
          settings
          (lit "[]")
          (some (current lenient (lit "u") settings before).version)
          w'
        ≡ (w', err (api_error 409 (lit "version_conflict"))))
unfolding byte_length is_jsonc lit text_eq trim_end trim_start
write_doc-Stale_example =
    write_doc-Stale lenient (lit "u") settings (lit "{}") (lit "[]") before (refl, refl)
      (refl, refl)
